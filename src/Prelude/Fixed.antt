-- ===== src/Prelude/Fixed.antt =====
-- A number type that meets the laws asked of `float64`: ten-thousandths, for the tests.
use agent_lb_proxy.Prelude.{ℕ, ◌+◌, arith, if◌then◌else◌}
use agent_lb_proxy.Prelude.Int.{ℤ, pos, negsuc, ◌+ℤ◌, ◌-ℤ◌, ◌*ℤ◌, ltb_ℤ, leb_ℤ, eqb_ℤ, trunc_div}
use agent_lb_proxy.Prelude.Float.{Float64, IsOrdered}

abbrev scale : ℕ
scale = 10000

-- The quotient, rounded towards 0; the sign of the divisor goes to the dividend.
abbrev div_fixed : ℤ → ℤ → ℤ
div_fixed a (pos d) = trunc_div (a *ℤ pos scale) d
div_fixed a (negsuc d) = trunc_div ((pos 0 -ℤ a) *ℤ pos scale) (d + 1)

instance unfoldable pub fixed : Float64 ℤ
unfolding ◌+ℤ◌ ◌-ℤ◌ ◌*ℤ◌
fixed = record {
  of_int = λ n. n *ℤ pos scale;
  lt = ltb_ℤ;
  le = leb_ℤ;
  eq = eqb_ℤ;
  add = ◌+ℤ◌;
  sub = ◌-ℤ◌;
  mul = λ a b. trunc_div (a *ℤ b) scale;
  div = div_fixed;
  fmax = λ a b. if ltb_ℤ a b then b else a;
  fmin = λ a b. if ltb_ℤ b a then b else a;
  round = λ a. trunc_div a scale *ℤ pos scale;
}

pub fixed-IsOrdered : IsOrdered ℤ
unfolding fixed
fixed-IsOrdered = record {
  lt_irrefl = λ x. ground arith;
  lt_trans = λ x y z h k. ground arith;
  of_int-lt = λ a b h k. ground arith;
}
