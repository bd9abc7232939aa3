-- ===== src/Prelude/Float.antt =====
-- Go's `float64`: the type and its operations are a parameter, since the language has no floats
-- here. The laws are true of IEEE 754 numbers, infinities and NaN included.
use agent_lb_proxy.Prelude.{
  ℕ, ◌^◌, ◌≤◌, ◌<◌, ◌≡◌, sym, ◌∙◌, inl, inr, Bool, true, false, Bool-cases,
}
use mathlib.Core.Bool.{true≢false}
use agent_lb_proxy.Prelude.Int.{ℤ, pos}

pub record Float64 (W : Type 0) : Type 0 where
  -- `float64(n)`, and a constant without a fraction
  pub of_int : ℤ → W
  pub lt : W → W → Bool
  pub le : W → W → Bool
  pub eq : W → W → Bool
  pub add : W → W → W
  pub sub : W → W → W
  pub mul : W → W → W
  pub div : W → W → W
  -- `math.Max`, `math.Min`, `math.Round`
  pub fmax : W → W → W
  pub fmin : W → W → W
  pub round : W → W

module _ {W : Type 0} ⦃f : Float64 W⦄ where
  abbrev pub of_int : ℤ → W
  of_int = f.of_int

  abbrev pub lt : W → W → Bool
  lt = f.lt

  abbrev pub le : W → W → Bool
  le = f.le

  abbrev pub eq : W → W → Bool
  eq = f.eq

  abbrev pub add : W → W → W
  add = f.add

  abbrev pub sub : W → W → W
  sub = f.sub

  abbrev pub mul : W → W → W
  mul = f.mul

  abbrev pub div : W → W → W
  div = f.div

  abbrev pub fmax : W → W → W
  fmax = f.fmax

  abbrev pub fmin : W → W → W
  fmin = f.fmin

  abbrev pub round : W → W
  round = f.round

-- `<` of IEEE 754 is irreflexive and transitive (a NaN is below nothing and above nothing).
pub record IsOrdered (W : Type 0) ⦃f : Float64 W⦄ : Type 0 where
  pub lt_irrefl : (x : W) → f.lt x x ≡ false
  pub lt_trans : (x y z : W) → f.lt x y ≡ true → f.lt y z ≡ true → f.lt x z ≡ true
  -- `float64` is exact up to 2^53.
  pub of_int-lt : (a b : ℕ) → a < b → b ≤ 2 ^ 53 → f.lt (f.of_int (pos a)) (f.of_int (pos b)) ≡ true

module _ {W : Type 0} ⦃f : Float64 W⦄ (o : IsOrdered W) where
  pub lt_asymm : (x y : W) → lt x y ≡ true → lt y x ≡ false
  lt_asymm x y h = elim (Bool-cases (lt y x)) [
    | inl back ↦ absurd (true≢false (sym (o.lt_trans x y x h back) ∙ o.lt_irrefl x))
    | inr done ↦ done
  ]
