-- ===== src/Prelude/Text.antt =====
-- The functions of Go's `strings` that the source uses on names, reasons and URLs.
use Prim.Native.String.{[], ◌∷◌}
use Prim.Native.Char.{code}
use agent_lb_proxy.Prelude.{
  ℕ, ◌≡◌, refl, Bool, ◌&&◌, ◌||◌, leb, ◌==◌, String, str_eq, if◌then◌else◌,
}

-- Unicode's White_Space, by code point.
unfoldable pub is_space : ℕ → Bool
is_space c =
    (leb 9 c && leb c 13)
    || c == 32
    || c == 0x85
    || c == 0xa0
    || c == 0x1680
    || (leb 0x2000 c && leb c 0x200a)
    || c == 0x2028
    || c == 0x2029
    || c == 0x202f
    || c == 0x205f
    || c == 0x3000

abbrev pub is_slash : ℕ → Bool
is_slash c = c == b'/'

unfoldable pub trim_left : (ℕ → Bool) → String → String
trim_left p [] = ""
trim_left p (c ∷ s) = let rest = trim_left p s in if p (code c) then rest else c ∷ s

unfoldable pub trim_right : (ℕ → Bool) → String → String
trim_right p [] = ""
trim_right p (c ∷ s) =
    let rest = trim_right p s in if str_eq rest "" && p (code c) then "" else c ∷ rest

-- `strings.TrimSpace`
unfoldable pub trim_space : String → String
unfolding trim_left trim_right is_space
trim_space s = trim_right is_space (trim_left is_space s)

trim_space_test : trim_space "  a b " ≡ "a b"
unfolding trim_space
trim_space_test = refl
