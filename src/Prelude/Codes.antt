-- ===== src/Prelude/Codes.antt =====
-- A text as the list of its code points, and a few functions of Go's `strings` on it.

use Prim.Native.Char.{code}
use agent_lb_proxy.Prelude.{
  ℕ, Bool, true, false, ◌&&◌, String, Option, none, some, List, [], ◌∷◌, ◌==◌, if◌then◌else◌,
}
use agent_lb_proxy.Prelude.Text.{is_space, is_slash}

abbrev pub Text : Type 0
Text = List ℕ

abbrev pub codes : String → Text
codes String.[] = []
codes (String.◌∷◌ c s) = code c ∷ codes s

unfoldable pub text_equal : Text → Text → Bool
text_equal [] [] = true
text_equal (c ∷ s) (d ∷ t) = c == d && text_equal s t
text_equal _ _ = false

-- `strings.CutPrefix`: what follows the prefix.
unfoldable pub cut_prefix : Text → Text → Option Text
cut_prefix [] s = some s
cut_prefix (c ∷ p) [] = none
cut_prefix (c ∷ p) (d ∷ s) = let rest = cut_prefix p s in if c == d then rest else none

abbrev pub is_some {ℓ} : {A : Type ℓ} → Option A → Bool
is_some none = false
is_some (some a) = true

abbrev pub has_prefix : Text → Text → Bool
has_prefix s p = is_some (cut_prefix p s)

-- `strings.Contains`
unfoldable pub contains_sub : Text → Text → Bool
contains_sub [] p = has_prefix [] p
contains_sub (c ∷ s) p = let rest = contains_sub s p in if has_prefix (c ∷ s) p then true else rest

-- `strings.TrimPrefix`
abbrev pub trim_prefix : Text → Text → Text
trim_prefix s p = elim (cut_prefix p s) [ none ↦ s | some rest ↦ rest ]

-- `strings.TrimSuffix(s, "/")`
unfoldable pub trim_slash : Text → Text
trim_slash [] = []
trim_slash (c ∷ []) = if is_slash c then [] else c ∷ []
trim_slash (c ∷ d ∷ s) = c ∷ trim_slash (d ∷ s)

unfoldable pub trim_left_text : Text → Text
trim_left_text [] = []
trim_left_text (c ∷ s) = let rest = trim_left_text s in if is_space c then rest else c ∷ s

unfoldable pub trim_right_text : Text → Text
trim_right_text [] = []
trim_right_text (c ∷ s) =
    let rest = trim_right_text s in if text_equal rest [] && is_space c then [] else c ∷ rest
