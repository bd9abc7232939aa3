-- ===== src/ImportAlias/Unique.antt =====
-- An alias with a suffix is an alias of an import, and the suffix can be read off it.
use agent_lb_proxy.Prelude.{
  ℕ, suc, ◌-◌, ◌≤◌, ◌<◌, ◌≡◌, refl, sym, ap, ◌∙◌, subst, Bool, true, false, ◌||◌, [], ◌∷◌, ◌++◌,
  ltb, ◌==◌, if◌then◌else◌, length, length-append, arith,
}
use agent_lb_proxy.Prelude.Codes.{Text, text_equal}
use agent_lb_proxy.ImportAlias.{
  is_lower, is_digit, is_separator, all_of, validate_alias, trim_right_of, first_codes, cut_base,
  itoa, is_alias_first,
}
use agent_lb_proxy.ImportAlias.Valid.{
  kept, IsImportAlias, all_of-append, kept-IsImportAlias, all_of-trim_right, length-trim_right,
  all_of-first_codes, length-first_codes,
}
use agent_lb_proxy.ImportAlias.Suffix.{is_suffix_char}

-- A suffix of at most 57 lower-case letters and digits, and not empty.
pub record IsSuffix (s : Text) : Type 0 where
  pub chars : all_of is_suffix_char s ≡ true
  pub short : length s ≤ 57
  pub nonempty : text_equal s [] ≡ false

all_of-weaken :
    (p q : ℕ → Bool) (s : Text)
    → ((c : ℕ) → p c ≡ true → q c ≡ true)
    → all_of p s ≡ true
    → all_of q s ≡ true
all_of-weaken p q [] h g = refl
all_of-weaken p q (c ∷ s) h g = ground (arith, h c, all_of-weaken p q s h)

pub kept-suffix : (s : Text) → all_of is_suffix_char s ≡ true → all_of kept s ≡ true
kept-suffix s h = all_of-weaken is_suffix_char kept s (λ c e. ground arith) h

first-kept : (c : ℕ) → is_alias_first c ≡ true → kept c ≡ true → (is_lower c || is_digit c) ≡ true
unfolding is_alias_first is_lower is_digit is_separator
first-kept c h g = ground arith

trim_right_of-first :
    (c : ℕ) (s : Text)
    → (is_lower c || is_digit c) ≡ true
    → trim_right_of is_separator (c ∷ s) ≡ c ∷ trim_right_of is_separator s
unfolding trim_right_of is_separator is_lower is_digit
trim_right_of-first c s h = ground arith

-- What is left of a base after its first character, which stays.
abbrev cut_tail : Text → ℕ → Text
cut_tail s m = if ltb m (length s) then trim_right_of is_separator (first_codes m s) else s

cut_base-first :
    (c : ℕ) (s : Text) (m : ℕ)
    → (is_lower c || is_digit c) ≡ true
    → cut_base (c ∷ s) (suc m) ≡ c ∷ cut_tail s m
unfolding cut_base first_codes text_equal
cut_base-first c s m h = grind (arith, trim_right_of-first c (first_codes m s) h)

kept-cut_tail : (s : Text) (m : ℕ) → all_of kept s ≡ true → all_of kept (cut_tail s m) ≡ true
kept-cut_tail s m h =
    ground (arith, all_of-trim_right kept is_separator _ (all_of-first_codes kept m s h))

length-cut_tail : (s : Text) (m : ℕ) → length (cut_tail s m) ≤ m
length-cut_tail s m =
    ground (arith, length-trim_right is_separator (first_codes m s), length-first_codes m s)

-- An alias with a suffix.
abbrev pub joined : Text → Text → Text
joined base suffix = cut_base base (63 - length suffix) ++ b'-' ∷ suffix

kept-dashed : (t : Text) → all_of is_suffix_char t ≡ true → all_of kept (b'-' ∷ t) ≡ true
unfolding is_lower is_digit is_separator
kept-dashed t e = kept-suffix t e

joined_first-IsImportAlias :
    (c : ℕ) (s suffix : Text)
    → (is_lower c || is_digit c) ≡ true
    → all_of kept s ≡ true
    → IsSuffix suffix
    → IsImportAlias (joined (c ∷ s) suffix)
joined_first-IsImportAlias c s suffix h g v =
    let m : ℕ = 62 - length suffix in
    let tail =
      all_of-append kept (cut_tail s m) (b'-' ∷ suffix) (kept-cut_tail s m g)
        (kept-dashed suffix v.chars) in
    subst IsImportAlias (sym (shape (omega (arith, v.short)))) (
      kept-IsImportAlias c (cut_tail s m ++ b'-' ∷ suffix) h tail
        (omega (arith, length-cut_tail s m, length-append (cut_tail s m) (b'-' ∷ suffix), v.short)))
  where
    shape :
        length suffix ≤ 62
        → joined (c ∷ s) suffix ≡ c ∷ (cut_tail s (62 - length suffix) ++ b'-' ∷ suffix)
    shape e =
        ap (λ n. cut_base (c ∷ s) n ++ b'-' ∷ suffix) (omega arith)
        ∙ ap (λ t. t ++ b'-' ∷ suffix) (cut_base-first c s (62 - length suffix) h)

-- A base that is an alias of an import is one with any suffix.
pub joined-IsImportAlias :
    (base suffix : Text) → IsImportAlias base → IsSuffix suffix → IsImportAlias (joined base suffix)
unfolding validate_alias
joined-IsImportAlias [] suffix b v = absurd (ground (arith, b.valid))
joined-IsImportAlias (c ∷ s) suffix b v =
    let first = first-kept c (ground (arith, b.valid)) (ground (arith, b.kept_only)) in
    joined_first-IsImportAlias c s suffix first (ground (arith, b.kept_only)) v

-- What follows the last dash.
unfoldable after_dash : Text → Text → Text
after_dash best [] = best
after_dash best (c ∷ s) = if c == b'-' then after_dash s s else after_dash best s

after_dash-suffix : (best s : Text) → all_of is_suffix_char s ≡ true → after_dash best s ≡ best
unfolding after_dash is_lower is_digit
after_dash-suffix best [] h = refl
after_dash-suffix best (c ∷ s) h = ground (arith, after_dash-suffix best s)

after_dash-joined :
    (best t suffix : Text) → IsSuffix suffix → after_dash best (t ++ b'-' ∷ suffix) ≡ suffix
unfolding after_dash
after_dash-joined best [] suffix v = after_dash-suffix suffix suffix v.chars
after_dash-joined best (c ∷ t) suffix v =
    ground
      (arith, after_dash-joined best t suffix v, after_dash-joined (t ++ b'-' ∷ suffix) t suffix v)

-- One base with two suffixes gives two aliases.
pub joined-injective :
    (base x y : Text) → IsSuffix x → IsSuffix y → joined base x ≡ joined base y → x ≡ y
joined-injective base x y v w e =
    sym (after_dash-joined [] _ x v) ∙ ap (after_dash []) e ∙ after_dash-joined [] _ y w

pub itoa-IsSuffix : (n : ℕ) → n < 1000 → IsSuffix (itoa n)
unfolding itoa is_lower is_digit text_equal
itoa-IsSuffix n h = record { chars = ground arith; short = ground arith; nonempty = ground arith }

pub itoa-injective : (n m : ℕ) → n < 1000 → m < 1000 → itoa n ≡ itoa m → n ≡ m
unfolding itoa
itoa-injective n m h g e = ground arith
