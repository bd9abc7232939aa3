-- ===== src/ImportAlias/Valid.antt =====
-- What the sanitizer returns is an alias that ValidateAlias accepts.
use agent_lb_proxy.Prelude.{
  ℕ, zero, suc, ◌≤◌, ◌≡◌, ◌≢◌, refl, Bool, true, false, ◌||◌, [], ◌∷◌, ◌++◌, ltb, length, arith,
  Bool-cases, inl, inr,
}
use agent_lb_proxy.Prelude.Codes.{Text}
use agent_lb_proxy.ImportAlias.{
  is_lower, is_digit, is_separator, is_alias_first, is_alias_char, all_of, validate_alias,
  trim_left_of, trim_right_of, first_codes, Builder, write, write_all, alias_or_empty, shorten,
  sanitize_import_alias_candidate,
}

-- A character that an import may keep.
abbrev pub kept : ℕ → Bool
kept c = is_lower c || is_digit c || is_separator c

-- An alias of an import: ValidateAlias accepts it, it has 64 characters at most, of `[a-z0-9._-]`, and
-- the first is a letter or a digit.
pub record IsImportAlias (a : Text) : Type 0 where
  pub valid : validate_alias a ≡ true
  pub kept_only : all_of kept a ≡ true
  pub short : length a ≤ 64

pub all_of-append :
    (p : ℕ → Bool) (s t : Text) → all_of p s ≡ true → all_of p t ≡ true → all_of p (s ++ t) ≡ true
all_of-append p [] t h g = g
all_of-append p (c ∷ s) t h g = ground (arith, all_of-append p s t)

all_of-trim_left :
    (p q : ℕ → Bool) (s : Text) → all_of p s ≡ true → all_of p (trim_left_of q s) ≡ true
unfolding trim_left_of
all_of-trim_left p q [] h = refl
all_of-trim_left p q (c ∷ s) h = ground (arith, all_of-trim_left p q s)

pub all_of-trim_right :
    (p q : ℕ → Bool) (s : Text) → all_of p s ≡ true → all_of p (trim_right_of q s) ≡ true
unfolding trim_right_of
all_of-trim_right p q [] h = refl
all_of-trim_right p q (c ∷ s) h = ground (arith, all_of-trim_right p q s)

pub length-trim_right : (q : ℕ → Bool) (s : Text) → length (trim_right_of q s) ≤ length s
unfolding trim_right_of
length-trim_right q [] = omega arith
length-trim_right q (c ∷ s) = ground (arith, length-trim_right q s)

pub all_of-first_codes :
    (p : ℕ → Bool) (n : ℕ) (s : Text) → all_of p s ≡ true → all_of p (first_codes n s) ≡ true
unfolding first_codes
all_of-first_codes p zero s h = refl
all_of-first_codes p (suc n) [] h = refl
all_of-first_codes p (suc n) (c ∷ s) h = ground (arith, all_of-first_codes p n s)

pub length-first_codes : (n : ℕ) (s : Text) → length (first_codes n s) ≤ n
unfolding first_codes
length-first_codes zero s = omega arith
length-first_codes (suc n) [] = omega arith
length-first_codes (suc n) (c ∷ s) = omega (arith, length-first_codes n s)

kept-write : (b : Builder) (c : ℕ) → all_of kept b.text ≡ true → all_of kept (write b c).text ≡ true
unfolding write
kept-write b c h = ground (
  arith,
  all_of-append kept b.text (c ∷ []) h,
  all_of-append kept b.text (b'-' ∷ []) h (unfold is_lower is_digit is_separator in refl),
)

kept-write_all :
    (s : Text) (b : Builder) → all_of kept b.text ≡ true → all_of kept (write_all b s).text ≡ true
unfolding write_all
kept-write_all [] b h = h
kept-write_all (c ∷ s) b h = kept-write_all s (write b c) (kept-write b c h)

kept-shorten : (s : Text) → all_of kept s ≡ true → all_of kept (shorten s) ≡ true
unfolding shorten
kept-shorten s h =
    let left = all_of-trim_left kept is_separator s h in
    let out = all_of-trim_right kept is_separator _ left in
    elim (Bool-cases (ltb 64 (length (trim_right_of is_separator (trim_left_of is_separator s))))) [
      | inl e ↦ rw e (all_of-trim_right kept is_separator _ (all_of-first_codes kept 64 _ out))
      | inr e ↦ rw e out
    ]

length-shorten : (s : Text) → length (shorten s) ≤ 64
unfolding shorten
length-shorten s =
    let out = trim_right_of is_separator (trim_left_of is_separator s) in
    elim (Bool-cases (ltb 64 (length out))) [
      | inl e ↦ rw e (
          omega
            (arith, length-trim_right is_separator (first_codes 64 out), length-first_codes 64 out))
      | inr e ↦ rw e (ground arith)
    ]

is_alias_char-kept : (s : Text) → all_of kept s ≡ true → all_of is_alias_char s ≡ true
unfolding is_alias_char is_alias_first
is_alias_char-kept [] h = refl
is_alias_char-kept (c ∷ s) h = ground (arith, is_alias_char-kept s)

-- A text of kept characters that begins well and is short enough.
pub kept-IsImportAlias :
    (c : ℕ) (s : Text)
    → (is_lower c || is_digit c) ≡ true
    → all_of kept s ≡ true
    → length s ≤ 63
    → IsImportAlias (c ∷ s)
unfolding validate_alias is_alias_first
kept-IsImportAlias c s first h short = record {
  valid = ground (arith, is_alias_char-kept s h);
  kept_only = ground arith;
  short = omega arith;
}

alias_or_empty-IsImportAlias :
    (s : Text)
    → all_of kept s ≡ true
    → length s ≤ 64
    → alias_or_empty s ≢ []
    → IsImportAlias (alias_or_empty s)
unfolding alias_or_empty
alias_or_empty-IsImportAlias [] h short ne = absurd (ne refl)
alias_or_empty-IsImportAlias (c ∷ s) h short ne = elim (Bool-cases (is_lower c || is_digit c)) [
  | inl e ↦ rw e (kept-IsImportAlias c s e (ground arith) (omega arith))
  | inr e ↦ absurd (ne (rw e refl))
]

-- What sanitizeImportAliasCandidate returns, unless it is empty, is an alias that ValidateAlias accepts:
-- at most 64 characters of `[a-z0-9._-]`, the first a letter or a digit.
pub sanitize-IsImportAlias :
    (wide : ℕ → ℕ) (raw : Text)
    → sanitize_import_alias_candidate wide raw ≢ []
    → IsImportAlias (sanitize_import_alias_candidate wide raw)
unfolding sanitize_import_alias_candidate
sanitize-IsImportAlias wide raw ne =
    let built = kept-write_all _ (record { text = []; last_separator = false }) refl in
    alias_or_empty-IsImportAlias _ (kept-shorten _ built) (length-shorten _) ne
