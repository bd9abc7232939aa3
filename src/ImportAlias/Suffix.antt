-- ===== src/ImportAlias/Suffix.antt =====
-- The sanitizer leaves a suffix of lower-case letters and digits as it is, and an alias with such a
-- suffix is an alias of an import.
use mathlib.Core.List.{append_assoc, append-nil}
use agent_lb_proxy.Prelude.{
  ℕ, ◌≤◌, ◌≡◌, refl, sym, ap, ◌∙◌, Bool, true, false, ◌||◌, [], ◌∷◌, ◌++◌, length, arith,
}
use agent_lb_proxy.Prelude.Text.{is_space}
use agent_lb_proxy.Prelude.Codes.{Text, trim_left_text, trim_right_text}
use agent_lb_proxy.Request.{to_lower, lower}
use agent_lb_proxy.ImportAlias.{
  is_lower, is_digit, is_separator, all_of, trim_left_of, trim_right_of, Builder, write, write_all,
  alias_or_empty, shorten, sanitize_import_alias_candidate,
}

abbrev pub is_suffix_char : ℕ → Bool
is_suffix_char c = is_lower c || is_digit c

to_lower-suffix : (wide : ℕ → ℕ) (s : Text) → all_of is_suffix_char s ≡ true → to_lower wide s ≡ s
unfolding to_lower lower is_lower is_digit
to_lower-suffix wide [] h = refl
to_lower-suffix wide (c ∷ s) h = grind (arith, to_lower-suffix wide s)

trim_left_text-suffix : (s : Text) → all_of is_suffix_char s ≡ true → trim_left_text s ≡ s
unfolding trim_left_text is_space is_lower is_digit
trim_left_text-suffix [] h = refl
trim_left_text-suffix (c ∷ s) h = ground arith

is_space-suffix : (c : ℕ) → is_suffix_char c ≡ true → is_space c ≡ false
unfolding is_space is_lower is_digit
is_space-suffix c h = ground arith

trim_right_text-suffix : (s : Text) → all_of is_suffix_char s ≡ true → trim_right_text s ≡ s
unfolding trim_right_text
trim_right_text-suffix [] h = refl
trim_right_text-suffix (c ∷ s) h = grind (arith, trim_right_text-suffix s, is_space-suffix c)

trim_left_of-suffix : (s : Text) → all_of is_suffix_char s ≡ true → trim_left_of is_separator s ≡ s
unfolding trim_left_of is_separator is_lower is_digit
trim_left_of-suffix [] h = refl
trim_left_of-suffix (c ∷ s) h = ground arith

trim_right_of-suffix :
    (s : Text) → all_of is_suffix_char s ≡ true → trim_right_of is_separator s ≡ s
unfolding trim_right_of is_separator is_lower is_digit
trim_right_of-suffix [] h = refl
trim_right_of-suffix (c ∷ s) h = grind (arith, trim_right_of-suffix s)

write-suffix :
    (b : Builder) (c : ℕ)
    → is_suffix_char c ≡ true
    → write b c ≡ record { text = b.text ++ c ∷ []; last_separator = false }
unfolding write
write-suffix b c h = ground arith

write_all-suffix :
    (s : Text) (b : Builder) → all_of is_suffix_char s ≡ true → (write_all b s).text ≡ b.text ++ s
unfolding write_all
write_all-suffix [] b h = sym (append-nil b.text)
write_all-suffix (c ∷ s) b h =
    ap (λ x. (write_all x s).text) (write-suffix b c (ground arith))
    ∙ write_all-suffix s _ (ground arith)
    ∙ append_assoc b.text (c ∷ []) s

shorten-suffix : (s : Text) → all_of is_suffix_char s ≡ true → length s ≤ 64 → shorten s ≡ s
unfolding shorten
shorten-suffix s h short = rw (trim_left_of-suffix s h, trim_right_of-suffix s h) (ground arith)

alias_or_empty-suffix : (s : Text) → all_of is_suffix_char s ≡ true → alias_or_empty s ≡ s
unfolding alias_or_empty
alias_or_empty-suffix [] h = refl
alias_or_empty-suffix (c ∷ s) h = ground arith

-- A suffix of at most 64 lower-case letters and digits is its own sanitized form.
pub sanitize-suffix :
    (wide : ℕ → ℕ) (s : Text)
    → all_of is_suffix_char s ≡ true
    → length s ≤ 64
    → sanitize_import_alias_candidate wide s ≡ s
unfolding sanitize_import_alias_candidate
sanitize-suffix wide s h short =
    rw
      (
        to_lower-suffix wide s h,
        trim_left_text-suffix s h,
        trim_right_text-suffix s h,
        write_all-suffix s (record { text = []; last_separator = false }) h,
        shorten-suffix s h short,
      )
      (alias_or_empty-suffix s h)
