-- ===== src/Shell/Quoting.antt =====
-- A shell reads a word that `shellQuote` printed as that word.
use mathlib.Core.List.{append_assoc, append-nil}
use agent_lb_proxy.Prelude.{
  ℕ, ◌≡◌, refl, sym, ap, ◌∙◌, true, false, some, List, [], ◌∷◌, ◌++◌, ◌==◌, if◌then◌else◌, arith,
  Bool-cases, inl, inr,
}
use agent_lb_proxy.Prelude.Codes.{Text, text_equal}
use agent_lb_proxy.Shell.{
  quote, is_safe, is_safe_shell_word, replace_all, quoted_quote, shell_quote,
}
use agent_lb_proxy.Shell.Reader.{
  Reader, between, word, single, plain, kind, is_special, step, read_on,
}

kind-is_safe : (c : ℕ) → is_safe c ≡ true → kind c ≡ plain
unfolding is_safe kind is_special
kind-is_safe c h = ground arith

step-plain :
    (ds : List Text) (w : Text) (c : ℕ)
    → kind c ≡ plain
    → step (word ds w) c ≡ some (word ds (w ++ c ∷ []))
unfolding step
step-plain ds w c h = rw (h, step)

pub read_on-step :
    (r r' : Reader) (c : ℕ) (s : Text) → step r c ≡ some r' → read_on r (c ∷ s) ≡ read_on r' s
unfolding read_on
read_on-step r r' c s h = rw (h, read_on)

read_on-plain :
    (ds : List Text) (w : Text) (c : ℕ) (s : Text)
    → kind c ≡ plain
    → read_on (word ds w) (c ∷ s) ≡ read_on (word ds (w ++ c ∷ [])) s
read_on-plain ds w c s h = read_on-step _ _ c s (step-plain ds w c h)

pub read_on-safe :
    (ds : List Text) (w v s : Text)
    → is_safe_shell_word v ≡ true
    → read_on (word ds w) (v ++ s) ≡ read_on (word ds (w ++ v)) s
unfolding is_safe_shell_word
read_on-safe ds w [] s h = rw (append-nil w)
read_on-safe ds w (c ∷ v) s h =
    read_on-plain ds w c (v ++ s) (kind-is_safe c (ground arith))
    ∙ read_on-safe ds (w ++ c ∷ []) v s (ground arith)
    ∙ rw (append_assoc w (c ∷ []) v)

step-single :
    (ds : List Text) (w : Text) (c : ℕ)
    → (c == quote) ≡ false
    → step (single ds w) c ≡ some (single ds (w ++ c ∷ []))
unfolding step
step-single ds w c h = rw h

close_quote :
    (ds : List Text) (w s : Text) → read_on (single ds w) (quote ∷ s) ≡ read_on (word ds w) s
unfolding read_on step
close_quote ds w s = refl

-- `'"'"'` inside quotes is read as one quote.
read_on-quoted_quote :
    (ds : List Text) (w s : Text)
    → read_on (single ds w) (quoted_quote ++ s) ≡ read_on (single ds (w ++ quote ∷ [])) s
unfolding read_on step kind
read_on-quoted_quote ds w s = refl

-- One code point of a text between quotes.
read_on-replaced :
    (ds : List Text) (w : Text) (c : ℕ) (s : Text)
    → read_on (single ds w) ((if c == quote then quoted_quote else c ∷ []) ++ s)
      ≡ read_on (single ds (w ++ c ∷ [])) s
read_on-replaced ds w c s = elim (Bool-cases (c == quote)) [
  | inl e ↦ rw (e, is_quote e) (read_on-quoted_quote ds w s)
  | inr e ↦ rw e (read_on-step _ _ c s (step-single ds w c e))
]
  where
    is_quote : (c == quote) ≡ true → c ≡ quote
    is_quote e = ground arith

read_on-quoted :
    (ds : List Text) (w v s : Text)
    → read_on (single ds w) (replace_all quote quoted_quote v ++ quote ∷ s)
      ≡ read_on (word ds (w ++ v)) s
unfolding replace_all
read_on-quoted ds w [] s = close_quote ds w s ∙ ap (λ u. read_on (word ds u) s) (sym (append-nil w))
read_on-quoted ds w (c ∷ v) s =
    ap (read_on (single ds w)) (append_assoc _ (replace_all quote quoted_quote v) (quote ∷ s))
    ∙ read_on-replaced ds w c _
    ∙ read_on-quoted ds (w ++ c ∷ []) v s
    ∙ ap (λ u. read_on (word ds u) s) (append_assoc w (c ∷ []) v)

-- A part of the line that is read as a word, wherever it stands.
abbrev pub Reads : Text → Text → Type 0
Reads p v = (ds : List Text) (s : Text) → read_on (between ds) (p ++ s) ≡ read_on (word ds v) s

abbrev pub ReadsAll : List Text → List Text → Type 0
ReadsAll [] [] = Unit
ReadsAll (p ∷ ps) (v ∷ vs) = Reads p v × ReadsAll ps vs
ReadsAll _ _ = ⊥

pub step-first :
    (ds : List Text) (c : ℕ) → kind c ≡ plain → step (between ds) c ≡ some (word ds (c ∷ []))
unfolding step
step-first ds c h = rw (h, step)

pub read_on-first :
    (ds : List Text) (c : ℕ) (v s : Text)
    → is_safe_shell_word (c ∷ v) ≡ true
    → read_on (between ds) ((c ∷ v) ++ s) ≡ read_on (word ds (c ∷ v)) s
unfolding is_safe_shell_word
read_on-first ds c v s h =
    read_on-step _ _ c _ (step-first ds c (kind-is_safe c (ground arith)))
    ∙ read_on-safe ds (c ∷ []) v s (ground arith)

open_quote :
    (ds : List Text) (w s : Text) → read_on (word ds w) (quote ∷ s) ≡ read_on (single ds w) s
unfolding read_on step kind
open_quote ds w s = refl

open_first :
    (ds : List Text) (s : Text) → read_on (between ds) (quote ∷ s) ≡ read_on (single ds []) s
unfolding read_on step kind
open_first ds s = refl

-- The text after the opening quote.
quoted_rest :
    (ds : List Text) (w v s : Text)
    → read_on (single ds w) ((replace_all quote quoted_quote v ++ quote ∷ []) ++ s)
      ≡ read_on (word ds (w ++ v)) s
quoted_rest ds w v s =
    ap (read_on (single ds w)) (append_assoc (replace_all quote quoted_quote v) (quote ∷ []) s)
    ∙ read_on-quoted ds w v s

pub shell_quote-Reads : (v : Text) → Reads (shell_quote v) v
unfolding shell_quote text_equal
shell_quote-Reads [] ds s = open_first ds _ ∙ close_quote ds [] s
shell_quote-Reads (c ∷ v) ds s = elim (Bool-cases (is_safe_shell_word (c ∷ v))) [
  | inl e ↦ rw e (read_on-first ds c v s e)
  | inr e ↦ rw e (open_first ds _ ∙ quoted_rest ds [] (c ∷ v) s)
]

-- A quoted text goes on with the word before it.
pub read_on-shell_quote :
    (ds : List Text) (w v s : Text)
    → read_on (word ds w) (shell_quote v ++ s) ≡ read_on (word ds (w ++ v)) s
unfolding shell_quote text_equal
read_on-shell_quote ds w [] s =
    open_quote ds w _ ∙ close_quote ds w s ∙ ap (λ u. read_on (word ds u) s) (sym (append-nil w))
read_on-shell_quote ds w (c ∷ v) s = elim (Bool-cases (is_safe_shell_word (c ∷ v))) [
  | inl e ↦ rw e (read_on-safe ds w (c ∷ v) s e)
  | inr e ↦ rw e (open_quote ds w _ ∙ quoted_rest ds w (c ∷ v) s)
]
