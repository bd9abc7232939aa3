-- ===== src/Shell/RoundTrip.antt =====
-- What `formatShellCommand` prints, a shell reads as the words it was given.
use mathlib.Core.List.{append_assoc, append-nil}
use agent_lb_proxy.Prelude.{
  ◌≡◌, ◌≢◌, refl, sym, ap, ◌∙◌, true, some, List, [], ◌∷◌, ◌++◌, map, All, Bool-cases, inl, inr,
  arith,
}
use agent_lb_proxy.Prelude.Codes.{Text}
use agent_lb_proxy.Shell.{
  equals, blank, is_safe_shell_word, is_safe, shell_quote, join_words, insert_text, sort_texts,
  value_of, assignment, format_shell_command, text_before,
}
use agent_lb_proxy.Shell.Reader.{kind, between, word, step, end_words, read_on, read}
use agent_lb_proxy.Shell.Quoting.{
  Reads, ReadsAll, read_on-first, read_on-shell_quote, shell_quote-Reads,
}

-- The name of a variable that a shell takes unquoted.
abbrev pub IsName : Text → Type 0
IsName k = (k ≢ []) × (is_safe_shell_word k ≡ true)

abbrev Entry : Type 0
Entry = Text × Text

read_on-word_end :
    (ds : List Text) (v s : Text)
    → read_on (word ds v) (blank ∷ s) ≡ read_on (between (ds ++ v ∷ [])) s
unfolding read_on step kind
read_on-word_end ds v s = refl

read_on-finish : (ds : List Text) (v : Text) → read_on (word ds v) [] ≡ some (ds ++ v ∷ [])
unfolding read_on end_words
read_on-finish ds v = refl

-- Parts that are read as the words `vs`, with spaces between them.
read_on-join_words :
    (ds ps vs : List Text) → ReadsAll ps vs → read_on (between ds) (join_words ps) ≡ some (ds ++ vs)
unfolding join_words read_on end_words
read_on-join_words ds [] [] h = ap some (sym (append-nil ds))
read_on-join_words ds (p ∷ []) (v ∷ []) h =
    ap (read_on (between ds)) (sym (append-nil p)) ∙ h.0 ds [] ∙ read_on-finish ds v
read_on-join_words ds (p ∷ q ∷ ps) (v ∷ w ∷ vs) h =
    h.0 ds (blank ∷ join_words (q ∷ ps))
    ∙ read_on-word_end ds v _
    ∙ read_on-join_words (ds ++ v ∷ []) (q ∷ ps) (w ∷ vs) h.1
    ∙ ap some (append_assoc ds (v ∷ []) (w ∷ vs))
read_on-join_words ds [] (v ∷ vs) h = elim h [ ]
read_on-join_words ds (p ∷ ps) [] h = elim h [ ]
read_on-join_words ds (p ∷ []) (v ∷ w ∷ vs) h = elim h.1 [ ]
read_on-join_words ds (p ∷ q ∷ ps) (v ∷ []) h = elim h.1 [ ]

is_safe_shell_word-append :
    (k v : Text)
    → is_safe_shell_word k ≡ true
    → is_safe_shell_word v ≡ true
    → is_safe_shell_word (k ++ v) ≡ true
unfolding is_safe_shell_word
is_safe_shell_word-append [] v h g = g
is_safe_shell_word-append (c ∷ k) v h g = ground (arith, is_safe_shell_word-append k v)

assignment-Reads :
    (env : List Entry) (k : Text)
    → IsName k
    → Reads (assignment env k) (k ++ equals ∷ value_of env k)
assignment-Reads env [] h ds s = absurd (h.0 refl)
assignment-Reads env (c ∷ k) h ds s =
    let name =
      is_safe_shell_word-append (c ∷ k) (equals ∷ []) h.1
        (unfold is_safe_shell_word is_safe in refl) in
    ap (read_on (between ds)) (shift (shell_quote (value_of env (c ∷ k))) s)
    ∙ read_on-first ds c (k ++ equals ∷ []) _ name
    ∙ read_on-shell_quote ds _ (value_of env (c ∷ k)) s
    ∙ ap (λ u. read_on (word ds u) s) (append_assoc (c ∷ k) (equals ∷ []) _)
  where
    shift : (v u : Text) → ((c ∷ k) ++ equals ∷ v) ++ u ≡ ((c ∷ k) ++ equals ∷ []) ++ (v ++ u)
    shift v u = simp append_assoc

assignments-ReadsAll :
    (env : List Entry) (keys : List Text) (ps vs : List Text)
    → All IsName keys
    → ReadsAll ps vs
    → ReadsAll
        (map (assignment env) keys ++ ps)
        (map (λ k. k ++ equals ∷ value_of env k) keys ++ vs)
assignments-ReadsAll env [] ps vs h g = g
assignments-ReadsAll env (k ∷ keys) ps vs h g =
    (assignment-Reads env k h.0, assignments-ReadsAll env keys ps vs h.1 g)

shell_quotes-ReadsAll : (args : List Text) → ReadsAll (map shell_quote args) args
shell_quotes-ReadsAll [] = tt
shell_quotes-ReadsAll (a ∷ args) = (shell_quote-Reads a, shell_quotes-ReadsAll args)

insert_text-All :
    (P : Text → Type 0) (k : Text) (ls : List Text) → P k → All P ls → All P (insert_text k ls)
unfolding insert_text
insert_text-All P k [] h g = (h, tt)
insert_text-All P k (l ∷ ls) h g = elim (Bool-cases (text_before k l)) [
  | inl e ↦ rw e (h, g)
  | inr e ↦ rw e (g.0, insert_text-All P k ls h g.1)
]

sort_texts-All : (P : Text → Type 0) (ks : List Text) → All P ks → All P (sort_texts ks)
unfolding sort_texts
sort_texts-All P [] h = tt
sort_texts-All P (k ∷ ks) h = insert_text-All P k (sort_texts ks) h.0 (sort_texts-All P ks h.1)

-- When the names of the environment are not empty and made of safe characters, a shell reads what
-- formatShellCommand prints as one word `key=value` for each entry, in the order of the keys, then the
-- program and the arguments, whatever characters the values, the program and the arguments hold.
pub read-format_shell_command :
    (bin : Text) (args : List Text) (env : List Entry)
    → All IsName (map (λ e. e.0) env)
    → read (format_shell_command bin args env)
      ≡ some
          (map (λ k. k ++ equals ∷ value_of env k) (sort_texts (map (λ e. e.0) env)) ++ bin ∷ args)
unfolding read format_shell_command
read-format_shell_command bin args env h =
    let keys = sort_texts-All IsName _ h in
    read_on-join_words [] _ _
      (assignments-ReadsAll env _ _ (bin ∷ args) keys (shell_quotes-ReadsAll (bin ∷ args)))
