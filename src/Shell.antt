-- ===== src/Shell.antt =====
-- internal/lb/wrapper.go: the command line that the wrapper prints for a shell, and the environment
-- that it gives to a process. A text is its list of code points.
use agent_lb_proxy.Prelude.{
  ℕ, Bool, true, false, ◌&&◌, ◌||◌, List, [], ◌∷◌, ◌++◌, map, ltb, leb, ◌==◌, if◌then◌else◌,
}
use agent_lb_proxy.Prelude.Codes.{Text, codes, text_equal, has_prefix}
pub mod Reader
mod Quoting
pub mod RoundTrip

-- The `=` of an assignment, and the quotes.
abbrev pub equals : ℕ
equals = b'='

abbrev pub quote : ℕ
quote = 39

abbrev pub dquote : ℕ
dquote = 34

abbrev pub blank : ℕ
blank = 32

-- A character of `isSafeShellWord`.
unfoldable pub is_safe : ℕ → Bool
is_safe c =
    (leb b'a' c && leb c b'z')
    || (leb b'A' c && leb c b'Z')
    || (leb b'0' c && leb c b'9')
    || c == b'_'
    || c == b'-'
    || c == b'.'
    || c == b'/'
    || c == b':'
    || c == b'@'
    || c == b'%'
    || c == b'+'
    || c == b'='
    || c == b','

unfoldable pub is_safe_shell_word : Text → Bool
is_safe_shell_word [] = true
is_safe_shell_word (c ∷ s) = is_safe c && is_safe_shell_word s

-- `strings.ReplaceAll` of one code point.
unfoldable pub replace_all : ℕ → Text → Text → Text
replace_all q by [] = []
replace_all q by (c ∷ s) = (if c == q then by else c ∷ []) ++ replace_all q by s

-- A quote inside quotes: `'"'"'`.
abbrev pub quoted_quote : Text
quoted_quote = quote ∷ dquote ∷ quote ∷ dquote ∷ quote ∷ []

unfoldable pub shell_quote : Text → Text
shell_quote value =
    if text_equal value []
    then quote ∷ quote ∷ []
    else if is_safe_shell_word value
    then value
    else quote ∷ (replace_all quote quoted_quote value ++ quote ∷ [])

-- `strings.Join(parts, " ")`
unfoldable pub join_words : List Text → Text
join_words [] = []
join_words (p ∷ []) = p
join_words (p ∷ q ∷ ps) = p ++ blank ∷ join_words (q ∷ ps)

-- Go's order of strings, which is that of their code points.
unfoldable pub text_before : Text → Text → Bool
text_before [] t = true
text_before (c ∷ s) [] = false
text_before (c ∷ s) (d ∷ t) = let rest = text_before s t in ltb c d || (c == d && rest)

-- `sort.Strings`
unfoldable pub insert_text : Text → List Text → List Text
insert_text k [] = k ∷ []
insert_text k (l ∷ ls) =
    let rest = insert_text k ls in if text_before k l then k ∷ l ∷ ls else l ∷ rest

unfoldable pub sort_texts : List Text → List Text
sort_texts [] = []
sort_texts (k ∷ ks) = insert_text k (sort_texts ks)

-- A Go map from texts to texts, in any order of its keys; a missing key gives "".
unfoldable pub value_of : List (Text × Text) → Text → Text
value_of [] key = []
value_of ((k, v) ∷ env) key = let rest = value_of env key in if text_equal k key then v else rest

abbrev pub assignment : List (Text × Text) → Text → Text
assignment env key = key ++ equals ∷ shell_quote (value_of env key)

unfoldable pub format_shell_command : Text → List Text → List (Text × Text) → Text
format_shell_command bin args env =
    let keys = sort_texts (map (λ e. e.0) env) in
    join_words (map (assignment env) keys ++ shell_quote bin ∷ map shell_quote args)

-- The loop of `withEnv` over the entries: the first one with the prefix is replaced, with none left the
-- new entry comes last.
unfoldable pub put_env : Text → Text → List Text → List Text
put_env prefix value [] = (prefix ++ value) ∷ []
put_env prefix value (e ∷ es) =
    let rest = put_env prefix value es in
    if has_prefix e prefix then (prefix ++ value) ∷ es else e ∷ rest

-- The updates in the order in which Go ranges over the map.
unfoldable pub with_env : List Text → List (Text × Text) → List Text
with_env base [] = base
with_env base ((key, value) ∷ updates) = with_env (put_env (key ++ equals ∷ []) value base) updates
