-- ===== src/ImportAlias.antt =====
-- cmd/codexlb/main.go: the alias of an account that is imported; internal/lb/wrapper.go: ValidateAlias.
-- A text is its list of code points; `wide` is what `strings.ToLower` does from code point 128 on.
use agent_lb_proxy.Prelude.{
  ℕ, zero, suc, ◌+◌, ◌-◌, ◌/◌, ◌%◌, Bool, true, false, not, ◌&&◌, ◌||◌, Option, none, some, List,
  [], ◌∷◌, ◌++◌, map, ltb, leb, ◌==◌, if◌then◌else◌, length,
}
use agent_lb_proxy.Prelude.Codes.{Text, codes, text_equal, trim_left_text, trim_right_text}
use agent_lb_proxy.Request.{to_lower}
pub mod Infer
pub mod Valid
pub mod Suffix
pub mod Unique
pub mod Free

unfoldable pub is_lower : ℕ → Bool
is_lower c = leb b'a' c && leb c b'z'

unfoldable pub is_digit : ℕ → Bool
is_digit c = leb b'0' c && leb c b'9'

-- A character of `"._-"`.
unfoldable pub is_separator : ℕ → Bool
is_separator c = c == b'.' || c == b'_' || c == b'-'

-- `^[A-Za-z0-9][A-Za-z0-9._@+-]{0,127}$`
unfoldable pub is_alias_first : ℕ → Bool
is_alias_first c = is_lower c || is_digit c || (leb b'A' c && leb c b'Z')

unfoldable pub is_alias_char : ℕ → Bool
is_alias_char c = is_alias_first c || is_separator c || c == b'@' || c == b'+'

abbrev pub all_of : (ℕ → Bool) → Text → Bool
all_of p [] = true
all_of p (c ∷ s) = p c && all_of p s

unfoldable pub validate_alias : Text → Bool
validate_alias [] = false
validate_alias (c ∷ s) = is_alias_first c && all_of is_alias_char s && leb (length s) 127

unfoldable pub trim_left_of : (ℕ → Bool) → Text → Text
trim_left_of p [] = []
trim_left_of p (c ∷ s) = let rest = trim_left_of p s in if p c then rest else c ∷ s

unfoldable pub trim_right_of : (ℕ → Bool) → Text → Text
trim_right_of p [] = []
trim_right_of p (c ∷ s) =
    let rest = trim_right_of p s in if text_equal rest [] && p c then [] else c ∷ rest

-- `s[:n]`, for an `s` of one-byte characters that is at least that long.
unfoldable pub first_codes : ℕ → Text → Text
first_codes zero s = []
first_codes (suc n) [] = []
first_codes (suc n) (c ∷ s) = c ∷ first_codes n s

-- The text in the builder, and `lastSeparator`.
pub record Builder : Type 0 where
  pub text : Text
  pub last_separator : Bool

unfoldable pub write : Builder → ℕ → Builder
write b c =
    if is_lower c || is_digit c || is_separator c
    then (if text_equal b.text [] && not (is_lower c || is_digit c)
        then b
        else record { text = b.text ++ c ∷ []; last_separator = false })
    else if text_equal b.text [] || b.last_separator
    then b
    else record { text = b.text ++ b'-' ∷ []; last_separator = true }

unfoldable pub write_all : Builder → Text → Builder
write_all b [] = b
write_all b (c ∷ s) = write_all (write b c) s

-- The end of the function: an alias begins with a lower-case letter or a digit.
unfoldable pub alias_or_empty : Text → Text
alias_or_empty [] = []
alias_or_empty (c ∷ s) = if is_lower c || is_digit c then c ∷ s else []

-- The separators are taken off both ends, and off the end of what is cut at 64.
unfoldable pub shorten : Text → Text
shorten b =
    let out = trim_right_of is_separator (trim_left_of is_separator b) in
    if ltb 64 (length out) then trim_right_of is_separator (first_codes 64 out) else out

-- `strconv.Itoa` of a number below 1000.
unfoldable pub itoa : ℕ → Text
itoa n =
    if ltb n 10
    then (b'0' + n) ∷ []
    else if ltb n 100
    then (b'0' + n / 10) ∷ (b'0' + n % 10) ∷ []
    else (b'0' + n / 100) ∷ (b'0' + n / 10 % 10) ∷ (b'0' + n % 10) ∷ []

-- The base is cut so that the alias has 64 characters at most.
unfoldable pub cut_base : Text → ℕ → Text
cut_base base max_base_len =
    let cut =
      (if ltb max_base_len (length base)
        then trim_right_of is_separator (first_codes max_base_len base)
        else base) in
    if text_equal cut [] then codes "import" else cut

-- `randomImportAliasSuffix`: the texts that its calls return, one after the other. A function that
-- calls it takes the number of the next call and gives it on.
module _ (random : ℕ → Text) where
  unfoldable pub random_import_alias : ℕ → Text × ℕ
  random_import_alias k = (codes "import-" ++ random k, suc k)

  unfoldable pub join_suffix : Text → Text → ℕ → Text × ℕ
  join_suffix base0 suffix k =
      let base = if text_equal base0 [] then codes "import" else base0 in
      if ltb 62 (length suffix)
      then random_import_alias k
      else (cut_base base (63 - length suffix) ++ b'-' ∷ suffix, k)

-- Whether a key is in a map of which only the keys matter.
unfoldable pub holds : Text → List Text → Bool
holds a [] = false
holds a (t ∷ taken) = text_equal a t || holds a taken

module _ (wide : ℕ → ℕ) where
  unfoldable pub sanitize_import_alias_candidate : Text → Text
  sanitize_import_alias_candidate raw =
      let raw' = trim_right_text (trim_left_text (to_lower wide raw)) in
      alias_or_empty (shorten (write_all (record { text = []; last_separator = false }) raw').text)

  unfoldable pub import_alias_taken : Text → List Text → Bool
  import_alias_taken alias taken = holds (to_lower wide alias) taken

  module _ (random : ℕ → Text) where
    unfoldable pub append_import_alias_suffix : Text → Text → ℕ → Text × ℕ
    append_import_alias_suffix base suffix k =
        let s = sanitize_import_alias_candidate suffix in
        if text_equal s []
        then join_suffix random base (random k) (suc k)
        else join_suffix random base s k

    -- The aliases `base-i`, ..., `n` of them.
    unfoldable pub try_numbered : Text → List Text → ℕ → ℕ → ℕ → Option Text × ℕ
    try_numbered base taken zero i k = (none, k)
    try_numbered base taken (suc n) i k =
        let c = append_import_alias_suffix base (itoa i) k in
        let rest = try_numbered base taken n (suc i) c.1 in
        if import_alias_taken c.0 taken then rest else (some c.0, c.1)

    -- The last loop, for at most `n` rounds.
    unfoldable pub try_random : Text → List Text → ℕ → ℕ → Option Text
    try_random base taken zero k = none
    try_random base taken (suc n) k =
        let c = append_import_alias_suffix base (random k) (suc k) in
        let rest = try_random base taken n c.1 in
        if import_alias_taken c.0 taken then rest else some c.0

    -- 998 numbered aliases, 2 to 999, then random ones.
    unfoldable pub first_free : ℕ → Text → List Text → ℕ → Option Text
    first_free fuel base taken k =
        let numbered = try_numbered base taken 998 2 k in
        if import_alias_taken base taken
        then (elim numbered.0 [ some c ↦ some c | none ↦ try_random base taken fuel numbered.1 ])
        else some base

    unfoldable pub make_unique_import_alias : ℕ → Text → List Text → ℕ → Option Text
    make_unique_import_alias fuel base taken k =
        let b = sanitize_import_alias_candidate base in
        let r = random_import_alias random k in
        if text_equal b [] then first_free fuel r.0 taken r.1 else first_free fuel b taken k
