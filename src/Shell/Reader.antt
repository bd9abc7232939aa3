-- ===== src/Shell/Reader.antt =====
-- How a POSIX shell reads a command line into words (Shell Command Language, 2.2 and 2.3), for a line
-- with no expansion: quotes are removed, and a character that would be special outside quotes, or `$`,
-- a backquote or a backslash in double quotes, is not read.
use agent_lb_proxy.Prelude.{
  ℕ, Bool, ◌&&◌, ◌||◌, Option, none, some, List, [], ◌∷◌, ◌++◌, leb, ◌==◌, if◌then◌else◌,
}
use agent_lb_proxy.Prelude.Codes.{Text}

-- The words that are complete, and where the reader is.
pub data Reader : Type 0 where
  between : List Text → Reader
  word : List Text → Text → Reader
  single : List Text → Text → Reader
  double : List Text → Text → Reader

pub data Kind : Type 0 where
  space : Kind
  single_quote : Kind
  double_quote : Kind
  special : Kind
  plain : Kind

-- The control characters, and  ! # $ & ( ) * ; < > ? [ \ ] ^ ` { | } ~
unfoldable pub is_special : ℕ → Bool
is_special c =
    leb c 31
    || c == 33
    || c == 35
    || c == 36
    || c == 38
    || c == 40
    || c == 41
    || c == 42
    || c == 59
    || c == 60
    || c == 62
    || c == 63
    || c == 91
    || c == 92
    || c == 93
    || c == 94
    || c == 96
    || (leb 123 c && leb c 127)

unfoldable pub kind : ℕ → Kind
kind c =
    if c == 32
    then space
    else if c == 39
    then single_quote
    else if c == 34
    then double_quote
    else if is_special c
    then special
    else plain

unfoldable pub step : Reader → ℕ → Option Reader
step (between ds) c = elim (kind c) [
  | space ↦ some (between ds)
  | single_quote ↦ some (single ds [])
  | double_quote ↦ some (double ds [])
  | special ↦ none
  | plain ↦ some (word ds (c ∷ []))
]
step (word ds w) c = elim (kind c) [
  | space ↦ some (between (ds ++ w ∷ []))
  | single_quote ↦ some (single ds w)
  | double_quote ↦ some (double ds w)
  | special ↦ none
  | plain ↦ some (word ds (w ++ c ∷ []))
]
step (single ds w) c = if c == 39 then some (word ds w) else some (single ds (w ++ c ∷ []))
step (double ds w) c =
    if c == 34
    then some (word ds w)
    else if c == 36 || c == 96 || c == 92
    then none
    else some (double ds (w ++ c ∷ []))

-- The words at the end of the line; a quote that is open has none.
unfoldable pub end_words : Reader → Option (List Text)
end_words (between ds) = some ds
end_words (word ds w) = some (ds ++ w ∷ [])
end_words _ = none

unfoldable pub read_on : Reader → Text → Option (List Text)
read_on r [] = end_words r
read_on r (c ∷ s) = elim (step r c) [ none ↦ none | some r' ↦ read_on r' s ]

unfoldable pub read : Text → Option (List Text)
read s = read_on (between []) s
