-- ===== src/WebUi.antt =====
-- src/webui/webui.cpp: the texts that the web interface reads and writes: JSON strings and numbers,
-- URLs and cookies.
pub mod Laws
use zero_trust_public.Base.{
  ℕ, ◌+◌, ◌-◌, ◌*◌, ◌/◌, ◌%◌, Bool, true, false, not, ◌&&◌, ◌||◌, List, [], ◌∷◌, ◌++◌, Bytes, codes,
  bytes_eq, is_alnum, is_digit, is_empty, split_first, strip_prefix, if◌then◌else◌, Option, none,
  some, ltb, ◌==◌, drop, length, within,
}
use zero_trust_public.Interpreter.Strings.{index_of, is_space, skip_spaces}

-- A digit of `%x`.
abbrev pub hex_digit : ℕ → ℕ
hex_digit n = if ltb n 10 then b'0' + n else 87 + n

unfoldable urlencode_byte : ℕ → Bytes
urlencode_byte c =
    if is_alnum c || (c == b'-' || (c == b'_' || (c == b'.' || c == b'~')))
    then c ∷ []
    else b'%'
      ∷ (if ltb c 16 then b'0' ∷ hex_digit c ∷ [] else hex_digit (c / 16) ∷ hex_digit (c % 16) ∷ [])

unfoldable urlencode : Bytes → Bytes
unfolding urlencode_byte
urlencode [] = []
urlencode (c ∷ s) = urlencode_byte c ++ urlencode s

-- The byte behind a backslash, as the reader takes it.
unfoldable pub unescape : ℕ → ℕ
unescape e = if e == b'n' then b'\n' else if e == b't' then b'\t' else e

-- The loop of the reader behind the opening quote.
unfoldable pub read_body : Bytes → Bytes
unfolding unescape
read_body [] = []
read_body (c ∷ []) = if c == b'"' then [] else c ∷ []
read_body (c ∷ e ∷ s) =
    let one = read_body (e ∷ s) in
    let two = read_body s in
    if c == b'"' then [] else if c == b'\\' then unescape e ∷ two else c ∷ one

-- What stands behind the key and the colon, and the spaces there.
unfoldable pub field_value : Bytes → Bytes → Option Bytes
unfolding index_of split_first skip_spaces
field_value src key =
    let pat = b'"' ∷ (key ++ (b'"' ∷ [])) in
    elim (index_of pat src) [
      | none ↦ none
      | some p ↦ elim (split_first b':' (drop (p + length pat) src)) [
        | none ↦ none
        | some (_, value) ↦ some (skip_spaces value)
      ]
    ]

abbrev read_quoted : Bytes → Bytes
read_quoted [] = []
read_quoted (c ∷ s) = if c == b'"' then read_body s else []

unfoldable pub json_string_field : Bytes → Bytes → Bytes
unfolding field_value read_body
json_string_field src key = elim (field_value src key) [
  | none ↦ []
  | some value ↦ read_quoted value
]

unfoldable pub escape_byte : ℕ → Bytes
escape_byte c =
    if c == b'"'
    then b'\\' ∷ b'"' ∷ []
    else if c == b'\\'
    then b'\\' ∷ b'\\' ∷ []
    else if c == b'\n'
    then b'\\' ∷ b'n' ∷ []
    else if c == b'\r'
    then b'\\' ∷ b'r' ∷ []
    else if c == b'\t'
    then b'\\' ∷ b't' ∷ []
    else if ltb c 32
    then b'\\' ∷ b'u' ∷ b'0' ∷ b'0' ∷ hex_digit (c / 16) ∷ hex_digit (c % 16) ∷ []
    else c ∷ []

unfoldable pub json_escape : Bytes → Bytes
unfolding escape_byte
json_escape [] = []
json_escape (c ∷ s) = escape_byte c ++ json_escape s

-- The values behind the first.
unfoldable more_strings : List Bytes → Bytes
unfolding json_escape
more_strings [] = codes "]"
more_strings (v ∷ values) = (b',' ∷ b'"' ∷ (json_escape v ++ (b'"' ∷ []))) ++ more_strings values

unfoldable json_string_array : List Bytes → Bytes
unfolding json_escape more_strings
json_string_array [] = codes "[]"
json_string_array (v ∷ values) =
    (b'[' ∷ b'"' ∷ (json_escape v ++ (b'"' ∷ []))) ++ more_strings values
