-- ===== src/Lexer/Literals.antt =====
-- src/ztl/lexer.cpp: read_string, read_number and read_ident_or_keyword.
use zero_trust_public.Base.{
  ℕ, zero, suc, ◌+◌, ◌-◌, ◌*◌, Bool, ◌&&◌, ◌||◌, [], ◌∷◌, ◌++◌, Bytes, codes, bytes_eq, within,
  is_digit, is_alnum, if◌then◌else◌, Option, none, some, ◌==◌, length, Outcome, ok, err,
  out_of_fuel,
}
use zero_trust_public.Lexer.{
  TokenType, number, string, ident, true_kw, false_kw, null_kw, include_kw, if_kw, else_kw,
  return_kw, Token, LexError, Cursor, peek, peek_next, advance, make, take_while,
}

-- The lambda `hex`; none for its -1.
unfoldable pub hex : ℕ → Option ℕ
hex c =
    if within b'0' b'9' c
    then some (c - b'0')
    else if within b'a' b'f' c
    then some (10 + c - b'a')
    else if within b'A' b'F' c
    then some (10 + c - b'A')
    else none

-- One round of the loop of `read_string`.
pub data StringRound : Type 0 where
  closed : StringRound
  more : Cursor → Bytes → StringRound
  failed : LexError → StringRound

abbrev fail_at : Bytes → ℕ → ℕ → StringRound
fail_at message l k = failed (record { message = message; line = l; col = k })

unfoldable pub hex_byte : Option ℕ → Option ℕ → Option ℕ
hex_byte (some h) (some l) = some (h * 16 + l)
hex_byte _ _ = none

-- `\xHH`, behind the `x`; the position is that of the opening quote.
unfoldable pub hex_round : ℕ → ℕ → Bytes → Cursor → Bytes → StringRound
hex_round sl sk (h ∷ l ∷ _) cur out = elim (hex_byte (hex h) (hex l)) [
  | none ↦ fail_at (codes "bad \\xHH digits") sl sk
  | some b ↦ more (advance (advance cur)) (out ++ b ∷ [])
]
hex_round sl sk _ cur out = fail_at (codes "truncated \\xHH") sl sk

-- What stands for the byte behind a backslash, apart from `x`.
unfoldable pub unescape : ℕ → ℕ
unescape e =
    if e == b'n'
    then b'\n'
    else if e == b't'
    then b'\t'
    else if e == b'r'
    then b'\r'
    else if e == b'0'
    then 0
    else e

-- Behind a byte: a backslash with a byte behind it is an escape.
unfoldable pub escape_round : ℕ → ℕ → ℕ → Bytes → Cursor → Bytes → StringRound
escape_round sl sk c [] cur out = more cur (out ++ c ∷ [])
escape_round sl sk c (e ∷ cs) cur out =
    let hexed = hex_round sl sk cs (advance cur) out in
    if c == b'\\'
    then if e == b'x' then hexed else more (advance cur) (out ++ unescape e ∷ [])
    else more cur (out ++ c ∷ [])

unfoldable pub string_round_in : ℕ → ℕ → Bytes → Cursor → Bytes → StringRound
string_round_in sl sk [] cur out = fail_at (codes "unterminated string") sl sk
string_round_in sl sk (c ∷ cs) cur out =
    if c == b'"' then closed else escape_round sl sk c cs (advance cur) out

unfoldable pub string_round : ℕ → ℕ → Cursor → Bytes → StringRound
unfolding string_round_in escape_round hex_round hex_byte
string_round sl sk cur out = string_round_in sl sk cur.rest cur out

unfoldable pub string_after :
    ℕ
    → ℕ
    → (Cursor → Bytes → Outcome LexError (Token × Cursor))
    → Cursor
    → Bytes
    → StringRound
    → Outcome LexError (Token × Cursor)
string_after sl sk loop cur out closed = ok (make string out sl sk, advance cur)
string_after sl sk loop cur out (more cur' out') = loop cur' out'
string_after sl sk loop cur out (failed e) = err e

-- The loop of `read_string`, behind the opening quote, with the text so far.
unfoldable pub string_loop : ℕ → ℕ → ℕ → Cursor → Bytes → Outcome LexError (Token × Cursor)
unfolding string_after
string_loop zero sl sk cur out = out_of_fuel
string_loop (suc f) sl sk cur out =
    string_after sl sk (string_loop f sl sk) cur out (string_round sl sk cur out)

-- Each round takes a byte or more.
unfoldable pub read_string : Cursor → Outcome LexError (Token × Cursor)
read_string cur = string_loop (length cur.rest) cur.line cur.col (advance cur) []

-- The part behind a dot, if a digit follows it.
unfoldable pub fraction : Bytes → Cursor → Bytes × Cursor
fraction out cur =
    let (more_digits, behind) =
      take_while is_digit (advance cur).rest (advance cur).line (advance cur).col in
    if peek cur.rest == b'.' && is_digit (peek_next cur.rest)
    then (out ++ (b'.' ∷ more_digits), behind)
    else (out, cur)

unfoldable pub read_number : Cursor → Token × Cursor
unfolding fraction
read_number cur =
    let (whole, behind) = take_while is_digit cur.rest cur.line cur.col in
    let (text, last) = fraction whole behind in (make number text cur.line cur.col, last)

unfoldable pub is_ident_byte : ℕ → Bool
is_ident_byte c = is_alnum c || c == b'_'

-- The table `keywords`.
unfoldable pub keyword : Bytes → TokenType
keyword s =
    if bytes_eq s (codes "include")
    then include_kw
    else if bytes_eq s (codes "if")
    then if_kw
    else if bytes_eq s (codes "else")
    then else_kw
    else if bytes_eq s (codes "return")
    then return_kw
    else if bytes_eq s (codes "true")
    then true_kw
    else if bytes_eq s (codes "false")
    then false_kw
    else if bytes_eq s (codes "null")
    then null_kw
    else ident

unfoldable pub read_ident_or_keyword : Cursor → Token × Cursor
read_ident_or_keyword cur =
    let (text, behind) = take_while is_ident_byte cur.rest cur.line cur.col in
    (make (keyword text) text cur.line cur.col, behind)
