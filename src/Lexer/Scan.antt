-- ===== src/Lexer/Scan.antt =====
-- src/ztl/lexer.cpp: skip_ws_and_comments and tokenize.
use zero_trust_public.Base.{
  ℕ, zero, suc, Bool, ◌&&◌, ◌||◌, List, [], ◌∷◌, ◌++◌, Bytes, codes, is_digit, is_alpha, is_empty,
  if◌then◌else◌, Option, none, some, ◌==◌, length, Outcome, ok, err, out_of_fuel, ◌>>=◌,
}
use zero_trust_public.Lexer.{
  TokenType, lparen, rparen, lbrace, rbrace, lbracket, rbracket, comma, colon, scope, dot,
  semicolon, assign, eq, neq, lt, gt, lte, gte, bang, and, or, plus, minus, end_of_file, Token,
  LexError, Cursor, at, peek, line_after, col_after, advance, make,
}
use zero_trust_public.Lexer.Literals.{read_string, read_number, read_ident_or_keyword}

-- Up to the newline that ends a line comment.
unfoldable pub skip_line : Bytes → ℕ → ℕ → Cursor
skip_line [] l k = at [] l k
skip_line (c ∷ cs) l k =
    let later = skip_line cs (line_after c l) (col_after c k) in
    if c == b'\n' then at (c ∷ cs) l k else later

-- Up to and over the end of a block comment.
unfoldable pub skip_block : Bytes → ℕ → ℕ → Cursor
skip_block [] l k = at [] l k
skip_block (c ∷ cs) l k =
    let later = skip_block cs (line_after c l) (col_after c k) in
    if c == b'*' && peek cs == b'/' then advance (advance (at (c ∷ cs) l k)) else later

unfoldable pub is_blank : ℕ → Bool
is_blank c = c == b' ' || c == b'\t' || c == b'\r' || c == b'\n'

-- One round of `skip_ws_and_comments`; none where the loop breaks.
unfoldable pub skip_round_in : Bytes → Cursor → Option Cursor
skip_round_in [] cur = none
skip_round_in (c ∷ cs) cur =
    let opened = advance (advance cur) in
    let block = skip_block opened.rest opened.line opened.col in
    let whole_line = skip_line (c ∷ cs) cur.line cur.col in
    if is_blank c
    then some (advance cur)
    else if c == b'/' && peek cs == b'/'
    then some whole_line
    else if c == b'/' && peek cs == b'*'
    then some block
    else if c == b'#'
    then some whole_line
    else none

unfoldable pub skip_round : Cursor → Option Cursor
unfolding skip_round_in is_blank
skip_round cur = skip_round_in cur.rest cur

unfoldable pub skip_after :
    (Cursor → Outcome LexError Cursor) → Cursor → Option Cursor → Outcome LexError Cursor
skip_after loop cur none = ok cur
skip_after loop cur (some cur') = loop cur'

unfoldable pub skip_loop : ℕ → Cursor → Outcome LexError Cursor
unfolding skip_after
skip_loop zero cur = out_of_fuel
skip_loop (suc f) cur = skip_after (skip_loop f) cur (skip_round cur)

-- Each round takes a byte or more.
unfoldable pub skip_ws_and_comments : Cursor → Outcome LexError Cursor
skip_ws_and_comments cur = skip_loop (suc (length cur.rest)) cur

-- The tokens that are one byte whatever follows.
unfoldable pub single : ℕ → Option TokenType
single c =
    if c == b'('
    then some lparen
    else if c == b')'
    then some rparen
    else if c == b'{'
    then some lbrace
    else if c == b'}'
    then some rbrace
    else if c == b'['
    then some lbracket
    else if c == b']'
    then some rbracket
    else if c == b','
    then some comma
    else if c == b';'
    then some semicolon
    else if c == b'.'
    then some dot
    else if c == b'+'
    then some plus
    else if c == b'-'
    then some minus
    else none

-- The bytes that may be doubled or followed by '=': the byte that is matched, the type with it and
-- the type without, if there is one.
unfoldable pub paired : ℕ → Option (ℕ × TokenType × Option TokenType)
paired c =
    if c == b':'
    then some (b':', scope, some colon)
    else if c == b'='
    then some (b'=', eq, some assign)
    else if c == b'!'
    then some (b'=', neq, some bang)
    else if c == b'<'
    then some (b'=', lte, some lt)
    else if c == b'>'
    then some (b'=', gte, some gt)
    else if c == b'&'
    then some (b'&', and, none)
    else if c == b'|'
    then some (b'|', or, none)
    else none

unfoldable pub lex_error : Bytes → Cursor → Outcome LexError (Token × Cursor)
lex_error message cur = err (record { message = message; line = cur.line; col = cur.col })

unfoldable pub alone : ℕ → Cursor → Option TokenType → Outcome LexError (Token × Cursor)
alone c cur (some t) = ok (make t (c ∷ []) cur.line cur.col, advance cur)
alone c cur none = lex_error (codes "expected " ++ (c ∷ c ∷ [])) cur

unfoldable pub pair_token :
    ℕ → Cursor → Option (ℕ × TokenType × Option TokenType) → Outcome LexError (Token × Cursor)
pair_token c cur none = lex_error (codes "unexpected character: '" ++ (c ∷ codes "'")) cur
pair_token c cur (some (d, both, one)) =
    if peek (advance cur).rest == d
    then ok (make both (c ∷ d ∷ []) cur.line cur.col, advance (advance cur))
    else alone c cur one

unfoldable pub punctuation : ℕ → Cursor → Option TokenType → Outcome LexError (Token × Cursor)
punctuation c cur (some t) = ok (make t (c ∷ []) cur.line cur.col, advance cur)
punctuation c cur none = pair_token c cur (paired c)

-- The token at the cursor, where a byte is left.
unfoldable pub next_token : Cursor → Outcome LexError (Token × Cursor)
unfolding punctuation pair_token alone lex_error
next_token cur =
    let c = peek cur.rest in
    if c == b'"'
    then read_string cur
    else if is_digit c
    then ok (read_number cur)
    else if is_alpha c || c == b'_'
    then ok (read_ident_or_keyword cur)
    else punctuation c cur (single c)

-- The loop of `tokenize` behind the call of `skip_ws_and_comments`, with the tokens so far.
unfoldable pub token_step :
    (Cursor → List Token → Outcome LexError (List Token))
    → List Token
    → Cursor
    → Outcome LexError (List Token)
token_step loop tokens cur =
    let next = next_token cur >>= λ (t, cur'). loop cur' (tokens ++ t ∷ []) in
    if is_empty cur.rest then ok (tokens ++ make end_of_file [] cur.line cur.col ∷ []) else next

unfoldable pub tokenize_loop : ℕ → Cursor → List Token → Outcome LexError (List Token)
unfolding token_step
tokenize_loop zero cur tokens = out_of_fuel
tokenize_loop (suc f) cur tokens = skip_ws_and_comments cur >>= token_step (tokenize_loop f) tokens

unfoldable pub tokenize : Bytes → Outcome LexError (List Token)
tokenize src = tokenize_loop (suc (length src)) (at src 1 1) []
