-- ===== src/Lexer.antt =====
-- src/ztl: token.hpp and lexer.cpp. `src_` and `pos_` are the bytes that are left; positions are
-- counted as the source does.
pub mod Literals
pub mod Scan
pub mod Progress
pub mod Total
use zero_trust_public.Base.{
  ℕ, zero, suc, ◌+◌, Bool, true, false, ◌&&◌, ◌||◌, List, [], ◌∷◌, ◌++◌, Bytes, if◌then◌else◌,
  Option, none, some, ◌==◌,
}

-- token.hpp
pub data TokenType : Type 0 where
  number string ident true_kw false_kw null_kw : TokenType
  include_kw if_kw else_kw return_kw : TokenType
  lparen rparen lbrace rbrace lbracket rbracket comma colon scope dot semicolon assign : TokenType
  eq neq lt gt lte gte bang and or plus minus : TokenType
  end_of_file : TokenType

pub record Token : Type 0 where
  pub type : TokenType
  pub text : Bytes
  pub line : ℕ
  pub col : ℕ

-- `class LexError`: the message without its position, and the position.
pub record LexError : Type 0 where
  pub message : Bytes
  pub line : ℕ
  pub col : ℕ

-- `src_` from `pos_` on, `line_` and `col_`.
pub record Cursor : Type 0 where
  pub rest : Bytes
  pub line : ℕ
  pub col : ℕ

abbrev pub at : Bytes → ℕ → ℕ → Cursor
at s l c = record { rest = s; line = l; col = c }

-- `peek()` on the bytes that are left: '\0' behind the end.
abbrev pub peek : Bytes → ℕ
peek [] = 0
peek (c ∷ _) = c

abbrev pub peek_next : Bytes → ℕ
peek_next [] = 0
peek_next (_ ∷ cs) = peek cs

-- Where the cursor stands after a byte: a newline begins a line.
abbrev pub line_after : ℕ → ℕ → ℕ
line_after c l = if c == b'\n' then l + 1 else l

abbrev pub col_after : ℕ → ℕ → ℕ
col_after c k = if c == b'\n' then 1 else k + 1

step_in : Bytes → ℕ → ℕ → Cursor
step_in [] l k = at [] l k
step_in (c ∷ cs) l k = at cs (line_after c l) (col_after c k)

-- `advance()`. It is called where a byte is left, so the case of the end is not reached.
unfoldable pub advance : Cursor → Cursor
unfolding step_in
advance cur = step_in cur.rest cur.line cur.col

-- `make`
abbrev pub make : TokenType → Bytes → ℕ → ℕ → Token
make t text l k = record { type = t; text = text; line = l; col = k }

-- `while (test(peek())) out += advance()`, for tests that '\0' does not pass.
unfoldable pub take_while : (ℕ → Bool) → Bytes → ℕ → ℕ → Bytes × Cursor
take_while test [] l k = ([], at [] l k)
take_while test (c ∷ cs) l k =
    let (out, cur) = take_while test cs (line_after c l) (col_after c k) in
    if test c then (c ∷ out, cur) else ([], at (c ∷ cs) l k)
