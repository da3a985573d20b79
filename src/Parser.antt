-- ===== src/Parser.antt =====
-- src/ztl: ast.hpp and the token reading of parser.cpp (peek, advance, check, match, expect).
pub mod Expressions
pub mod Statements
pub mod Taking
pub mod Operands
pub mod Total
use zero_trust_public.Base.{
  ℕ, zero, suc, ◌+◌, Bool, true, false, List, [], ◌∷◌, ◌++◌, Bytes, codes, if◌then◌else◌, Outcome,
  ok, err, length, ◌==◌, ◌≡◌, ◌≢◌, arith,
}
use zero_trust_public.Lexer.{
  TokenType, number, string, ident, true_kw, false_kw, null_kw, include_kw, if_kw, else_kw,
  return_kw, lparen, rparen, lbrace, rbrace, lbracket, rbracket, comma, colon, scope, dot,
  semicolon, assign, eq, neq, lt, gt, lte, gte, bang, and, or, plus, minus, end_of_file, Token,
}

-- ast.hpp. The lists inside a call, an `if` and a block are types of the block, since a type cannot
-- hold itself inside `List`. A call's block is `none` without `has_block`, a `return`'s value
-- where the pointer is null.
mutual
  pub data Expr (D : Type 0) : Type 0 where
    literal_null : ℕ → ℕ → Expr D
    literal_bool : Bool → ℕ → ℕ → Expr D
    literal_number : D → ℕ → ℕ → Expr D
    literal_string : Bytes → ℕ → ℕ → Expr D
    identifier : Bytes → ℕ → ℕ → Expr D
    member_access : Expr D → Bytes → ℕ → ℕ → Expr D
    scoped_access : Bytes → Bytes → ℕ → ℕ → Expr D
    call : Expr D → CallArgs D → MaybeBlock D → ℕ → ℕ → Expr D
    unary_op : Bytes → Expr D → ℕ → ℕ → Expr D
    binary_op : Bytes → Expr D → Expr D → ℕ → ℕ → Expr D

  -- An empty name marks a positional argument.
  pub data CallArgs (D : Type 0) : Type 0 where
    no_args : CallArgs D
    arg : Bytes → Expr D → CallArgs D → CallArgs D

  pub data MaybeBlock (D : Type 0) : Type 0 where
    no_block : MaybeBlock D
    block : Stmts D → MaybeBlock D

  pub data MaybeExpr (D : Type 0) : Type 0 where
    no_value : MaybeExpr D
    value : Expr D → MaybeExpr D

  pub data Stmt (D : Type 0) : Type 0 where
    expr_stmt : Expr D → ℕ → ℕ → Stmt D
    assign_stmt : Bytes → Expr D → ℕ → ℕ → Stmt D
    if_stmt : Expr D → Stmts D → Stmts D → ℕ → ℕ → Stmt D
    return_stmt : MaybeExpr D → ℕ → ℕ → Stmt D
    include_stmt : Bytes → ℕ → ℕ → Stmt D

  pub data Stmts (D : Type 0) : Type 0 where
    done : Stmts D
    stmt : Stmt D → Stmts D → Stmts D

-- The number of a token type in the source's enumeration, by which types are compared.
unfoldable pub index_of : TokenType → ℕ
index_of number = 0
index_of string = 1
index_of ident = 2
index_of true_kw = 3
index_of false_kw = 4
index_of null_kw = 5
index_of include_kw = 6
index_of if_kw = 7
index_of else_kw = 8
index_of return_kw = 9
index_of lparen = 10
index_of rparen = 11
index_of lbrace = 12
index_of rbrace = 13
index_of lbracket = 14
index_of rbracket = 15
index_of comma = 16
index_of colon = 17
index_of scope = 18
index_of dot = 19
index_of semicolon = 20
index_of assign = 21
index_of eq = 22
index_of neq = 23
index_of lt = 24
index_of gt = 25
index_of lte = 26
index_of gte = 27
index_of bang = 28
index_of and = 29
index_of or = 30
index_of plus = 31
index_of minus = 32
index_of end_of_file = 33

unfoldable pub same_type : TokenType → TokenType → Bool
unfolding index_of
same_type s t = index_of s == index_of t

-- `tokens_` from `pos_` on: the token at `pos_` and those behind it. `advance` keeps the last token,
-- so there is always one.
pub record Parser : Type 0 where
  pub current : Token
  pub following : List Token

-- `class ParseError` with its position, or `std::out_of_range` from `std::stod`.
pub data ParseError : Type 0 where
  parse_error : Bytes → ℕ → ℕ → ParseError
  out_of_range : ParseError

abbrev pub Parses : Type 0 → Type 0
Parses A = Parser → Outcome ParseError (A × Parser)

-- `peek(1)`: the last token again at the end.
peek_behind : Token → List Token → Token
peek_behind t [] = t
peek_behind t (u ∷ _) = u

unfoldable pub peek_1 : Parser → Token
unfolding peek_behind
peek_1 p = peek_behind p.current p.following

move_on : Token → List Token → Parser
move_on t [] = record { current = t; following = [] }
move_on t (u ∷ ts) = record { current = u; following = ts }

-- The parser behind `advance()`; the token that it returns is `current`.
unfoldable pub advance : Parser → Parser
unfolding move_on
advance p = move_on p.current p.following

unfoldable pub check : TokenType → Parser → Bool
check t p = same_type p.current.type t

-- The parser behind `match(t)`, where its result is not used.
unfoldable pub skip_if : TokenType → Parser → Parser
skip_if t p = if check t p then advance p else p

-- `expect`, with the token that it returns.
unfoldable pub expect : TokenType → Bytes → Parses Token
expect t what p =
    if check t p
    then ok (p.current, advance p)
    else err (
        parse_error
          (codes "expected " ++ (what ++ (codes ", got '" ++ (p.current.text ++ codes "'"))))
          p.current.line p.current.col)
