-- ===== src/Parser/Statements.antt =====
-- src/ztl/parser.cpp: statements and blocks, and the recursion between expressions, blocks and `if`.
-- A call that goes round has taken a token before, so its fuel falls with the tokens.
use zero_trust_public.Base.{
  ℕ, zero, suc, Bool, not, ◌&&◌, ◌||◌, Bytes, codes, if◌then◌else◌, Option, Outcome, ok,
  out_of_fuel, ◌>>=◌,
}
use zero_trust_public.Lexer.{
  string, ident, include_kw, if_kw, else_kw, return_kw, lparen, rparen, lbrace, rbrace, semicolon,
  assign, end_of_file,
}
use zero_trust_public.Parser.{
  Expr, Stmt, expr_stmt, assign_stmt, if_stmt, return_stmt, include_stmt, Stmts, done, stmt,
  no_value, value, same_type, Parser, ParseError, Parses, peek_1, advance, check, expect, skip_if,
}
use zero_trust_public.Parser.Expressions.{tokens_left, parse_or}

abbrev pub ends_block : Parser → Bool
ends_block p = check rbrace p || check end_of_file p

module _ {D : Type 0} where
  unfoldable pub parse_include : Parses (Stmt D)
  parse_include p =
      let kw = p.current in
      expect lparen (codes "'(' after include") (advance p) >>= λ (opening, q).
      expect string (codes "module name string") q >>= λ (name, r).
      expect rparen (codes "')' after include argument") r >>= λ (closing, s).
      ok (include_stmt name.text kw.line kw.col, skip_if semicolon s)

  unfoldable pub parse_return : Parses (Expr D) → Parses (Stmt D)
  parse_return expression p =
      let kw = p.current in
      let q = advance p in
      let valued =
        expression q >>= λ (e, r). ok (return_stmt (value e) kw.line kw.col, skip_if semicolon r) in
      if not (check semicolon q) && (not (check rbrace q) && not (check end_of_file q))
      then valued
      else ok (return_stmt no_value kw.line kw.col, skip_if semicolon q)

  unfoldable pub parse_assignment : Parses (Expr D) → Parses (Stmt D)
  parse_assignment expression p =
      let id = p.current in
      expression (advance (advance p)) >>= λ (e, q).
      ok (assign_stmt id.text e id.line id.col, skip_if semicolon q)

  unfoldable pub parse_expr_stmt : Parses (Expr D) → Parses (Stmt D)
  parse_expr_stmt expression p =
      expression p >>= λ (e, q). ok (expr_stmt e p.current.line p.current.col, skip_if semicolon q)

  unfoldable pub statement_level : Parses (Expr D) → Parses (Stmt D) → Parses (Stmt D)
  statement_level expression if_statement p =
      if check include_kw p
      then parse_include p
      else if check if_kw p
      then if_statement p
      else if check return_kw p
      then parse_return expression p
      else if check ident p && same_type (peek_1 p).type assign
      then parse_assignment expression p
      else parse_expr_stmt expression p

  -- `while (…) stmts.push_back(parse_statement())`, up to a token that stops the loop.
  unfoldable pub statements_loop : (Parser → Bool) → Parses (Stmt D) → ℕ → Parses (Stmts D)
  statements_loop stops statement zero p = out_of_fuel
  statements_loop stops statement (suc f) p =
      let more = statement p >>= λ (s, q).
      statements_loop stops statement f q >>= λ (ss, r). ok (stmt s ss, r) in
      if stops p then ok (done, p) else more

  unfoldable pub block_level : Parses (Stmt D) → Parses (Stmts D)
  block_level statement p = expect lbrace (codes "'{'") p >>= λ (opening, q).
      statements_loop ends_block statement (suc (tokens_left q)) q >>= λ (body, r).
      expect rbrace (codes "'}'") r >>= λ (closing, s). ok (body, s)

  -- The `else` branch: none, another `if`, or a block.
  unfoldable pub else_branch : Parses (Stmts D) → Parses (Stmt D) → Parses (Stmts D)
  else_branch parse_block if_statement p =
      let chained = if_statement (advance p) >>= λ (s, q). ok (stmt s done, q) in
      let other = if check if_kw (advance p) then chained else parse_block (advance p) in
      if check else_kw p then other else ok (done, p)

  unfoldable pub if_level : Parses (Expr D) → Parses (Stmts D) → Parses (Stmt D) → Parses (Stmt D)
  if_level expression parse_block if_statement p =
      let kw = p.current in
      expect lparen (codes "'(' after if") (advance p) >>= λ (opening, q).
      expression q >>= λ (condition, r).
      expect rparen (codes "')' after if condition") r >>= λ (closing, s).
      parse_block s >>= λ (then_branch, t).
      else_branch parse_block if_statement t >>= λ (otherwise, u).
      ok (if_stmt condition then_branch otherwise kw.line kw.col, u)

module _ {D : Type 0} (stod : Bytes → Option D) where
  unfoldable mutual
    pub parse_expression : ℕ → Parses (Expr D)
    parse_expression zero p = out_of_fuel
    parse_expression (suc f) p = parse_or stod (parse_expression f) (parse_block f) p

    pub parse_block : ℕ → Parses (Stmts D)
    parse_block zero p = out_of_fuel
    parse_block (suc f) p = block_level (statement_level (parse_expression f) (parse_if f)) p

    pub parse_if : ℕ → Parses (Stmt D)
    parse_if zero p = out_of_fuel
    parse_if (suc f) p = if_level (parse_expression f) (parse_block f) (parse_if f) p

  unfoldable pub parse_statement : ℕ → Parses (Stmt D)
  parse_statement f = statement_level (parse_expression f) (parse_if f)

  -- The statements up to END_OF_FILE.
  unfoldable pub parse_program : Parser → Outcome ParseError (Stmts D × Parser)
  parse_program p =
      statements_loop (check end_of_file) (parse_statement (suc (tokens_left p)))
        (suc (tokens_left p)) p
