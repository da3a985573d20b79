-- ===== src/Parser/Total.antt =====
-- The parser ends on every sequence of tokens that END_OF_FILE ends: each statement takes a token,
-- so the fuel that the tokens give is enough for every loop and for the recursion.
use zero_trust_public.Base.{
  ℕ, zero, suc, ◌<◌, ◌≡◌, Bool, true, not, ◌&&◌, List, ◌∷◌, Bytes, Option, ok, arith, Bool-cases,
  inl, inr, Ensures, holds, Ensures-bind, Ensures-if, Ensures-mono, Ensures-ok,
}
use zero_trust_public.Lexer.{
  string, ident, include_kw, if_kw, else_kw, return_kw, lparen, rparen, lbrace, rbrace, semicolon,
  assign, end_of_file, Token,
}
use zero_trust_public.Lexer.Scan.{tokenize}
use zero_trust_public.Lexer.Total.{tokenize-IsTerminated}
use zero_trust_public.Parser.{
  Expr, Stmt, Stmts, same_type, Parser, Parses, peek_1, advance, check, skip_if,
}
use zero_trust_public.Parser.Expressions.{tokens_left}
use zero_trust_public.Parser.Statements.{
  ends_block, parse_include, parse_return, parse_assignment, parse_expr_stmt, statement_level,
  statements_loop, block_level, else_branch, if_level, parse_expression, parse_block, parse_if,
  parse_statement, parse_program,
}
use zero_trust_public.Parser.Taking.{
  Ends, Left, advance-Left, advance_twice, Takes, Leaves, Leaves-mono, expect-Leaves,
}
use zero_trust_public.Parser.Operands.{parse_or-Takes}

-- The same as `Takes`, where the current token is an `if`.
abbrev IfTakes : {A : Type 0} → ℕ → Parses A → Type 0
IfTakes n q =
    (p : Parser) → check if_kw p ≡ true → Left n p → Ensures (λ r. Left (tokens_left p) r.1) (q p)

skip_if-Left : (m : ℕ) (p : Parser) → Left m p → Left m (skip_if semicolon p)
unfolding skip_if
skip_if-Left m p h = elim (Bool-cases (check semicolon p)) [
  | inl c ↦ rw c (let q = advance-Left semicolon p tt h.1 c in (omega arith, q.1))
  | inr c ↦ rw c h
]

module _ {D : Type 0} where
  parse_include-Leaves :
      (p : Parser)
      → Ends p
      → check include_kw p ≡ true
      → Leaves (tokens_left p) (parse_include {D = D} p)
  unfolding parse_include
  parse_include-Leaves p e c =
      let k = advance-Left include_kw p tt e c in
      Ensures-bind (expect-Leaves lparen _ (advance p) tt k.1) λ (opening, q) a.
        Ensures-bind (expect-Leaves string _ q tt a.1) λ (name, r) b.
          Ensures-bind (expect-Leaves rparen _ r tt b.1)
            λ (closing, s) d. holds (skip_if-Left (tokens_left p) s (omega arith, d.1))

module _ {D : Type 0} (n : ℕ) (expression : Parses (Expr D)) (takes : Takes n expression) where
  parse_return-Leaves :
      (p : Parser)
      → Left (suc n) p
      → check return_kw p ≡ true
      → Leaves (tokens_left p) (parse_return expression p)
  unfolding parse_return
  parse_return-Leaves p e c =
      let k = advance-Left return_kw p tt e.1 c in
      Ensures-if
        (not (check semicolon (advance p))
          && (not (check rbrace (advance p)) && not (check end_of_file (advance p))))
        (λ _.
          Ensures-bind (takes (advance p) (omega arith, k.1))
            λ (x, r) a. holds (skip_if-Left (tokens_left p) r (omega arith, a.1)))
        (λ _. holds (skip_if-Left (tokens_left p) (advance p) k))

  parse_assignment-Leaves :
      (p : Parser)
      → Left (suc n) p
      → (check ident p && same_type (peek_1 p).type assign) ≡ true
      → Leaves (tokens_left p) (parse_assignment expression p)
  unfolding parse_assignment
  parse_assignment-Leaves p e c =
      let k = advance_twice ident assign p tt tt e.1 c in
      Ensures-bind (takes (advance (advance p)) (omega arith, k.1))
        λ (x, r) a. holds (skip_if-Left (tokens_left p) r (omega arith, a.1))

  parse_expr_stmt-Takes : Takes n (parse_expr_stmt expression)
  unfolding parse_expr_stmt
  parse_expr_stmt-Takes p e =
      Ensures-bind (takes p e) λ (x, r) a. holds (skip_if-Left (tokens_left p) r a)

  statement_level-Takes :
      (if_statement : Parses (Stmt D))
      → IfTakes n if_statement
      → Takes n (statement_level expression if_statement)
  unfolding statement_level
  statement_level-Takes if_statement h p e =
      Ensures-if (check include_kw p) (λ c. parse_include-Leaves p e.1 c)
        (λ _.
          Ensures-if (check if_kw p) (λ c. h p c e)
            (λ _.
              Ensures-if (check return_kw p) (λ c. parse_return-Leaves p (omega arith, e.1) c)
                (λ _.
                  Ensures-if (check ident p && same_type (peek_1 p).type assign)
                    (λ c. parse_assignment-Leaves p (omega arith, e.1) c)
                    (λ _. parse_expr_stmt-Takes p e))))

module _ {D : Type 0} (n : ℕ) where
  -- The loop stops only where its test holds.
  statements_loop-Ensures :
      (stops : Parser → Bool) (statement : Parses (Stmt D))
      → Takes n statement
      → (f m : ℕ) (p : Parser) → tokens_left p < f
      → tokens_left p < m
      → Left n p
      → Ensures (λ r. (stops r.1 ≡ true) × Left m r.1) (statements_loop stops statement f p)
  unfolding statements_loop
  statements_loop-Ensures stops statement h zero m p k l e = absurd (omega arith)
  statements_loop-Ensures stops statement h (suc f) m p k l e =
      Ensures-if (stops p) (λ c. holds (c, (l, e.1)))
        (λ _. Ensures-bind (h p e) λ (s, q) a.
          Ensures-bind
            (statements_loop-Ensures stops statement h f m q (omega arith) (omega arith)
              (omega arith, a.1))
            λ (ss, r) b. holds b)

  block_level-Takes :
      (statement : Parses (Stmt D)) → Takes n statement → Takes (suc n) (block_level statement)
  unfolding block_level
  block_level-Takes statement h p e =
      Ensures-bind (expect-Leaves lbrace _ p tt e.1) λ (opening, q) a.
        Ensures-bind
          (statements_loop-Ensures ends_block statement h (suc (tokens_left q)) (tokens_left p) q
            (omega arith) a.0 (omega arith, a.1))
          λ (body, r) b.
            Ensures-bind (expect-Leaves rbrace _ r tt b.1.1)
              λ (closing, s) c. holds (omega (arith, b.1.0), c.1)

module _ {D : Type 0} (n : ℕ) (expression : Parses (Expr D)) (takes : Takes n expression)
    (block : Parses (Stmts D)) (takes_block : Takes n block) (if_statement : Parses (Stmt D))
    (takes_if : IfTakes n if_statement) where
  else_branch-Leaves :
      (m : ℕ) (p : Parser)
      → tokens_left p < m
      → Left n p
      → Leaves m (else_branch block if_statement p)
  unfolding else_branch
  else_branch-Leaves m p l e =
      Ensures-if (check else_kw p)
        (λ c.
          let k = advance-Left else_kw p tt e.1 c in
          Ensures-if (check if_kw (advance p))
            (λ d.
              Ensures-bind (takes_if (advance p) d (omega arith, k.1))
                λ (s, q) a. holds (omega arith, a.1))
            (λ _.
              Leaves-mono (tokens_left (advance p)) m _ (omega arith)
                (takes_block (advance p) (omega arith, k.1))))
        (λ _. holds (l, e.1))

  if_level-Takes : IfTakes (suc n) (if_level expression block if_statement)
  unfolding if_level
  if_level-Takes p c e =
      let k = advance-Left if_kw p tt e.1 c in
      Ensures-bind (expect-Leaves lparen _ (advance p) tt k.1) λ (opening, q) a.
        Ensures-bind (takes q (omega arith, a.1)) λ (condition, r) b.
          Ensures-bind (expect-Leaves rparen _ r tt b.1) λ (closing, s) d.
            Ensures-bind (takes_block s (omega arith, d.1)) λ (then_branch, t) g.
              Ensures-bind (else_branch-Leaves (tokens_left p) t (omega arith) (omega arith, g.1))
                λ (otherwise, u) i. holds i

module _ {D : Type 0} (stod : Bytes → Option D) where
  mutual
    unfolding parse_expression

    parse_expression-Takes : (f : ℕ) → Takes f (parse_expression stod f)
    parse_expression-Takes zero p e = absurd (omega (arith, e.0))
    parse_expression-Takes (suc f) p e =
        parse_or-Takes stod f (parse_expression stod f) (parse_expression-Takes f)
          (parse_block stod f) (parse_block-Takes f) p e

    parse_block-Takes : (f : ℕ) → Takes f (parse_block stod f)
    parse_block-Takes zero p e = absurd (omega (arith, e.0))
    parse_block-Takes (suc f) p e =
        block_level-Takes f (statement_level (parse_expression stod f) (parse_if stod f))
          (statement_level-Takes f (parse_expression stod f) (parse_expression-Takes f)
            (parse_if stod f) (parse_if-Takes f))
          p e

    parse_if-Takes : (f : ℕ) → IfTakes f (parse_if stod f)
    parse_if-Takes zero p c e = absurd (omega (arith, e.0))
    parse_if-Takes (suc f) p c e =
        if_level-Takes f (parse_expression stod f) (parse_expression-Takes f) (parse_block stod f)
          (parse_block-Takes f) (parse_if stod f) (parse_if-Takes f) p c e

  -- On tokens of which the last, and no other, is END_OF_FILE, the parser ends: with an error, or
  -- with the whole program, that is at END_OF_FILE.
  parse_program_total :
      (p : Parser) → Ends p → Ensures (λ r. check end_of_file r.1 ≡ true) (parse_program stod p)
  unfolding parse_program parse_statement
  parse_program_total p e =
      Ensures-mono
        (statements_loop-Ensures (suc (tokens_left p)) (check end_of_file)
          (parse_statement stod (suc (tokens_left p)))
          (statement_level-Takes (suc (tokens_left p)) (parse_expression stod (suc (tokens_left p)))
            (parse_expression-Takes (suc (tokens_left p))) (parse_if stod (suc (tokens_left p)))
            (parse_if-Takes (suc (tokens_left p))))
          (suc (tokens_left p)) (suc (tokens_left p)) p (omega arith) (omega arith)
          (omega arith, e))
        (λ r h. h.0)

  -- Whatever text is read, if the lexer accepts it then the parser ends on its tokens: with an
  -- error, or with the whole program, that is at END_OF_FILE.
  pub tokenize-parse_program :
      (src : Bytes) (t : Token) (ts : List Token)
      → tokenize src ≡ ok (t ∷ ts)
      → Ensures
          (λ r. check end_of_file r.1 ≡ true)
          (parse_program stod (record { current = t; following = ts }))
  tokenize-parse_program src t ts e =
      parse_program_total (record { current = t; following = ts })
        (Ensures-ok (tokenize-IsTerminated src) e)
