-- ===== src/Parser/Operands.antt =====
-- Every expression level takes a token or fails, if the calls back to the top do so on what is left
-- behind a token.
use zero_trust_public.Base.{
  ℕ, zero, suc, ◌<◌, ◌&&◌, ◌||◌, Bytes, Option, none, some, arith, Bool-cases, inl, inr, holds,
  raised, Ensures-bind, Ensures-if,
}
use zero_trust_public.Lexer.{
  number, string, ident, true_kw, false_kw, null_kw, lparen, rparen, lbrace, comma, colon, scope,
  dot, eq, neq, lt, gt, lte, gte, and, or, plus, minus, end_of_file,
}
use zero_trust_public.Parser.{Expr, Stmts, same_type, Parser, Parses, peek_1, advance, check}
use zero_trust_public.Parser.Expressions.{
  tokens_left, number_token, parse_primary, arg_name, args_loop, parse_call_args, maybe_block,
  postfix_loop, is_additive, is_comparison, is_equality, parse_postfix, parse_unary, parse_additive,
  parse_comparison, parse_equality, parse_and, parse_or,
}
use zero_trust_public.Parser.Taking.{
  Ends, Left, advance-Left, advance_twice, Takes, Leaves, expect-Leaves, TestsReal, check-TestsReal,
  or-TestsReal, binary_level-Takes, unary_loop-Leaves,
}

module _ {D : Type 0} (stod : Bytes → Option D) (n : ℕ) (expression : Parses (Expr D))
    (takes : Takes n expression) where
  number_token-Leaves :
      (o : Option D) (p : Parser)
      → Left (tokens_left p) (advance p)
      → Leaves (tokens_left p) (number_token stod o p)
  unfolding number_token
  number_token-Leaves none p h = raised
  number_token-Leaves (some d) p h = holds h

  parse_primary-Takes : Takes (suc n) (parse_primary stod expression)
  unfolding parse_primary
  parse_primary-Takes p e =
      Ensures-if (check number p)
        (λ c. number_token-Leaves (stod p.current.text) p (advance-Left number p tt e.1 c))
        (λ _.
          Ensures-if (check string p) (λ c. holds (advance-Left string p tt e.1 c))
            (λ _.
              Ensures-if (check true_kw p) (λ c. holds (advance-Left true_kw p tt e.1 c))
                (λ _.
                  Ensures-if (check false_kw p) (λ c. holds (advance-Left false_kw p tt e.1 c))
                    (λ _.
                      Ensures-if (check null_kw p) (λ c. holds (advance-Left null_kw p tt e.1 c))
                        (λ _.
                          Ensures-if (check ident p)
                            (λ c.
                              let q = advance-Left ident p tt e.1 c in
                              Ensures-if (check scope (advance p))
                                (λ c'.
                                  let r = advance-Left scope (advance p) tt q.1 c' in
                                  Ensures-bind (expect-Leaves ident _ (advance (advance p)) tt r.1)
                                    λ (name, s) k. holds (omega arith, k.1))
                                (λ _. holds q))
                            (λ _.
                              Ensures-if (check lparen p)
                                (λ c.
                                  let q = advance-Left lparen p tt e.1 c in
                                  Ensures-bind (takes (advance p) (omega arith, q.1)) λ (x, r) k.
                                    Ensures-bind (expect-Leaves rparen _ r tt k.1)
                                      λ (y, s) l. holds (omega arith, l.1))
                                (λ _. raised)))))))

  arg_name-Left : (p : Parser) → Ends p → Left (suc (tokens_left p)) (arg_name p).1
  unfolding arg_name
  arg_name-Left p e = elim (Bool-cases (check ident p && same_type (peek_1 p).type colon)) [
    | inl c ↦ rw c (let q = advance_twice ident colon p tt tt e c in (omega arith, q.1))
    | inr c ↦ rw c (omega arith, e)
  ]

  args_loop-Leaves :
      (f m : ℕ) (p : Parser)
      → tokens_left p < f
      → tokens_left p < m
      → Left n p
      → Leaves m (args_loop expression f p)
  unfolding args_loop
  args_loop-Leaves zero m p k l e = absurd (omega arith)
  args_loop-Leaves (suc f) m p k l e =
      let named = arg_name-Left p e.1 in
      Ensures-if (check rparen p || check end_of_file p) (λ _. holds (l, e.1))
        (λ _. Ensures-bind (takes (arg_name p).1 (omega arith, named.1)) λ (x, r) s.
          Ensures-if (check comma r)
            (λ c.
              let q = advance-Left comma r tt s.1 c in
              Ensures-bind
                (args_loop-Leaves f m (advance r) (omega arith) (omega arith) (omega arith, q.1))
                λ (args, t) u. holds u)
            (λ _. holds (omega arith, s.1)))

  parse_call_args-Takes :
      (p : Parser) → Left (suc n) p → Leaves (tokens_left p) (parse_call_args expression p)
  unfolding parse_call_args
  parse_call_args-Takes p e = Ensures-bind (expect-Leaves lparen _ p tt e.1) λ (opening, q) a.
      Ensures-bind
        (args_loop-Leaves (suc (tokens_left q)) (tokens_left p) q (omega arith) a.0
          (omega arith, a.1))
        λ (args, r) b.
          Ensures-bind (expect-Leaves rparen _ r tt b.1) λ (closing, s) c. holds (omega arith, c.1)

module _ {D : Type 0} (stod : Bytes → Option D) (n : ℕ) (expression : Parses (Expr D))
    (takes : Takes n expression) (parse_block : Parses (Stmts D))
    (takes_block : Takes n parse_block) where
  maybe_block-Leaves :
      (m : ℕ) (p : Parser) → tokens_left p < m → Left n p → Leaves m (maybe_block parse_block p)
  unfolding maybe_block
  maybe_block-Leaves m p k e =
      Ensures-if (check lbrace p)
        (λ _. Ensures-bind (takes_block p e) λ (body, q) s. holds (omega arith, s.1))
        (λ _. holds (k, e.1))

  postfix_loop-Leaves :
      (f m : ℕ) (node : Expr D) (p : Parser)
      → tokens_left p < f
      → tokens_left p < m
      → Left n p
      → Leaves m (postfix_loop expression parse_block f node p)
  unfolding postfix_loop
  postfix_loop-Leaves zero m node p k l e = absurd (omega arith)
  postfix_loop-Leaves (suc f) m node p k l e =
      Ensures-if (check dot p)
        (λ c.
          let q = advance-Left dot p tt e.1 c in
          Ensures-bind (expect-Leaves ident _ (advance p) tt q.1) λ (name, r) a.
            postfix_loop-Leaves f m _ r (omega arith) (omega arith) (omega arith, a.1))
        (λ _.
          Ensures-if (check lparen p)
            (λ _.
              Ensures-bind (parse_call_args-Takes stod n expression takes p (omega arith, e.1))
                λ (args, q) a.
                  Ensures-bind (maybe_block-Leaves (tokens_left p) q a.0 (omega arith, a.1))
                    λ (b, r) c.
                      postfix_loop-Leaves f m _ r (omega arith) (omega arith) (omega arith, c.1))
            (λ _.
              Ensures-if (check lbrace p)
                (λ _. Ensures-bind (takes_block p e) λ (body, q) a.
                  postfix_loop-Leaves f m _ q (omega arith) (omega arith) (omega arith, a.1))
                (λ _. holds (l, e.1))))

  parse_postfix-Takes : Takes (suc n) (parse_postfix stod expression parse_block)
  unfolding parse_postfix
  parse_postfix-Takes p e =
      Ensures-bind (parse_primary-Takes stod n expression takes p e) λ (node, q) a.
        postfix_loop-Leaves (suc (tokens_left q)) (tokens_left p) node q (omega arith) a.0
          (omega arith, a.1)

  parse_unary-Takes : Takes (suc n) (parse_unary stod expression parse_block)
  unfolding parse_unary
  parse_unary-Takes p e =
      unary_loop-Leaves (suc n) (parse_postfix stod expression parse_block) parse_postfix-Takes
        (suc (tokens_left p)) p (omega arith) e

  additive_real : TestsReal is_additive
  additive_real =
      or-TestsReal (check plus) (check minus) (check-TestsReal plus tt) (check-TestsReal minus tt)

  comparison_real : TestsReal is_comparison
  comparison_real =
      or-TestsReal (check lt) (λ p. check gt p || (check lte p || check gte p))
        (check-TestsReal lt tt)
        (or-TestsReal (check gt) (λ p. check lte p || check gte p) (check-TestsReal gt tt)
          (or-TestsReal (check lte) (check gte) (check-TestsReal lte tt) (check-TestsReal gte tt)))

  equality_real : TestsReal is_equality
  equality_real =
      or-TestsReal (check eq) (check neq) (check-TestsReal eq tt) (check-TestsReal neq tt)

  -- The whole chain of expression levels.
  pub parse_or-Takes : Takes (suc n) (parse_or stod expression parse_block)
  unfolding parse_or parse_and parse_equality parse_comparison parse_additive
  parse_or-Takes = binary_level-Takes (suc n) (check or) _ (check-TestsReal or tt) (
      binary_level-Takes (suc n) (check and) _ (check-TestsReal and tt) (
        binary_level-Takes (suc n) is_equality _ equality_real (
          binary_level-Takes (suc n) is_comparison _ comparison_real
            (binary_level-Takes (suc n) is_additive _ additive_real parse_unary-Takes))))
