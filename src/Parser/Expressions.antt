-- ===== src/Parser/Expressions.antt =====
-- src/ztl/parser.cpp: the expression levels, from parse_or down to parse_primary. The calls that go
-- back to the top, parse_expression and parse_block, are arguments here; Parser/Statements passes
-- them in. A loop gets as much fuel as tokens are left (Parser/Total shows it to be enough).
use zero_trust_public.Base.{
  ℕ, zero, suc, Bool, true, false, ◌&&◌, ◌||◌, [], ◌++◌, Bytes, codes, if◌then◌else◌, Option, none,
  some, ok, err, out_of_fuel, ◌>>=◌, length,
}
use zero_trust_public.Lexer.{
  number, string, ident, true_kw, false_kw, null_kw, lparen, rparen, lbrace, comma, colon, scope,
  dot, eq, neq, lt, gt, lte, gte, bang, and, or, plus, minus, end_of_file,
}
use zero_trust_public.Parser.{
  Expr, literal_null, literal_bool, literal_number, literal_string, identifier, member_access,
  scoped_access, call, unary_op, binary_op, CallArgs, no_args, arg, MaybeBlock, no_block, block,
  Stmts, same_type, Parser, parse_error, out_of_range, Parses, peek_1, advance, check, expect,
}

-- The tokens that are left, the last one included.
abbrev pub tokens_left : Parser → ℕ
tokens_left p = suc (length p.following)

module _ {D : Type 0} (stod : Bytes → Option D) where
  unfoldable pub number_token : Option D → Parses (Expr D)
  number_token none p = err out_of_range
  number_token (some d) p = ok (literal_number d p.current.line p.current.col, advance p)

  unfoldable pub parse_primary : Parses (Expr D) → Parses (Expr D)
  unfolding number_token
  parse_primary expression p =
      let t = p.current in
      let q = advance p in
      let scoped = expect ident (codes "name after '::'") (advance q) >>= λ (name, r).
      ok (scoped_access t.text name.text t.line t.col, r) in
      let grouped =
        expression q >>= λ (e, r). expect rparen (codes "')'") r >>= λ (closing, s). ok (e, s) in
      if check number p
      then number_token (stod t.text) p
      else if check string p
      then ok (literal_string t.text t.line t.col, q)
      else if check true_kw p
      then ok (literal_bool true t.line t.col, q)
      else if check false_kw p
      then ok (literal_bool false t.line t.col, q)
      else if check null_kw p
      then ok (literal_null t.line t.col, q)
      else if check ident p
      then if check scope q then scoped else ok (identifier t.text t.line t.col, q)
      else if check lparen p
      then grouped
      else err (parse_error (codes "unexpected token '" ++ (t.text ++ codes "'")) t.line t.col)

-- The name of an argument, empty if it is positional, and the parser behind it.
unfoldable pub arg_name : Parser → Bytes × Parser
arg_name p =
    if check ident p && same_type (peek_1 p).type colon
    then (p.current.text, advance (advance p))
    else ([], p)

module _ {D : Type 0} where
  unfoldable pub args_loop : Parses (Expr D) → ℕ → Parses (CallArgs D)
  args_loop expression zero p = out_of_fuel
  args_loop expression (suc f) p =
      let (name, q) = arg_name p in
      let one = expression q >>= λ (e, r).
      let rest = args_loop expression f (advance r) >>= λ (args, s). ok (arg name e args, s) in
      if check comma r then rest else ok (arg name e no_args, r) in
      if check rparen p || check end_of_file p then ok (no_args, p) else one

  unfoldable pub parse_call_args : Parses (Expr D) → Parses (CallArgs D)
  parse_call_args expression p = expect lparen (codes "'('") p >>= λ (opening, q).
      args_loop expression (suc (tokens_left q)) q >>= λ (args, r).
      expect rparen (codes "')'") r >>= λ (closing, s). ok (args, s)

  -- The trailing block of a call, if one follows.
  unfoldable pub maybe_block : Parses (Stmts D) → Parses (MaybeBlock D)
  maybe_block parse_block p =
      let found = parse_block p >>= λ (body, q). ok (block body, q) in
      if check lbrace p then found else ok (no_block, p)

  -- The loop of `parse_postfix`.
  unfoldable pub postfix_loop : Parses (Expr D) → Parses (Stmts D) → ℕ → Expr D → Parses (Expr D)
  postfix_loop expression parse_block zero node p = out_of_fuel
  postfix_loop expression parse_block (suc f) node p =
      let t = p.current in
      let member = expect ident (codes "member name after '.'") (advance p) >>= λ (name, q).
      postfix_loop expression parse_block f (member_access node name.text t.line t.col) q in
      let called = parse_call_args expression p >>= λ (args, q).
      maybe_block parse_block q >>= λ (b, r).
      postfix_loop expression parse_block f (call node args b t.line t.col) r in
      let implicit_call = parse_block p >>= λ (body, q).
      postfix_loop expression parse_block f (call node no_args (block body) t.line t.col) q in
      if check dot p
      then member
      else if check lparen p
      then called
      else if check lbrace p
      then implicit_call
      else ok (node, p)

  unfoldable pub unary_loop : Parses (Expr D) → ℕ → Parses (Expr D)
  unary_loop postfix zero p = out_of_fuel
  unary_loop postfix (suc f) p =
      let t = p.current in
      let prefixed =
        unary_loop postfix f (advance p) >>= λ (e, q). ok (unary_op t.text e t.line t.col, q) in
      if check bang p || check minus p then prefixed else postfix p

  -- The loop that the five binary levels share: operands of the next level, grouped to the left.
  unfoldable pub left_loop : (Parser → Bool) → Parses (Expr D) → ℕ → Expr D → Parses (Expr D)
  left_loop is_operator operand zero lhs p = out_of_fuel
  left_loop is_operator operand (suc f) lhs p =
      let t = p.current in
      let more = operand (advance p) >>= λ (rhs, q).
      left_loop is_operator operand f (binary_op t.text lhs rhs t.line t.col) q in
      if is_operator p then more else ok (lhs, p)

  unfoldable pub binary_level : (Parser → Bool) → Parses (Expr D) → Parses (Expr D)
  binary_level is_operator operand p =
      operand p >>= λ (lhs, q). left_loop is_operator operand (suc (tokens_left q)) lhs q

abbrev pub is_additive : Parser → Bool
is_additive p = check plus p || check minus p

abbrev pub is_comparison : Parser → Bool
is_comparison p = check lt p || (check gt p || (check lte p || check gte p))

abbrev pub is_equality : Parser → Bool
is_equality p = check eq p || check neq p

module _ {D : Type 0} (stod : Bytes → Option D) (expression : Parses (Expr D))
    (parse_block : Parses (Stmts D)) where
  unfoldable pub parse_postfix : Parses (Expr D)
  parse_postfix p = parse_primary stod expression p >>= λ (node, q).
      postfix_loop expression parse_block (suc (tokens_left q)) node q

  unfoldable pub parse_unary : Parses (Expr D)
  parse_unary p = unary_loop parse_postfix (suc (tokens_left p)) p

  unfoldable pub parse_additive : Parses (Expr D)
  parse_additive = binary_level is_additive parse_unary

  unfoldable pub parse_comparison : Parses (Expr D)
  parse_comparison = binary_level is_comparison parse_additive

  unfoldable pub parse_equality : Parses (Expr D)
  parse_equality = binary_level is_equality parse_comparison

  unfoldable pub parse_and : Parses (Expr D)
  parse_and = binary_level (check and) parse_equality

  unfoldable pub parse_or : Parses (Expr D)
  parse_or = binary_level (check or) parse_and
