-- ===== src/Interpreter.antt =====
-- src/ztl/interpreter.cpp: the evaluation of expressions and the execution of statements, by recursion
-- on the program. What a native function does is an argument: the function of each reference, which
-- reaches the globals, the objects and the world, and runs a block over the globals.
pub mod Strings
pub mod Operators
pub mod Purity
pub mod Induction
pub mod Scoping
pub mod Algebra
pub mod Meaning
use zero_trust_public.Base.{
  ℕ, Bool, true, false, not, ◌&&◌, ◌||◌, List, [], ◌∷◌, ◌++◌, Bytes, codes, bytes_eq, is_empty,
  if◌then◌else◌, Option, none, some,
}
use zero_trust_public.Parser.{
  Expr, literal_null, literal_bool, literal_number, literal_string, identifier, member_access,
  scoped_access, call, unary_op, binary_op, CallArgs, no_args, arg, MaybeBlock, no_block, block,
  MaybeExpr, no_value, value, Stmt, expr_stmt, assign_stmt, if_stmt, return_stmt, include_stmt,
  Stmts, done, stmt,
}
use zero_trust_public.Runtime.{
  Value, null, boolean, double, text, object, function, Vars, Object, Shared, Completion, normal,
  runtime_error, returned, thrown, Effect, CallContext, NativeFn, Numbers, put, find, lookup, has,
  define, assign, as_object, as_string, as_number, type_name_of, is_truthy, values_equal,
  value_to_string,
}
use zero_trust_public.Runtime.State.{
  State, Run, pure, fail, raise_return, continue, ◌>>=◌, with_locals, with_globals, chain,
  assign_in, assign_variable, read_variable, over_shared, in_scope, over_globals,
}
use Operators.{
  context, print_value, truth, need_number, compare_with, add_values, subtract_values, binary_value,
  negate_value, unary_value, object_member, member_of, call_native, object_method, invoke_method,
  invoke_function,
}

-- `e.line` and `e.col`.
unfoldable pub place_of : {D : Type 0} → Expr D → ℕ × ℕ
place_of (literal_null line col) = (line, col)
place_of (literal_bool _ line col) = (line, col)
place_of (literal_number _ line col) = (line, col)
place_of (literal_string _ line col) = (line, col)
place_of (identifier _ line col) = (line, col)
place_of (member_access _ _ line col) = (line, col)
place_of (scoped_access _ _ line col) = (line, col)
place_of (call _ _ _ line col) = (line, col)
place_of (unary_op _ _ line col) = (line, col)
place_of (binary_op _ _ _ line col) = (line, col)

module _ {D W : Type 0} (num : Numbers D) (natives : ℕ → NativeFn D W) where
  -- What `&&` and `||` do behind the left side.
  pub if_truthy : Value D → Run D W (Value D) → Run D W (Value D) → Run D W (Value D)
  unfolding is_truthy
  if_truthy v there behind = if is_truthy num v then there else behind

  pub unless_empty : Stmts D → Run D W Unit → Run D W Unit
  unfolding pure
  unless_empty done run = pure tt
  unless_empty (stmt _ _) run = run

  unfoldable mutual
    unfolding pure raise_return read_variable over_globals in_scope ◌>>=◌ assign_variable if_truthy
        unless_empty

    pub eval_expr : Expr D → Run D W (Value D)
    eval_expr (literal_null _ _) = pure null
    eval_expr (literal_bool b _ _) = pure (boolean b)
    eval_expr (literal_number n _ _) = pure (double n)
    eval_expr (literal_string s _ _) = pure (text s)
    eval_expr (identifier name line col) =
        read_variable (codes "undefined identifier '") name line col
    eval_expr (scoped_access scope name line col) =
        read_variable (codes "undefined scoped name '") (scope ++ (codes "::" ++ name)) line col
    eval_expr (member_access subject member _ _) = eval_expr subject >>= λ receiver.
        member_of num natives receiver member (place_of subject).0 (place_of subject).1
    eval_expr (call (member_access subject method _ _) args body line col) =
        eval_args args [] [] >>= λ given. eval_expr subject >>= λ receiver.
        invoke_method num natives method (context receiver given (block_effect body) line col)
    eval_expr (call callee args body line col) = eval_args args [] [] >>= λ given.
        eval_expr callee >>= λ f.
        invoke_function num natives f (context null given (block_effect body) line col)
    eval_expr (unary_op op operand line col) =
        eval_expr operand >>= λ v. unary_value num natives op v line col
    eval_expr (binary_op op lhs rhs line col) =
        if bytes_eq op (codes "&&")
        then (eval_expr lhs >>= λ l. if_truthy l (eval_expr rhs) (pure l))
        else if bytes_eq op (codes "||")
        then (eval_expr lhs >>= λ l. if_truthy l (pure l) (eval_expr rhs))
        else (eval_expr lhs >>= λ l.
            eval_expr rhs >>= λ r. binary_value num natives op l r line col)

    -- The arguments of a call, with those that came before.
    pub eval_args : CallArgs D → List (Value D) → Vars D → Run D W (List (Value D) × Vars D)
    eval_args no_args pos named = pure (pos, named)
    eval_args (arg name e args) pos named = eval_expr e >>= λ v.
        if is_empty name
        then eval_args args (pos ++ (v ∷ [])) named
        else eval_args args pos (put name v named)

    -- The block of a call, for the native function.
    pub block_effect : MaybeBlock D → Option (Effect D W Unit)
    block_effect no_block = none
    block_effect (block body) = some (over_globals (exec_stmts body))

    pub exec_stmt : Stmt D → Run D W Unit
    exec_stmt (include_stmt _ _ _) = pure tt
    exec_stmt (expr_stmt e _ _) = eval_expr e >>= λ _. pure tt
    exec_stmt (assign_stmt name e _ _) = eval_expr e >>= λ v. assign_variable name v
    exec_stmt (if_stmt condition then_branch else_branch _ _) = eval_expr condition >>= λ cond.
        if is_truthy num cond
        then in_scope (exec_stmts then_branch)
        else unless_empty else_branch (in_scope (exec_stmts else_branch))
    exec_stmt (return_stmt no_value _ _) = raise_return null
    exec_stmt (return_stmt (value e) _ _) = eval_expr e >>= λ v. raise_return v

    pub exec_stmts : Stmts D → Run D W Unit
    exec_stmts done = pure tt
    exec_stmts (stmt s rest) = exec_stmt s >>= λ _. exec_stmts rest

  -- The calls of it by the functions of the block are written out there.
  unfoldable pub exec_block : Stmts D → Run D W Unit
  unfolding exec_stmts in_scope
  exec_block body = in_scope (exec_stmts body)

  -- In the globals, without a scope.
  unfoldable pub run_program : Stmts D → Effect D W Unit
  unfolding exec_stmts
  run_program p shared =
      let result = exec_stmts p (record { locals = []; shared = shared }) in
      (result.0, result.1.shared)
