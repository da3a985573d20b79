-- ===== src/Interpreter/Induction.antt =====
-- What expressions and statements keep of a state, by induction on the program. For instance, expressions
-- change no environment inside the globals.
use zero_trust_public.Base.{
  ℕ, List, [], ◌∷◌, ◌++◌, Bytes, codes, bytes_eq, is_empty, Option, none, some, ◌≡◌, refl,
}
use zero_trust_public.Parser.{
  Expr, literal_null, literal_bool, literal_number, literal_string, identifier, member_access,
  scoped_access, call, unary_op, binary_op, CallArgs, no_args, arg, MaybeBlock, no_block, block,
  no_value, value, Stmt, expr_stmt, assign_stmt, if_stmt, return_stmt, include_stmt, Stmts, done,
  stmt,
}
use zero_trust_public.Runtime.{Value, null, Vars, Effect, NativeFn, Numbers, is_truthy, put}
use zero_trust_public.Runtime.State.{
  State, Run, over_shared, over_globals, in_scope, assign_variable,
}
use zero_trust_public.Interpreter.Operators.{context, call_native}
use zero_trust_public.Interpreter.{
  place_of, eval_expr, eval_args, block_effect, exec_stmt, exec_stmts,
}
use zero_trust_public.Interpreter.Purity.{
  Keeps, Keeps-pure, Keeps-raise, Keeps-bind, Keeps-if, Keeps-Pure, CallsKeep, variable-Pure,
  member-Pure, invoke_method-Keeps, invoke_function-Keeps, unary_value-Pure, truthy-Keeps,
  binary_value-Pure, unless_empty-Keeps,
}

module _ {D W : Type 0} (num : Numbers D) (natives : ℕ → NativeFn D W) where
  -- What is to be known of a view of expressions, a view of statements and of the blocks of calls.
  module _ {B C : Type 0} (view : State D W → B) (outer : State D W → C)
      (Safe : Option (Effect D W Unit) → Type 0)
      (calls : (self : Value D) (given : List (Value D) × Vars D) (body : Option (Effect D W Unit))
          (line col : ℕ)
        → Safe body
        → CallsKeep num natives view (context self given body line col))
      (no_body : Safe none)
      (in_globals : (run : Run D W Unit) → Keeps outer run → Safe (some (over_globals run)))
      (weaken : (A : Type 0) (run : Run D W A) → Keeps view run → Keeps outer run)
      (assigns : (name : Bytes) (v : Value D) → Keeps {A = Unit} outer (assign_variable name v))
      (scoped : (run : Run D W Unit) → Keeps outer run → Keeps outer (in_scope run)) where
    -- Then expressions keep the one and statements the other.
    mutual
      unfolding eval_expr exec_stmt

      eval_expr-Keeps : (e : Expr D) → Keeps view (eval_expr num natives e)
      eval_expr-Keeps (literal_null _ _) = Keeps-pure _
      eval_expr-Keeps (literal_bool b _ _) = Keeps-pure _
      eval_expr-Keeps (literal_number n _ _) = Keeps-pure _
      eval_expr-Keeps (literal_string s _ _) = Keeps-pure _
      eval_expr-Keeps (identifier name line col) =
          Keeps-Pure (variable-Pure num natives (codes "undefined identifier '") name line col)
      eval_expr-Keeps (scoped_access scope name line col) = Keeps-Pure (
          variable-Pure num natives (codes "undefined scoped name '")
            (scope ++ (codes "::" ++ name)) line col)
      eval_expr-Keeps (member_access subject member _ _) =
          Keeps-bind (eval_expr-Keeps subject) (λ v.
            Keeps-Pure (member-Pure num natives v member (place_of subject).0 (place_of subject).1))
      eval_expr-Keeps (call (member_access subject method _ _) args body line col) =
          Keeps-bind (eval_args-Keeps args [] []) (λ given.
            Keeps-bind (eval_expr-Keeps subject) (λ v.
              invoke_method-Keeps num natives method v given (block_effect num natives body) line
                col (calls v given (block_effect num natives body) line col (body-Safe body))))
      eval_expr-Keeps (call callee args body line col) =
          Keeps-bind (eval_args-Keeps args [] []) (λ given.
            Keeps-bind (eval_expr-Keeps callee) (λ f.
              invoke_function-Keeps num natives f
                (context null given (block_effect num natives body) line col)
                (calls null given (block_effect num natives body) line col (body-Safe body))))
      eval_expr-Keeps (unary_op op operand line col) =
          Keeps-bind (eval_expr-Keeps operand)
            (λ v. Keeps-Pure (unary_value-Pure num natives op v line col))
      eval_expr-Keeps (binary_op op lhs rhs line col) =
          Keeps-if (bytes_eq op (codes "&&"))
            (Keeps-bind (eval_expr-Keeps lhs)
              (λ l. truthy-Keeps num natives l _ _ (eval_expr-Keeps rhs) (Keeps-pure l)))
            (Keeps-if (bytes_eq op (codes "||"))
              (Keeps-bind (eval_expr-Keeps lhs)
                (λ l. truthy-Keeps num natives l _ _ (Keeps-pure l) (eval_expr-Keeps rhs)))
              (Keeps-bind (eval_expr-Keeps lhs) (λ l.
                Keeps-bind (eval_expr-Keeps rhs)
                  (λ r. Keeps-Pure (binary_value-Pure num natives op l r line col)))))

      eval_args-Keeps :
          (args : CallArgs D) (pos : List (Value D)) (named : Vars D)
          → Keeps view (eval_args num natives args pos named)
      eval_args-Keeps no_args pos named = Keeps-pure _
      eval_args-Keeps (arg name e args) pos named = Keeps-bind (eval_expr-Keeps e) (λ v.
          Keeps-if (is_empty name) (eval_args-Keeps args (pos ++ (v ∷ [])) named)
            (eval_args-Keeps args pos (put name v named)))

      body-Safe : (body : MaybeBlock D) → Safe (block_effect num natives body)
      body-Safe no_block = no_body
      body-Safe (block body) = in_globals _ (exec_stmts-Keeps body)

      exec_stmt-Keeps : (s : Stmt D) → Keeps outer (exec_stmt num natives s)
      exec_stmt-Keeps (include_stmt _ _ _) = Keeps-pure _
      exec_stmt-Keeps (expr_stmt e _ _) =
          Keeps-bind (weaken _ _ (eval_expr-Keeps e)) (λ _. Keeps-pure _)
      exec_stmt-Keeps (assign_stmt name e _ _) =
          Keeps-bind (weaken _ _ (eval_expr-Keeps e)) (λ v. assigns name v)
      exec_stmt-Keeps (if_stmt condition then_branch else_branch _ _) =
          Keeps-bind (weaken _ _ (eval_expr-Keeps condition)) (λ cond.
            Keeps-if (is_truthy num cond) (scoped _ (exec_stmts-Keeps then_branch)) (
              unless_empty-Keeps num natives else_branch _
                (scoped _ (exec_stmts-Keeps else_branch))))
      exec_stmt-Keeps (return_stmt no_value _ _) = Keeps-raise null
      exec_stmt-Keeps (return_stmt (value e) _ _) =
          Keeps-bind (weaken _ _ (eval_expr-Keeps e)) (λ v. Keeps-raise v)

      pub exec_stmts-Keeps : (body : Stmts D) → Keeps outer (exec_stmts num natives body)
      exec_stmts-Keeps done = Keeps-pure _
      exec_stmts-Keeps (stmt s rest) = Keeps-bind (exec_stmt-Keeps s) (λ _. exec_stmts-Keeps rest)

  -- Running an expression, whatever it calls and however it ends, leaves the environments inside the
  -- globals as they are, provided that native functions work on the shared state only.
  eval_expr-locals :
      (e : Expr D) (st : State D W) → (eval_expr num natives e st).1.locals ≡ st.locals
  unfolding call_native over_shared
  eval_expr-locals e st =
      (eval_expr-Keeps (λ s. s.locals) (λ _. tt) (λ _. Unit)
          (λ self given body line col safe f. record { keeps = λ s. refl }) tt (λ run h. tt)
          (λ A run h. record { keeps = λ s. refl }) (λ name v. record { keeps = λ s. refl })
          (λ run h. record { keeps = λ s. refl }) e).keeps
        st
