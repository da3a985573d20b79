-- ===== src/Interpreter/Algebra.antt =====
-- How operators and assignments behave: the order of `!`, `&&` and `||`, and what an assignment does to
-- the names in sight.
use zero_trust_public.Base.{
  ℕ, not, Bytes, codes, bytes_eq, if◌then◌else◌, some, ◌≡◌, refl, Bool-cases, inl, inr,
}
use zero_trust_public.Parser.{Expr, unary_op, binary_op, assign_stmt}
use zero_trust_public.Runtime.{
  Value, boolean, Completion, normal, runtime_error, returned, thrown, NativeFn, Numbers, lookup,
  is_truthy,
}
use zero_trust_public.Runtime.State.{State, Run, pure, continue, ◌>>=◌, chain, assign_variable}
use zero_trust_public.Runtime.Scopes.{lookup-assign_in}
use zero_trust_public.Interpreter.Operators.{truth, unary_value}
use zero_trust_public.Interpreter.{if_truthy, eval_expr, exec_stmt}

module _ {D W : Type 0} (num : Numbers D) (natives : ℕ → NativeFn D W) where
  -- What `!` does behind the left side of `&&`, by the outcome of that side.
  not_and_after :
      (left : Completion D (Value D) × State D W) (right : Run D W (Value D)) (line col : ℕ)
      → continue
          (continue left (λ l. if_truthy num natives l right (pure l)))
          (λ v. pure (boolean (not (is_truthy num v))))
        ≡ continue (continue left (λ l. pure (boolean (not (is_truthy num l))))) (λ l.
          if_truthy num natives l (pure l) (right >>= λ v. pure (boolean (not (is_truthy num v)))))
  unfolding continue if_truthy pure ◌>>=◌ is_truthy
  not_and_after (normal l, st) right line col = elim (Bool-cases (is_truthy num l)) [
    | inl e ↦ rw e refl
    | inr e ↦ rw (e, e) refl
  ]
  not_and_after (runtime_error msg line' col', st) right line col = refl
  not_and_after (returned v, st) right line col = refl
  not_and_after (thrown msg, st) right line col = refl

  -- `!(a && b)` and `!a || !b` have the same outcome and the same effects in every state, whatever a and
  -- b do: b is run in the same cases.
  pub eval_expr-not_and :
      (a b : Expr D) (line col : ℕ) (st : State D W)
      → eval_expr num natives
          (unary_op (codes "!") (binary_op (codes "&&") a b line col) line col)
          st
        ≡ eval_expr num natives
            (binary_op
              (codes "||")
              (unary_op (codes "!") a line col)
              (unary_op (codes "!") b line col)
              line
              col)
            st
  unfolding eval_expr unary_value truth ◌>>=◌ bytes_eq
  eval_expr-not_and a b line col st =
      not_and_after (eval_expr num natives a st) (eval_expr num natives b) line col

  -- An assignment whose value is evaluated ends normally. Then the name has this value, wherever it is
  -- kept, and every other name in sight is as the evaluation left it.
  pub exec_stmt-lookup :
      (name key : Bytes) (e : Expr D) (line col : ℕ) (st st' : State D W) (v : Value D)
      → eval_expr num natives e st ≡ (normal v, st')
      → ((exec_stmt num natives (assign_stmt name e line col) st).0 ≡ normal tt)
        × (lookup key (chain (exec_stmt num natives (assign_stmt name e line col) st).1)
            ≡ (if bytes_eq name key then some v else lookup key (chain st')))
  unfolding exec_stmt assign_variable ◌>>=◌ continue
  exec_stmt-lookup name key e line col st st' v h = rw h (refl, lookup-assign_in name key v st')
