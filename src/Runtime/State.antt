-- ===== src/Runtime/State.antt =====
-- The state of the interpreter of src/ztl/interpreter.cpp and what its parts do to it: the chain of
-- environments of src/ztl/runtime.hpp, scopes, and the order in which exceptions end an evaluation.
use zero_trust_public.Base.{
  ℕ, ◌||◌, List, [], ◌∷◌, ◌++◌, Bytes, codes, is_empty, if◌then◌else◌, none, some,
}
use zero_trust_public.Runtime.{
  Value, Vars, Shared, Completion, normal, runtime_error, returned, thrown, Effect, put, lookup,
  has, define, assign,
}

-- The environments inside the globals, the innermost first, and the shared state.
pub record State (D W : Type 0) : Type 0 where
  pub locals : List (Vars D)
  pub shared : Shared D W

-- An exception keeps the changes that were made before it.
abbrev pub Run : Type 0 → Type 0 → Type 0 → Type 0
Run D W A = State D W → Completion D A × State D W

module _ {D W : Type 0} where
  unfoldable pub pure : {A : Type 0} → A → Run D W A
  pure a st = (normal a, st)

  unfoldable pub fail : {A : Type 0} → Bytes → ℕ → ℕ → Run D W A
  fail msg line col st = (runtime_error msg line col, st)

  unfoldable pub raise_return : Value D → Run D W Unit
  raise_return v st = (returned v, st)

  unfoldable pub continue :
      {A B : Type 0} → Completion D A × State D W → (A → Run D W B) → Completion D B × State D W
  continue (normal a, st) f = f a st
  continue (runtime_error msg line col, st) f = (runtime_error msg line col, st)
  continue (returned v, st) f = (returned v, st)
  continue (thrown msg, st) f = (thrown msg, st)

  infixl 5 ◌>>=◌
  unfoldable pub ◌>>=◌ : {A B : Type 0} → Run D W A → (A → Run D W B) → Run D W B
  unfolding continue
  (m >>= f) st = continue (m st) f

  -- The chain of environments is the locals and the globals behind them.
  abbrev pub chain : State D W → List (Vars D)
  chain st = st.locals ++ (st.shared.globals ∷ [])

  unfoldable pub with_locals : State D W → List (Vars D) → State D W
  with_locals st locals = record { locals = locals; shared = st.shared }

  unfoldable pub with_globals : State D W → Vars D → State D W
  with_globals st globals =
      let shared = st.shared in
      record {
        locals = st.locals;
        shared = record { globals = globals; objects = shared.objects; world = shared.world };
      }

  -- The state after `if (!env.assign(name, v)) env.define(name, v)`, where the environment is the
  -- innermost of the chain.
  unfoldable pub assign_in : Bytes → Value D → State D W → State D W
  unfolding assign define put has is_empty with_locals with_globals
  assign_in name v st =
      let globals = st.shared.globals in
      elim (assign name v st.locals) [
        | some changed ↦ with_locals st changed
        | none ↦
            if has name globals || is_empty st.locals
            then with_globals st (put name v globals)
            else with_locals st (define name v st.locals)
      ]

  unfoldable pub assign_variable : Bytes → Value D → Run D W Unit
  unfolding assign_in
  assign_variable name v st = (normal tt, assign_in name v st)

  -- The value of a name, or the error that it is not defined.
  unfoldable pub read_variable : Bytes → Bytes → ℕ → ℕ → Run D W (Value D)
  unfolding lookup fail
  read_variable message name line col st = elim (lookup name (chain st)) [
    | none ↦ fail (message ++ (name ++ codes "'")) line col st
    | some v ↦ (normal v, st)
  ]

  -- A native function works on the shared state only.
  unfoldable pub over_shared : {A : Type 0} → Effect D W A → Run D W A
  over_shared effect st =
      let result = effect st.shared in (result.0, record { locals = st.locals; shared = result.1 })

  -- `Environment scope(&env)`, and its end on every way out.
  unfoldable pub in_scope : {A : Type 0} → Run D W A → Run D W A
  in_scope run st =
      let result = run (record { locals = [] ∷ st.locals; shared = st.shared }) in
      (
        result.0,
        record {
          locals = elim result.1.locals [ [] ↦ [] | _ ∷ outer ↦ outer ];
          shared = result.1.shared;
        },
      )

  -- A scope of its own over the globals.
  unfoldable pub over_globals : {A : Type 0} → Run D W A → Effect D W A
  unfolding in_scope
  over_globals run shared =
      let result = in_scope run (record { locals = []; shared = shared }) in
      (result.0, result.1.shared)
