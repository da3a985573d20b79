-- ===== src/Interpreter/Scoping.antt =====
-- A block changes only the values of names that were there before it.
use zero_trust_public.Base.{ℕ, List, [], ◌∷◌, ◌++◌, Bytes, Option, none, some, ◌≡◌}
use zero_trust_public.Parser.{Stmts}
use zero_trust_public.Runtime.{Value, Vars, Effect, CallContext, NativeFn, Numbers}
use zero_trust_public.Runtime.State.{
  State, Run, assign_variable, chain, over_shared, over_globals, in_scope,
}
use zero_trust_public.Runtime.Names.{
  keys, names, outer_names, outer_names_same, outer_names-assign_in, names-last, keys-alone,
}
use zero_trust_public.Interpreter.Operators.{call_native}
use zero_trust_public.Interpreter.{exec_stmts, exec_block}
use zero_trust_public.Interpreter.Purity.{Keeps}
use zero_trust_public.Interpreter.Induction.{exec_stmts-Keeps}

module _ {D W : Type 0} where
  -- The globals have the names they had.
  abbrev pub KeepsGlobals : {A : Type 0} → Effect D W A → Type 0
  KeepsGlobals effect = (shared : _) → keys (effect shared).1.globals ≡ keys shared.globals

  abbrev pub BodyKeeps : Option (Effect D W Unit) → Type 0
  BodyKeeps none = Unit
  BodyKeeps (some body) = KeepsGlobals body

  -- A native function gives the globals no name, unless the block of its call does.
  abbrev pub AddsNoName : NativeFn D W → Type 0
  AddsNoName native = (ctx : CallContext D W) → BodyKeeps ctx.block → KeepsGlobals (native.fn ctx)

  -- The names of all environments but the innermost.
  outer_of : State D W → Option (List (List Bytes))
  outer_of st = outer_names (chain st)

  -- No environment but the innermost gets a name.
  abbrev Confined : {A : Type 0} → Run D W A → Type 0
  Confined run = Keeps outer_of run

  -- A scope gives back an environment for each one before, with the same names.
  in_scope-names :
      (run : Run D W Unit)
      → Confined run
      → (st : State D W) → names (chain (in_scope run st).1) ≡ names (chain st)
  unfolding in_scope names outer_names outer_of
  in_scope-names run h st =
      let inner : State D W = record { locals = [] ∷ st.locals; shared = st.shared } in
      around st.locals (run inner).1.locals (run inner).1.shared.globals (h.keeps inner)
    where
      around :
          (before locals : List (Vars D)) (globals : Vars D)
          → outer_names (locals ++ (globals ∷ []))
            ≡ some (names (before ++ (st.shared.globals ∷ [])))
          → names ((elim locals [ [] ↦ [] | _ ∷ outer ↦ outer ]) ++ (globals ∷ []))
            ≡ names (before ++ (st.shared.globals ∷ []))
      around [] [] globals e = cc
      around (_ ∷ _) [] globals e = cc
      around before (_ ∷ outer) globals e = cc

  scope-Confined : (run : Run D W Unit) → Confined run → Confined (in_scope run)
  unfolding outer_of
  scope-Confined run h = record {
    keeps = λ st. outer_names_same (chain (in_scope run st).1) (chain st) (in_scope-names run h st);
  }

  globals-Confined : (run : Run D W Unit) → Confined run → KeepsGlobals (over_globals run)
  unfolding over_globals names
  globals-Confined run h shared =
      let st : State D W = record { locals = []; shared = shared } in
      keys-alone (in_scope run st).1.locals (in_scope run st).1.shared.globals shared.globals
        (in_scope-names run h st)

  assign-Confined : (name : Bytes) (v : Value D) → Confined {A = Unit} (assign_variable name v)
  unfolding assign_variable outer_of
  assign-Confined name v = record { keeps = λ st. outer_names-assign_in name v st }

module _ {D W : Type 0} (num : Numbers D) (natives : ℕ → NativeFn D W)
    (h : (f : ℕ) → AddsNoName (natives f)) where
  native-Confined :
      (f : ℕ) (ctx : CallContext D W)
      → BodyKeeps ctx.block
      → Confined (call_native num natives (natives f) ctx)
  unfolding call_native over_shared outer_of
  native-Confined f ctx safe = record {
    keeps = λ st.
        let after = ((natives f).fn ctx st.shared).1.globals in
        outer_names_same (st.locals ++ (after ∷ [])) (chain st)
          (names-last st.locals after st.shared.globals (h f ctx safe st.shared));
  }

  -- A block may change the values of names that are there before it, but gives no environment of the
  -- chain a name, and neither the globals: it leaves as many environments as before with the same
  -- names, however it ends. The condition is that no native function adds a name to the globals where
  -- the block of its call adds none.
  pub exec_block-names :
      (body : Stmts D) (st : State D W)
      → names (chain (exec_block num natives body st).1) ≡ names (chain st)
  unfolding exec_block
  exec_block-names body st =
      let confined =
        exec_stmts-Keeps num natives outer_of outer_of BodyKeeps
          (λ self given block line col safe f. native-Confined f _ safe) tt globals-Confined
          (λ A run k. k) assign-Confined scope-Confined body in
      in_scope-names (exec_stmts num natives body) confined st
