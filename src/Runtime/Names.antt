-- ===== src/Runtime/Names.antt =====
-- The names of each environment of a chain of src/ztl/runtime.hpp, and what an assignment does to them.
use zero_trust_public.Base.{
  true, List, [], ◌∷◌, ◌++◌, Bytes, bytes_eq, Option, none, some, ◌≡◌, refl, sym, ap, inl, inr,
  Bool-cases, Option-cases, arith,
}
use zero_trust_public.Runtime.{Value, Vars, put, has, define, assign, assign_or_define}
use zero_trust_public.Runtime.State.{State, chain, assign_in}
use zero_trust_public.Runtime.Scopes.{chain-assign_in}

module _ {D : Type 0} where
  unfoldable pub keys : Vars D → List Bytes
  keys [] = []
  keys ((k, _) ∷ vars) = k ∷ keys vars

  -- The names of each environment.
  unfoldable pub names : List (Vars D) → List (List Bytes)
  unfolding keys
  names [] = []
  names (vars ∷ env) = keys vars ∷ names env

  -- The names of the environments around the innermost one.
  unfoldable pub outer_names : List (Vars D) → Option (List (List Bytes))
  unfolding names
  outer_names [] = none
  outer_names (_ ∷ outer) = some (names outer)

  keys-put :
      (name : Bytes) (v : Value D) (vars : Vars D)
      → has name vars ≡ true
      → keys (put name v vars) ≡ keys vars
  unfolding keys put has
  keys-put name v [] h = absurd (ground (arith, h))
  keys-put name v ((k, w) ∷ vars) h = elim (Bool-cases (bytes_eq k name)) [
    | inl e ↦ rw e refl
    | inr e ↦ rw e (ap (λ l. k ∷ l) (keys-put name v vars (ground (arith, h))))
  ]

  names-assign :
      (name : Bytes) (v : Value D) (env changed : List (Vars D))
      → assign name v env ≡ some changed
      → names changed ≡ names env
  unfolding names assign
  names-assign name v [] changed h = absurd (ground (arith, h))
  names-assign name v (vars ∷ env) changed h = elim (Bool-cases (has name vars)) [
    | inl e ↦
        let here : put name v vars ∷ env ≡ changed = ground arith in
        rw (sym here) (ap (λ l. l ∷ names env) (keys-put name v vars e))
    | inr e ↦ elim (Option-cases (assign name v env)) [
      | inl q ↦ absurd (ground arith)
      | inr (rest, q) ↦
          let behind : vars ∷ rest ≡ changed = ground arith in
          rw (sym behind) (ap (λ l. keys vars ∷ l) (names-assign name v env rest q))
    ]
  ]

  -- Environments with the same names have the same names around the innermost one.
  pub outer_names_same : (a b : List (Vars D)) → names a ≡ names b → outer_names a ≡ outer_names b
  unfolding outer_names names
  outer_names_same [] [] h = refl
  outer_names_same [] (x ∷ b) h = cc
  outer_names_same (x ∷ a) [] h = cc
  outer_names_same (x ∷ a) (y ∷ b) h = cc

  outer_names-define :
      (name : Bytes) (v : Value D) (env : List (Vars D))
      → outer_names (define name v env) ≡ outer_names env
  unfolding outer_names define
  outer_names-define name v [] = refl
  outer_names-define name v (_ ∷ env) = refl

  outer_names-assign_or_define :
      (name : Bytes) (v : Value D) (env : List (Vars D))
      → outer_names (assign_or_define name v env) ≡ outer_names env
  unfolding assign_or_define
  outer_names-assign_or_define name v env = elim (Option-cases (assign name v env)) [
    | inl e ↦ rw (assign_or_define, e) (outer_names-define name v env)
    | inr (c, e) ↦ rw (assign_or_define, e) (outer_names_same c env (names-assign name v env c e))
  ]

  -- Only the names of the last environment count.
  pub names-last :
      (env : List (Vars D)) (a b : Vars D)
      → keys a ≡ keys b
      → names (env ++ (a ∷ [])) ≡ names (env ++ (b ∷ []))
  unfolding names
  names-last [] a b h = ap (λ l. l ∷ []) h
  names-last (vars ∷ env) a b h = ap (λ l. keys vars ∷ l) (names-last env a b h)

  -- As many environments with the same names, where there is one alone.
  pub keys-alone :
      (env : List (Vars D)) (a b : Vars D) → names (env ++ (a ∷ [])) ≡ keys b ∷ [] → keys a ≡ keys b
  unfolding names
  keys-alone [] a b h = cc
  keys-alone (vars ∷ []) a b h = cc
  keys-alone (vars ∷ _ ∷ env) a b h = cc

module _ {D W : Type 0} where
  -- An assignment adds no name to an environment of the chain but the innermost.
  pub outer_names-assign_in :
      (name : Bytes) (v : Value D) (st : State D W)
      → outer_names (chain (assign_in name v st)) ≡ outer_names (chain st)
  outer_names-assign_in name v st =
      rw (chain-assign_in name v st) (outer_names-assign_or_define name v (chain st))
