-- ===== src/Runtime/Scopes.antt =====
-- The chain of environments of src/ztl/runtime.hpp seen as one map from names to values.
use zero_trust_public.Base.{
  true, false, List, [], ◌∷◌, ◌++◌, Bytes, bytes_eq, bytes_eq_iff, bytes_eq_refl, is_empty,
  if◌then◌else◌, Option, none, some, ◌≡◌, refl, sym, ap, inl, inr, Bool-cases, Option-cases, arith,
}
use zero_trust_public.Runtime.{
  Value, Vars, put, find, has, lookup, define, assign, assign_or_define,
}
use zero_trust_public.Runtime.State.{State, chain, with_locals, with_globals, assign_in}

module _ {A : Type 0} where
  find-put_same : (key : Bytes) (v : A) (m : List (Bytes × A)) → find key (put key v m) ≡ some v
  unfolding find put
  find-put_same key v [] = rw (bytes_eq_refl key) refl
  find-put_same key v ((k, w) ∷ m) = elim (Bool-cases (bytes_eq k key)) [
    | inl e ↦ rw (e, e) refl
    | inr e ↦ rw (e, e) (find-put_same key v m)
  ]

  find-put_other :
      (name key : Bytes) (v : A) (m : List (Bytes × A))
      → bytes_eq name key ≡ false
      → find key (put name v m) ≡ find key m
  unfolding find put
  find-put_other name key v [] h = rw h refl
  find-put_other name key v ((k, w) ∷ m) h = elim (Bool-cases (bytes_eq k name)) [
    | inl e ↦
        let other : bytes_eq k key ≡ false = rw ((bytes_eq_iff k name).0 e) h in rw (e, other) refl
    | inr e ↦ rw (e, find-put_other name key v m h) refl
  ]

  -- After `m[name] = v`, `m.find` gives v for the name and what it gave before for any other key.
  pub find-put :
      (name key : Bytes) (v : A) (m : List (Bytes × A))
      → find key (put name v m) ≡ (if bytes_eq name key then some v else find key m)
  find-put name key v m = elim (Bool-cases (bytes_eq name key)) [
    | inl e ↦ rw (e, sym ((bytes_eq_iff name key).0 e)) (find-put_same name v m)
    | inr e ↦ rw e (find-put_other name key v m e)
  ]

  has-find : (key : Bytes) (m : List (Bytes × A)) → has key m ≡ false → find key m ≡ none
  unfolding find has
  has-find key [] h = refl
  has-find key ((k, w) ∷ m) h = ground (arith, has-find key m)

module _ {D : Type 0} where
  -- What an assignment makes of a lookup.
  abbrev pub updated : Bytes → Value D → Bytes → Option (Value D) → Option (Value D)
  updated name v key before = if bytes_eq name key then some v else before

  lookup-put :
      (name key : Bytes) (v : Value D) (vars : Vars D) (parents : List (Vars D))
      → lookup key (put name v vars ∷ parents) ≡ updated name v key (lookup key (vars ∷ parents))
  unfolding lookup
  lookup-put name key v vars parents = elim (Bool-cases (bytes_eq name key)) [
    | inl e ↦
        let same : find key (put name v vars) ≡ some v =
          rw (sym ((bytes_eq_iff name key).0 e)) (find-put_same name v vars) in
        ground (arith, same)
    | inr e ↦ ground (arith, find-put_other name key v vars e)
  ]

  lookup-assign :
      (name key : Bytes) (v : Value D) (env changed : List (Vars D))
      → assign name v env ≡ some changed
      → lookup key changed ≡ updated name v key (lookup key env)
  unfolding assign lookup
  lookup-assign name key v [] changed h = absurd (ground (arith, h))
  lookup-assign name key v (vars ∷ parents) changed h = elim (Bool-cases (has name vars)) [
    | inl e ↦
        let here : put name v vars ∷ parents ≡ changed = ground arith in
        rw (sym here) (lookup-put name key v vars parents)
    | inr e ↦ elim (Option-cases (assign name v parents)) [
      | inl q ↦ absurd (ground arith)
      | inr (rest, q) ↦
          let behind : vars ∷ rest ≡ changed = ground arith in
          let absent = has-find name vars e in
          let later = lookup-assign name key v parents rest q in
          elim (Bool-cases (bytes_eq name key)) [
            | inl k ↦
                let missing : find key vars ≡ none =
                  rw (sym ((bytes_eq_iff name key).0 k)) absent in
                rw (sym behind) (ground arith)
            | inr k ↦ rw (sym behind) (ground arith)
          ]
    ]
  ]

  lookup-assign_or_define :
      (name key : Bytes) (v : Value D) (vars : Vars D) (parents : List (Vars D))
      → lookup key (assign_or_define name v (vars ∷ parents))
        ≡ updated name v key (lookup key (vars ∷ parents))
  unfolding assign_or_define define
  lookup-assign_or_define name key v vars parents =
      elim (Option-cases (assign name v (vars ∷ parents))) [
        | inl e ↦ rw (assign_or_define, e) (lookup-put name key v vars parents)
        | inr (changed, e) ↦
            rw (assign_or_define, e) (lookup-assign name key v (vars ∷ parents) changed e)
      ]

  assign-append :
      (name : Bytes) (v : Value D) (env outer : List (Vars D))
      → assign name v (env ++ outer) ≡ elim (assign name v env) [
        | some changed ↦ some (changed ++ outer)
        | none ↦ elim (assign name v outer) [ none ↦ none | some rest ↦ some (env ++ rest) ]
      ]
  unfolding assign
  assign-append name v [] outer = elim (Option-cases (assign name v outer)) [
    | inl e ↦ rw e refl
    | inr (c, e) ↦ rw e refl
  ]
  assign-append name v (vars ∷ env) outer =
      let later = assign-append name v env outer in
      elim (Option-cases (assign name v env)) [
        | inl e ↦ elim (Option-cases (assign name v outer)) [
          | inl o ↦ ground (arith, later)
          | inr (c, o) ↦ ground (arith, later)
        ]
        | inr (c, e) ↦ ground (arith, later)
      ]

  -- Where the chain has no such name, it is defined in the innermost environment.
  define-append :
      (name : Bytes) (v : Value D) (env : List (Vars D)) (globals : Vars D)
      → define name v (env ++ (globals ∷ []))
        ≡ (if is_empty env then put name v globals ∷ [] else define name v env ++ (globals ∷ []))
  unfolding define is_empty
  define-append name v [] globals = refl
  define-append name v (vars ∷ env) globals = refl

  is_empty_nil : (env : List (Vars D)) → is_empty env ≡ true → env ≡ []
  unfolding is_empty
  is_empty_nil [] h = refl
  is_empty_nil (_ ∷ _) h = cc

module _ {D W : Type 0} where
  -- The assignment of a state does to the whole chain what `assign`, or else `define`, does to it.
  pub chain-assign_in :
      (name : Bytes) (v : Value D) (st : State D W)
      → chain (assign_in name v st) ≡ assign_or_define name v (chain st)
  unfolding assign_in assign_or_define with_locals with_globals assign
  chain-assign_in name v st =
      let globals = st.shared.globals in
      let both = assign-append name v st.locals (globals ∷ []) in
      elim (Option-cases (assign name v st.locals)) [
        | inr (c, e) ↦
            let whole : assign name v (chain st) ≡ some (c ++ (globals ∷ [])) =
              ground (arith, both) in
            rw (assign_in, assign_or_define, e, whole) refl
        | inl e ↦ elim (Bool-cases (has name globals)) [
          | inl h ↦
              let whole : assign name v (chain st) ≡ some (st.locals ++ (put name v globals ∷ [])) =
                ground (arith, both) in
              rw (assign_in, assign_or_define, e, whole, h) refl
          | inr h ↦
              let whole : assign name v (chain st) ≡ none = ground (arith, both) in
              let defined = define-append name v st.locals globals in
              elim (Bool-cases (is_empty st.locals)) [
                | inl i ↦
                    let first : define name v (chain st) ≡ put name v globals ∷ [] =
                      ground (arith, defined) in
                    rw (assign_in, assign_or_define, e, whole, h, i, first)
                      (ap (λ l. l ++ (put name v globals ∷ [])) (is_empty_nil st.locals i))
                | inr i ↦
                    let first : define name v (chain st)
                        ≡ define name v st.locals ++ (globals ∷ []) =
                      ground (arith, defined) in
                    rw (assign_in, assign_or_define, e, whole, h, i, first) refl
              ]
        ]
      ]

  -- After an assignment the name has the value that was assigned, wherever in the chain it is kept,
  -- and every other name has the value that it had.
  pub lookup-assign_in :
      (name key : Bytes) (v : Value D) (st : State D W)
      → lookup key (chain (assign_in name v st))
        ≡ (if bytes_eq name key then some v else lookup key (chain st))
  lookup-assign_in name key v st =
      rw (chain-assign_in name v st) (through st.locals st.shared.globals)
    where
      through :
          (locals : List (Vars D)) (globals : Vars D)
          → lookup key (assign_or_define name v (locals ++ (globals ∷ [])))
            ≡ updated name v key (lookup key (locals ++ (globals ∷ [])))
      through [] globals = lookup-assign_or_define name key v globals []
      through (vars ∷ locals) globals =
          lookup-assign_or_define name key v vars (locals ++ (globals ∷ []))
