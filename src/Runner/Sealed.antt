-- ===== src/Runner/Sealed.antt =====
-- No native function of src/ztl/runner.cpp but those of the network can give the globals of a run a
-- name.
use zero_trust_public.Base.{
  ℕ, zero, suc, ap, subst, not, ◌||◌, List, [], ◌∷◌, Bytes, codes, bytes_eq, Option, none, some,
  ◌≡◌, refl, get_elem?, Floats, Option-cases, All, inl, inr,
}
use zero_trust_public.Cve.{CveEntry, verify_version, lookup}
use zero_trust_public.Runtime.{
  Value, text, object, null, Object, Shared, Completion, normal, runtime_error, returned, thrown,
  Effect, NativeFn, Numbers, find, is_truthy,
}
use zero_trust_public.Runtime.Names.{keys, names}
use zero_trust_public.Runtime.State.{State, chain}
use zero_trust_public.Parser.{Stmts}
use zero_trust_public.Interpreter.{exec_block}
use zero_trust_public.Interpreter.Scoping.{KeepsGlobals, BodyKeeps, AddsNoName, exec_block-names}
use zero_trust_public.Runner.{RunState, Native, lift, named_string, make_object}
use zero_trust_public.Runner.Natives.{Context, Callback}
use zero_trust_public.Runner.Globals.{
  Spares, Spares-done, Spares-lift, Spares-change, Spares-meta, Spares-write_kb, Spares-state,
  Spares-set_field, Spares-make_object, Spares-bind, Spares-if, Spares-option, Spares-named,
  Spares-positional, Spares-string_at, Spares-text, Spares-kb_set, Spares-kb_get, Spares-kb_has,
  Spares-kb_set_scoped, Spares-kb_get_scoped, Spares-kb_has_scoped,
}
use zero_trust_public.Runner.Actions.{
  plugin_filter, note_text, copy_to_kb, set_target, plugin_set_service, filter_passes, caught,
  run_block, plugin_run, finding_fn,
}
use zero_trust_public.Runner.Lookups.{
  cve_check, target_field, or_positional, make_cve_result, verify_target, verify_value, cve_verify,
  cve_lookup,
}
use zero_trust_public.Runner.Plugins.{callbacks, natives}
use zero_trust_public.Runner.Laws.{Reported, refused, pushed, finding_fn-Reported}

module _ {D : Type 0} (num : Numbers D) where
  Spares-filter : (c : Context D) → Spares (plugin_filter num c)
  unfolding plugin_filter
  Spares-filter c =
      Spares-bind
        (Spares-named c _ _ (λ v. Spares-if (is_truthy num v) (Spares-meta _) (Spares-done _)))
        (λ u.
          Spares-bind (Spares-named c _ _ (λ v. Spares-bind (Spares-lift _) (λ s. Spares-meta _)))
            (λ w. Spares-done _))

  Spares-note :
      (c : Context D) (key : Bytes) (set_text : Bytes → RunState D → RunState D)
      → Spares (note_text num c key set_text)
  unfolding note_text
  Spares-note c key set_text =
      Spares-named c key _ (λ v. Spares-bind (Spares-lift _) (λ s. Spares-change _))

  Spares-copy : (c : Context D) (key : Bytes) → Spares (copy_to_kb num c key)
  unfolding copy_to_kb
  Spares-copy c key = Spares-named c key _ (λ v. Spares-write_kb key v)

  Spares-target : (key : Bytes) (v : Value D) → Spares (set_target num key v)
  unfolding set_target
  Spares-target key v =
      Spares-bind Spares-state
        (λ st. Spares-option st.target (Spares-done tt) (λ o. Spares-set_field o key v))

  Spares-set_service : (c : Context D) → Spares (plugin_set_service num c)
  unfolding plugin_set_service
  Spares-set_service c = Spares-bind (Spares-positional c _ _) (λ u.
      Spares-bind (Spares-string_at c _ _) (λ svc.
        Spares-bind (Spares-change (λ st. record st { set_service = svc })) (λ u1.
          Spares-bind (Spares-note c (codes "version") (λ s st. record st { set_version = s }))
            (λ u2.
              Spares-bind (Spares-note c (codes "product") (λ s st. record st { set_product = s }))
                (λ u3. Spares-bind (Spares-write_kb (codes "service") (text svc)) (λ u4.
                  Spares-bind (Spares-copy c (codes "version")) (λ u5.
                    Spares-bind (Spares-copy c (codes "product")) (λ u6.
                      Spares-bind (Spares-copy c (codes "banner")) (λ u7.
                        Spares-bind (Spares-target (codes "service") (text svc)) (λ u8.
                          Spares-bind
                            (Spares-named c (codes "version") _
                              (λ v. Spares-target (codes "version") v))
                            (λ u9.
                              Spares-bind
                                (Spares-named c (codes "product") _
                                  (λ v. Spares-target (codes "product") v))
                                (λ w. Spares-done null))))))))))))

  caught_globals :
      (r : Completion D Unit × Shared D (RunState D)) → (caught num r).1.globals ≡ r.1.globals
  unfolding caught
  caught_globals (normal _, sh) = refl
  caught_globals (returned _, sh) = refl
  caught_globals (runtime_error msg line col, sh) = refl
  caught_globals (thrown msg, sh) = refl

  Spares-block :
      (body : Effect D (RunState D) Unit) → KeepsGlobals body → Spares (run_block num body)
  unfolding run_block
  Spares-block body h = record { spares = λ sh. rw (caught_globals (body sh)) (h sh) }

  -- The block of the call, where there is one.
  Spares-body :
      {A : Type 0} (b : Option (Effect D (RunState D) Unit)) {m : Native D A}
      {f : Effect D (RunState D) Unit → Native D A}
      → Spares m
      → ((body : Effect D (RunState D) Unit) → KeepsGlobals body → Spares (f body))
      → BodyKeeps b
      → Spares (elim b [ none ↦ m | some body ↦ f body ])
  Spares-body none h k safe = h
  Spares-body (some body) h k safe = k body safe

  Spares-run : (c : Context D) → BodyKeeps c.block → Spares (plugin_run num c)
  unfolding plugin_run
  Spares-run c safe =
      Spares-body c.block (Spares-lift _)
        (λ body h. Spares-bind Spares-state (λ st.
          Spares-if (st.meta_only || not (filter_passes num st)) (Spares-done null)
            (Spares-block body h)))
        safe

module _ {D : Type 0} (num : Numbers D) (fp : Floats D) (now : ℕ) (name_of : ℕ → Bytes) where
  Reported-globals :
      (sh : Shared D (RunState D)) {r : Completion D (Value D) × Shared D (RunState D)}
      → Reported sh r
      → r.1.globals ≡ sh.globals
  Reported-globals sh refused = refl
  Reported-globals sh (pushed f h p m s) = refl

  Spares-finding : (c : Context D) → Spares (finding_fn num fp now name_of c)
  Spares-finding c = record {
    spares = λ sh. ap keys (Reported-globals sh (finding_fn-Reported num fp now name_of c sh));
  }

module _ {D : Type 0} (fp : Floats D) (db : List (CveEntry D)) where
  Spares-made :
      (id product version : Bytes)
      → Spares (make_object (make_cve_result (verify_version fp db id product version)))
  Spares-made id product version = Spares-make_object _

  Spares-check : (c : Context D) → Spares (cve_check fp db c)
  unfolding cve_check
  Spares-check c =
      Spares-bind (Spares-lift (named_string c (codes "id") (codes "cve id") [])) (λ id.
        Spares-bind (Spares-lift (named_string c (codes "product") (codes "product") []))
          (λ product.
            Spares-bind (Spares-lift (named_string c (codes "version") (codes "version") []))
              (λ version. Spares-made id product version)))

  Spares-verify_target : (c : Context D) (target : Object D) → Spares (verify_target fp db c target)
  unfolding verify_target
  Spares-verify_target c target =
      Spares-if (not (bytes_eq target.type_name (codes "Target"))) (Spares-lift _) (
        Spares-bind (Spares-lift (named_string c (codes "id") (codes "cve id") [])) (λ id.
          Spares-bind (Spares-lift (target_field fp db c target (codes "product"))) (λ product.
            Spares-bind (Spares-lift (target_field fp db c target (codes "version")))
              (λ version. Spares-made id product version))))

  Spares-verify_value : (c : Context D) (v : Value D) → Spares (verify_value fp db c v)
  unfolding verify_value lift
  Spares-verify_value c (object o) = record {
    spares = λ sh. (Spares-verify_target c (sh.objects o)).spares sh;
  }
  Spares-verify_value c _ = record { spares = λ sh. refl }

  Spares-verify : (c : Context D) → Spares (cve_verify fp db c)
  unfolding cve_verify
  Spares-verify c =
      Spares-option (find (codes "target") c.named) (Spares-lift _) (λ v. Spares-verify_value c v)

  Spares-lookup : (c : Context D) → Spares (cve_lookup fp db c)
  unfolding cve_lookup
  Spares-lookup c =
      Spares-bind (Spares-lift (named_string c (codes "product") (codes "product") [])) (λ p.
        Spares-bind (Spares-lift (named_string c (codes "version") (codes "version") [])) (λ v.
          Spares-bind (Spares-lift (or_positional fp db c 0 (codes "product") p)) (λ product.
            Spares-bind (Spares-lift (or_positional fp db c 1 (codes "version") v))
              (λ version. Spares-done (text (lookup db product version))))))

abbrev IsSparing : {D : Type 0} → Callback D → Type 0
IsSparing callback = (c : Context _) → BodyKeeps c.block → Spares (callback c)

abbrev IsSparingAt : {D : Type 0} → Option (Callback D) → Type 0
IsSparingAt none = Unit
IsSparingAt (some callback) = IsSparing callback

at-IsSparing :
    {D : Type 0} (l : List (Callback D)) (f : ℕ) → All IsSparing l → IsSparingAt (get_elem? l f)
at-IsSparing [] f h = tt
at-IsSparing (x ∷ l) zero h = h.0
at-IsSparing (x ∷ l) (suc f) h = at-IsSparing l f h.1

module _ {D : Type 0} (num : Numbers D) (fp : Floats D) (db : List (CveEntry D)) (now : ℕ)
    (network : ℕ → NativeFn D (RunState D)) where
  callbacks-IsSparing : All IsSparing (callbacks num fp db now network)
  unfolding callbacks
  callbacks-IsSparing = (
    (λ c h. Spares-text (λ s m. record m { name = s }) (codes "plugin name") c),
    (
      (λ c h. Spares-text (λ s m. record m { description = s }) (codes "description") c),
      (
        (λ c h. Spares-text (λ s m. record m { category = s }) (codes "category") c),
        (
          (λ c h. Spares-filter num c),
          (
            (λ c h. Spares-set_service num c),
            (
              (λ c h. Spares-run num c h),
              (
                (λ c h. Spares-finding num fp now _ c),
                (
                  (λ c h. Spares-kb_set c),
                  (
                    (λ c h. Spares-kb_get c),
                    (
                      (λ c h. Spares-kb_has c),
                      (
                        (λ c h. Spares-kb_set_scoped c),
                        (
                          (λ c h. Spares-kb_get_scoped c),
                          (
                            (λ c h. Spares-kb_has_scoped c),
                            (
                              (λ c h. Spares-check fp db c),
                              (
                                (λ c h. Spares-verify fp db c),
                                ((λ c h. Spares-lookup fp db c), tt),
                              ),
                            ),
                          ),
                        ),
                      ),
                    ),
                  ),
                ),
              ),
            ),
          ),
        ),
      ),
    ),
  )

  -- If the functions of the network add no name to the globals, no native function of a run does.
  natives-AddsNoName :
      ((f : ℕ) → AddsNoName (network f)) → (f : ℕ) → AddsNoName (natives num fp db now network f)
  unfolding natives
  natives-AddsNoName h f =
      let table = callbacks num fp db now network in
      elim (Option-cases (get_elem? table f)) [
        | inl e ↦ rw (natives, e) (h f)
        | inr (callback, e) ↦
            let sparing : IsSparing callback =
              subst IsSparingAt e (at-IsSparing table f callbacks-IsSparing) in
            rw (natives, e) (λ c safe. (sparing c safe).spares)
      ]

  -- A block of a plugin that runs with these functions gives no environment around it a name.
  exec_block-names-natives :
      ((f : ℕ) → AddsNoName (network f))
      → (body : Stmts D) (st : State D (RunState D))
      → names (chain (exec_block num (natives num fp db now network) body st).1) ≡ names (chain st)
  exec_block-names-natives h body st =
      exec_block-names num (natives num fp db now network) (natives-AddsNoName h) body st
