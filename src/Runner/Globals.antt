-- ===== src/Runner/Globals.antt =====
-- What the native functions of src/ztl/runner.cpp are made of leaves the names of the globals as they
-- are, and so do those on the knowledge base.
use zero_trust_public.Base.{
  ℕ, Bool, true, false, Bytes, if◌then◌else◌, Option, none, some, ◌≡◌, refl, ◌∙◌, get_elem?,
}
use zero_trust_public.Runtime.{
  Value, Object, Shared, Completion, normal, runtime_error, returned, thrown, find,
}
use zero_trust_public.Runtime.Names.{keys}
use zero_trust_public.Interpreter.Scoping.{KeepsGlobals}
use zero_trust_public.Runner.{
  RunState, PluginMeta, Native, done_with, lift, resume, ◌>>=◌, state_of, change, change_meta,
  write_kb, set_field, make_object,
}
use zero_trust_public.Runner.Natives.{
  Context, when_named, need_positional, string_at, value_at, plugin_text, kb_set, kb_get, kb_has,
  scope_and_key, kb_set_scoped, kb_get_scoped, kb_has_scoped, nothing,
}

-- The globals have the names they had.
pub record Spares {D A : Type 0} (act : Native D A) : Type 0 where
  pub spares : KeepsGlobals act

module _ {D : Type 0} where
  pub Spares-done : {A : Type 0} (a : A) → Spares {D = D} (done_with a)
  unfolding done_with
  Spares-done a = record { spares = λ sh. refl }

  pub Spares-lift : {A : Type 0} (c : Completion D A) → Spares (lift c)
  unfolding lift
  Spares-lift c = record { spares = λ sh. refl }

  pub Spares-change : (f : RunState D → RunState D) → Spares (change f)
  unfolding change
  Spares-change f = record { spares = λ sh. refl }

  pub Spares-meta : (f : PluginMeta → PluginMeta) → Spares {D = D} (change_meta f)
  unfolding change_meta
  Spares-meta f = Spares-change _

  pub Spares-write_kb : (key : Bytes) (v : Value D) → Spares (write_kb key v)
  unfolding write_kb
  Spares-write_kb key v = Spares-change _

  pub Spares-state : Spares {D = D} state_of
  unfolding state_of
  Spares-state = record { spares = λ sh. refl }

  pub Spares-set_field : (o : ℕ) (key : Bytes) (v : Value D) → Spares (set_field o key v)
  unfolding set_field
  Spares-set_field o key v = record { spares = λ sh. refl }

  pub Spares-make_object : (made : Object D) → Spares (make_object made)
  unfolding make_object
  Spares-make_object made = record { spares = λ sh. refl }

  Spares-resume :
      {A B : Type 0} (r : Completion D A × Shared D (RunState D)) (f : A → Native D B)
      → ((a : A) → Spares (f a))
      → keys (resume r f).1.globals ≡ keys r.1.globals
  unfolding resume
  Spares-resume (normal a, sh) f h = (h a).spares sh
  Spares-resume (runtime_error msg line col, sh) f h = refl
  Spares-resume (returned v, sh) f h = refl
  Spares-resume (thrown msg, sh) f h = refl

  pub Spares-bind :
      {A B : Type 0} {m : Native D A} {f : A → Native D B}
      → Spares m
      → ((a : A) → Spares (f a))
      → Spares (m >>= f)
  unfolding ◌>>=◌
  Spares-bind {m = m} {f = f} h k = record { spares = λ sh. Spares-resume (m sh) f k ∙ h.spares sh }

  pub Spares-if :
      {A : Type 0} (b : Bool) {m n : Native D A} → Spares m → Spares n → Spares (if b then m else n)
  Spares-if true h k = h
  Spares-if false h k = k

  pub Spares-option :
      {A B : Type 0} (o : Option A) {m : Native D B} {f : A → Native D B}
      → Spares m
      → ((a : A) → Spares (f a))
      → Spares (elim o [ none ↦ m | some a ↦ f a ])
  Spares-option none h k = h
  Spares-option (some a) h k = k a

  pub Spares-named :
      (c : Context D) (key : Bytes) (act : Value D → Native D Unit)
      → ((v : Value D) → Spares (act v))
      → Spares (when_named c key act)
  unfolding when_named
  Spares-named c key act h = Spares-option (find key c.named) (Spares-done tt) h

  pub Spares-positional :
      (c : Context D) (n : ℕ) (message : Bytes) → Spares (need_positional c n message)
  unfolding need_positional
  Spares-positional c n message = Spares-lift _

  pub Spares-string_at : (c : Context D) (i : ℕ) (label : Bytes) → Spares (string_at c i label)
  unfolding string_at
  Spares-string_at c i label =
      Spares-option (get_elem? c.positional i) (Spares-lift _) (λ v. Spares-lift _)

  Spares-value_at : (c : Context D) (i : ℕ) → Spares (value_at c i)
  unfolding value_at
  Spares-value_at c i =
      Spares-option (get_elem? c.positional i) (Spares-done _) (λ v. Spares-done _)

  Spares-nothing : Spares {D = D} nothing
  unfolding nothing
  Spares-nothing = Spares-done _

  pub Spares-text :
      (set_text : Bytes → PluginMeta → PluginMeta) (label : Bytes) (c : Context D)
      → Spares (plugin_text set_text label c)
  unfolding plugin_text
  Spares-text set_text label c = Spares-option (get_elem? c.positional 0) Spares-nothing (λ v.
      Spares-bind (Spares-lift _)
        (λ s. Spares-bind (Spares-meta (set_text s)) (λ u. Spares-nothing)))

  pub Spares-kb_set : (c : Context D) → Spares (kb_set c)
  unfolding kb_set
  Spares-kb_set c = Spares-bind (Spares-positional c _ _) (λ u.
      Spares-bind (Spares-string_at c _ _) (λ key.
        Spares-bind (Spares-value_at c _)
          (λ v. Spares-bind (Spares-write_kb key v) (λ w. Spares-nothing))))

  pub Spares-kb_get : (c : Context D) → Spares (kb_get c)
  unfolding kb_get
  Spares-kb_get c = Spares-bind (Spares-positional c _ _) (λ u.
      Spares-bind (Spares-string_at c _ _) (λ key. Spares-bind Spares-state (λ st. Spares-done _)))

  pub Spares-kb_has : (c : Context D) → Spares (kb_has c)
  unfolding kb_has
  Spares-kb_has c = Spares-bind (Spares-positional c _ _) (λ u.
      Spares-bind (Spares-string_at c _ _) (λ key. Spares-bind Spares-state (λ st. Spares-done _)))

  Spares-scope_and_key : (c : Context D) → Spares (scope_and_key c)
  unfolding scope_and_key
  Spares-scope_and_key c =
      Spares-bind (Spares-string_at c _ _)
        (λ scope. Spares-bind (Spares-string_at c _ _) (λ key. Spares-lift _))

  pub Spares-kb_set_scoped : (c : Context D) → Spares (kb_set_scoped c)
  unfolding kb_set_scoped
  Spares-kb_set_scoped c = Spares-bind (Spares-positional c _ _) (λ u.
      Spares-bind (Spares-scope_and_key c) (λ key.
        Spares-bind (Spares-value_at c _)
          (λ v. Spares-bind (Spares-write_kb key v) (λ w. Spares-nothing))))

  pub Spares-kb_get_scoped : (c : Context D) → Spares (kb_get_scoped c)
  unfolding kb_get_scoped
  Spares-kb_get_scoped c = Spares-bind (Spares-positional c _ _) (λ u.
      Spares-bind (Spares-scope_and_key c) (λ key. Spares-bind Spares-state (λ st. Spares-done _)))

  pub Spares-kb_has_scoped : (c : Context D) → Spares (kb_has_scoped c)
  unfolding kb_has_scoped
  Spares-kb_has_scoped c = Spares-bind (Spares-positional c _ _) (λ u.
      Spares-bind (Spares-scope_and_key c) (λ key. Spares-bind Spares-state (λ st. Spares-done _)))
