-- ===== src/Runner/Natives.antt =====
-- src/ztl/runner.cpp: the functions of the objects `plugin`, `kb` and `cve`, `finding` and
-- `cve_lookup`, on the state of a run.
use zero_trust_public.Base.{
  ℕ, Bool, false, ◌||◌, ◌∷◌, ◌++◌, Bytes, codes, bytes_eq, if◌then◌else◌, none, some, ltb, length,
  get_elem?,
}
use zero_trust_public.Runtime.{Value, null, boolean, normal, runtime_error, CallContext, find, has}
use zero_trust_public.Runner.{
  PluginMeta, RunState, Native, done_with, lift, ◌>>=◌, state_of, change_meta, write_kb,
  need_string,
}

-- The named argument, and what to do with it where it is given.
unfoldable pub when_named :
    {D W : Type 0} → CallContext D W → Bytes → (Value D → Native D Unit) → Native D Unit
unfolding find done_with
when_named c key act = elim (find key c.named) [ none ↦ done_with tt | some v ↦ act v ]

abbrev pub Context : Type 0 → Type 0
Context D = CallContext D (RunState D)

abbrev pub Callback : Type 0 → Type 0
Callback D = Context D → Native D (Value D)

module _ {D : Type 0} where
  -- `if (c.positional.size() < n) throw RuntimeError(message)`
  unfoldable pub need_positional : Context D → ℕ → Bytes → Native D Unit
  unfolding lift
  need_positional c n message =
      lift (if ltb (length c.positional) n then runtime_error message c.line c.col else normal tt)

  -- The positional argument that is a string; its place is one that was tested.
  unfoldable pub string_at : Context D → ℕ → Bytes → Native D Bytes
  unfolding lift need_string
  string_at c i label = elim (get_elem? c.positional i) [
    | none ↦ lift (runtime_error label c.line c.col)
    | some v ↦ lift (need_string v label c.line c.col)
  ]

  unfoldable pub value_at : Context D → ℕ → Native D (Value D)
  unfolding done_with
  value_at c i = elim (get_elem? c.positional i) [ none ↦ done_with null | some v ↦ done_with v ]

  unfoldable pub nothing : Native D (Value D)
  unfolding done_with
  nothing = done_with null

  -- `plugin.name`, `plugin.description` and `plugin.category`.
  unfoldable pub plugin_text : (Bytes → PluginMeta → PluginMeta) → Bytes → Callback D
  unfolding lift need_string change_meta nothing ◌>>=◌
  plugin_text set_text label c = elim (get_elem? c.positional 0) [
    | none ↦ nothing
    | some v ↦
        lift (need_string v label c.line c.col) >>= λ s. change_meta (set_text s) >>= λ _. nothing
  ]

  -- `kb->data.find(key)`, or null without a knowledge base.
  unfoldable pub read_kb : Bytes → RunState D → Value D
  unfolding find
  read_kb key st = elim st.kb [
    | none ↦ null
    | some facts ↦ elim (find key facts) [ none ↦ null | some v ↦ v ]
  ]

  unfoldable in_kb : Bytes → RunState D → Bool
  unfolding has
  in_kb key st = elim st.kb [ none ↦ false | some facts ↦ has key facts ]

  unfoldable pub kb_set : Callback D
  unfolding need_positional string_at value_at write_kb nothing ◌>>=◌
  kb_set c = need_positional c 2 (codes "kb.set(key, value) requires 2 args") >>= λ _.
      string_at c 0 (codes "key") >>= λ key. value_at c 1 >>= λ v. write_kb key v >>= λ _. nothing

  unfoldable pub kb_get : Callback D
  unfolding need_positional string_at state_of done_with read_kb ◌>>=◌
  kb_get c = need_positional c 1 (codes "kb.get(key) requires 1 arg") >>= λ _.
      string_at c 0 (codes "key") >>= λ key. state_of >>= λ st. done_with (read_kb key st)

  unfoldable pub kb_has : Callback D
  unfolding need_positional string_at state_of done_with in_kb ◌>>=◌
  kb_has c = need_positional c 1 (codes "kb.has(key) requires 1 arg") >>= λ _.
      string_at c 0 (codes "key") >>= λ key. state_of >>= λ st. done_with (boolean (in_kb key st))

  -- `scope + "." + key` for the first two arguments, if the scope is one of the two.
  unfoldable pub scope_and_key : Context D → Native D Bytes
  unfolding string_at lift ◌>>=◌
  scope_and_key c = string_at c 0 (codes "scope") >>= λ scope.
      string_at c 1 (codes "key") >>= λ key. lift (
        if bytes_eq scope (codes "host") || bytes_eq scope (codes "port")
        then normal (scope ++ (b'.' ∷ key))
        else runtime_error (codes "scope must be host or port") c.line c.col)

  unfoldable pub kb_set_scoped : Callback D
  unfolding need_positional scope_and_key value_at write_kb nothing ◌>>=◌
  kb_set_scoped c =
      need_positional c 3 (codes "kb.set_scoped(scope, key, value) requires 3 args") >>= λ _.
      scope_and_key c >>= λ key. value_at c 2 >>= λ v. write_kb key v >>= λ _. nothing

  unfoldable pub kb_get_scoped : Callback D
  unfolding need_positional scope_and_key state_of done_with read_kb ◌>>=◌
  kb_get_scoped c = need_positional c 2 (codes "kb.get_scoped(scope, key) requires 2 args") >>= λ _.
      scope_and_key c >>= λ key. state_of >>= λ st. done_with (read_kb key st)

  unfoldable pub kb_has_scoped : Callback D
  unfolding need_positional scope_and_key state_of done_with in_kb ◌>>=◌
  kb_has_scoped c = need_positional c 2 (codes "kb.has_scoped(scope, key) requires 2 args") >>= λ _.
      scope_and_key c >>= λ key. state_of >>= λ st. done_with (boolean (in_kb key st))
