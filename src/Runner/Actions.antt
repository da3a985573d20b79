-- ===== src/Runner/Actions.antt =====
-- src/ztl/runner.cpp: `plugin.filter`, `plugin.set_service` and `plugin.run`, `finding`, and the queries
-- of the CVE database.
use zero_trust_public.Base.{
  ℕ, ◌%◌, ◌^◌, Bool, true, not, ◌||◌, [], ◌∷◌, ◌++◌, Bytes, codes, bytes_eq, is_empty,
  if◌then◌else◌, none, some, Floats,
}
use zero_trust_public.Finding.{Protocol, status_name, verification_status_from_string}
use zero_trust_public.Runtime.{
  Value, null, text, Shared, Completion, normal, runtime_error, returned, thrown, Effect, Numbers,
  find, as_number, is_truthy, value_to_string,
}
use zero_trust_public.Runner.{
  new_finding, RunState, Native, done_with, lift, ◌>>=◌, state_of, change, change_meta, write_kb,
  set_field, need_string, named_string,
}
use zero_trust_public.Runner.Natives.{when_named, Context, Callback, need_positional, string_at}

module _ {D : Type 0} (num : Numbers D) where
  unfoldable pub plugin_filter : Callback D
  unfolding when_named change_meta lift need_string is_truthy done_with ◌>>=◌
  plugin_filter c =
      when_named c (codes "any") (λ v.
        if is_truthy num v then change_meta (λ m. record m { filter_any = true }) else done_with tt)
      >>= λ _.
          when_named c (codes "service") (λ v.
            lift (need_string v (codes "filter service") c.line c.col) >>= λ s.
            change_meta (λ m. record m { filter_service = s }))
          >>= λ _. done_with null

  -- A named argument that is a string is written to the run's state.
  unfoldable pub note_text : Context D → Bytes → (Bytes → RunState D → RunState D) → Native D Unit
  unfolding when_named change lift need_string ◌>>=◌
  note_text c key set_text =
      when_named c key (λ v. lift (need_string v key c.line c.col) >>= λ s. change (set_text s))

  -- The fact and the field that a named argument is copied to as it is.
  unfoldable pub copy_to_kb : Context D → Bytes → Native D Unit
  unfolding when_named write_kb
  copy_to_kb c key = when_named c key (λ v. write_kb key v)

  -- `state->target->fields[key] = v`, if there is a target.
  unfoldable pub set_target : Bytes → Value D → Native D Unit
  unfolding state_of set_field done_with ◌>>=◌
  set_target key v =
      state_of >>= λ st. elim st.target [ none ↦ done_with tt | some o ↦ set_field o key v ]

  unfoldable pub plugin_set_service : Callback D
  unfolding need_positional string_at change note_text write_kb copy_to_kb set_target when_named
      done_with ◌>>=◌
  plugin_set_service c =
      need_positional c 1 (codes "set_service(name) requires 1 argument") >>= λ _.
      string_at c 0 (codes "service name") >>= λ svc.
      change (λ st. record st { set_service = svc }) >>= λ _.
      note_text c (codes "version") (λ s st. record st { set_version = s }) >>= λ _.
      note_text c (codes "product") (λ s st. record st { set_product = s }) >>= λ _.
      write_kb (codes "service") (text svc) >>= λ _. copy_to_kb c (codes "version") >>= λ _.
      copy_to_kb c (codes "product") >>= λ _. copy_to_kb c (codes "banner") >>= λ _.
      set_target (codes "service") (text svc) >>= λ _.
      when_named c (codes "version") (λ v. set_target (codes "version") v) >>= λ _.
      when_named c (codes "product") (λ v. set_target (codes "product") v) >>= λ _. done_with null

  -- Whether the filter lets the block run.
  unfoldable pub filter_passes : RunState D → Bool
  filter_passes st =
      st.meta.filter_any
      || (is_empty st.meta.filter_service || bytes_eq st.meta.filter_service st.known_service)

  -- `catch (const ReturnException&) {}`
  unfoldable pub caught :
      Completion D Unit × Shared D (RunState D) → Completion D (Value D) × Shared D (RunState D)
  caught (normal _, sh) = (normal null, sh)
  caught (returned _, sh) = (normal null, sh)
  caught (runtime_error msg line col, sh) = (runtime_error msg line col, sh)
  caught (thrown msg, sh) = (thrown msg, sh)

  unfoldable pub run_block : Effect D (RunState D) Unit → Native D (Value D)
  unfolding caught
  run_block body sh = caught (body sh)

  unfoldable pub plugin_run : Callback D
  unfolding lift state_of filter_passes run_block done_with ◌>>=◌
  plugin_run c = elim c.block [
    | none ↦ lift (runtime_error (codes "plugin.run requires a { ... } block") c.line c.col)
    | some body ↦ state_of >>= λ st.
        if st.meta_only || not (filter_passes st) then done_with null else run_block body
  ]

  -- A named argument that is a number where it is given; anything else is passed over.
  unfoldable named_number : Context D → Bytes → D → D
  unfolding find
  named_number c key other = elim (find key c.named) [
    | none ↦ other
    | some v ↦ elim (as_number v) [ none ↦ other | some n ↦ n ]
  ]

module _ {D : Type 0} (num : Numbers D) (fp : Floats D) (now : ℕ) (name_of : ℕ → Bytes) where
  -- `named_string` among native functions.
  unfoldable pub given : Context D → Bytes → Bytes → Native D Bytes
  unfolding named_string lift
  given c key other = lift (named_string c key key other)

  unfoldable pub named_evidence : Context D → Native D Bytes
  unfolding find value_to_string
  named_evidence c sh = (
    normal (elim (find (codes "evidence") c.named) [
      | none ↦ []
      | some v ↦ value_to_string num (λ o. (sh.objects o).type_name) name_of v
    ]),
    sh,
  )

  unfoldable pub named_verification : Context D → Native D Bytes
  unfolding find lift need_string verification_status_from_string status_name done_with ◌>>=◌
  named_verification c = elim (find (codes "verification") c.named) [
    | none ↦ done_with (codes "UNKNOWN")
    | some v ↦ lift (need_string v (codes "verification") c.line c.col) >>= λ s.
        done_with (status_name (verification_status_from_string s))
  ]

  -- The finding is pushed once all arguments are read.
  unfoldable pub finding_fn : Callback D
  unfolding given named_evidence named_verification named_number new_finding state_of change
      done_with ◌>>=◌
  finding_fn c = given c (codes "severity") [] >>= λ severity.
      given c (codes "title") [] >>= λ title. given c (codes "description") [] >>= λ description.
      given c (codes "cve") [] >>= λ cve. named_verification c >>= λ verification.
      named_evidence c >>= λ evidence. given c (codes "remediation") [] >>= λ remediation.
      given c (codes "cvss_vector") [] >>= λ vector.
      let confidence = named_number num c (codes "confidence") (fp.literal 0 0) in
      change (λ st. record st {
        findings =
            st.findings
            ++ (record (new_finding fp) {
              plugin_name = st.meta.name;
              port_number = st.target_port % 2 ^ 16;
              service = if is_empty st.set_service then st.known_service else st.set_service;
              severity = if is_empty severity then codes "info" else severity;
              title = title;
              description = description;
              cve_id = cve;
              verification = verification;
              evidence = evidence;
              confidence = confidence;
              remediation = remediation;
              cvss_vector = vector;
              cvss = named_number num c (codes "cvss") (fp.negate (fp.literal 1 0));
              confidence_score = confidence;
              timestamp = now;
              evidence_data = record {
                type = codes "plugin";
                source = st.meta.name;
                value = evidence;
                details = description;
              };
              host = st.target_host;
              protocol = Protocol.tcp;
              scope = codes "PORT";
              product = st.set_product;
              version = st.set_version;
            }
                ∷ []);
      })
      >>= λ _. done_with null
