-- ===== src/Runner/Laws.antt =====
-- What the native functions of a plugin do to the state of its run.
use zero_trust_public.Base.{
  ℕ, ◌%◌, ◌^◌, false, List, [], ◌∷◌, ◌++◌, Bytes, codes, bytes_eq, is_empty, if◌then◌else◌, none,
  some, Floats, ◌≡◌, refl, ◌∙◌, Option-cases, Bool-cases, inl, inr,
}
use zero_trust_public.Finding.{status_name, verification_status_from_string}
use zero_trust_public.Runtime.{
  Value, null, text, Vars, Shared, Completion, normal, runtime_error, Effect, Numbers, put, find,
}
use zero_trust_public.Runtime.Scopes.{find-put}
use zero_trust_public.Runner.{
  FindingOut, RunState, Native, done_with, lift, ◌>>=◌, resume, state_of, change, write_kb,
  need_string, named_string,
}
use zero_trust_public.Runner.Natives.{
  Context, need_positional, string_at, value_at, read_kb, kb_set, kb_get,
}
use zero_trust_public.Runner.Actions.{
  filter_passes, plugin_run, finding_fn, named_evidence, named_verification, given,
}

module _ {D : Type 0} where
  -- The arguments of a call of `kb.get` and of `kb.set`.
  abbrev with_arguments : List (Value D) → ℕ → ℕ → Context D
  with_arguments args line col = record {
    self = null;
    positional = args;
    named = [];
    block = none;
    line = line;
    col = col;
  }

  -- With a knowledge base, `kb.get` behind `kb.set` gives the value that was set for the same key, and
  -- for every other key what it would have given before.
  kb_get-kb_set :
      (key other : Bytes) (v : Value D) (facts : Vars D) (line col : ℕ) (sh : Shared D (RunState D))
      → sh.world.kb ≡ some facts
      → (kb_get
          (with_arguments (text other ∷ []) line col)
          (kb_set (with_arguments (text key ∷ v ∷ []) line col) sh).1).0
        ≡ (if bytes_eq key other
            then normal v
            else (kb_get (with_arguments (text other ∷ []) line col) sh).0)
  unfolding kb_get kb_set need_positional string_at value_at state_of read_kb write_kb change lift
      done_with resume need_string ◌>>=◌
  kb_get-kb_set key other v facts line col sh h =
      let found = find-put key other v facts in
      elim (Bool-cases (bytes_eq key other)) [
        | inl e ↦
            let same : find other (put key v facts) ≡ some v = found ∙ rw e refl in
            rw (read_kb, h, same, e) refl
        | inr e ↦
            let same : find other (put key v facts) ≡ find other facts = found ∙ rw e refl in
            rw (read_kb, h, same, e) refl
      ]

module _ {D : Type 0} (num : Numbers D) (c : Context D) (body : Effect D (RunState D) Unit) where
  -- Where a plugin's filter names another service than the one that is known, and it does not take any,
  -- `plugin.run` does not run its block: whatever the block would do, nothing changes.
  plugin_run_filtered :
      (sh : Shared D (RunState D))
      → c.block ≡ some body
      → filter_passes num sh.world ≡ false
      → plugin_run num c sh ≡ (normal null, sh)
  unfolding plugin_run ◌>>=◌ state_of resume done_with
  plugin_run_filtered sh b h = elim (Bool-cases sh.world.meta_only) [
    | inl e ↦ rw (plugin_run, b, h, e) refl
    | inr e ↦ rw (plugin_run, b, h, e) refl
  ]

-- How a call of `finding` ends: it is refused with an error and changes nothing, or one finding of the
-- run is pushed.
pub data Reported {D : Type 0} (sh : Shared D (RunState D))
    : Completion D (Value D) × Shared D (RunState D) → Type 0 where
  refused : {msg : Bytes} {line col : ℕ} → Reported sh (runtime_error msg line col, sh)
  pushed :
      (f : FindingOut D)
      → f.host ≡ sh.world.target_host
      → f.port_number ≡ sh.world.target_port % 2 ^ 16
      → f.plugin_name ≡ sh.world.meta.name
      → is_empty f.severity ≡ false
      → Reported sh (
        normal null,
        record {
          globals = sh.globals;
          objects = sh.objects;
          world = record (sh.world) { findings = sh.world.findings ++ (f ∷ []) };
        },
      )

module _ {D : Type 0} (sh : Shared D (RunState D)) where
  Reported-string :
      (v : Value D) (label : Bytes) (line col : ℕ) (f : Bytes → Native D (Value D))
      → ((s : Bytes) → Reported sh (f s sh))
      → Reported sh ((lift (need_string v label line col) >>= f) sh)
  unfolding lift need_string ◌>>=◌ resume
  Reported-string (text s) label line col f h = h s
  Reported-string _ label line col f h = refused

  Reported-given :
      (c : Context D) (key other : Bytes) (f : Bytes → Native D (Value D))
      → ((s : Bytes) → Reported sh (f s sh))
      → Reported sh ((lift (named_string c key key other) >>= f) sh)
  unfolding lift named_string ◌>>=◌ resume
  Reported-given c key other f h = elim (Option-cases (find key c.named)) [
    | inl e ↦ rw (named_string, e) (h other)
    | inr (v, e) ↦ rw (named_string, e) (Reported-string v key c.line c.col f h)
  ]

severity_filled : (s : Bytes) → is_empty (if is_empty s then codes "info" else s) ≡ false
unfolding is_empty
severity_filled [] = refl
severity_filled (x ∷ s) = refl

module _ {D : Type 0} (num : Numbers D) (fp : Floats D) (now : ℕ) (name_of : ℕ → Bytes) where
  Reported-verification :
      (sh : Shared D (RunState D)) (c : Context D) (f : Bytes → Native D (Value D))
      → ((s : Bytes) → Reported sh (f s sh))
      → Reported sh ((named_verification num fp now name_of c >>= f) sh)
  unfolding named_verification lift need_string done_with ◌>>=◌ resume
  Reported-verification sh c f h = elim (Option-cases (find (codes "verification") c.named)) [
    | inl e ↦ rw (named_verification, e) (h (codes "UNKNOWN"))
    | inr (v, e) ↦ rw (named_verification, e) (by_value v)
  ]
    where
      by_value :
          (v : Value D)
          → Reported sh (
              ((lift (need_string v (codes "verification") c.line c.col) >>= λ s.
              done_with (status_name (verification_status_from_string s)))
                  >>= f)
                sh)
      by_value (text s) = h (status_name (verification_status_from_string s))
      by_value _ = refused

  -- Every call of `finding`, with whatever arguments, either raises an error and leaves the run as it
  -- was, or pushes one finding behind those that are there, for the host, the port and the plugin of
  -- the run and with a severity.
  pub finding_fn-Reported :
      (c : Context D) (sh : Shared D (RunState D))
      → Reported sh (finding_fn num fp now name_of c sh)
  unfolding finding_fn given named_evidence change done_with ◌>>=◌ resume
  finding_fn-Reported c sh = Reported-given sh c (codes "severity") [] _ (λ severity.
      Reported-given sh c (codes "title") [] _ (λ title.
        Reported-given sh c (codes "description") [] _ (λ description.
          Reported-given sh c (codes "cve") [] _ (λ cve.
            Reported-verification sh c _ (λ verification.
              Reported-given sh c (codes "remediation") [] _ (λ remediation.
                Reported-given sh c (codes "cvss_vector") [] _
                  (λ vector. pushed _ refl refl refl (severity_filled severity))))))))
