-- ===== src/Runner/Plugins.antt =====
-- src/ztl/runner.cpp: the globals of a run, run_plugin, run_for_port and run_all. The functions of the
-- network (`net::tcp`, `net::http` and `net::tls`, and the methods of what they make) are an argument,
-- by their references from 16 on.
use zero_trust_public.Base.{
  ℕ, ◌%◌, ◌^◌, false, List, [], ◌∷◌, ◌++◌, Bytes, codes, is_empty, if◌then◌else◌, Option, none,
  some, ◌==◌, get_elem?, Floats,
}
use zero_trust_public.Cve.{CveEntry}
use zero_trust_public.Parser.{Stmts}
use zero_trust_public.Runtime.{
  Value, double, text, object, function, Vars, Object, Shared, Completion, normal, runtime_error,
  returned, thrown, what, NativeFn, Numbers, find,
}
use zero_trust_public.Interpreter.{run_program}
use zero_trust_public.Runner.{FindingOut, new_finding, PluginMeta, new_meta, RunState}
use zero_trust_public.Runner.Natives.{
  Callback, plugin_text, kb_set, kb_get, kb_has, kb_set_scoped, kb_get_scoped, kb_has_scoped,
}
use zero_trust_public.Runner.Actions.{plugin_filter, plugin_set_service, plugin_run, finding_fn}
use zero_trust_public.Runner.Lookups.{cve_check, cve_verify, cve_lookup}

pub record LoadedPlugin (D : Type 0) : Type 0 where
  pub program : Stmts D
  pub source_path : Bytes
  pub preview_meta : PluginMeta

pub record RunOutcome (D : Type 0) : Type 0 where
  pub meta : PluginMeta
  pub findings : List (FindingOut D)
  pub detected_service : Bytes
  pub detected_product : Bytes
  pub detected_version : Bytes
  pub detected_port : ℕ

pub record DetectedInfo : Type 0 where
  pub service : Bytes
  pub product : Bytes
  pub version : Bytes

abbrev no_object : {D : Type 0} → Object D
no_object = record { type_name = []; fields = []; methods = [] }

unfoldable make_target_obj : {D : Type 0} → Numbers D → Bytes → ℕ → Bytes → Object D
make_target_obj num host port service = record {
  type_name = codes "Target";
  fields =
      (codes "host", text host)
      ∷ (codes "port", double (num.of_size port))
      ∷ (codes "service", text service)
      ∷ [];
  methods = [];
}

-- The objects `plugin`, `kb` and `cve`, with the references of their functions.
unfoldable plugin_obj : {D : Type 0} → Object D
plugin_obj = record {
  type_name = codes "Plugin";
  fields = [];
  methods =
      (codes "name", 0)
      ∷ (codes "description", 1)
      ∷ (codes "category", 2)
      ∷ (codes "filter", 3)
      ∷ (codes "set_service", 4)
      ∷ (codes "run", 5)
      ∷ [];
}

unfoldable kb_obj : {D : Type 0} → Object D
kb_obj = record {
  type_name = codes "Kb";
  fields = [];
  methods =
      (codes "set", 7)
      ∷ (codes "get", 8)
      ∷ (codes "has", 9)
      ∷ (codes "set_scoped", 10)
      ∷ (codes "get_scoped", 11)
      ∷ (codes "has_scoped", 12)
      ∷ [];
}

unfoldable cve_obj : {D : Type 0} → Object D
cve_obj = record {
  type_name = codes "Cve";
  fields = [];
  methods = (codes "check", 13) ∷ (codes "verify", 14) ∷ [];
}

module _ {D : Type 0} (num : Numbers D) (fp : Floats D) (db : List (CveEntry D)) (now : ℕ)
    (network : ℕ → NativeFn D (RunState D)) where
  names_of_natives : List Bytes
  names_of_natives =
      codes "Plugin.name"
      ∷ codes "Plugin.description"
      ∷ codes "Plugin.category"
      ∷ codes "Plugin.filter"
      ∷ codes "Plugin.set_service"
      ∷ codes "Plugin.run"
      ∷ codes "finding"
      ∷ codes "Kb.set"
      ∷ codes "Kb.get"
      ∷ codes "Kb.has"
      ∷ codes "Kb.set_scoped"
      ∷ codes "Kb.get_scoped"
      ∷ codes "Kb.has_scoped"
      ∷ codes "cve.check"
      ∷ codes "cve.verify"
      ∷ codes "cve_lookup"
      ∷ []

  unfoldable pub name_of : ℕ → Bytes
  unfolding names_of_natives
  name_of f = elim (get_elem? names_of_natives f) [ none ↦ (network f).name | some n ↦ n ]

  unfoldable pub callbacks : List (Callback D)
  unfolding plugin_text plugin_filter plugin_set_service plugin_run finding_fn name_of kb_set kb_get
      kb_has kb_set_scoped kb_get_scoped kb_has_scoped cve_check cve_verify cve_lookup
  callbacks =
      plugin_text (λ s m. record m { name = s }) (codes "plugin name")
      ∷ plugin_text (λ s m. record m { description = s }) (codes "description")
      ∷ plugin_text (λ s m. record m { category = s }) (codes "category")
      ∷ plugin_filter num
      ∷ plugin_set_service num
      ∷ plugin_run num
      ∷ finding_fn num fp now name_of
      ∷ kb_set
      ∷ kb_get
      ∷ kb_has
      ∷ kb_set_scoped
      ∷ kb_get_scoped
      ∷ kb_has_scoped
      ∷ cve_check fp db
      ∷ cve_verify fp db
      ∷ cve_lookup fp db
      ∷ []

  unfoldable pub natives : ℕ → NativeFn D (RunState D)
  unfolding callbacks name_of
  natives f = elim (get_elem? callbacks f) [
    | none ↦ network f
    | some callback ↦ record { name = name_of f; fn = callback }
  ]

  -- The fact of the knowledge base, or the empty text.
  fact_or_empty : Bytes → Option (Vars D) → Value D
  unfolding find
  fact_or_empty key none = text []
  fact_or_empty key (some facts) = elim (find key facts) [ none ↦ text [] | some v ↦ v ]

  -- The target's product and version are the port's facts.
  target_of : RunState D → Object D
  unfolding make_target_obj fact_or_empty
  target_of st =
      let o = make_target_obj num st.target_host st.target_port st.known_service in
      record o {
        fields =
            o.fields
            ++ ((codes "product", fact_or_empty (codes "product") st.kb)
                ∷ (codes "version", fact_or_empty (codes "version") st.kb)
                ∷ []);
      }

  -- The references 0 to 3 are `plugin`, `target`, `kb` and `cve`.
  unfoldable pub register_stdlib : RunState D → Shared D (RunState D)
  unfolding plugin_obj target_of kb_obj cve_obj
  register_stdlib st = record {
    globals =
        (codes "plugin", object 0)
        ∷ (codes "target", object 1)
        ∷ (codes "finding", function 6)
        ∷ (codes "kb", object 2)
        ∷ (codes "cve", object 3)
        ∷ (codes "cve_lookup", function 15)
        ∷ (codes "net::tcp", function 16)
        ∷ (codes "net::http", function 17)
        ∷ (codes "net::tls", function 18)
        ∷ [];
    objects = λ o.
        if o == 0
        then plugin_obj
        else if o == 1
        then target_of st
        else if o == 2
        then kb_obj
        else if o == 3
        then cve_obj
        else no_object;
    world = record st { target = some 1; next_object = 4 };
  }

  -- The finding for an exception.
  unfoldable error_finding : LoadedPlugin D → Bytes → RunState D → FindingOut D
  unfolding new_finding
  error_finding p message st = record (new_finding fp) {
    plugin_name = if is_empty st.meta.name then p.source_path else st.meta.name;
    severity = codes "debug";
    title = codes "Plugin runtime error";
    description = message;
    port_number = st.target_port % 2 ^ 16;
  }

  -- The text of the exception that ends the program, if one other than a return does.
  unfoldable failure_of : Completion D Unit → Option Bytes
  unfolding what
  failure_of (normal _) = none
  failure_of (returned _) = none
  failure_of (runtime_error msg line col) = some (what msg line col)
  failure_of (thrown msg) = some msg

  -- The findings of a run that ended so.
  unfoldable pub findings_of : LoadedPlugin D → Option Bytes → RunState D → List (FindingOut D)
  unfolding error_finding
  findings_of p none st = st.findings
  findings_of p (some message) st = st.findings ++ (error_finding p message st ∷ [])

  -- The state with which a run begins.
  unfoldable pub start_state : Bytes → ℕ → Bytes → Option (Vars D) → RunState D
  start_state host port service kb = record {
    meta = new_meta;
    findings = [];
    target_host = host;
    target_port = port;
    known_service = service;
    set_service = [];
    set_product = [];
    set_version = [];
    meta_only = false;
    kb = kb;
    target = none;
    next_object = 0;
  }

  -- The outcome, and the facts of the port as the plugin leaves them.
  unfoldable pub run_plugin :
      LoadedPlugin D → Bytes → ℕ → Bytes → Option (Vars D) → RunOutcome D × Option (Vars D)
  unfolding run_program natives register_stdlib start_state findings_of failure_of
  run_plugin p host port service kb =
      let run =
        run_program num natives p.program (register_stdlib (start_state host port service kb)) in
      let st = run.1.world in
      (
        record {
          meta = st.meta;
          findings = findings_of p (failure_of run.0) st;
          detected_service = st.set_service;
          detected_product = st.set_product;
          detected_version = st.set_version;
          detected_port = if is_empty st.set_service then 0 else port;
        },
        st.kb,
      )
