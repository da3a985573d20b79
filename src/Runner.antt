-- ===== src/Runner.antt =====
-- src/ztl/runner.hpp and src/ztl/runner.cpp: the state of a run of a plugin, and the effects that
-- native functions are made of. Objects that a run makes get the next free reference.
pub mod Natives
pub mod Actions
pub mod Lookups
pub mod Plugins
pub mod Passes
pub mod AllPorts
pub mod Laws
pub mod Globals
pub mod Sealed
pub mod Http
use zero_trust_public.Base.{
  ℕ, suc, ◌==◌, Bool, true, false, List, [], ◌∷◌, ◌++◌, Bytes, codes, if◌then◌else◌, Option, none,
  some, Floats,
}
use zero_trust_public.Finding.{Protocol, Evidence}
use zero_trust_public.Runtime.{
  Value, null, boolean, double, text, object, Vars, Object, Shared, Completion, normal,
  runtime_error, returned, thrown, Effect, CallContext, NativeFn, put, find, type_name_of,
  as_string,
}

pub record FindingOut (D : Type 0) : Type 0 where
  pub plugin_name : Bytes
  pub severity : Bytes
  pub title : Bytes
  pub description : Bytes
  pub evidence : Bytes
  pub evidence_data : Evidence
  pub references : List Bytes
  pub remediation : Bytes
  pub cvss_vector : Bytes
  pub cvss : D
  pub cve_id : Bytes
  pub verification : Bytes
  pub confidence_score : D
  pub host : Bytes
  pub protocol : Protocol
  pub scope : Bytes
  pub product : Bytes
  pub version : Bytes
  pub timestamp : ℕ
  pub service : Bytes
  pub confidence : D
  pub port_number : ℕ

-- The initial values of the fields.
unfoldable pub new_finding : {D : Type 0} → Floats D → FindingOut D
new_finding fp = record {
  plugin_name = [];
  severity = [];
  title = [];
  description = [];
  evidence = [];
  evidence_data = record { type = []; source = []; value = []; details = [] };
  references = [];
  remediation = [];
  cvss_vector = [];
  cvss = fp.negate (fp.literal 1 0);
  cve_id = [];
  verification = codes "UNKNOWN";
  confidence_score = fp.literal 0 0;
  host = [];
  protocol = Protocol.unknown;
  scope = codes "PORT";
  product = [];
  version = [];
  timestamp = 0;
  service = [];
  confidence = fp.literal 0 0;
  port_number = 0;
}

pub record PluginMeta : Type 0 where
  pub name : Bytes
  pub description : Bytes
  pub category : Bytes
  pub filter_service : Bytes
  pub filter_any : Bool

abbrev pub new_meta : PluginMeta
new_meta = record {
  name = [];
  description = [];
  category = [];
  filter_service = [];
  filter_any = false;
}

-- `kb` is none where the pointer is null. `next_object` counts the references that are in use.
pub record RunState (D : Type 0) : Type 0 where
  pub meta : PluginMeta
  pub findings : List (FindingOut D)
  pub target_host : Bytes
  pub target_port : ℕ
  pub known_service : Bytes
  pub set_service : Bytes
  pub set_product : Bytes
  pub set_version : Bytes
  pub meta_only : Bool
  pub kb : Option (Vars D)
  pub target : Option ℕ
  pub next_object : ℕ

-- What a native function does.
abbrev pub Native : Type 0 → Type 0 → Type 0
Native D A = Effect D (RunState D) A

module _ {D : Type 0} where
  unfoldable pub done_with : {A : Type 0} → A → Native D A
  done_with a sh = (normal a, sh)

  unfoldable pub lift : {A : Type 0} → Completion D A → Native D A
  lift c sh = (c, sh)

  unfoldable pub resume :
      {A B : Type 0}
      → Completion D A × Shared D (RunState D)
      → (A → Native D B)
      → Completion D B × Shared D (RunState D)
  resume (normal a, sh) f = f a sh
  resume (runtime_error msg line col, sh) f = (runtime_error msg line col, sh)
  resume (returned v, sh) f = (returned v, sh)
  resume (thrown msg, sh) f = (thrown msg, sh)

  infixl 5 ◌>>=◌
  unfoldable pub ◌>>=◌ : {A B : Type 0} → Native D A → (A → Native D B) → Native D B
  unfolding resume
  (m >>= f) sh = resume (m sh) f

  -- The run's state, and a change of it.
  unfoldable pub state_of : Native D (RunState D)
  state_of sh = (normal sh.world, sh)

  unfoldable pub change : (RunState D → RunState D) → Native D Unit
  change f sh =
      (normal tt, record { globals = sh.globals; objects = sh.objects; world = f sh.world })

  unfoldable pub change_meta : (PluginMeta → PluginMeta) → Native D Unit
  unfolding change
  change_meta f = change (λ st. record st { meta = f st.meta })

  -- `state->kb->data[key] = v`, if there is a knowledge base.
  unfoldable pub write_kb : Bytes → Value D → Native D Unit
  unfolding change put
  write_kb key v =
      change
        (λ st. record st { kb = elim st.kb [ none ↦ none | some facts ↦ some (put key v facts) ] })

  unfoldable with_field : Object D → Bytes → Value D → Object D
  unfolding put
  with_field o key v = record o { fields = put key v o.fields }

  -- `o->fields[key] = v`
  unfoldable pub set_field : ℕ → Bytes → Value D → Native D Unit
  unfolding with_field
  set_field o key v sh = (
    normal tt,
    record {
      globals = sh.globals;
      objects = λ p. if p == o then with_field (sh.objects o) key v else sh.objects p;
      world = sh.world;
    },
  )

  -- `std::make_shared<Object>`
  unfoldable pub make_object : Object D → Native D (Value D)
  make_object made sh =
      let next = sh.world.next_object in
      (
        normal (object next),
        record {
          globals = sh.globals;
          objects = λ p. if p == next then made else sh.objects p;
          world = record (sh.world) { next_object = suc next };
        },
      )

  unfoldable pub need_string : Value D → Bytes → ℕ → ℕ → Completion D Bytes
  unfolding type_name_of
  need_string v label line col = elim (as_string v) [
    | some s ↦ normal s
    | none ↦
        runtime_error (label ++ (codes " must be a string (got " ++ (type_name_of v ++ codes ")")))
          line col
  ]

  -- A named argument that is a string where it is given.
  unfoldable pub named_string :
      {W : Type 0} → CallContext D W → Bytes → Bytes → Bytes → Completion D Bytes
  unfolding need_string find
  named_string c key label other = elim (find key c.named) [
    | none ↦ normal other
    | some v ↦ need_string v label c.line c.col
  ]
