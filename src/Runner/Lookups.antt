-- ===== src/Runner/Lookups.antt =====
-- src/ztl/runner.cpp: the object `cve` and `cve_lookup`, on the loaded database. Where the arguments of
-- a call may be evaluated in any order, they are read from left to right.
use zero_trust_public.Base.{
  ℕ, not, List, [], ◌∷◌, Bytes, codes, bytes_eq, is_empty, if◌then◌else◌, none, some, get_elem?,
  Floats,
}
use zero_trust_public.Cve.{CveEntry, VerificationResult, lookup, verify_version}
use zero_trust_public.Runtime.{
  Value, boolean, double, text, Object, Completion, normal, runtime_error, find, as_object,
}
use zero_trust_public.Runner.{
  Native, done_with, lift, ◌>>=◌, make_object, need_string, named_string,
}
use zero_trust_public.Runner.Natives.{Context, Callback}

unfoldable pub make_cve_result : {D : Type 0} → VerificationResult D → Object D
make_cve_result r = record {
  type_name = codes "CveResult";
  fields =
      (codes "vulnerable", boolean r.vulnerable)
      ∷ (codes "cve", text r.cve)
      ∷ (codes "severity", text r.severity)
      ∷ (codes "title", text r.title)
      ∷ (codes "description", text r.description)
      ∷ (codes "evidence", text r.evidence)
      ∷ (codes "cvss", double r.cvss)
      ∷ (codes "cvss_vector", text r.cvss_vector)
      ∷ (codes "remediation", text r.remediation)
      ∷ (codes "verification", text r.verification)
      ∷ (codes "confidence", double r.confidence)
      ∷ [];
  methods = [];
}

module _ {D : Type 0} (fp : Floats D) (db : List (CveEntry D)) where
  unfoldable pub cve_check : Callback D
  unfolding lift named_string make_object make_cve_result verify_version ◌>>=◌
  cve_check c = lift (named_string c (codes "id") (codes "cve id") []) >>= λ id.
      lift (named_string c (codes "product") (codes "product") []) >>= λ product.
      lift (named_string c (codes "version") (codes "version") []) >>= λ version.
      make_object (make_cve_result (verify_version fp db id product version))

  -- A field of the target, or nothing where it has none.
  unfoldable pub target_field : Context D → Object D → Bytes → Completion D Bytes
  unfolding find need_string
  target_field c target key = elim (find key target.fields) [
    | none ↦ normal []
    | some v ↦ need_string v key c.line c.col
  ]

  unfoldable pub verify_target : Context D → Object D → Native D (Value D)
  unfolding target_field lift named_string make_object make_cve_result verify_version ◌>>=◌
  verify_target c target =
      if not (bytes_eq target.type_name (codes "Target"))
      then lift (runtime_error (codes "cve.verify target must be a target object") c.line c.col)
      else (lift (named_string c (codes "id") (codes "cve id") []) >>= λ id.
          lift (target_field c target (codes "product")) >>= λ product.
          lift (target_field c target (codes "version")) >>= λ version.
          make_object (make_cve_result (verify_version fp db id product version)))

  unfoldable pub verify_value : Context D → Value D → Native D (Value D)
  unfolding verify_target lift
  verify_value c v sh = elim (as_object v) [
    | none ↦
        lift (runtime_error (codes "cve.verify target must be a target object") c.line c.col) sh
    | some o ↦ verify_target c (sh.objects o) sh
  ]

  unfoldable pub cve_verify : Callback D
  unfolding find lift verify_value
  cve_verify c = elim (find (codes "target") c.named) [
    | none ↦ lift (runtime_error (codes "cve.verify requires target:") c.line c.col)
    | some v ↦ verify_value c v
  ]

  -- The positional argument stands in for a named one that is empty.
  unfoldable pub or_positional : Context D → ℕ → Bytes → Bytes → Completion D Bytes
  unfolding need_string
  or_positional c i label s =
      if is_empty s
      then elim (get_elem? c.positional i) [
        | none ↦ normal s
        | some v ↦ need_string v label c.line c.col
      ]
      else normal s

  unfoldable pub cve_lookup : Callback D
  unfolding lift named_string or_positional lookup done_with ◌>>=◌
  cve_lookup c = lift (named_string c (codes "product") (codes "product") []) >>= λ named_product.
      lift (named_string c (codes "version") (codes "version") []) >>= λ named_version.
      lift (or_positional c 0 (codes "product") named_product) >>= λ product.
      lift (or_positional c 1 (codes "version") named_version) >>= λ version.
      done_with (text (lookup db product version))
