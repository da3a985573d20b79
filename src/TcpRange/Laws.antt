-- ===== src/TcpRange/Laws.antt =====
-- No CVE that a part of a port's task reports is lost on the way to the findings of the port.
use zero_trust_public.Base.{
  Bool, true, false, not, ◌||◌, List, [], ◌∷◌, ◌++◌, map, Bytes, bytes_eq, bytes_eq_iff,
  bytes_eq_refl, is_empty, filter_by, cons_if, Floats, ◌≡◌, refl, sym, ap, ◌∙◌, Bool-cases, inl,
  inr, arith,
}
use zero_trust_public.Finding.{Port, Finding, finding_identity}
use zero_trust_public.Finding.Dedup.Laws.{has_key, deduplicate_findings-has_key}
use zero_trust_public.TcpRange.{has_cve, in_plugin_cves, with_cves, fill, findings_of}

or_true : (b : Bool) → (b || true) ≡ true
or_true true = refl
or_true false = refl

module _ {D : Type 0} (id : Bytes) where
  has_cve-append : (a b : List (Finding D)) → has_cve id (a ++ b) ≡ (has_cve id a || has_cve id b)
  unfolding has_cve
  has_cve-append [] b = refl
  has_cve-append (f ∷ a) b = ground (arith, has_cve-append a b)

  has_cve-fill :
      (ip : Bytes) (port : Port) (fs : List (Finding D))
      → has_cve id (map (fill ip port) fs) ≡ has_cve id fs
  unfolding has_cve fill
  has_cve-fill ip port [] = refl
  has_cve-fill ip port (f ∷ fs) = ap (λ b. bytes_eq id f.cve_id || b) (has_cve-fill ip port fs)

  not_in : (local : List (Finding D)) → has_cve id local ≡ false → in_plugin_cves id local ≡ false
  unfolding in_plugin_cves
  not_in local h = elim (Bool-cases (is_empty id)) [ inl e ↦ rw e refl | inr e ↦ rw (e, h) refl ]

  -- A finding about another CVE makes no difference.
  has_cve-cons_if :
      (b : Bool) (f : Finding D) (fs : List (Finding D))
      → bytes_eq id f.cve_id ≡ false
      → has_cve id (cons_if b f fs) ≡ has_cve id fs
  unfolding has_cve
  has_cve-cons_if true f fs e = ap (λ b. b || has_cve id fs) e
  has_cve-cons_if false f fs e = refl

  -- What is left out has a CVE that is there already.
  has_cve-filter :
      (local cves : List (Finding D))
      → has_cve id local ≡ false
      → has_cve id (filter_by (λ f. not (in_plugin_cves f.cve_id local)) cves) ≡ has_cve id cves
  unfolding has_cve in_plugin_cves
  has_cve-filter local [] h = refl
  has_cve-filter local (f ∷ cves) h =
      let rest = filter_by (λ g. not (in_plugin_cves g.cve_id local)) cves in
      let later = has_cve-filter local cves h in
      elim (Bool-cases (bytes_eq id f.cve_id)) [
        | inl e ↦
            let same : id ≡ f.cve_id = (bytes_eq_iff id f.cve_id).0 e in
            let kept : in_plugin_cves f.cve_id local ≡ false =
              ap (λ c. in_plugin_cves c local) (sym same) ∙ not_in local h in
            ap (λ b. has_cve id (cons_if (not b) f rest)) kept
            ∙ ap (λ b. bytes_eq id f.cve_id || b) later
        | inr e ↦
            has_cve-cons_if (not (in_plugin_cves f.cve_id local)) f rest e
            ∙ later
            ∙ sym (ap (λ b. b || has_cve id cves) e)
      ]

  -- The combined list is about a CVE exactly if one of the two lists is.
  has_cve-with_cves :
      (local cves : List (Finding D))
      → has_cve id (with_cves local cves) ≡ (has_cve id local || has_cve id cves)
  unfolding with_cves
  has_cve-with_cves local cves =
      has_cve-append local (filter_by (λ f. not (in_plugin_cves f.cve_id local)) cves)
      ∙ elim (Bool-cases (has_cve id local)) [
        | inl e ↦ rw e refl
        | inr e ↦ rw e (has_cve-filter local cves e)
      ]

  -- A finding about the CVE whose identity is in the list.
  abbrev pub Found : List (Finding D) → Type 0
  Found fs = (g : Finding D) × (g.cve_id ≡ id) × (has_key (finding_identity g) fs ≡ true)

  has_cve-Found : (fs : List (Finding D)) → has_cve id fs ≡ true → Found fs
  unfolding has_cve
  has_cve-Found [] h = absurd (ground (arith, h))
  has_cve-Found (f ∷ fs) h = elim (Bool-cases (bytes_eq id f.cve_id)) [
    | inl e ↦ (
      f,
      sym ((bytes_eq_iff id f.cve_id).0 e),
      ap (λ b. b || has_key (finding_identity f) fs) (bytes_eq_refl (finding_identity f)),
    )
    | inr e ↦
        let later = has_cve-Found fs (ground (arith, h)) in
        (
          later.0,
          later.1,
          ap (λ b. bytes_eq (finding_identity later.0) (finding_identity f) || b) later.2
              ∙ or_true _,
        )
  ]

  -- Every CVE that a check, a plugin or check_port reports for a port is among its findings: they hold
  -- the identity of a finding about it.
  pub findings_of-Found :
      (fp : Floats D) (ip : Bytes) (port : Port) (local cves : List (Finding D))
      → (has_cve id local || has_cve id cves) ≡ true
      → Found (findings_of fp ip port local cves)
  unfolding findings_of
  findings_of-Found fp ip port local cves h =
      let filled = map (fill ip port) (with_cves local cves) in
      let found =
        has_cve-Found filled
          (has_cve-fill ip port (with_cves local cves) ∙ has_cve-with_cves local cves ∙ h) in
      (
        found.0,
        found.1,
        deduplicate_findings-has_key fp (finding_identity found.0) filled ∙ found.2,
      )
