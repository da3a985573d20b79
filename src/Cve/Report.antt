-- ===== src/Cve/Report.antt =====
-- src/scan/cve.cpp: `check_port`, the findings that the database gives for a port, with the
-- downgrade of those that a distribution has patched.
pub mod Laws
use zero_trust_public.Base.{
  ℕ, Bool, true, false, not, ◌||◌, List, [], ◌∷◌, ◌++◌, map, Bytes, codes, is_empty, if◌then◌else◌,
  Option, none, some, Floats,
}
use zero_trust_public.Finding.{Severity, Confidence, Evidence, Finding, Port}
use zero_trust_public.Backport.{FixTable, BackportOutcome, check_backport}
use zero_trust_public.Cve.{CveEntry, affects, version_evidence}

pub patched_text : Bytes → Bytes → Bytes
patched_text version via =
    codes "Upstream version "
    ++ (version
        ++ (codes
              " matches CVE range, but the installed distro package appears to include the backport fix: "
            ++ (via
                ++ codes
                    ". Marking as NOT_VULNERABLE. Verify manually if the target is high-value.")))

pub version_caveat : Bytes
version_caveat =
    codes
      "This finding is based on version comparison only and has not been verified against actual server behavior."

pub distro_caveat : Bytes → Bytes
distro_caveat distro =
    codes " Distribution tag detected ("
    ++ (distro
        ++ codes
            ") which commonly backports security fixes without changing the upstream version string. Confirm against the distribution security tracker before treating this as exploitable.")

module _ {D : Type 0} (fp : Floats D) (now : ℕ) where
  -- The fields that do not depend on the backport; confidence and verification are set next.
  unfoldable pub base_finding : Port → CveEntry D → Finding D
  base_finding port entry = record {
    plugin_name = codes "cve-database";
    title = entry.cve_id ++ (codes ": " ++ entry.description);
    severity = entry.severity;
    confidence = Confidence.unknown;
    verification = codes "UNKNOWN";
    confidence_score = fp.literal 0 0;
    host = [];
    port_number = port.number;
    protocol = port.protocol;
    scope = codes "PORT";
    service = port.service;
    product = port.product;
    version = port.version;
    description = [];
    evidence = port.product ++ (b' ' ∷ port.version);
    evidence_data = version_evidence (port.product ++ (b' ' ∷ port.version)) entry.description;
    references = entry.references;
    remediation = entry.remediation;
    cvss_vector = entry.cvss_vector;
    cvss = entry.cvss;
    cve_id = entry.cve_id;
    timestamp = now;
  }

  unfoldable pub patched_finding : Port → CveEntry D → Bytes → Finding D
  patched_finding port entry via = record (base_finding port entry) {
    severity = Severity.info;
    confidence = Confidence.verified;
    confidence_score = fp.literal 9 1;
    verification = codes "NOT_VULNERABLE";
    title = entry.cve_id ++ (codes ": already patched by " ++ via);
    description = patched_text port.version via;
    evidence_data = record {
      type = codes "backport";
      source = codes "distro-fix-table";
      value = via;
      details = entry.description;
    };
  }

  unfoldable pub matched_finding : Port → CveEntry D → Finding D
  matched_finding port entry = record (base_finding port entry) {
    confidence = Confidence.version_match;
    confidence_score = fp.literal 5 1;
    verification = codes "VERSION_MATCH";
    description =
        entry.description
        ++ (b' '
            ∷ (version_caveat ++ (if is_empty port.distro then [] else distro_caveat port.distro)));
  }

  unfoldable pub finding_of : Port → CveEntry D → BackportOutcome → Finding D
  finding_of port entry backport =
      if backport.patched
      then patched_finding port entry backport.via
      else matched_finding port entry

  unfoldable pub push_finding :
      Port
      → CveEntry D
      → Option BackportOutcome
      → (List (Finding D) → Option (List (Finding D)))
      → List (Finding D)
      → Option (List (Finding D))
  push_finding port entry none more acc = none
  push_finding port entry (some backport) more acc =
      more (acc ++ finding_of port entry backport ∷ [])

  -- none: some comparison of package versions does not end.
  unfoldable pub check_loop :
      FixTable → Port → List (Finding D) → List (CveEntry D) → Option (List (Finding D))
  check_loop t port acc [] = some acc
  check_loop t port acc (entry ∷ db) =
      let passed = check_loop t port acc db in
      let taken =
        push_finding port entry (check_backport t entry.cve_id port)
          (λ out. check_loop t port out db) acc in
      if affects port.product port.version entry then taken else passed

  unfoldable pub check_port : FixTable → List (CveEntry D) → Port → Option (List (Finding D))
  check_port t db port =
      if is_empty port.product || is_empty port.version then some [] else check_loop t port [] db
