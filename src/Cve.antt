-- ===== src/Cve.antt =====
-- src/scan/cve.cpp: the CVE database: loading it, and the four questions asked of it (lookup,
-- match, verify_version, check_port).
pub mod Queries
pub mod Report
pub mod Native
use zero_trust_public.Base.{
  ◌≡◌, refl, ℕ, zero, suc, ◌+◌, Bool, true, false, not, ◌&&◌, ◌||◌, List, [], ◌∷◌, ◌++◌, map, Bytes,
  codes, bytes_eq, is_empty, if◌then◌else◌, Option, none, some, ◌==◌, get_elem?, split_by,
  filter_by, Floats,
}
use zero_trust_public.Finding.{
  Severity, info, low, medium, high, critical, severity_name, Confidence, Evidence, Finding, Port,
}
use zero_trust_public.Version.{VersionRange, in_range}
use zero_trust_public.Backport.{FixTable, BackportOutcome, check_backport, is_skipped, to_lower}

pub record CveEntry (D : Type 0) : Type 0 where
  pub cve_id : Bytes
  pub product : Bytes
  pub version_min : Bytes
  pub version_max : Bytes
  pub severity : Severity
  pub description : Bytes
  pub cvss : D
  pub cvss_vector : Bytes
  pub remediation : Bytes
  pub references : List Bytes

unfoldable pub parse_severity : Bytes → Severity
parse_severity s =
    if bytes_eq s (codes "INFO")
    then info
    else if bytes_eq s (codes "LOW")
    then low
    else if bytes_eq s (codes "MEDIUM")
    then medium
    else if bytes_eq s (codes "HIGH")
    then high
    else if bytes_eq s (codes "CRITICAL")
    then critical
    else medium

-- The name of a severity, as it stands in a database line, is read back as that severity.
parse_severity-severity_name : (s : Severity) → parse_severity (severity_name s) ≡ s
unfolding parse_severity severity_name bytes_eq
parse_severity-severity_name info = refl
parse_severity-severity_name _ = refl

unfoldable pub split_references : Bytes → List Bytes
split_references value = filter_by (λ r. not (is_empty r)) (split_by b'|' value)

unfoldable pub product_matches : Bytes → Bytes → Bool
product_matches db_product port_product = bytes_eq (to_lower db_product) (to_lower port_product)

-- The field of that number; empty where the line has fewer.
unfoldable pub field_or_empty : ℕ → List Bytes → Bytes
field_or_empty i fields = elim (get_elem? fields i) [ none ↦ [] | some f ↦ f ]

pub record CveMatch (D : Type 0) : Type 0 where
  pub cve_id : Bytes
  pub product : Bytes
  pub version : Bytes
  pub severity : Bytes
  pub description : Bytes
  pub cvss : D
  pub cvss_vector : Bytes
  pub remediation : Bytes
  pub references : List Bytes

pub record VerificationResult (D : Type 0) : Type 0 where
  pub vulnerable : Bool
  pub cve : Bytes
  pub severity : Bytes
  pub title : Bytes
  pub description : Bytes
  pub evidence : Bytes
  pub evidence_data : Evidence
  pub references : List Bytes
  pub remediation : Bytes
  pub cvss : D
  pub cvss_vector : Bytes
  pub confidence : D
  pub verification : Bytes

abbrev no_evidence : Evidence
no_evidence = record { type = []; source = []; value = []; details = [] }

-- `f.evidence_data = {"version", "cve-database", …}`
abbrev pub version_evidence : Bytes → Bytes → Evidence
version_evidence value details = record {
  type = codes "version";
  source = codes "cve-database";
  value = value;
  details = details;
}

module _ {D : Type 0} where
  -- The two tests that every query makes of an entry.
  unfoldable pub affects : Bytes → Bytes → CveEntry D → Bool
  affects product version entry =
      product_matches entry.product product
      && in_range version (record { minimum = entry.version_min; maximum = entry.version_max })

  -- The loop of `lookup`, with the text so far.
  unfoldable pub lookup_loop : Bytes → Bytes → Bytes → List (CveEntry D) → Bytes
  lookup_loop product version out [] = out
  lookup_loop product version out (entry ∷ db) =
      lookup_loop product version
        (if affects product version entry
          then (if is_empty out then out else out ++ codes ", ") ++ entry.cve_id
          else out)
        db

  unfoldable pub lookup : List (CveEntry D) → Bytes → Bytes → Bytes
  lookup db product version =
      if is_empty product || is_empty version then [] else lookup_loop product version [] db

  -- What `match` returns for an entry.
  unfoldable pub match_of : Bytes → Bytes → CveEntry D → CveMatch D
  match_of product version entry = record {
    cve_id = entry.cve_id;
    product = product;
    version = version;
    severity = severity_name entry.severity;
    description = entry.description;
    cvss = entry.cvss;
    cvss_vector = entry.cvss_vector;
    remediation = entry.remediation;
    references = entry.references;
  }

  -- The loop of `match`; an empty id asks for any CVE.
  unfoldable pub match_loop : Bytes → Bytes → Bytes → List (CveEntry D) → Option (CveMatch D)
  match_loop cve_id product version [] = none
  match_loop cve_id product version (entry ∷ db) =
      let later = match_loop cve_id product version db in
      if not (is_empty cve_id) && not (bytes_eq entry.cve_id cve_id)
      then later
      else if not (affects product version entry)
      then later
      else some (match_of product version entry)

  unfoldable pub match : List (CveEntry D) → Bytes → Bytes → Bytes → Option (CveMatch D)
  match db cve_id product version =
      if is_empty product || is_empty version then none else match_loop cve_id product version db

module _ {D : Type 0} (fp : Floats D) where
  unfoldable pub parse_cvss : Bytes → D
  parse_cvss value =
      if is_empty value || bytes_eq value (codes "*")
      then fp.negate (fp.literal 1 0)
      else elim (fp.stod value) [ none ↦ fp.negate (fp.literal 1 0) | some d ↦ d ]

  -- The entry of a line with six fields or more; four more are optional.
  unfoldable pub entry_of_fields : List Bytes → Option (CveEntry D)
  entry_of_fields (c ∷ p ∷ lo ∷ hi ∷ s ∷ d ∷ more) = some (record {
    cve_id = c;
    product = p;
    version_min = lo;
    version_max = hi;
    severity = parse_severity s;
    description = d;
    cvss = parse_cvss (field_or_empty 0 more);
    cvss_vector = field_or_empty 1 more;
    remediation = field_or_empty 2 more;
    references = split_references (field_or_empty 3 more);
  })
  entry_of_fields _ = none

  add_entry : List (CveEntry D) → Option (CveEntry D) → List (CveEntry D)
  add_entry db none = db
  add_entry db (some entry) = db ++ entry ∷ []

  unfoldable pub load_database_lines : List (CveEntry D) → List Bytes → List (CveEntry D)
  unfolding add_entry
  load_database_lines db [] = db
  load_database_lines db (line ∷ lines) =
      load_database_lines
        (if is_skipped line then db else add_entry db (entry_of_fields (split_by b'\t' line))) lines

  -- The content of the file, or none if it cannot be opened. The entries come behind those that the
  -- database holds already.
  unfoldable pub load_database : List (CveEntry D) → Option Bytes → List (CveEntry D)
  load_database db none = db
  load_database db (some text) = load_database_lines db (split_by b'\n' text)

  abbrev unknown_result : Bytes → VerificationResult D
  unknown_result cve_id = record {
    vulnerable = false;
    cve = cve_id;
    severity = [];
    title = [];
    description = [];
    evidence = [];
    evidence_data = no_evidence;
    references = [];
    remediation = [];
    cvss = fp.negate (fp.literal 1 0);
    cvss_vector = [];
    confidence = fp.literal 0 0;
    verification = codes "UNKNOWN";
  }

  unfoldable pub result_of_match : Bytes → Option (CveMatch D) → VerificationResult D
  result_of_match cve_id none = record (unknown_result cve_id) {
    verification = codes "NOT_VULNERABLE";
  }
  result_of_match cve_id (some found) = record {
    vulnerable = true;
    cve = found.cve_id;
    severity = found.severity;
    title = found.cve_id ++ (codes ": " ++ found.description);
    description = found.description;
    evidence = found.product ++ (b' ' ∷ found.version);
    evidence_data = version_evidence (found.product ++ (b' ' ∷ found.version)) found.description;
    references = found.references;
    remediation = found.remediation;
    cvss = found.cvss;
    cvss_vector = found.cvss_vector;
    confidence = fp.literal 5 1;
    verification = codes "VERSION_MATCH";
  }

  unfoldable pub verify_version : List (CveEntry D) → Bytes → Bytes → Bytes → VerificationResult D
  verify_version db cve_id product version =
      if is_empty product || is_empty version
      then unknown_result cve_id
      else result_of_match cve_id (match db cve_id product version)
