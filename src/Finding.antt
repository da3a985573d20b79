-- ===== src/Finding.antt =====
-- src/include: the shared types of the scanner (severity.h, confidence.h, protocol.h, port.h,
-- finding.h), their names as text, and the identity of a finding.
pub mod Dedup
pub mod Default
use zero_trust_public.Base.{
  ℕ, ◌+◌, Bool, true, false, List, [], ◌∷◌, ◌++◌, Bytes, codes, bytes_eq, is_empty, to_string,
  if◌then◌else◌, not, ◌≡◌, refl,
}

-- severity.h
pub data Severity : Type 0 where
  info low medium high critical : Severity

unfoldable pub severity_name : Severity → Bytes
severity_name info = codes "INFO"
severity_name low = codes "LOW"
severity_name medium = codes "MEDIUM"
severity_name high = codes "HIGH"
severity_name critical = codes "CRITICAL"

-- confidence.h
pub data Confidence : Type 0 where
  unknown version_match verified : Confidence

unfoldable confidence_name : Confidence → Bytes
confidence_name unknown = codes "UNKNOWN"
confidence_name version_match = codes "VERSION_MATCH"
confidence_name verified = codes "VERIFIED"

-- protocol.h
pub data Protocol : Type 0 where
  unknown tcp udp icmp : Protocol

unfoldable pub protocol_name : Protocol → Bytes
protocol_name unknown = codes "UNKNOWN"
protocol_name tcp = codes "TCP"
protocol_name udp = codes "UDP"
protocol_name icmp = codes "ICMP"

-- port.h
pub data PortState : Type 0 where
  unknown open_port closed filtered open_filtered : PortState

unfoldable port_state_name : PortState → Bytes
port_state_name unknown = codes "UNKNOWN"
port_state_name open_port = codes "OPEN"
port_state_name closed = codes "CLOSED"
port_state_name filtered = codes "FILTERED"
port_state_name open_filtered = codes "OPEN_FILTERED"

pub record Port : Type 0 where
  pub number : ℕ
  pub protocol : Protocol
  pub state : PortState
  pub service : Bytes
  pub product : Bytes
  pub version : Bytes
  pub distro : Bytes
  pub tls : Bool

-- `verification_rank` of finding.h: how far a finding's verification goes.
unfoldable pub verification_rank : Bytes → ℕ
unfolding bytes_eq
verification_rank v =
    if bytes_eq v (codes "ACTIVE_CHECK")
    then 3
    else if bytes_eq v (codes "CONFIG_MATCH")
    then 2
    else if bytes_eq v (codes "VERSION_MATCH")
    then 1
    else 0

unfoldable verification_label : Bytes → Bytes
verification_label v =
    if bytes_eq v (codes "VERSION_MATCH")
    then codes "Potentially vulnerable"
    else if bytes_eq v (codes "CONFIG_MATCH")
    then codes "Configuration verified"
    else if bytes_eq v (codes "ACTIVE_CHECK")
    then codes "Actively verified"
    else if bytes_eq v (codes "NOT_VULNERABLE")
    then codes "Not vulnerable"
    else codes "Verification unknown"

pub data VerificationStatus : Type 0 where
  unknown version_match config_match active_check not_vulnerable : VerificationStatus

unfoldable pub status_name : VerificationStatus → Bytes
status_name unknown = codes "UNKNOWN"
status_name version_match = codes "VERSION_MATCH"
status_name config_match = codes "CONFIG_MATCH"
status_name active_check = codes "ACTIVE_CHECK"
status_name not_vulnerable = codes "NOT_VULNERABLE"

unfoldable pub verification_status_from_string : Bytes → VerificationStatus
verification_status_from_string v =
    if bytes_eq v (codes "VERSION_MATCH")
    then version_match
    else if bytes_eq v (codes "CONFIG_MATCH")
    then config_match
    else if bytes_eq v (codes "ACTIVE_CHECK")
    then active_check
    else if bytes_eq v (codes "NOT_VULNERABLE")
    then not_vulnerable
    else VerificationStatus.unknown

-- Reading a status back from its name gives that status.
status-round_trip : (s : VerificationStatus) → verification_status_from_string (status_name s) ≡ s
unfolding verification_status_from_string status_name bytes_eq
status-round_trip unknown = refl
status-round_trip _ = refl

pub record Evidence : Type 0 where
  pub type : Bytes
  pub source : Bytes
  pub value : Bytes
  pub details : Bytes

pub record Finding (D : Type 0) : Type 0 where
  pub plugin_name : Bytes
  pub title : Bytes
  pub severity : Severity
  pub confidence : Confidence
  pub verification : Bytes
  pub confidence_score : D
  pub host : Bytes
  pub port_number : ℕ
  pub protocol : Protocol
  pub scope : Bytes
  pub service : Bytes
  pub product : Bytes
  pub version : Bytes
  pub description : Bytes
  pub evidence : Bytes
  pub evidence_data : Evidence
  pub references : List Bytes
  pub remediation : Bytes
  pub cvss_vector : Bytes
  pub cvss : D
  pub cve_id : Bytes
  pub timestamp : ℕ

abbrev bar : Bytes
bar = codes "|"

-- Two findings with the same identity are the same issue.
unfoldable pub finding_identity : {D : Type 0} → Finding D → Bytes
finding_identity f =
    let id = if is_empty f.cve_id then f.plugin_name ++ (bar ++ f.title) else f.cve_id in
    let key = f.host ++ (bar ++ (f.scope ++ (bar ++ (protocol_name f.protocol ++ bar)))) in
    let port = if bytes_eq f.scope (codes "HOST") then [] else to_string f.port_number ++ bar in
    key ++ (port ++ (f.service ++ (bar ++ id)))
