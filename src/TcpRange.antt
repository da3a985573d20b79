-- ===== src/TcpRange.antt =====
-- src/scan/tcp_range.cpp: what the task of an open port does, from the banner to the findings. The
-- connection is given by what it answers; the pool that runs the tasks is in ThreadPool.
pub mod Scan
pub mod Laws
use zero_trust_public.Base.{
  ℕ, Bool, true, false, not, ◌||◌, List, [], ◌∷◌, ◌++◌, map, Bytes, codes, bytes_eq, is_empty,
  if◌then◌else◌, Option, none, some, filter_by, Floats,
}
use zero_trust_public.Finding.{Severity, Confidence, Protocol, protocol_name, Port, Finding}
use zero_trust_public.Finding.Default.{default_finding}
use zero_trust_public.Finding.Dedup.{deduplicate_findings}
use zero_trust_public.KnowledgeBase.{KnowledgeBase}
use zero_trust_public.Backport.{FixTable}
use zero_trust_public.Cve.{CveEntry}
use zero_trust_public.Cve.Report.{check_port}
use zero_trust_public.Cve.Native.{run_native_checks}
use zero_trust_public.Ssh.Check.{Server}
use zero_trust_public.Tls.Report.{Tls}
use zero_trust_public.Interpreter.Strings.{upper}
use zero_trust_public.Runner.{FindingOut}
use zero_trust_public.Runner.Plugins.{DetectedInfo}
use zero_trust_public.Processor.{ServicePattern, Regex, detect_service, detect_distro}

-- What a connection gives: the first `receive`, whether the request is sent, and the second.
pub record Greeting : Type 0 where
  pub first : Bytes
  sends : Bool
  pub second : Bytes

unfoldable pub banner_of : Greeting → Bytes
banner_of g = if is_empty g.first then if g.sends then g.second else [] else g.first

unfoldable pub detected : Regex → List ServicePattern → Bytes → Port → Port
unfolding detect_service detect_distro
detected regex patterns banner port =
    if is_empty banner
    then port
    else detect_distro regex banner (detect_service regex patterns banner port)

abbrev or_given : Bytes → Bytes → Bytes
or_given new old = if is_empty new then old else new

-- What plugins detected wins over what was guessed.
unfoldable pub with_detected : DetectedInfo → Port → Port
with_detected d port = record port {
  service = or_given d.service port.service;
  product = or_given d.product port.product;
  version = or_given d.version port.version;
}

unfoldable severity_of : Bytes → Severity
severity_of sev =
    if bytes_eq sev (codes "CRITICAL")
    then Severity.critical
    else if bytes_eq sev (codes "HIGH")
    then Severity.high
    else if bytes_eq sev (codes "MEDIUM")
    then Severity.medium
    else if bytes_eq sev (codes "LOW")
    then Severity.low
    else Severity.info

unfoldable confidence_of : Bytes → Confidence
confidence_of verification =
    if bytes_eq verification (codes "ACTIVE_CHECK")
    then Confidence.verified
    else if bytes_eq verification (codes "VERSION_MATCH")
    then Confidence.version_match
    else Confidence.unknown

-- `f.protocol == core::Protocol::UNKNOWN`
abbrev or_protocol : Protocol → Protocol → Protocol
or_protocol Protocol.unknown other = other
or_protocol p other = p

module _ {D : Type 0} where
  -- Some finding has the id of a CVE.
  unfoldable pub has_cve : Bytes → List (Finding D) → Bool
  has_cve id [] = false
  has_cve id (f ∷ fs) = bytes_eq id f.cve_id || has_cve id fs

  -- `plugin_cves.count`: only ids that are not empty were inserted.
  unfoldable pub in_plugin_cves : Bytes → List (Finding D) → Bool
  unfolding has_cve
  in_plugin_cves id local = if is_empty id then false else has_cve id local

  -- The findings so far, and those of check_port whose CVE none of them is about.
  unfoldable pub with_cves : List (Finding D) → List (Finding D) → List (Finding D)
  unfolding in_plugin_cves
  with_cves local cves = local ++ filter_by (λ f. not (in_plugin_cves f.cve_id local)) cves

  unfoldable pub fill : Bytes → Port → Finding D → Finding D
  fill ip port f = record f {
    host = or_given f.host ip;
    protocol = or_protocol f.protocol port.protocol;
    service = or_given f.service port.service;
    product = or_given f.product port.product;
    version = or_given f.version port.version;
  }

module _ {D : Type 0} (fp : Floats D) where
  unfoldable pub finding_of_plugin : FindingOut D → Finding D
  unfolding default_finding severity_of confidence_of upper
  finding_of_plugin f = record (default_finding fp) {
    plugin_name = f.plugin_name;
    title = f.title;
    description =
        f.description ++ (if is_empty f.evidence then [] else codes " | evidence: " ++ f.evidence);
    cve_id = f.cve_id;
    verification = f.verification;
    confidence_score = f.confidence_score;
    port_number = f.port_number;
    host = f.host;
    protocol = f.protocol;
    scope = f.scope;
    service = f.service;
    product = f.product;
    version = f.version;
    evidence = f.evidence;
    evidence_data = f.evidence_data;
    references = f.references;
    remediation = f.remediation;
    cvss_vector = f.cvss_vector;
    cvss = f.cvss;
    timestamp = f.timestamp;
    severity = severity_of (map upper f.severity);
    confidence = confidence_of f.verification;
  }

  -- The findings for the port, from those of the checks and the plugins and those of check_port.
  unfoldable pub findings_of : Bytes → Port → List (Finding D) → List (Finding D) → List (Finding D)
  unfolding with_cves fill deduplicate_findings
  findings_of ip port local cves =
      deduplicate_findings fp (map (fill ip port) (with_cves local cves))
