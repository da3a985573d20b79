-- ===== src/Finding/Default.antt =====
-- src/include/finding.h: a Finding as it is constructed, with the initial values of its fields.
use zero_trust_public.Base.{[], codes, Floats}
use zero_trust_public.Finding.{Severity, Confidence, Protocol, Finding}

unfoldable pub default_finding : {D : Type 0} → Floats D → Finding D
default_finding fp = record {
  plugin_name = [];
  title = [];
  severity = Severity.info;
  confidence = Confidence.unknown;
  verification = codes "UNKNOWN";
  confidence_score = fp.literal 0 0;
  host = [];
  port_number = 0;
  protocol = Protocol.unknown;
  scope = codes "PORT";
  service = [];
  product = [];
  version = [];
  description = [];
  evidence = [];
  evidence_data = record { type = []; source = []; value = []; details = [] };
  references = [];
  remediation = [];
  cvss_vector = [];
  cvss = fp.negate (fp.literal 1 0);
  cve_id = [];
  timestamp = 0;
}
