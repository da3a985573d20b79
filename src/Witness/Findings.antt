-- ===== src/Witness/Findings.antt =====
-- The theorems on findings, the knowledge base and the guess of the system at concrete inputs.
use zero_trust_public.Base.{
  ℕ, ◌*◌, ◌/◌, ◌^◌, ◌≡◌, refl, List, [], ◌∷◌, Bytes, codes, is_empty, some, ltb, Floats, length,
}
use zero_trust_public.Finding.{
  Severity, Confidence, Protocol, verification_rank, Finding, finding_identity,
}
use zero_trust_public.Finding.Dedup.{deduplicate_findings}
use zero_trust_public.Finding.Dedup.Reference.{combine_all, deduplicate_findings-combine_all}
use zero_trust_public.Finding.Dedup.Laws.{
  IsDistinct, top_rank, deduplicate_findings-IsDistinct, deduplicate_findings-top_rank,
  deduplicate_findings_downgrade,
}

-- Hundredths in place of doubles.
abbrev pub hundredths : Floats ℕ
hundredths = record {
  literal = λ m k. m * 100 / 10 ^ k;
  negate = λ d. d;
  greater = λ a b. ltb b a;
  stod = λ s. some (length s);
}

abbrev a_finding : Bytes → Bytes → Finding ℕ
a_finding verification evidence = record {
  plugin_name = codes "banner";
  title = codes "old server";
  severity = Severity.high;
  confidence = Confidence.version_match;
  verification = verification;
  confidence_score = 50;
  host = codes "10.0.0.1";
  port_number = 22;
  protocol = Protocol.tcp;
  scope = codes "PORT";
  service = codes "ssh";
  product = codes "openssh";
  version = codes "8.9";
  description = codes "an issue";
  evidence = evidence;
  evidence_data = record { type = []; source = []; value = []; details = [] };
  references = [];
  remediation = [];
  cvss_vector = [];
  cvss = 0;
  cve_id = codes "CVE-1";
  timestamp = 0;
}

abbrev guessed : Finding ℕ
guessed = a_finding (codes "VERSION_MATCH") (codes "openssh 8.9")

abbrev checked : Finding ℕ
checked = a_finding (codes "ACTIVE_CHECK") (codes "reply")

abbrev unsupported : Finding ℕ
unsupported = a_finding (codes "ACTIVE_CHECK") []

abbrev two : List (Finding ℕ)
two = guessed ∷ checked ∷ []

deduplicate_findings-combine_all_example :
    deduplicate_findings hundredths two ≡ combine_all hundredths [] two
deduplicate_findings-combine_all_example = deduplicate_findings-combine_all hundredths two

deduplicate_findings-top_rank_example :
    top_rank (finding_identity guessed) (deduplicate_findings hundredths two)
    ≡ top_rank (finding_identity guessed) two
unfolding is_empty
deduplicate_findings-top_rank_example =
    deduplicate_findings-top_rank hundredths (finding_identity guessed) two (refl, (refl, tt))

deduplicate_findings-IsDistinct_example : IsDistinct (deduplicate_findings hundredths two)
deduplicate_findings-IsDistinct_example = deduplicate_findings-IsDistinct hundredths two

deduplicate_findings_downgrade_example :
    top_rank
      (finding_identity unsupported)
      (deduplicate_findings hundredths (unsupported ∷ guessed ∷ []))
    ≡ verification_rank guessed.verification
unfolding is_empty finding_identity
deduplicate_findings_downgrade_example =
    deduplicate_findings_downgrade hundredths unsupported guessed refl refl
