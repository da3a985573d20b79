-- ===== src/Tls/Laws.antt =====
-- What run_tls_checks reports.
use zero_trust_public.Base.{
  ℕ, Bool, true, false, not, ◌&&◌, List, [], ◌∷◌, map, Bytes, codes, contains, if◌then◌else◌,
  Option, none, some, Floats, ◌≡◌, refl, ap, Bool-cases, Option-cases, inl, inr,
}
use zero_trust_public.Finding.{Severity, Port, Finding}
use zero_trust_public.KnowledgeBase.{KnowledgeBase}
use zero_trust_public.Tls.Report.{TlsHandshakeReport, Tls, is_ok}
use zero_trust_public.Tls.{
  WeakCipherGroup, weak_cipher_groups, port_looks_like_tls, cipher_is_anonymous, cipher_is_null,
  weak_reason, old_reason, make_finding, check_tls_supported, check_certificate_expired,
  check_certificate_self_signed, check_weak_signature, check_old_protocol,
}
use zero_trust_public.Tls.Scan.{
  pushed, store_handshake, check_anonymous_ciphers, check_null_ciphers, check_weak_cipher_group,
  check_groups, checks, run_tls_checks,
}

-- The name of a check that applies.
abbrev rule : Bool → Bytes → Option Bytes
rule applies name = if applies then some name else none

abbrev is_some : {A : Type 0} → Option A → Bool
is_some none = false
is_some (some _) = true

-- The server takes a handshake with these ciphers, and the suite it picks is one that the check means.
abbrev pub takes : Tls → Port → Bytes → (Bytes → Bool) → Bool
takes tls port ciphers meant =
    let handshake = tls.handshake_with_ciphers port.number ciphers 3000 in
    is_ok handshake.result && meant handshake.cipher_name

abbrev group_rules : Tls → Port → List WeakCipherGroup → List Bytes
group_rules tls port [] = []
group_rules tls port (g ∷ groups) =
    pushed (rule (takes tls port g.openssl_expr (contains g.cipher_name_marker)) g.finding_id)
      (group_rules tls port groups)

-- The names of the checks that apply, in the order of the source.
abbrev pub rules : Tls → Port → TlsHandshakeReport → List Bytes
rules tls port handshake =
    let cert = handshake.certificate in
    let present = handshake.certificate_present in
    codes "tls-supported"
    ∷ pushed (rule (present && cert.expired) (codes "tls-cert-expired")) (
        pushed (rule (present && cert.self_signed) (codes "tls-cert-self-signed")) (
          pushed
            (rule (present && is_some (weak_reason cert.signature_algorithm))
              (codes "tls-cert-weak-signature"))
            (pushed
              (rule (is_some (old_reason handshake.protocol_version)) (codes "tls-old-protocol"))
              (pushed
                (rule (takes tls port (codes "aNULL") cipher_is_anonymous)
                  (codes "tls-anonymous-ciphers"))
                (pushed
                  (rule (takes tls port (codes "eNULL") cipher_is_null) (codes "tls-null-ciphers"))
                  (group_rules tls port weak_cipher_groups))))))

-- The two tests that come before the checks.
abbrev walk :
    {D : Type 0}
    → Bool
    → Bool
    → KnowledgeBase
    → List (Finding D) × KnowledgeBase
    → List (Finding D) × KnowledgeBase
walk a b kb checked = if not a then ([], kb) else if not b then ([], kb) else checked

module _ {D : Type 0} (fp : Floats D) (now : ℕ) (port : Port) (tls : Tls) where
  -- A check reports under the name exactly if it applies.
  abbrev Reports : Option (Finding D) → Bool → Bytes → Type 0
  Reports f applies name =
      elim f [ none ↦ none | some g ↦ some (g.plugin_name) ] ≡ rule applies name

  map-pushed :
      (f : Option (Finding D)) (applies : Bool) (name : Bytes) (later : List (Finding D))
      (names : List Bytes)
      → Reports f applies name
      → map (λ g. g.plugin_name) later ≡ names
      → map (λ g. g.plugin_name) (pushed f later) ≡ pushed (rule applies name) names
  unfolding pushed
  map-pushed none applies name later names h k = rw (← h) k
  map-pushed (some f) applies name later names h k = rw (← h, ← k) refl

  -- Two guards that return before a finding is made.
  guarded-Reports :
      (a b : Bool) (name title : Bytes) (severity : Severity) (description : Bytes)
      → Reports
          (if not a
            then none
            else if not b
            then none
            else some (make_finding fp now port name title severity description))
          (a && b)
          name
  unfolding make_finding
  guarded-Reports true true name title severity description = refl
  guarded-Reports true false name title severity description = refl
  guarded-Reports false b name title severity description = refl

  weak-Reports :
      (handshake : TlsHandshakeReport)
      → Reports
          (check_weak_signature fp now port handshake)
          (handshake.certificate_present
            && is_some (weak_reason handshake.certificate.signature_algorithm))
          (codes "tls-cert-weak-signature")
  unfolding check_weak_signature make_finding
  weak-Reports handshake = elim (Bool-cases handshake.certificate_present) [
    | inr e ↦ rw (check_weak_signature, e) refl
    | inl e ↦ elim (Option-cases (weak_reason handshake.certificate.signature_algorithm)) [
      | inl q ↦ rw (check_weak_signature, e, q) refl
      | inr (r, q) ↦ rw (check_weak_signature, e, q) refl
    ]
  ]

  old-Reports :
      (handshake : TlsHandshakeReport)
      → Reports
          (check_old_protocol fp now port handshake)
          (is_some (old_reason handshake.protocol_version))
          (codes "tls-old-protocol")
  unfolding check_old_protocol make_finding
  old-Reports handshake = elim (Option-cases (old_reason handshake.protocol_version)) [
    | inl q ↦ rw (check_old_protocol, q) refl
    | inr (r, q) ↦ rw (check_old_protocol, q) refl
  ]

  map-check_groups :
      (groups : List WeakCipherGroup)
      → map (λ g. g.plugin_name) (check_groups fp now port tls groups) ≡ group_rules tls port groups
  unfolding check_groups check_weak_cipher_group
  map-check_groups [] = refl
  map-check_groups (g ∷ groups) =
      let handshake = tls.handshake_with_ciphers port.number g.openssl_expr 3000 in
      map-pushed _ _ _ _ _
        (guarded-Reports (is_ok handshake.result)
          (contains g.cipher_name_marker handshake.cipher_name) g.finding_id _ _ _)
        (map-check_groups groups)

  expired-Reports :
      (handshake : TlsHandshakeReport)
      → Reports
          (check_certificate_expired fp now port handshake)
          (handshake.certificate_present && handshake.certificate.expired)
          (codes "tls-cert-expired")
  unfolding check_certificate_expired make_finding
  expired-Reports handshake = elim (Bool-cases (handshake.certificate_present)) [
    | inr e ↦ rw (check_certificate_expired, e) refl
    | inl e ↦ elim (Bool-cases (handshake.certificate.expired)) [
      | inl q ↦ rw (check_certificate_expired, e, q) refl
      | inr q ↦ rw (check_certificate_expired, e, q) refl
    ]
  ]

  self_signed-Reports :
      (handshake : TlsHandshakeReport)
      → Reports
          (check_certificate_self_signed fp now port handshake)
          (handshake.certificate_present && handshake.certificate.self_signed)
          (codes "tls-cert-self-signed")
  unfolding check_certificate_self_signed make_finding
  self_signed-Reports handshake = elim (Bool-cases (handshake.certificate_present)) [
    | inr e ↦ rw (check_certificate_self_signed, e) refl
    | inl e ↦ elim (Bool-cases (handshake.certificate.self_signed)) [
      | inl q ↦ rw (check_certificate_self_signed, e, q) refl
      | inr q ↦ rw (check_certificate_self_signed, e, q) refl
    ]
  ]

  anonymous-Reports :
      Reports
        (check_anonymous_ciphers fp now port tls)
        (is_ok (tls.handshake_with_ciphers port.number (codes "aNULL") 3000).result
          && cipher_is_anonymous
              (tls.handshake_with_ciphers port.number (codes "aNULL") 3000).cipher_name)
        (codes "tls-anonymous-ciphers")
  unfolding check_anonymous_ciphers make_finding
  anonymous-Reports =
      elim (Bool-cases
        (is_ok (tls.handshake_with_ciphers port.number (codes "aNULL") 3000).result)) [
          | inr e ↦ rw (check_anonymous_ciphers, e) refl
          | inl e ↦
              elim (Bool-cases (
                cipher_is_anonymous
                  (tls.handshake_with_ciphers port.number (codes "aNULL") 3000).cipher_name)) [
                    | inl q ↦ rw (check_anonymous_ciphers, e, q) refl
                    | inr q ↦ rw (check_anonymous_ciphers, e, q) refl
                  ]
        ]

  null-Reports :
      Reports
        (check_null_ciphers fp now port tls)
        (is_ok (tls.handshake_with_ciphers port.number (codes "eNULL") 3000).result
          && cipher_is_null
              (tls.handshake_with_ciphers port.number (codes "eNULL") 3000).cipher_name)
        (codes "tls-null-ciphers")
  unfolding check_null_ciphers make_finding
  null-Reports =
      elim (Bool-cases
        (is_ok (tls.handshake_with_ciphers port.number (codes "eNULL") 3000).result)) [
          | inr e ↦ rw (check_null_ciphers, e) refl
          | inl e ↦
              elim (Bool-cases (
                cipher_is_null
                  (tls.handshake_with_ciphers port.number (codes "eNULL") 3000).cipher_name)) [
                    | inl q ↦ rw (check_null_ciphers, e, q) refl
                    | inr q ↦ rw (check_null_ciphers, e, q) refl
                  ]
        ]

  map-checks :
      (handshake : TlsHandshakeReport)
      → map (λ g. g.plugin_name) (checks fp now port tls handshake) ≡ rules tls port handshake
  unfolding checks pushed check_tls_supported make_finding
  map-checks handshake =
      ap (λ l. codes "tls-supported" ∷ l)
        (map-pushed (check_certificate_expired fp now port handshake) _ _ _ _
          (expired-Reports handshake)
          (map-pushed (check_certificate_self_signed fp now port handshake) _ _ _ _
            (self_signed-Reports handshake)
            (map-pushed (check_weak_signature fp now port handshake) _ _ _ _
              (weak-Reports handshake)
              (map-pushed (check_old_protocol fp now port handshake) _ _ _ _ (old-Reports handshake)
                (map-pushed (check_anonymous_ciphers fp now port tls) _ _ _ _ anonymous-Reports (
                  map-pushed (check_null_ciphers fp now port tls) _ _ _ _ null-Reports
                    (map-check_groups weak_cipher_groups)))))))

  -- On a port that is taken for TLS and answers a handshake, the findings are, in order, exactly those
  -- of the checks that apply to the handshake or to what the server takes; on any other port there
  -- are none.
  pub map-run_tls_checks :
      (kb : KnowledgeBase)
      → map (λ f. f.plugin_name) (run_tls_checks fp now port tls kb).0 ≡ (
          if port_looks_like_tls port && is_ok (tls.handshake port.number 3000).result
          then rules tls port (tls.handshake port.number 3000)
          else [])
  unfolding run_tls_checks
  map-run_tls_checks kb =
      guarded (port_looks_like_tls port) (is_ok (tls.handshake port.number 3000).result)
    where
      guarded :
          (a b : Bool)
          → map
              (λ f. f.plugin_name)
              (walk a b kb (
                checks fp now port tls (tls.handshake port.number 3000),
                store_handshake port (tls.handshake port.number 3000) kb,
              )).0
            ≡ (if a && b then rules tls port (tls.handshake port.number 3000) else [])
      guarded true true = map-checks (tls.handshake port.number 3000)
      guarded true false = refl
      guarded false b = refl
