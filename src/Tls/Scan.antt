-- ===== src/Tls/Scan.antt =====
-- src/protocols/tls/checks.cpp: the checks that make a handshake of their own, and run_tls_checks.
use zero_trust_public.Base.{
  ℕ, Bool, true, false, not, List, [], ◌∷◌, ◌++◌, Bytes, codes, contains, to_string, if◌then◌else◌,
  Option, none, some, Floats,
}
use zero_trust_public.Finding.{Severity, Port, Finding}
use zero_trust_public.KnowledgeBase.{KnowledgeBase, set}
use zero_trust_public.Tls.Report.{TlsHandshakeReport, TlsCertificateInfo, Tls, is_ok}
use zero_trust_public.Tls.{
  WeakCipherGroup, weak_cipher_groups, port_looks_like_tls, cipher_is_anonymous, cipher_is_null,
  make_finding, check_tls_supported, check_certificate_expired, check_certificate_self_signed,
  check_weak_signature, check_old_protocol,
}

-- `if (auto f = ...) findings.push_back(*f)`, with the findings that follow.
unfoldable pub pushed : {A : Type 0} → Option A → List A → List A
pushed none later = later
pushed (some f) later = f ∷ later

-- `"true"` or `"false"`
abbrev bool_text : Bool → Bytes
bool_text true = codes "true"
bool_text false = codes "false"

abbrev pub tls_prefix : Port → Bytes
tls_prefix port = codes "port/" ++ (to_string port.number ++ codes "/tls/")

-- The `kb.set` calls for a certificate.
unfoldable pub store_certificate : Port → TlsCertificateInfo → KnowledgeBase → KnowledgeBase
store_certificate port cert kb =
    set (tls_prefix port ++ codes "cert_expired") (bool_text cert.expired) (
      set (tls_prefix port ++ codes "cert_self_signed") (bool_text cert.self_signed) (
        set (tls_prefix port ++ codes "cert_signature_algorithm") cert.signature_algorithm (
          set (tls_prefix port ++ codes "cert_not_after") cert.not_after (
            set (tls_prefix port ++ codes "cert_issuer") cert.issuer
              (set (tls_prefix port ++ codes "cert_subject") cert.subject kb)))))

unfoldable pub store_handshake : Port → TlsHandshakeReport → KnowledgeBase → KnowledgeBase
unfolding store_certificate
store_handshake port handshake kb =
    let named =
      set (tls_prefix port ++ codes "cipher") handshake.cipher_name
        (set (tls_prefix port ++ codes "protocol_version") handshake.protocol_version kb) in
    if handshake.certificate_present
    then store_certificate port handshake.certificate named
    else named

module _ {D : Type 0} (fp : Floats D) (now : ℕ) (port : Port) (tls : Tls) where
  unfoldable pub check_anonymous_ciphers : Option (Finding D)
  unfolding make_finding cipher_is_anonymous
  check_anonymous_ciphers =
      let handshake = tls.handshake_with_ciphers port.number (codes "aNULL") 3000 in
      if not (is_ok handshake.result)
      then none
      else if not (cipher_is_anonymous handshake.cipher_name)
      then none
      else some (
          make_finding fp now port (codes "tls-anonymous-ciphers")
            (codes "SSL Anonymous Cipher Suites Supported") Severity.high
            (codes "The TLS server accepted an anonymous cipher suite ("
              ++ (handshake.cipher_name
                  ++ (codes
                        "). Anonymous ciphers offer no way to verify the server's identity and expose "
                      ++ (codes
                            "connections to man-in-the-middle attacks. Reconfigure the service to disable anonymous "
                          ++ codes "cipher suites (ADH / AECDH).")))))

  -- The dash of the text is three bytes.
  unfoldable pub check_null_ciphers : Option (Finding D)
  unfolding make_finding cipher_is_null
  check_null_ciphers =
      let handshake = tls.handshake_with_ciphers port.number (codes "eNULL") 3000 in
      if not (is_ok handshake.result)
      then none
      else if not (cipher_is_null handshake.cipher_name)
      then none
      else some (
          make_finding fp now port (codes "tls-null-ciphers")
            (codes "SSL NULL Cipher Suites Supported") Severity.critical
            (codes "The TLS server accepted a NULL-encryption cipher suite ("
              ++ (handshake.cipher_name
                  ++ (codes "). NULL ciphers provide integrity but no confidentiality "
                      ++ ((226 ∷ 128 ∷ 148 ∷ [])
                          ++ (codes
                              " all data is sent in plain text over the wire. Disable NULL cipher suites (eNULL)."))))))

  unfoldable pub check_weak_cipher_group : WeakCipherGroup → Option (Finding D)
  unfolding make_finding
  check_weak_cipher_group group =
      let handshake = tls.handshake_with_ciphers port.number group.openssl_expr 3000 in
      if not (is_ok handshake.result)
      then none
      else if not (contains group.cipher_name_marker handshake.cipher_name)
      then none
      else some (
          make_finding fp now port group.finding_id group.title group.severity (
            codes "The TLS server accepted a weak cipher suite ("
            ++ (handshake.cipher_name
                ++ (codes "). "
                    ++ (group.reason ++ codes " Disable this cipher category on the server.")))))

  -- The loop over the groups.
  unfoldable pub check_groups : List WeakCipherGroup → List (Finding D)
  unfolding check_weak_cipher_group pushed
  check_groups [] = []
  check_groups (g ∷ groups) = pushed (check_weak_cipher_group g) (check_groups groups)

  -- The findings, in the order in which they are pushed.
  unfoldable pub checks : TlsHandshakeReport → List (Finding D)
  unfolding check_groups pushed
  checks handshake = pushed (check_tls_supported fp now port handshake) (
      pushed (check_certificate_expired fp now port handshake) (
        pushed (check_certificate_self_signed fp now port handshake) (
          pushed (check_weak_signature fp now port handshake) (
            pushed (check_old_protocol fp now port handshake) (
              pushed check_anonymous_ciphers
                (pushed check_null_ciphers (check_groups weak_cipher_groups)))))))

  -- The findings, and the knowledge base as it is left.
  unfoldable pub run_tls_checks : KnowledgeBase → List (Finding D) × KnowledgeBase
  unfolding checks store_handshake port_looks_like_tls
  run_tls_checks kb =
      let handshake = tls.handshake port.number 3000 in
      if not (port_looks_like_tls port)
      then ([], kb)
      else if not (is_ok handshake.result)
      then ([], kb)
      else (checks handshake, store_handshake port handshake kb)
