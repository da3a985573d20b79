-- ===== src/Tls.antt =====
-- src/protocols/tls/checks.cpp: the checks of a TLS endpoint. What a handshake gives is an argument,
-- and so is the clock.
pub mod Report
pub mod Scan
pub mod Laws
pub mod Facts
use zero_trust_public.Base.{
  ℕ, suc, Bool, true, false, not, ◌&&◌, ◌||◌, List, [], ◌∷◌, ◌++◌, Bytes, codes, bytes_eq, contains,
  strip_prefix, to_string, if◌then◌else◌, Option, none, some, ◌==◌, Floats,
}
use zero_trust_public.Finding.{Severity, Confidence, Port, Finding}
use zero_trust_public.Finding.Default.{default_finding}
use zero_trust_public.KnowledgeBase.{KnowledgeBase, set}
use Report.{TlsHandshakeResult, TlsHandshakeReport, TlsCertificateInfo, Tls, is_ok, days_since}

unfoldable one_of : List ℕ → ℕ → Bool
one_of [] n = false
one_of (m ∷ ms) n = n == m || one_of ms n

unfoldable pub port_looks_like_tls : Port → Bool
unfolding one_of
port_looks_like_tls port =
    one_of (443 ∷ 465 ∷ 636 ∷ 989 ∷ 990 ∷ 993 ∷ 995 ∷ 5061 ∷ 8443 ∷ []) port.number

-- `name.rfind(prefix, 0) == 0`
abbrev begins_with : Bytes → Bytes → Bool
begins_with prefix s = elim (strip_prefix prefix s) [ none ↦ false | some _ ↦ true ]

unfoldable pub cipher_is_anonymous : Bytes → Bool
cipher_is_anonymous name =
    begins_with (codes "ADH-") name
    || (begins_with (codes "AECDH-") name || contains (codes "-ANON-") name)

unfoldable pub cipher_is_null : Bytes → Bool
cipher_is_null name =
    contains (codes "-NULL-") name
    || (begins_with (codes "NULL-") name
        || (contains (codes "-NULL") name && not (contains (codes "-NULL@") name)))

-- The reason for which a signature algorithm is weak, if it is.
unfoldable pub weak_reason : Bytes → Option Bytes
weak_reason sig =
    if contains (codes "md5") sig
    then some (codes "MD5-based signature (broken hash)")
    else if contains (codes "sha1") sig || contains (codes "sha-1") sig
    then some (codes "SHA-1 signature (deprecated, collision-vulnerable)")
    else none

-- The severity of a deprecated protocol version and the reason, if it is deprecated.
unfoldable pub old_reason : Bytes → Option (Severity × Bytes)
old_reason v =
    if bytes_eq v (codes "SSLv3")
    then some (Severity.high, codes "SSLv3 is broken (POODLE, CVE-2014-3566) and must be disabled")
    else if bytes_eq v (codes "TLSv1") || bytes_eq v (codes "TLSv1.0")
    then some
        (Severity.medium, codes "TLS 1.0 is deprecated (BEAST, RFC 8996) and must be disabled")
    else if bytes_eq v (codes "TLSv1.1")
    then some (Severity.medium, codes "TLS 1.1 is deprecated (RFC 8996) and must be disabled")
    else none

pub record WeakCipherGroup : Type 0 where
  pub openssl_expr : Bytes
  pub finding_id : Bytes
  pub title : Bytes
  pub severity : Severity
  pub reason : Bytes
  pub cipher_name_marker : Bytes

unfoldable pub weak_cipher_groups : List WeakCipherGroup
weak_cipher_groups =
    record {
      openssl_expr = codes "RC4";
      finding_id = codes "tls-rc4-supported";
      title = codes "SSL RC4 Cipher Suites Supported";
      severity = Severity.high;
      reason =
          codes "RC4 has known biases that allow plaintext recovery (RFC 7465, CVE-2013-2566).";
      cipher_name_marker = codes "RC4";
    }
    ∷ record {
      openssl_expr = codes "3DES";
      finding_id = codes "tls-3des-supported";
      title = codes "SSL 3DES Cipher Suites Supported (Sweet32)";
      severity = Severity.medium;
      reason =
          codes
            "3DES uses a 64-bit block size and is vulnerable to birthday attacks on long sessions "
          ++ codes "(Sweet32, CVE-2016-2183).";
      cipher_name_marker = codes "3DES";
    }
    ∷ record {
      openssl_expr = codes "DES:!3DES";
      finding_id = codes "tls-des-supported";
      title = codes "SSL DES Cipher Suites Supported";
      severity = Severity.high;
      reason =
          codes "Single-DES uses a 56-bit key that is trivially brute-forced with modern hardware.";
      cipher_name_marker = codes "-DES-";
    }
    ∷ record {
      openssl_expr = codes "EXPORT";
      finding_id = codes "tls-export-supported";
      title = codes "SSL Export-Grade Cipher Suites Supported (FREAK/Logjam)";
      severity = Severity.high;
      reason =
          codes "Export-grade ciphers use 40- or 56-bit keys and are broken by design (FREAK "
          ++ codes "CVE-2015-0204, Logjam CVE-2015-4000).";
      cipher_name_marker = codes "EXP";
    }
    ∷ []

module _ {D : Type 0} (fp : Floats D) (now : ℕ) (port : Port) where
  unfoldable pub make_finding : Bytes → Bytes → Severity → Bytes → Finding D
  unfolding default_finding
  make_finding plugin title severity description = record (default_finding fp) {
    plugin_name = plugin;
    title = title;
    severity = severity;
    confidence = Confidence.verified;
    confidence_score = fp.literal 99 2;
    verification = codes "ACTIVE_CHECK";
    timestamp = now;
    port_number = port.number;
    service = port.service;
    product = port.product;
    version = port.version;
    description = description;
    evidence = description;
    evidence_data = record {
      type = codes "protocol";
      source = codes "tls-handshake";
      value = description;
      details = plugin;
    };
  }

  unfoldable pub check_tls_supported : TlsHandshakeReport → Option (Finding D)
  unfolding make_finding
  check_tls_supported handshake = some (
      make_finding (codes "tls-supported")
        (codes "TLS/SSL service detected on port " ++ to_string port.number) Severity.info
        (codes "The service on this port accepts TLS connections. Protocol negotiated: "
          ++ (handshake.protocol_version
              ++ (codes ". Cipher: " ++ (handshake.cipher_name ++ codes ".")))))

  unfoldable pub check_certificate_expired : TlsHandshakeReport → Option (Finding D)
  unfolding make_finding days_since
  check_certificate_expired handshake =
      let cert = handshake.certificate in
      if not handshake.certificate_present
      then none
      else if not cert.expired
      then none
      else some (
          make_finding (codes "tls-cert-expired") (codes "SSL Certificate Expired") Severity.high (
            codes "The X.509 certificate served by the TLS endpoint is expired. Subject: "
            ++ (cert.subject
                ++ (codes ". Not After: "
                    ++ (cert.not_after
                        ++ (codes ". Days since expiry: "
                            ++ (days_since cert.days_until_expiry ++ codes ".")))))))

  unfoldable pub check_certificate_self_signed : TlsHandshakeReport → Option (Finding D)
  unfolding make_finding
  check_certificate_self_signed handshake =
      if not handshake.certificate_present
      then none
      else if not handshake.certificate.self_signed
      then none
      else some (
          make_finding (codes "tls-cert-self-signed") (codes "SSL Self-Signed Certificate")
            Severity.medium
            (codes "The X.509 certificate served by the TLS endpoint is self-signed, meaning it is "
              ++ (codes
                    "not issued by a trusted certificate authority. Clients will not be able to verify "
                  ++ (codes "the identity of the server. Subject: "
                      ++ (handshake.certificate.subject ++ codes ".")))))

  unfoldable pub check_weak_signature : TlsHandshakeReport → Option (Finding D)
  unfolding make_finding weak_reason
  check_weak_signature handshake =
      let sig = handshake.certificate.signature_algorithm in
      if not handshake.certificate_present then none else elim (weak_reason sig) [
        | none ↦ none
        | some reason ↦ some (
            make_finding (codes "tls-cert-weak-signature")
              (codes "SSL Certificate Signed With Weak Hash Algorithm") Severity.medium
              (codes "The X.509 certificate uses a weak signature algorithm: "
                ++ (sig
                    ++ (codes " ("
                        ++ (reason
                            ++ codes
                                "). Modern trust stores reject or warn on such certificates.")))))
      ]

  unfoldable pub check_old_protocol : TlsHandshakeReport → Option (Finding D)
  unfolding make_finding old_reason
  check_old_protocol handshake =
      let v = handshake.protocol_version in
      elim (old_reason v) [
        | none ↦ none
        | some (severity, reason) ↦ some (
            make_finding (codes "tls-old-protocol")
              (codes "Deprecated TLS Protocol Version (" ++ (v ++ codes ")")) severity
              (codes "The server negotiated a deprecated TLS protocol version ("
                ++ (v ++ (codes "). " ++ (reason ++ codes ".")))))
      ]
