-- ===== src/Tls/Report.antt =====
-- src/transport/tls.hpp: what a handshake reports.
use zero_trust_public.Base.{ℕ, zero, suc, Bool, true, false, List, ◌∷◌, Bytes, codes, to_string}

pub data TlsHandshakeResult : Type 0 where
  unknown : TlsHandshakeResult
  success : TlsHandshakeResult
  refused : TlsHandshakeResult
  timeout : TlsHandshakeResult
  not_tls : TlsHandshakeResult
  handshake_failed : TlsHandshakeResult

abbrev pub is_ok : TlsHandshakeResult → Bool
is_ok success = true
is_ok _ = false

-- `long`: a number that is not negative, or one below -1 by the number.
pub data Days : Type 0 where
  pos : ℕ → Days
  negsuc : ℕ → Days

pub record TlsCertificateInfo : Type 0 where
  pub subject : Bytes
  pub issuer : Bytes
  pub not_before : Bytes
  pub not_after : Bytes
  pub signature_algorithm : Bytes
  pub self_signed : Bool
  pub expired : Bool
  pub days_until_expiry : Days

pub record TlsHandshakeReport : Type 0 where
  pub result : TlsHandshakeResult
  pub protocol_version : Bytes
  pub cipher_name : Bytes
  pub certificate : TlsCertificateInfo
  pub certificate_present : Bool
  pub accepted_ciphers : List Bytes

-- The handshakes with the host of a scan, by the port, the list of ciphers and the timeout.
pub record Tls : Type 0 where
  pub handshake : ℕ → ℕ → TlsHandshakeReport
  pub handshake_with_ciphers : ℕ → Bytes → ℕ → TlsHandshakeReport

-- `std::to_string(-days)`
unfoldable pub days_since : Days → Bytes
days_since (pos zero) = codes "0"
days_since (pos (suc n)) = b'-' ∷ to_string (suc n)
days_since (negsuc n) = to_string (suc n)
