-- ===== src/Witness/Network.antt =====
-- The theorems on the checks of SSH and TLS and on the DNS resolver at concrete inputs.
use zero_trust_public.Base.{
  ℕ, List, ◌++◌, inl, inr, ◌+◌, ◌%◌, arith, ◌≡◌, refl, true, false, ◌&&◌, [], ◌∷◌, map, Bytes,
  codes, bytes_eq, split_by, strip_prefix, to_string, is_empty, if◌then◌else◌, none, some, length,
  drop,
}
use zero_trust_public.Finding.{Protocol, PortState, Port, Finding}
use zero_trust_public.KnowledgeBase.{empty, get}
use zero_trust_public.Reads.{parsed, out_of_bounds, InBounds}
use zero_trust_public.Ssh.{
  zeros, read_uint32, uint32_of, read_byte, byte_of, name_list, padding_of, frame_ssh_packet,
  KexInit, parse_kexinit, names_of,
}
use zero_trust_public.Ssh.RoundTrip.{
  kexinit_message, ssh_packet, parse_kexinit-frame_ssh_packet, frame_ssh_packet-length_mod,
}
use zero_trust_public.Ssh.Received.{joined}
use zero_trust_public.Ssh.Bounds.{parse_kexinit-InBounds, parse_kexinit_overread}
use zero_trust_public.Ssh.Check.{
  Server, has_name, check_terrapin, terrapin_finding, store_algorithms,
}
use zero_trust_public.Ssh.Laws.{is_vulnerable, check_terrapin-is_vulnerable}
use zero_trust_public.Ssh.Sound.{Explained, check_terrapin_sound}
use zero_trust_public.Dns.{
  network16, encode_label, encode_labels, encode_hostname, skip_name, resolve,
}
use zero_trust_public.Dns.Laws.{skip_name-encode_hostname}
use zero_trust_public.Dns.Answers.{Answer, encode_answers, first_address, resolve-first_address}
use zero_trust_public.Tls.Report.{is_ok, TlsHandshakeResult, TlsHandshakeReport, Days, Tls}
use zero_trust_public.Tls.{port_looks_like_tls}
use zero_trust_public.Tls.Scan.{run_tls_checks}
use zero_trust_public.Tls.Laws.{rules, map-run_tls_checks}
use zero_trust_public.Tls.Facts.{get-run_tls_checks}
use zero_trust_public.Finding.Default.{default_finding}
use zero_trust_public.TcpRange.{has_cve, findings_of}
use zero_trust_public.TcpRange.Laws.{Found, findings_of-Found}
use zero_trust_public.Witness.Findings.{hundredths}

abbrev port_of : ℕ → Bytes → Port
port_of number service = record {
  number = number;
  protocol = Protocol.tcp;
  state = PortState.open_port;
  service = service;
  product = [];
  version = [];
  distro = [];
  tls = false;
}

abbrev ssh_port : Port
ssh_port = port_of 22 (codes "ssh")

abbrev cookie : Bytes
cookie = codes "0123456789abcdef"

abbrev chacha_list : Bytes
chacha_list = codes "chacha20-poly1305@openssh.com"

-- One message of the key exchange with a vulnerable cipher.
abbrev message : Bytes
message = kexinit_message cookie (codes "curve") [] [] chacha_list [] (codes "hmac") []

abbrev lists : KexInit
lists = record {
  kex_algorithms = names_of (codes "curve");
  encryption_algorithms_s_to_c = names_of chacha_list;
  mac_algorithms_s_to_c = names_of (codes "hmac");
}

-- With five bytes of padding the packet is 88 bytes long.
abbrev five : Bytes
five = 9 ∷ 8 ∷ 7 ∷ 6 ∷ 5 ∷ []

abbrev old_server : Server
old_server = record {
  state = PortState.open_port;
  accepts = λ _. true;
  answers =
      codes "SSH-2.0-old\r\n" ∷ (ssh_packet five message ++ codes "more") ∷ codes "later" ∷ [];
}

parse_kexinit-frame_ssh_packet_example : parse_kexinit (frame_ssh_packet message) ≡ parsed lists
unfolding name_list
parse_kexinit-frame_ssh_packet_example =
    parse_kexinit-frame_ssh_packet cookie (codes "curve") [] [] chacha_list [] (codes "hmac") []
      refl (omega arith)

frame_ssh_packet-length_mod_example : length (frame_ssh_packet (codes "ping")) % 8 ≡ 4
frame_ssh_packet-length_mod_example = frame_ssh_packet-length_mod (codes "ping")

parse_kexinit_overread_example : parse_kexinit (0 ∷ 0 ∷ 0 ∷ 1 ∷ 200 ∷ 20 ∷ []) ≡ out_of_bounds
parse_kexinit_overread_example =
    parse_kexinit_overread 200 [] (omega arith) (omega arith) (omega arith)

check_terrapin-is_vulnerable_example :
    check_terrapin hundredths 7 old_server ssh_port empty
    ≡ some (
      (if is_vulnerable lists then some (terrapin_finding hundredths 7 ssh_port lists) else none),
      store_algorithms ssh_port lists empty,
    )
unfolding bytes_eq name_list padding_of
check_terrapin-is_vulnerable_example =
    check_terrapin-is_vulnerable hundredths 7 ssh_port empty old_server (codes "SSH-2.0-old\r\n")
      five (codes "more") (codes "later" ∷ []) cookie (codes "curve") [] [] chacha_list []
      (codes "hmac") [] refl refl (λ _. refl) refl refl refl (omega arith)

check_terrapin_sound_example :
    Explained hundredths 7 ssh_port empty
      (joined ((ssh_packet five message ++ codes "more") ∷ codes "later" ∷ []))
      (terrapin_finding hundredths 7 ssh_port lists)
      (store_algorithms ssh_port lists empty)
unfolding bytes_eq name_list padding_of store_algorithms has_name names_of split_by is_empty
check_terrapin_sound_example = check_terrapin_sound hundredths 7 ssh_port empty old_server (
    check_terrapin-is_vulnerable hundredths 7 ssh_port empty old_server (codes "SSH-2.0-old\r\n")
      five (codes "more") (codes "later" ∷ []) cookie (codes "curve") [] [] chacha_list []
      (codes "hmac") [] refl refl (λ _. refl) refl refl refl (omega arith))

-- A packet of 12 bytes behind its length, of which 4 are padding.
abbrev packet : Bytes
packet = 0 ∷ 0 ∷ 0 ∷ 12 ∷ 4 ∷ 20 ∷ 0 ∷ 0 ∷ 0 ∷ 0 ∷ 0 ∷ 0 ∷ 0 ∷ 0 ∷ 0 ∷ 0 ∷ []

parse_kexinit-InBounds_example : InBounds (parse_kexinit packet)
unfolding read_uint32 uint32_of read_byte byte_of
parse_kexinit-InBounds_example =
    parse_kexinit-InBounds packet (λ n pad e f. (ground (arith, e, f), ground (arith, e, f)))

-- An answer to the question for "a.b" with one address, behind a pointer to the name.
abbrev answer : Bytes
answer =
    0 ∷ 7 ∷ 129 ∷ 128 ∷ 0 ∷ 1 ∷ 0 ∷ 1 ∷ 0 ∷ 0 ∷ 0 ∷ 0 ∷ 1 ∷ b'a' ∷ 1 ∷ b'b' ∷ 0 ∷ 0 ∷ 1 ∷ 0 ∷ 1
    ∷ 192 ∷ 12 ∷ 0 ∷ 1 ∷ 0 ∷ 1 ∷ 0 ∷ 0 ∷ 0 ∷ 9 ∷ 0 ∷ 4 ∷ 10 ∷ 0 ∷ 0 ∷ 1 ∷ []

skip_name-encode_hostname_example :
    skip_name answer 12 ≡ 12 + length (encode_hostname (codes "a.b"))
unfolding encode_hostname encode_labels encode_label split_by
skip_name-encode_hostname_example =
    skip_name-encode_hostname (codes "a.b") answer (drop 17 answer) 12
      ((omega arith, omega arith), ((omega arith, omega arith), tt)) refl

-- A record of another type, then an address, both behind a pointer to the name.
abbrev records : List Answer
records =
    record {
      name = 192 ∷ 12 ∷ [];
      type = 5;
      middle = 0 ∷ 1 ∷ 0 ∷ 0 ∷ 0 ∷ 9 ∷ [];
      contents = 192 ∷ 14 ∷ [];
    }
    ∷ record {
      name = 192 ∷ 14 ∷ [];
      type = 1;
      middle = 0 ∷ 1 ∷ 0 ∷ 0 ∷ 0 ∷ 9 ∷ [];
      contents = 10 ∷ 0 ∷ 0 ∷ 1 ∷ [];
    }
    ∷ []

resolve-first_address_example :
    resolve
      (λ address. address)
      ((0 ∷ 7 ∷ 129 ∷ 128 ∷ 0 ∷ 1 ∷ [])
        ++ (network16 2
            ++ (zeros 4
                ++ (encode_labels (codes "a" ∷ codes "b" ∷ [])
                    ++ ((0 ∷ 1 ∷ 0 ∷ 1 ∷ []) ++ encode_answers records [])))))
    ≡ parsed (10 ∷ 0 ∷ 0 ∷ 1 ∷ [])
unfolding first_address
resolve-first_address_example =
    resolve-first_address (λ address. address) (0 ∷ 7 ∷ 129 ∷ 128 ∷ 0 ∷ 1 ∷ []) (zeros 4)
      (encode_labels (codes "a" ∷ codes "b" ∷ [])) (0 ∷ 1 ∷ 0 ∷ 1 ∷ []) [] records refl refl
      (inl (
        codes "a" ∷ codes "b" ∷ [],
        ((omega arith, omega arith), ((omega arith, omega arith), tt)),
        refl,
      ))
      refl
      (
        (inr (192, 12, omega arith, refl), omega arith, refl, omega arith),
        ((inr (192, 14, omega arith, refl), omega arith, refl, omega arith), tt),
      )
      (omega arith)

abbrev old_tls : TlsHandshakeReport
old_tls = record {
  result = TlsHandshakeResult.success;
  protocol_version = codes "TLSv1";
  cipher_name = codes "RC4-SHA";
  certificate = record {
    subject = codes "CN=a";
    issuer = codes "CN=a";
    not_before = [];
    not_after = [];
    signature_algorithm = codes "sha1WithRSAEncryption";
    self_signed = true;
    expired = true;
    days_until_expiry = Days.negsuc 3;
  };
  certificate_present = true;
  accepted_ciphers = [];
}

abbrev tls_server : Tls
tls_server = record { handshake = λ _ _. old_tls; handshake_with_ciphers = λ _ _ _. old_tls }

map-run_tls_checks_example :
    map (λ f. f.plugin_name) (run_tls_checks hundredths 7 (port_of 443 []) tls_server empty).0 ≡ (
      if port_looks_like_tls (port_of 443 []) && is_ok (tls_server.handshake 443 3000).result
      then rules tls_server (port_of 443 []) (tls_server.handshake 443 3000)
      else [])
map-run_tls_checks_example = map-run_tls_checks hundredths 7 (port_of 443 []) tls_server empty

get-run_tls_checks_example :
    get (codes "port/443/ssh/x") (run_tls_checks hundredths 7 (port_of 443 []) tls_server empty).1
    ≡ get (codes "port/443/ssh/x") empty
unfolding strip_prefix to_string
get-run_tls_checks_example =
    get-run_tls_checks (port_of 443 []) (codes "port/443/ssh/x") refl hundredths 7 tls_server empty

-- A finding about one CVE, as check_port gives it.
abbrev about : Bytes → Finding ℕ
about id = record (default_finding hundredths) { cve_id = id; port_number = 22 }

findings_of-Found_example : Found (codes "CVE-2") (
    findings_of hundredths
      (codes "10.0.0.1")
      ssh_port
      (about (codes "CVE-1") ∷ [])
      (about (codes "CVE-1") ∷ about (codes "CVE-2") ∷ []))
unfolding has_cve bytes_eq
findings_of-Found_example =
    findings_of-Found (codes "CVE-2") hundredths (codes "10.0.0.1") ssh_port
      (about (codes "CVE-1") ∷ []) (about (codes "CVE-1") ∷ about (codes "CVE-2") ∷ []) refl
