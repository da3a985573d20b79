-- ===== src/Ssh/Check.antt =====
-- src/protocols/ssh/terrapin.cpp: check_terrapin on a server that is given by its answers.
use zero_trust_public.Base.{
  ℕ, ◌+◌, Bool, true, false, not, ◌&&◌, ◌||◌, List, [], ◌∷◌, ◌++◌, Bytes, codes, bytes_eq, contains,
  is_empty, to_string, if◌then◌else◌, Option, none, some, ltb, leb, ◌==◌, length, take, Floats,
}
use zero_trust_public.Finding.{Severity, Confidence, PortState, open_port, Port, Finding}
use zero_trust_public.Finding.Default.{default_finding}
use zero_trust_public.KnowledgeBase.{KnowledgeBase, set}
use zero_trust_public.Ssh.{
  Parsed, parsed, rejected, out_of_bounds, KexInit, uint32_of, read_uint32, packet_end,
  build_kexinit_payload, frame_ssh_packet, parse_kexinit,
}

-- The server of a connection: whether it is reached, whether a `send` succeeds, and what the calls
-- of `receive` give in order; behind the list they give nothing.
pub record Server : Type 0 where
  pub state : PortState
  pub accepts : Bytes → Bool
  pub answers : List Bytes

abbrev pub is_open : PortState → Bool
is_open open_port = true
is_open _ = false

unfoldable pub has_name : List Bytes → Bytes → Bool
has_name [] needle = false
has_name (n ∷ list) needle = bytes_eq n needle || has_name list needle

-- `any_cbc` and `any_etm`.
unfoldable pub any_with : Bytes → List Bytes → Bool
any_with part [] = false
any_with part (c ∷ list) = contains part c || any_with part list

-- The buffer, and the answers that are left.
unfoldable pub receive_at_least : ℕ → Bytes → List Bytes → Bytes × List Bytes
receive_at_least needed buf [] = (buf, [])
receive_at_least needed buf (chunk ∷ answers) =
    let more = receive_at_least needed (buf ++ chunk) answers in
    if ltb (length buf) needed
    then if is_empty chunk then (buf, answers) else more
    else (buf, chunk ∷ answers)

-- A packet of message 20 that is complete stands here.
unfoldable pub starts_kexinit : Bytes → Bool
unfolding uint32_of
starts_kexinit (a ∷ b ∷ c ∷ d ∷ p ∷ m ∷ s) = elim (uint32_of (a ∷ b ∷ c ∷ d ∷ [])) [
  | parsed plen ↦ ltb 0 plen && (ltb plen 65536 && (leb (4 + plen) (length s + 6) && m == 20))
  | rejected ↦ false
  | out_of_bounds ↦ false
]
starts_kexinit _ = false

-- The loop over the starts of lines; `fresh` says that a line begins here.
unfoldable pub strip_lines : Bytes → Bool → Bytes → Bytes
strip_lines raw fresh [] = raw
strip_lines raw fresh (c ∷ s) =
    let later = strip_lines raw (c == b'\n') s in
    if fresh && starts_kexinit (c ∷ s) then c ∷ s else later

unfoldable pub strip_pre_kexinit_lines : Bytes → Bytes
unfolding strip_lines
strip_pre_kexinit_lines raw = strip_lines raw true raw

unfoldable pub join_algorithms : List Bytes → Bytes
join_algorithms [] = []
join_algorithms (x ∷ []) = x
join_algorithms (x ∷ y ∷ list) = x ++ (b',' ∷ join_algorithms (y ∷ list))

abbrev strict_kex : Bytes
strict_kex = codes "kex-strict-s-v00@openssh.com"

abbrev chacha : Bytes
chacha = codes "chacha20-poly1305@openssh.com"

abbrev pub has_strict_kex : KexInit → Bool
has_strict_kex ki = has_name ki.kex_algorithms strict_kex

abbrev pub has_chacha : KexInit → Bool
has_chacha ki = has_name ki.encryption_algorithms_s_to_c chacha

abbrev pub cbc_etm_vuln : KexInit → Bool
cbc_etm_vuln ki =
    any_with (codes "-cbc") ki.encryption_algorithms_s_to_c
    && any_with (codes "-etm@") ki.mac_algorithms_s_to_c

abbrev port_prefix : Port → Bytes
port_prefix port = codes "port/" ++ (to_string port.number ++ codes "/ssh/")

unfoldable pub store_algorithms : Port → KexInit → KnowledgeBase → KnowledgeBase
store_algorithms port ki kb =
    set (port_prefix port ++ codes "mac_algorithms_s2c") (join_algorithms ki.mac_algorithms_s_to_c)
      (set (port_prefix port ++ codes "encryption_algorithms_s2c")
        (join_algorithms ki.encryption_algorithms_s_to_c)
        (set (port_prefix port ++ codes "kex_algorithms") (join_algorithms ki.kex_algorithms) kb))

unfoldable terrapin_evidence : KexInit → Bytes
terrapin_evidence ki =
    (if has_chacha ki then codes "chacha20-poly1305@openssh.com supported; " else [])
    ++ ((if cbc_etm_vuln ki
          then codes "CBC ciphers combined with Encrypt-then-MAC supported; "
          else [])
        ++ codes "kex-strict-s-v00@openssh.com NOT offered by server")

abbrev pub first_answer : List Bytes → Bytes
first_answer [] = []
first_answer (a ∷ _) = a

abbrev pub later_answers : List Bytes → List Bytes
later_answers [] = []
later_answers (_ ∷ rest) = rest

module _ {D : Type 0} (fp : Floats D) (now : ℕ) where
  unfoldable pub terrapin_finding : Port → KexInit → Finding D
  unfolding terrapin_evidence default_finding
  terrapin_finding port ki = record (default_finding fp) {
    plugin_name = codes "ssh-terrapin";
    title = codes "SSH Terrapin Prefix Truncation Weakness";
    severity = Severity.medium;
    confidence = Confidence.verified;
    confidence_score = fp.literal 99 2;
    verification = codes "ACTIVE_CHECK";
    timestamp = now;
    cve_id = codes "CVE-2023-48795";
    port_number = port.number;
    service = port.service;
    product = port.product;
    version = port.version;
    description =
        codes "The SSH server supports algorithms vulnerable to the Terrapin prefix-truncation "
        ++ (codes
              "attack (chacha20-poly1305 or CBC-with-Encrypt-then-MAC) and does not advertise the "
            ++ (codes "strict key exchange countermeasure. Evidence: "
                ++ (terrapin_evidence ki
                    ++ codes ". Update the SSH server or restrict the offered algorithms.")));
    evidence = terrapin_evidence ki;
    evidence_data = record {
      type = codes "protocol";
      source = codes "ssh-kex";
      value = terrapin_evidence ki;
      details = codes "SSH algorithm negotiation";
    };
  }

  -- What follows the parsed packet: the knowledge base is written, and a finding made or not.
  unfoldable pub judge : Port → KnowledgeBase → KexInit → Option (Finding D) × KnowledgeBase
  judge port kb ki = (
    if has_strict_kex ki || (not (has_chacha ki) && not (cbc_etm_vuln ki))
        then none
        else some (terrapin_finding port ki),
    store_algorithms port ki kb,
  )

  -- none: a read outside the packet.
  unfoldable pub judge_parsed :
      Port → KnowledgeBase → Parsed KexInit → Option (Option (Finding D) × KnowledgeBase)
  judge_parsed port kb (parsed ki) = some (judge port kb ki)
  judge_parsed port kb rejected = some (none, kb)
  judge_parsed port kb out_of_bounds = none

  -- The packet is received to its end, as far as the server answers.
  unfoldable pub after_length :
      Port
      → KnowledgeBase
      → Bytes
      → List Bytes
      → Parsed ℕ
      → Option (Option (Finding D) × KnowledgeBase)
  after_length port kb trimmed answers (parsed n) =
      judge_parsed port kb (parse_kexinit (receive_at_least (packet_end n) trimmed answers).0)
  after_length port kb trimmed answers rejected = some (none, kb)
  after_length port kb trimmed answers out_of_bounds = none

  unfoldable pub after_response :
      Port → KnowledgeBase → Bytes × List Bytes → Option (Option (Finding D) × KnowledgeBase)
  after_response port kb (response, answers) =
      let trimmed = strip_pre_kexinit_lines response in
      let found = after_length port kb trimmed answers (read_uint32 trimmed 0) in
      if ltb (length response) 5
      then some (none, kb)
      else if ltb (length trimmed) 5
      then some (none, kb)
      else found

  -- The result, and the knowledge base as it is left.
  unfoldable pub check_terrapin :
      Server → Port → KnowledgeBase → Option (Option (Finding D) × KnowledgeBase)
  unfolding after_response
  check_terrapin server port kb =
      let answered =
        after_response port kb (receive_at_least 5 [] (later_answers server.answers)) in
      if not (bytes_eq port.service (codes "ssh"))
      then some (none, kb)
      else if not (is_open server.state)
      then some (none, kb)
      else if not (bytes_eq (take 4 (first_answer server.answers)) (codes "SSH-"))
      then some (none, kb)
      else if not (server.accepts (codes "SSH-2.0-ZeroTrust_Scanner\r\n"))
      then some (none, kb)
      else if not (server.accepts (frame_ssh_packet build_kexinit_payload))
      then some (none, kb)
      else answered
