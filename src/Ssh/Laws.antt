-- ===== src/Ssh/Laws.antt =====
-- What check_terrapin reports of a server that speaks the protocol, and what it leaves in the knowledge
-- base.
use zero_trust_public.Base.{
  ℕ, ◌+◌, ◌*◌, ◌%◌, ◌^◌, ◌≤◌, ◌<◌, ◌≡◌, refl, ap, ◌∙◌, Bool, true, false, not, ◌&&◌, ◌||◌, List, [],
  ◌∷◌, ◌++◌, Bytes, codes, bytes_eq, is_empty, if◌then◌else◌, none, some, ltb, length,
  length-append, take, arith, Floats,
}
use zero_trust_public.Finding.{Port, Finding}
use zero_trust_public.KnowledgeBase.{KnowledgeBase}
use zero_trust_public.Ssh.{
  Parsed, parsed, KexInit, encode_uint32, uint32_of, packet_end, parse_kexinit,
  build_kexinit_payload, frame_ssh_packet,
}
use zero_trust_public.Ssh.RoundTrip.{
  kexinit_message, lists_of, packet_length, ssh_packet, parse_kexinit-ssh_packet,
  packet-read_uint32, length-ssh_packet, uint32_of-encode_uint32,
}
use zero_trust_public.Ssh.Received.{receive_at_least_enough}
use zero_trust_public.Ssh.Check.{
  Server, is_open, has_strict_kex, has_chacha, cbc_etm_vuln, receive_at_least,
  strip_pre_kexinit_lines, store_algorithms, terrapin_finding, judge, judge_parsed, after_length,
  after_response, check_terrapin, starts_kexinit, strip_lines,
}

-- The terms of the attack: a vulnerable cipher, and no countermeasure.
abbrev pub is_vulnerable : KexInit → Bool
is_vulnerable ki = not (has_strict_kex ki) && (has_chacha ki || cbc_etm_vuln ki)

abbrev value_or : ℕ → Parsed ℕ → ℕ
value_or n (parsed m) = m
value_or n _ = n

starts_kexinit_at :
    (a b c d p m : ℕ) (s : Bytes) (n : ℕ)
    → uint32_of (a ∷ b ∷ c ∷ d ∷ []) ≡ parsed n
    → 0 < n
    → n < 65536
    → 4 + n ≤ length s + 6
    → m ≡ 20
    → starts_kexinit (a ∷ b ∷ c ∷ d ∷ p ∷ m ∷ s) ≡ true
unfolding starts_kexinit uint32_of
starts_kexinit_at a b c d p m s n e h k l q =
    let number : a * 2 ^ 24 + b * 2 ^ 16 + c * 2 ^ 8 + d ≡ n = ap (value_or 0) e in ground arith

strip_lines_first : (s : Bytes) → starts_kexinit s ≡ true → strip_lines s true s ≡ s
unfolding strip_lines
strip_lines_first [] h = refl
strip_lines_first (c ∷ s) h = rw h refl

-- A packet of a message 20 that declares less than 65,536 bytes stands at the front of an answer, so
-- no lines are stripped.
starts_kexinit-ssh_packet :
    (padding t more : Bytes)
    → packet_length padding (20 ∷ t) < 65536
    → starts_kexinit (ssh_packet padding (20 ∷ t) ++ more) ≡ true
unfolding encode_uint32
starts_kexinit-ssh_packet padding t more h =
    let n = packet_length padding (20 ∷ t) in
    starts_kexinit_at _ _ _ _ (length padding) 20 ((t ++ padding) ++ more) n
      (uint32_of-encode_uint32 (n % 2 ^ 32) [] (omega arith) ∙ ap parsed (omega arith))
      (omega arith) h (omega (arith, length-append t padding, length-append (t ++ padding) more))
      refl

module _ {D : Type 0} (fp : Floats D) (now : ℕ) (port : Port) (kb : KnowledgeBase) where
  judge-is_vulnerable :
      (ki : KexInit)
      → judge fp now port kb ki ≡ (
        (if is_vulnerable ki then some (terrapin_finding fp now port ki) else none),
        store_algorithms port ki kb,
      )
  unfolding judge
  judge-is_vulnerable ki =
      ap (λ r. (r, store_algorithms port ki kb))
        (swapped (has_strict_kex ki) (has_chacha ki) (cbc_etm_vuln ki)
          (terrapin_finding fp now port ki))
    where
      swapped :
          (a b c : Bool) (f : Finding D)
          → (if a || (not b && not c) then none else some f)
            ≡ (if not a && (b || c) then some f else none)
      swapped a b c f = ground arith

  after_response_whole :
      (padding t more : Bytes) (answers : List Bytes) (ki : KexInit)
      → packet_length padding (20 ∷ t) < 65536
      → parse_kexinit (ssh_packet padding (20 ∷ t) ++ more) ≡ parsed ki
      → after_response fp now port kb (ssh_packet padding (20 ∷ t) ++ more, answers)
        ≡ some (judge fp now port kb ki)
  unfolding after_response after_length strip_pre_kexinit_lines judge_parsed
  after_response_whole padding t more answers ki h e =
      let raw = ssh_packet padding (20 ∷ t) ++ more in
      let n = packet_length padding (20 ∷ t) in
      let whole = length-ssh_packet padding (20 ∷ t) more in
      let long : ltb (length raw) 5 ≡ false = ground arith in
      let kept : strip_pre_kexinit_lines raw ≡ raw =
        strip_lines_first raw (starts_kexinit-ssh_packet padding t more h) in
      let complete : receive_at_least (packet_end n) raw answers ≡ (raw, answers) =
        receive_at_least_enough (packet_end n) raw answers (ground arith) in
      let number = packet-read_uint32 padding (20 ∷ t) more (omega arith) in
      rw (long, kept, long, number, complete, e) refl

  received_first :
      (padding payload more : Bytes) (answers : List Bytes)
      → receive_at_least 5 [] ((ssh_packet padding payload ++ more) ∷ answers)
        ≡ (ssh_packet padding payload ++ more, answers)
  unfolding receive_at_least encode_uint32 is_empty
  received_first padding payload more answers =
      let whole = length-ssh_packet padding payload more in
      receive_at_least_enough 5 (ssh_packet padding payload ++ more) answers (ground arith)

  -- A server that is reached, takes what is sent, and greets with "SSH-". Its next answer begins with
  -- a complete packet of the key exchange that declares less than 65,536 bytes: a message 20 with a
  -- cookie of 16 bytes and six lists of names, any padding and its length; more may follow, in that
  -- answer and in later ones. Then the server is reported exactly if its first, fourth and sixth list
  -- show a vulnerable cipher and not the countermeasure; the three lists are stored.
  pub check_terrapin-is_vulnerable :
      (server : Server) (banner padding more : Bytes) (later : List Bytes)
      (cookie l1 l2 l3 l4 l5 l6 rest : Bytes)
      → bytes_eq port.service (codes "ssh") ≡ true
      → is_open server.state ≡ true
      → ((sent : Bytes) → server.accepts sent ≡ true)
      → server.answers
        ≡ banner
          ∷ (ssh_packet padding (kexinit_message cookie l1 l2 l3 l4 l5 l6 rest) ++ more)
          ∷ later
      → bytes_eq (take 4 banner) (codes "SSH-") ≡ true
      → length cookie ≡ 16
      → packet_length padding (kexinit_message cookie l1 l2 l3 l4 l5 l6 rest) < 65536
      → let ki : KexInit = lists_of cookie l1 l2 l3 l4 l5 l6 rest in
        check_terrapin fp now server port kb
        ≡ some (
          (if is_vulnerable ki then some (terrapin_finding fp now port ki) else none),
          store_algorithms port ki kb,
        )
  unfolding check_terrapin
  check_terrapin-is_vulnerable server banner padding more later cookie l1 l2 l3 l4 l5 l6 rest s o
        accepts answers b c small =
      let payload = kexinit_message cookie l1 l2 l3 l4 l5 l6 rest in
      let read =
        parse_kexinit-ssh_packet cookie l1 l2 l3 l4 l5 l6 rest padding more c (omega arith) in
      let received : receive_at_least 5 [] ((ssh_packet padding payload ++ more) ∷ later)
          ≡ (ssh_packet padding payload ++ more, later) =
        received_first padding payload more later in
      rw
        (
          s,
          o,
          answers,
          b,
          accepts (codes "SSH-2.0-ZeroTrust_Scanner\r\n"),
          accepts (frame_ssh_packet build_kexinit_payload),
          received,
        )
        (after_response_whole _ _ _ _ _ small read ∙ ap some (judge-is_vulnerable _))
