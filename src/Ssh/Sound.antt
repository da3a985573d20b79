-- ===== src/Ssh/Sound.antt =====
-- What a finding of check_terrapin rests on, whatever the server answers.
use zero_trust_public.Base.{
  ℕ, ◌≡◌, refl, ap, ◌∙◌, Bool, true, false, not, ◌&&◌, ◌||◌, List, [], ◌++◌, append_assoc, sym,
  Bytes, codes, bytes_eq, if◌then◌else◌, Option, none, some, ltb, length, take, arith, Bool-cases,
  inl, inr, Floats, subst,
}
use zero_trust_public.Finding.{Port, Finding}
use zero_trust_public.KnowledgeBase.{KnowledgeBase}
use zero_trust_public.Ssh.{
  Parsed, parsed, rejected, out_of_bounds, KexInit, read_uint32, packet_end, parse_kexinit,
  build_kexinit_payload, frame_ssh_packet,
}
use zero_trust_public.Ssh.Received.{joined, receive_at_least-joined, strip_lines-suffix}
use zero_trust_public.Ssh.Check.{
  Server, is_open, has_strict_kex, has_chacha, cbc_etm_vuln, receive_at_least,
  strip_pre_kexinit_lines, store_algorithms, terrapin_finding, judge, judge_parsed, after_length,
  after_response, check_terrapin, first_answer, later_answers,
}
use zero_trust_public.Ssh.Laws.{is_vulnerable}

negated : (a b c : Bool) → (a || (not b && not c)) ≡ false → (not a && (b || c)) ≡ true
negated a b c h = ground arith

module _ {D : Type 0} (fp : Floats D) (now : ℕ) (port : Port) (kb : KnowledgeBase) where
  -- A result is explained by a packet that stands in what was received.
  abbrev pub Explained : Bytes → Finding D → KnowledgeBase → Type 0
  Explained received f kb' =
      (before : Bytes) × (packet : Bytes) × (after : Bytes) × (ki : KexInit) × (received
        ≡ before ++ (packet ++ after))
      × (parse_kexinit packet ≡ parsed ki)
      × (is_vulnerable ki ≡ true)
      × (f ≡ terrapin_finding fp now port ki)
      × (kb' ≡ store_algorithms port ki kb)

  abbrev Result : Type 0
  Result = Option (Option (Finding D) × KnowledgeBase)

  abbrev IsExplained : Bytes → Result → Type 0
  IsExplained received (some (some f, kb')) = Explained received f kb'
  IsExplained received _ = Unit

  -- The packet and where it stands.
  module _ (received before packet after : Bytes)
      (stands : received ≡ before ++ (packet ++ after)) where
    judge-IsExplained :
        (ki : KexInit)
        → parse_kexinit packet ≡ parsed ki
        → IsExplained received (some (judge fp now port kb ki))
    unfolding judge
    judge-IsExplained ki e =
        elim (Bool-cases (has_strict_kex ki || (not (has_chacha ki) && not (cbc_etm_vuln ki)))) [
          | inl q ↦ rw q tt
          | inr q ↦ rw q (before, packet, after, ki, stands, e, negated _ _ _ q, refl, refl)
        ]

    judge_parsed-IsExplained :
        IsExplained received (judge_parsed fp now port kb (parse_kexinit packet))
    unfolding judge_parsed
    judge_parsed-IsExplained = by_case (parse_kexinit packet) refl
      where
        by_case :
            (p : Parsed KexInit)
            → parse_kexinit packet ≡ p
            → IsExplained received (judge_parsed fp now port kb p)
        by_case (parsed ki) e = judge-IsExplained ki e
        by_case rejected e = tt
        by_case out_of_bounds e = tt

  -- What is received up to the end of the packet stands behind the lines that are stripped.
  completed :
      (response : Bytes) (answers : List Bytes) (n : ℕ)
      → let r = receive_at_least n (strip_pre_kexinit_lines response) answers in
        (before : Bytes) × (response ++ joined answers ≡ before ++ (r.0 ++ joined r.1))
  unfolding strip_pre_kexinit_lines
  completed response answers n =
      let trimmed = strip_pre_kexinit_lines response in
      let (before, e) = strip_lines-suffix response [] response true refl in
      (
        before,
        ap (λ s. s ++ joined answers) e
            ∙ append_assoc before trimmed (joined answers)
            ∙ ap (λ s. before ++ s) (sym (receive_at_least-joined n trimmed answers)),
      )

  after_response-IsExplained :
      (r : Bytes × List Bytes) → IsExplained (r.0 ++ joined r.1) (after_response fp now port kb r)
  unfolding after_response after_length
  after_response-IsExplained (response, answers) =
      both (ltb (length response) 5) (ltb (length (strip_pre_kexinit_lines response)) 5)
        (read_uint32 (strip_pre_kexinit_lines response) 0)
    where
      both :
          (a b : Bool) (p : Parsed ℕ)
          → IsExplained (response ++ joined answers) (
              if a
              then some (none, kb)
              else if b
              then some (none, kb)
              else after_length fp now port kb (strip_pre_kexinit_lines response) answers p)
      both true b p = tt
      both false true p = tt
      both false false (parsed n) =
          let (before, e) = completed response answers (packet_end n) in
          judge_parsed-IsExplained _ before _ _ e
      both false false rejected = tt
      both false false out_of_bounds = tt

  guarded :
      (received : Bytes) (a b c d e : Bool) (r : Result)
      → IsExplained received r
      → IsExplained received (
          if a
          then some (none, kb)
          else if b
          then some (none, kb)
          else if c
          then some (none, kb)
          else if d
          then some (none, kb)
          else if e
          then some (none, kb)
          else r)
  guarded received true b c d e r h = tt
  guarded received false true c d e r h = tt
  guarded received false false true d e r h = tt
  guarded received false false false true e r h = tt
  guarded received false false false false true r h = tt
  guarded received false false false false false r h = h

  check_terrapin-IsExplained :
      (server : Server)
      → IsExplained (joined (later_answers server.answers)) (check_terrapin fp now server port kb)
  unfolding check_terrapin
  check_terrapin-IsExplained server =
      let rest = receive_at_least 5 [] (later_answers server.answers) in
      let greeted = take 4 (first_answer server.answers) in
      let all = joined (later_answers server.answers) in
      guarded all (not (bytes_eq port.service (codes "ssh"))) (not (is_open server.state))
        (not (bytes_eq greeted (codes "SSH-")))
        (not (server.accepts (codes "SSH-2.0-ZeroTrust_Scanner\r\n")))
        (not (server.accepts (frame_ssh_packet build_kexinit_payload)))
        (after_response fp now port kb rest)
        (subst (λ s. IsExplained s (after_response fp now port kb rest))
          (receive_at_least-joined 5 [] (later_answers server.answers))
          (after_response-IsExplained rest))

  -- Whatever a server answers, a finding is made only for a packet that stands in the bytes that the
  -- server has sent behind its greeting, whose lists show a vulnerable cipher and not the
  -- countermeasure; it is the finding for these lists, and the knowledge base then has them.
  pub check_terrapin_sound :
      (server : Server) {f : Finding D} {kb' : KnowledgeBase}
      → check_terrapin fp now server port kb ≡ some (some f, kb')
      → Explained (joined (later_answers server.answers)) f kb'
  check_terrapin_sound server e =
      subst (IsExplained (joined (later_answers server.answers))) e
        (check_terrapin-IsExplained server)
