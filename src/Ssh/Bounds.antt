-- ===== src/Ssh/Bounds.antt =====
-- Which packets are read within their bounds, and which are not.
use zero_trust_public.Base.{
  ℕ, ◌+◌, ◌-◌, ◌^◌, ◌≤◌, ◌<◌, ◌≡◌, refl, ap, Bool, false, [], ◌∷◌, Bytes, ltb, leb, ◌==◌, length,
  length-append, length-drop, drop, arith,
}
use zero_trust_public.Reads.{InBounds, InBounds-bind, InBounds-if}
use zero_trust_public.Ssh.{
  parsed, out_of_bounds, buffer, uint32_of, read_uint32, read_byte, read_string, read_name_list,
  read_lists, packet_end, payload_end, parse_payload, parse_kexinit,
}

uint32_of-InBounds : (s : Bytes) → 4 ≤ length s → InBounds (uint32_of s)
unfolding uint32_of
uint32_of-InBounds [] h = absurd (omega arith)
uint32_of-InBounds (a ∷ []) h = absurd (omega arith)
uint32_of-InBounds (a ∷ b ∷ []) h = absurd (omega arith)
uint32_of-InBounds (a ∷ b ∷ c ∷ []) h = absurd (omega arith)
uint32_of-InBounds (a ∷ b ∷ c ∷ d ∷ s) h = tt

length-buffer : (raw : Bytes) → length (buffer raw) ≡ length raw + 1
length-buffer raw = length-append raw (0 ∷ [])

read_uint32-InBounds :
    (raw : Bytes) (pos : ℕ) → pos + 4 ≤ length raw → InBounds (read_uint32 raw pos)
unfolding read_uint32
read_uint32-InBounds raw pos h =
    uint32_of-InBounds (drop pos (buffer raw))
      (omega (arith, length-drop pos (buffer raw), length-buffer raw))

read_byte-InBounds : (raw : Bytes) (pos : ℕ) → pos ≤ length raw → InBounds (read_byte raw pos)
unfolding read_byte
read_byte-InBounds raw pos h = behind (drop pos (buffer raw)) refl
  where
    behind : (s : Bytes) → drop pos (buffer raw) ≡ s → InBounds (read_byte raw pos)
    behind [] e =
        absurd (omega (arith, length-drop pos (buffer raw), length-buffer raw, ap length e))
    behind (c ∷ s) e = rw e tt

read_string-InBounds :
    (raw : Bytes) (pos len : ℕ) → pos + len ≤ length raw → InBounds (read_string raw pos len)
unfolding read_string
read_string-InBounds raw pos len h =
    InBounds-if (leb (pos + len) (length (buffer raw))) _ _ (λ e. tt)
      (λ e. absurd (ground (arith, length-buffer raw)))

read_name_list-InBounds :
    (raw : Bytes) (pos end : ℕ) → end ≤ length raw → InBounds (read_name_list raw pos end)
unfolding read_name_list
read_name_list-InBounds raw pos end h =
    InBounds-if (ltb end (pos + 4)) _ _ (λ e. tt)
      (λ e.
        InBounds-bind (read_uint32 raw pos) _ (read_uint32-InBounds raw pos (ground arith)) λ n q.
          InBounds-if (ltb end (pos + 4 + n)) _ _ (λ k. tt)
            (λ k.
              InBounds-bind (read_string raw (pos + 4) n) _
                (read_string-InBounds raw (pos + 4) n (ground arith)) λ s r. tt))

read_lists-InBounds :
    (raw : Bytes) (end pos : ℕ) → end ≤ length raw → InBounds (read_lists raw end pos)
unfolding read_lists
read_lists-InBounds raw end pos h =
    InBounds-bind (read_name_list raw pos end) _ (read_name_list-InBounds raw pos end h)
      λ (l1, p1) e1.
        InBounds-bind (read_name_list raw p1 end) _ (read_name_list-InBounds raw p1 end h)
          λ (l2, p2) e2.
            InBounds-bind (read_name_list raw p2 end) _ (read_name_list-InBounds raw p2 end h)
              λ (l3, p3) e3.
                InBounds-bind (read_name_list raw p3 end) _ (read_name_list-InBounds raw p3 end h)
                  λ (l4, p4) e4.
                    InBounds-bind (read_name_list raw p4 end) _
                      (read_name_list-InBounds raw p4 end h)
                      λ (l5, p5) e5.
                        InBounds-bind (read_name_list raw p5 end) _
                          (read_name_list-InBounds raw p5 end h) λ (l6, p6) e6. tt

-- The padding fits into the packet, and the end of the packet fits into 32 bits.
abbrev IsWellPadded : Bytes → Type 0
IsWellPadded raw =
    (packet_length pad_len : ℕ)
    → read_uint32 raw 0 ≡ parsed packet_length
    → read_byte raw 4 ≡ parsed pad_len
    → (4 + packet_length < 2 ^ 32) × (pad_len ≤ 4 + packet_length)

parse_payload-InBounds :
    (raw : Bytes) (n pad : ℕ)
    → 6 ≤ length raw
    → 4 + n < 2 ^ 32
    → pad ≤ 4 + n
    → InBounds (parse_payload raw n pad)
unfolding parse_payload
parse_payload-InBounds raw n pad l h k =
    InBounds-if (ltb (length raw) (packet_end n)) _ _ (λ e. tt)
      (λ e.
        InBounds-if (leb (payload_end n pad) 5) _ _ (λ e'. tt)
          (λ e'. InBounds-bind (read_byte raw 5) _ (read_byte-InBounds raw 5 (omega arith)) λ m q.
            InBounds-if (m == 20) _ _
              (λ r.
                read_lists-InBounds raw (payload_end n pad) 22
                  (fits (ltb (length raw) (packet_end n)) refl e))
              (λ r. tt)))
  where
    fits :
        (b : Bool)
        → ltb (length raw) (packet_end n) ≡ b
        → b ≡ false
        → payload_end n pad ≤ length raw
    fits b q e = let long : packet_end n ≤ length raw = ground arith in omega arith

-- A packet whose padding fits into it, and whose length with the four bytes in front fits into 32
-- bits, is never read outside its bounds, whatever lengths its name lists claim.
pub parse_kexinit-InBounds : (raw : Bytes) → IsWellPadded raw → InBounds (parse_kexinit raw)
unfolding parse_kexinit
parse_kexinit-InBounds raw h =
    InBounds-if (ltb (length raw) 6) _ _ (λ e. tt)
      (λ e.
        let long : 6 ≤ length raw = ground arith in
        InBounds-bind (read_uint32 raw 0) _ (read_uint32-InBounds raw 0 (omega arith)) λ n q.
          InBounds-bind (read_byte raw 4) _ (read_byte-InBounds raw 4 (omega arith))
            λ pad r. let fine = h n pad q r in parse_payload-InBounds raw n pad long fine.0 fine.1)

uint32_of_short : (s : Bytes) → length s < 4 → uint32_of s ≡ out_of_bounds
unfolding uint32_of
uint32_of_short [] h = refl
uint32_of_short (a ∷ []) h = refl
uint32_of_short (a ∷ b ∷ []) h = refl
uint32_of_short (a ∷ b ∷ c ∷ []) h = refl
uint32_of_short (a ∷ b ∷ c ∷ d ∷ s) h = absurd (omega arith)

read_lists_over :
    (raw : Bytes) (end pos : ℕ)
    → pos + 4 ≤ end
    → length raw + 1 < pos + 4
    → read_lists raw end pos ≡ out_of_bounds
unfolding read_lists read_name_list read_uint32
read_lists_over raw end pos h k =
    let inside : ltb end (pos + 4) ≡ false = ground arith in
    let short =
      uint32_of_short (drop pos (buffer raw))
        (omega (arith, length-drop pos (buffer raw), length-buffer raw)) in
    rw (inside, short) refl

-- A packet of length 1 with a padding length from 6 to 255, whose next byte is 20 and which has fewer
-- than 19 bytes behind that, is read outside its bounds: the end of its payload is below 0 and wraps
-- around to almost 2 ^ 32.
pub parse_kexinit_overread :
    (pad : ℕ) (rest : Bytes)
    → 6 ≤ pad
    → pad < 256
    → length rest < 19
    → parse_kexinit (0 ∷ 0 ∷ 0 ∷ 1 ∷ pad ∷ 20 ∷ rest) ≡ out_of_bounds
unfolding parse_kexinit parse_payload read_uint32 read_byte uint32_of
parse_kexinit_overread pad rest h k l =
    let raw : Bytes = 0 ∷ 0 ∷ 0 ∷ 1 ∷ pad ∷ 20 ∷ rest in
    let long : ltb (length raw) 6 ≡ false = ground arith in
    let whole : ltb (length raw) (packet_end 1) ≡ false = ground arith in
    let wrapped : payload_end 1 pad ≡ 2 ^ 32 + 5 - pad = omega arith in
    let started : leb (payload_end 1 pad) 5 ≡ false = ground arith in
    let over = read_lists_over raw (payload_end 1 pad) 22 (omega arith) (omega arith) in
    rw (long, whole, started, over) refl
