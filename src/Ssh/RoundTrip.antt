-- ===== src/Ssh/RoundTrip.antt =====
-- What the scanner writes, it reads back; and the length of what it writes.
use zero_trust_public.Base.{
  ℕ, zero, suc, ◌+◌, ◌-◌, ◌%◌, ◌^◌, ◌≤◌, ◌<◌, ◌≡◌, refl, sym, ap, ◌∙◌, true, false, [], ◌∷◌, ◌++◌,
  append-nil, append_assoc, Bytes, ltb, leb, length, length-append, length-drop, drop-append,
  take-append, drop_add, drop, take, arith,
}
use zero_trust_public.Ssh.{
  parsed, KexInit, encode_uint32, name_list, zeros, padding_of, frame_ssh_packet, buffer, uint32_of,
  read_uint32, read_byte, read_string, names_of, read_name_list, read_lists, packet_end,
  payload_end, parse_payload, parse_kexinit,
}

pub uint32_of-encode_uint32 :
    (n : ℕ) (s : Bytes) → n < 2 ^ 32 → uint32_of (encode_uint32 n ++ s) ≡ parsed n
unfolding uint32_of encode_uint32
uint32_of-encode_uint32 n s h = ap parsed (omega arith)

-- The memory from the position on is a list of names and the rest.
abbrev StandsAt : Bytes → Bytes → ℕ → Bytes → Type 0
StandsAt raw l pos rest = drop pos (buffer raw) ≡ name_list l ++ rest

length-name_list : (l : Bytes) → length (name_list l) ≡ 4 + length l
unfolding name_list encode_uint32
length-name_list l = omega arith

StandsAt-names :
    (raw l rest : Bytes) (pos : ℕ)
    → StandsAt raw l pos rest
    → drop (pos + 4) (buffer raw) ≡ l ++ rest
unfolding name_list encode_uint32
StandsAt-names raw l rest pos h = drop_add pos 4 (buffer raw) ∙ ap (drop 4) h

StandsAt-rest :
    (raw l rest : Bytes) (pos : ℕ)
    → StandsAt raw l pos rest
    → drop (pos + 4 + length l) (buffer raw) ≡ rest
StandsAt-rest raw l rest pos h =
    drop_add (pos + 4) (length l) (buffer raw)
    ∙ ap (drop (length l)) (StandsAt-names raw l rest pos h)
    ∙ drop-append l rest

StandsAt-length :
    (raw l rest : Bytes) (pos : ℕ)
    → StandsAt raw l pos rest
    → pos + 4 + length l ≤ length (buffer raw)
StandsAt-length raw l rest pos h = omega (
  arith,
  length-drop pos (buffer raw),
  ap length h,
  length-append (name_list l) rest,
  length-name_list l,
)

-- A list of names that stands at the position is read, with the position behind it.
read_name_list-name_list :
    (raw l rest : Bytes) (pos end : ℕ)
    → StandsAt raw l pos rest
    → pos + 4 + length l ≤ end
    → length l < 2 ^ 32
    → read_name_list raw pos end ≡ parsed (names_of l, pos + 4 + length l)
unfolding read_name_list read_uint32 read_string name_list
read_name_list-name_list raw l rest pos end h k small =
    let inside : ltb end (pos + 4) ≡ false = ground arith in
    let whole : ltb end (pos + 4 + length l) ≡ false = ground arith in
    let number : read_uint32 raw pos ≡ parsed (length l) =
      ap uint32_of h
      ∙ uint32_of-encode_uint32 (length l % 2 ^ 32) (l ++ rest) (omega arith)
      ∙ ap parsed (omega arith) in
    let room : leb (pos + 4 + length l) (length (buffer raw)) ≡ true =
      ground (arith, StandsAt-length raw l rest pos h) in
    let text : take (length l) (drop (pos + 4) (buffer raw)) ≡ l =
      ap (take (length l)) (StandsAt-names raw l rest pos h) ∙ take-append l rest in
    rw (inside, number, whole, room, text) refl

read_lists_found :
    (raw : Bytes) (end pos : ℕ) (l1 l2 l3 l4 l5 l6 rest : Bytes)
    → StandsAt raw l1 pos (
        name_list l2
        ++ (name_list l3 ++ (name_list l4 ++ (name_list l5 ++ (name_list l6 ++ rest)))))
    → pos + 24 + length l1 + length l2 + length l3 + length l4 + length l5 + length l6 ≤ end
    → end < 2 ^ 32
    → read_lists raw end pos
      ≡ parsed (record {
        kex_algorithms = names_of l1;
        encryption_algorithms_s_to_c = names_of l4;
        mac_algorithms_s_to_c = names_of l6;
      })
unfolding read_lists
read_lists_found raw end pos l1 l2 l3 l4 l5 l6 rest s1 h small =
    let r1 = read_name_list-name_list raw l1 _ pos end s1 (omega arith) (omega arith) in
    let s2 = StandsAt-rest raw l1 _ pos s1 in
    let p2 = pos + 4 + length l1 in
    let r2 = read_name_list-name_list raw l2 _ p2 end s2 (omega arith) (omega arith) in
    let s3 = StandsAt-rest raw l2 _ p2 s2 in
    let p3 = p2 + 4 + length l2 in
    let r3 = read_name_list-name_list raw l3 _ p3 end s3 (omega arith) (omega arith) in
    let s4 = StandsAt-rest raw l3 _ p3 s3 in
    let p4 = p3 + 4 + length l3 in
    let r4 = read_name_list-name_list raw l4 _ p4 end s4 (omega arith) (omega arith) in
    let s5 = StandsAt-rest raw l4 _ p4 s4 in
    let p5 = p4 + 4 + length l4 in
    let r5 = read_name_list-name_list raw l5 _ p5 end s5 (omega arith) (omega arith) in
    let s6 = StandsAt-rest raw l5 _ p5 s5 in
    let p6 = p5 + 4 + length l5 in
    let r6 = read_name_list-name_list raw l6 rest p6 end s6 (omega arith) (omega arith) in
    rw (r1, r2, r3, r4, r5, r6) refl

-- A key exchange message: its number, a cookie, six lists of names, and what follows them.
abbrev pub kexinit_message : Bytes → Bytes → Bytes → Bytes → Bytes → Bytes → Bytes → Bytes → Bytes
kexinit_message cookie l1 l2 l3 l4 l5 l6 rest =
    20
    ∷ (cookie
        ++ (name_list l1
            ++ (name_list l2
                ++ (name_list l3 ++ (name_list l4 ++ (name_list l5 ++ (name_list l6 ++ rest)))))))

length-zeros : (n : ℕ) → length (zeros n) ≡ n
length-zeros zero = refl
length-zeros (suc n) = ap suc (length-zeros n)

padding_of-bounds :
    (n : ℕ) → (4 ≤ padding_of n) × (padding_of n ≤ 11) × ((1 + n + padding_of n) % 8 ≡ 0)
unfolding padding_of
padding_of-bounds n = ground arith

-- A packet that the scanner frames is 4 bytes longer than a multiple of 8: the padding counts the
-- message and its own length, and leaves out the four bytes of the packet length.
pub frame_ssh_packet-length_mod : (payload : Bytes) → length (frame_ssh_packet payload) % 8 ≡ 4
unfolding frame_ssh_packet encode_uint32
frame_ssh_packet-length_mod payload =
    let pad = padding_of (length payload) in
    let bounds = padding_of-bounds (length payload) in
    let total = length-append payload (zeros pad) in let count = length-zeros pad in omega arith

parse_payload_found :
    (raw : Bytes) (n pad : ℕ) {k : KexInit}
    → 4 + n ≤ length raw
    → 4 + n < 2 ^ 32
    → pad < n
    → 2 ≤ n - pad
    → read_byte raw 5 ≡ parsed 20
    → read_lists raw (4 + n - pad) 22 ≡ parsed k
    → parse_payload raw n pad ≡ parsed k
unfolding parse_payload
parse_payload_found raw n pad l h p q t r =
    let e : payload_end n pad ≡ 4 + n - pad = omega arith in
    let whole : ltb (length raw) (packet_end n) ≡ false = ground arith in
    let started : leb (4 + n - pad) 5 ≡ false = ground arith in rw (whole, e, started, t, r) refl

parse_kexinit_found :
    (raw : Bytes) (n pad : ℕ) {k : KexInit}
    → 6 ≤ length raw
    → read_uint32 raw 0 ≡ parsed n
    → read_byte raw 4 ≡ parsed pad
    → parse_payload raw n pad ≡ parsed k
    → parse_kexinit raw ≡ parsed k
unfolding parse_kexinit
parse_kexinit_found raw n pad h a b c =
    let long : ltb (length raw) 6 ≡ false = ground arith in rw (long, a, b, c) refl

-- A packet of RFC 4253: its length, the length of the padding, the message and the padding.
abbrev pub packet_length : Bytes → Bytes → ℕ
packet_length padding payload = 1 + length payload + length padding

abbrev pub ssh_packet : Bytes → Bytes → Bytes
ssh_packet padding payload =
    encode_uint32 (packet_length padding payload % 2 ^ 32)
    ++ (length padding ∷ (payload ++ padding))

pub packet-read_uint32 :
    (padding payload more : Bytes)
    → packet_length padding payload < 2 ^ 32
    → read_uint32 (ssh_packet padding payload ++ more) 0 ≡ parsed (packet_length padding payload)
unfolding read_uint32 encode_uint32
packet-read_uint32 padding payload more h =
    uint32_of-encode_uint32 (packet_length padding payload % 2 ^ 32)
      (((length padding ∷ (payload ++ padding)) ++ more) ++ 0 ∷ []) (omega arith)
    ∙ ap parsed (omega arith)

packet-read_byte :
    (padding t more : Bytes) (m : ℕ)
    → (read_byte (ssh_packet padding (m ∷ t) ++ more) 4 ≡ parsed (length padding))
      × (read_byte (ssh_packet padding (m ∷ t) ++ more) 5 ≡ parsed m)
unfolding read_byte encode_uint32
packet-read_byte padding t more m = (refl, refl)

pub length-ssh_packet :
    (padding payload more : Bytes)
    → length (ssh_packet padding payload ++ more) ≡ 4 + packet_length padding payload + length more
unfolding encode_uint32
length-ssh_packet padding payload more =
    omega (arith, length-append payload padding, length-append (payload ++ padding) more)

-- A packet from the parts of its message, for the proof.
module _ (cookie l1 l2 l3 l4 l5 l6 rest : Bytes) where
  abbrev message : Bytes
  message = kexinit_message cookie l1 l2 l3 l4 l5 l6 rest

  message_length :
      length message
      ≡ 25
        + length cookie
        + length l1
        + length l2
        + length l3
        + length l4
        + length l5
        + length l6
        + length rest
  unfolding name_list encode_uint32
  message_length = simp (length-append) (omega arith)

  abbrev after_number : Bytes
  after_number =
      cookie
      ++ (name_list l1
          ++ (name_list l2
              ++ (name_list l3 ++ (name_list l4 ++ (name_list l5 ++ (name_list l6 ++ rest))))))

  -- What the parser is to find.
  abbrev pub lists_of : KexInit
  lists_of = record {
    kex_algorithms = names_of l1;
    encryption_algorithms_s_to_c = names_of l4;
    mac_algorithms_s_to_c = names_of l6;
  }

  module _ (padding more : Bytes) where
    assoc :
        ((after_number ++ padding) ++ more) ++ 0 ∷ []
        ≡ cookie
          ++ (name_list l1
              ++ (name_list l2
                  ++ (name_list l3
                      ++ (name_list l4
                          ++ (name_list l5
                              ++ (name_list l6 ++ (rest ++ (padding ++ (more ++ 0 ∷ [])))))))))
    assoc = simp append_assoc

    message_stands :
        length cookie ≡ 16
        → StandsAt (ssh_packet padding message ++ more) l1 22 (
            name_list l2
            ++ (name_list l3
                ++ (name_list l4
                    ++ (name_list l5
                        ++ (name_list l6 ++ (rest ++ (padding ++ (more ++ 0 ∷ []))))))))
    unfolding encode_uint32
    message_stands c =
        ap (λ k. drop k (((after_number ++ padding) ++ more) ++ 0 ∷ [])) (sym c)
        ∙ ap (drop (length cookie)) assoc
        ∙ drop-append cookie _

    -- A message of the key exchange in a packet with any padding, and anything behind the packet.
    pub parse_kexinit-ssh_packet :
        length cookie ≡ 16
        → packet_length padding message + 4 < 2 ^ 32
        → parse_kexinit (ssh_packet padding message ++ more) ≡ parsed lists_of
    parse_kexinit-ssh_packet c small =
        let raw = ssh_packet padding message ++ more in
        let n = packet_length padding message in
        let pad = length padding in
        let whole = length-ssh_packet padding message more in
        let bytes = packet-read_byte padding after_number more 20 in
        let lists =
          read_lists_found raw (4 + n - pad) 22 l1 l2 l3 l4 l5 l6 _ (message_stands c)
            (omega (arith, message_length)) (omega arith) in
        parse_kexinit_found raw n pad (omega (arith, whole))
          (packet-read_uint32 padding message more (omega arith)) bytes.0
          (parse_payload_found raw n pad (omega (arith, whole)) (omega arith)
            (omega (arith, message_length)) (omega (arith, message_length)) bytes.1 lists)

  frame_ssh_packet-ssh_packet :
      (payload : Bytes)
      → frame_ssh_packet payload ≡ ssh_packet (zeros (padding_of (length payload))) payload ++ []
  unfolding frame_ssh_packet
  frame_ssh_packet-ssh_packet payload =
      rw (length-zeros (padding_of (length payload))) (sym (append-nil (frame_ssh_packet payload)))

  -- A message of the key exchange that is framed as the scanner does is read back: the names of its
  -- first, fourth and sixth list, if its cookie has 16 bytes and its length fits into 32 bits.
  pub parse_kexinit-frame_ssh_packet :
      length cookie ≡ 16
      → length message + 16 < 2 ^ 32
      → parse_kexinit (frame_ssh_packet (kexinit_message cookie l1 l2 l3 l4 l5 l6 rest))
        ≡ parsed (record {
          kex_algorithms = names_of l1;
          encryption_algorithms_s_to_c = names_of l4;
          mac_algorithms_s_to_c = names_of l6;
        })
  parse_kexinit-frame_ssh_packet c small =
      let pad = padding_of (length message) in
      let bounds = padding_of-bounds (length message) in
      let count = length-zeros pad in
      ap parse_kexinit (frame_ssh_packet-ssh_packet message)
      ∙ parse_kexinit-ssh_packet (zeros pad) [] c (omega arith)
