-- ===== src/Dns.antt =====
-- src/protocols/dns/resolver.cpp: the query for the address of a host, and the walk over the answer.
-- Sending and receiving are the caller's: the answer is an argument, and so is inet_ntop. A read
-- behind the answer's last byte is `out_of_bounds`.
pub mod Laws
pub mod Answers
use zero_trust_public.Base.{
  ℕ, zero, suc, ◌+◌, ◌*◌, ◌/◌, ◌%◌, ◌^◌, Bool, true, false, ◌&&◌, List, [], ◌∷◌, ◌++◌, Bytes,
  is_empty, split_by, if◌then◌else◌, Option, none, some, ltb, leb, ◌==◌, length, drop, take,
}
use zero_trust_public.Reads.{Parsed, parsed, rejected, out_of_bounds, ◌>>=◌}

-- The bytes of a 16-bit number in network order, as `htons` leaves them in memory.
unfoldable pub network16 : ℕ → Bytes
network16 n = n / 256 % 256 ∷ n % 256 ∷ []

-- One round of `encode_hostname`; the length is cut to 8 bits.
unfoldable pub encode_label : Bytes → Bytes
encode_label label = length label % 256 ∷ label

unfoldable pub encode_labels : List Bytes → Bytes
encode_labels [] = 0 ∷ []
encode_labels (l ∷ labels) = encode_label l ++ encode_labels labels

-- The labels are what stands between the dots; a dot at the end opens no label.
unfoldable pub encode_hostname : Bytes → Bytes
encode_hostname hostname = encode_labels (split_by b'.' hostname)

-- The header: the flags ask for recursion, and there is one question.
unfoldable query_header : ℕ → Bytes
query_header query_id =
    network16 query_id
    ++ (network16 0x0100 ++ (network16 1 ++ (network16 0 ++ (network16 0 ++ network16 0))))

unfoldable build_query : Bytes → ℕ → Bytes
build_query hostname query_id =
    query_header query_id ++ (encode_hostname hostname ++ (network16 1 ++ network16 1))

-- One round of `skip_name` on what is left of the data: where it returns, or the length of a label.
pub data Skip : Type 0 where
  returns : ℕ → Skip
  moves : ℕ → Skip

-- A byte whose two high bits are set, that is, from 192 on, begins a pointer of two bytes.
unfoldable pub skip_round : Bytes → Skip
skip_round [] = returns 0
skip_round (len ∷ _) = if leb 192 len then returns 2 else if len == 0 then returns 1 else moves len

-- none: the fuel ran out.
unfoldable pub skip_after : (ℕ → Option ℕ) → ℕ → Skip → Option ℕ
skip_after more offset (returns n) = some (offset + n)
skip_after more offset (moves len) = more (offset + (1 + len))

unfoldable pub skip_loop : ℕ → Bytes → ℕ → Option ℕ
unfolding skip_after
skip_loop zero rest offset = none
skip_loop (suc f) data_bytes offset =
    skip_after (skip_loop f data_bytes) offset (skip_round (drop offset data_bytes))

-- Each round moves on by a byte or more, so this fuel is enough (Dns/Laws).
unfoldable pub skip_name : Bytes → ℕ → ℕ
skip_name data_bytes offset = elim (skip_loop (suc (length data_bytes)) data_bytes offset) [
  | none ↦ offset
  | some o ↦ o
]

unfoldable pub word_of : Bytes → Parsed ℕ
word_of (a ∷ b ∷ _) = parsed (a * 256 + b)
word_of _ = out_of_bounds

-- `memcpy` of two bytes, and `ntohs`.
unfoldable pub read16 : Bytes → ℕ → Parsed ℕ
unfolding word_of
read16 data_bytes pos = word_of (drop pos data_bytes)

-- `memcpy` of the four bytes of an address.
unfoldable pub read_address : Bytes → ℕ → Parsed Bytes
read_address data_bytes pos =
    if leb (pos + 4) (length data_bytes)
    then parsed (take 4 (drop pos data_bytes))
    else out_of_bounds

module _ (inet_ntop : Bytes → Bytes) where
  -- The loop over the answers.
  unfoldable pub answers_loop : ℕ → Bytes → ℕ → Parsed Bytes
  answers_loop zero data_bytes offset = rejected
  answers_loop (suc n) data_bytes offset =
      let start = skip_name data_bytes offset in
      let record_data = start + 10 in
      let answer = read16 data_bytes start >>= λ type. read16 data_bytes (start + 8) >>= λ rdlength.
      let later = answers_loop n data_bytes (record_data + rdlength) in
      if type == 1 && rdlength == 4
      then (read_address data_bytes record_data >>= λ addr. parsed (inet_ntop addr))
      else later in
      if ltb (length data_bytes) (start + 10) then rejected else answer

  -- `resolve` on the answer that was received, which is empty if none was.
  unfoldable pub resolve : Bytes → Parsed Bytes
  resolve response =
      let walked = read16 response 6 >>= λ ancount.
      if ancount == 0
      then rejected
      else answers_loop ancount response (skip_name response 12 + 4) in
      if is_empty response then rejected else if ltb (length response) 12 then rejected else walked
