-- ===== src/Dns/Answers.antt =====
-- What src/protocols/dns/resolver.cpp finds in an answer that is written as RFC 1035 says.
use zero_trust_public.Base.{
  ℕ, suc, ◌+◌, ◌≤◌, ◌<◌, ◌≡◌, refl, sym, ap, ◌∙◌, true, false, ◌&&◌, List, [], ◌∷◌, ◌++◌, Bytes,
  is_empty, if◌then◌else◌, Option, none, some, ltb, leb, ◌==◌, length, length-append, length-drop,
  drop-append, take-append, drop_add, drop, take, All, arith, Bool-cases, inl, inr, ◌⊎◌,
}
use zero_trust_public.Reads.{Parsed, parsed, rejected}
use zero_trust_public.Dns.{
  network16, encode_labels, skip_round, skip_after, skip_loop, skip_name, word_of, read16,
  read_address, answers_loop, resolve,
}
use zero_trust_public.Dns.Laws.{IsLabel, skip_name-encode_labels}

-- A name: labels to the end, or a pointer to another place.
abbrev IsName : Bytes → Type 0
IsName name =
    ((labels : List Bytes) × All IsLabel labels × (name ≡ encode_labels labels))
    ⊎ ((a : ℕ) × (b : ℕ) × (192 ≤ a) × (name ≡ a ∷ b ∷ []))

-- A record of the answer; `middle` is its class and time to live.
pub record Answer : Type 0 where
  pub name : Bytes
  pub type : ℕ
  pub middle : Bytes
  pub contents : Bytes

abbrev IsAnswer : Answer → Type 0
IsAnswer a = IsName a.name × (a.type < 65536) × (length a.middle ≡ 6) × (length a.contents < 65536)

-- Records one behind the other, and what follows them.
unfoldable pub encode_answers : List Answer → Bytes → Bytes
encode_answers [] rest = rest
encode_answers (a ∷ answers) rest =
    a.name
    ++ (network16 a.type
        ++ (a.middle
            ++ (network16 (length a.contents) ++ (a.contents ++ encode_answers answers rest))))

-- The first record of type 1 with four bytes.
unfoldable pub first_address : List Answer → Option Bytes
first_address [] = none
first_address (a ∷ answers) =
    let later = first_address answers in
    if a.type == 1 && length a.contents == 4 then some a.contents else later

abbrev pub found : (Bytes → Bytes) → Option Bytes → Parsed Bytes
found inet_ntop none = rejected
found inet_ntop (some address) = parsed (inet_ntop address)

skip_name-IsName :
    (name s rest : Bytes) (offset : ℕ)
    → IsName name
    → drop offset s ≡ name ++ rest
    → skip_name s offset ≡ offset + length name
unfolding skip_name skip_loop skip_after skip_round
skip_name-IsName name s rest offset (inl (labels, h, q)) e =
    rw q (skip_name-encode_labels labels s rest offset h (e ∙ ap (λ n. n ++ rest) q))
skip_name-IsName name s rest offset (inr (a, b, h, q)) e =
    let pointer : leb 192 a ≡ true = ground arith in
    let here : drop offset s ≡ a ∷ b ∷ rest = e ∙ ap (λ n. n ++ rest) q in
    rw (q, skip_name, here, pointer) refl

word_of-network16 : (n : ℕ) (rest : Bytes) → n < 65536 → word_of (network16 n ++ rest) ≡ parsed n
unfolding word_of network16
word_of-network16 n rest h = ap parsed (omega arith)

is_empty-long : (s : Bytes) → 12 ≤ length s → is_empty s ≡ false
unfolding is_empty
is_empty-long [] h = absurd (omega arith)
is_empty-long (x ∷ s) h = refl

-- Behind a text of a known length.
drop-append_at : (n : ℕ) (a b : Bytes) → length a ≡ n → drop n (a ++ b) ≡ b
drop-append_at n a b h = ap (λ k. drop k (a ++ b)) (sym h) ∙ drop-append a b

drop-next : (offset : ℕ) (s a b : Bytes) → drop offset s ≡ a ++ b → drop (offset + length a) s ≡ b
drop-next offset s a b e = drop_add offset (length a) s ∙ ap (drop (length a)) e ∙ drop-append a b

-- Behind a number of two bytes and a text.
drop-word :
    (offset n k : ℕ) (s a b : Bytes)
    → length a ≡ k
    → drop offset s ≡ network16 n ++ (a ++ b)
    → drop (offset + (2 + k)) s ≡ b
unfolding network16
drop-word offset n k s a b h e =
    let two : 2 + k ≡ suc (suc k) = omega arith in
    drop_add offset (2 + k) s
    ∙ ap (drop (2 + k)) e
    ∙ ap (λ m. drop m (network16 n ++ (a ++ b))) two
    ∙ drop-append_at k a b h

-- Behind a number alone.
drop-number :
    (offset n : ℕ) (s b : Bytes) → drop offset s ≡ network16 n ++ b → drop (offset + 2) s ≡ b
unfolding network16
drop-number offset n s b e = drop_add offset 2 s ∙ ap (drop 2) e

room_for :
    (offset n : ℕ) (s a b : Bytes)
    → drop offset s ≡ network16 n ++ (a ++ b)
    → offset + 2 + length a ≤ length s
unfolding network16
room_for offset n s a b e = omega (arith, length-drop offset s, ap length e, length-append a b)

module _ (inet_ntop : Bytes → Bytes) where
  -- The loop stands at a record: it gives the address that is there, or goes on behind the record.
  answers_loop_step :
      (a : Answer) (answers : List Answer) (s rest : Bytes) (offset : ℕ)
      → IsAnswer a
      → drop offset s ≡ encode_answers (a ∷ answers) rest
      → ((next : ℕ)
          → drop next s ≡ encode_answers answers rest
          → answers_loop inet_ntop (length answers) s next
            ≡ found inet_ntop (first_address answers))
      → answers_loop inet_ntop (length (a ∷ answers)) s offset
        ≡ found inet_ntop (first_address (a ∷ answers))
  unfolding answers_loop encode_answers first_address read16 read_address
  answers_loop_step a answers s rest offset (name, type, middle, size) e more =
      let start = offset + length a.name in
      let behind = encode_answers answers rest in
      let size_part = network16 (length a.contents) ++ (a.contents ++ behind) in
      let type_part = network16 a.type ++ (a.middle ++ size_part) in
      let skipped : skip_name s offset ≡ start =
        skip_name-IsName a.name s type_part offset name e in
      let at_type : drop start s ≡ type_part = drop-next offset s a.name type_part e in
      let at_size : drop (start + 8) s ≡ size_part =
        drop-word start a.type 6 s a.middle size_part middle at_type in
      let at_data : drop (start + 10) s ≡ a.contents ++ behind =
        let ten : start + 10 ≡ start + 8 + 2 = omega arith in
        ap (λ k. drop k s) ten
        ∙ drop-number (start + 8) (length a.contents) s (a.contents ++ behind) at_size in
      let next =
        more (start + 10 + length a.contents)
          (drop-next (start + 10) s a.contents behind at_data) in
      let type_read : word_of (drop start s) ≡ parsed a.type =
        ap word_of at_type ∙ word_of-network16 a.type (a.middle ++ size_part) type in
      let size_read : word_of (drop (start + 8) s) ≡ parsed (length a.contents) =
        ap word_of at_size ∙ word_of-network16 (length a.contents) (a.contents ++ behind) size in
      let room : start + 10 + length a.contents ≤ length s =
        omega (arith, room_for (start + 8) (length a.contents) s a.contents behind at_size) in
      let whole : ltb (length s) (start + 10) ≡ false = ground arith in
      elim (Bool-cases (a.type == 1 && length a.contents == 4)) [
        | inl q ↦
            let four : length a.contents ≡ 4 = ground arith in
            let inside : leb (start + 10 + 4) (length s) ≡ true = ground arith in
            let bytes : take 4 (drop (start + 10) s) ≡ a.contents =
              ap (λ k. take k (drop (start + 10) s)) (sym four)
              ∙ ap (take (length a.contents)) at_data
              ∙ take-append a.contents behind in
            rw (skipped, whole, type_read, size_read, q, inside, bytes) refl
        | inr q ↦ rw (skipped, whole, type_read, size_read, q) next
      ]

  answers_loop-first_address :
      (answers : List Answer) (s rest : Bytes) (offset : ℕ)
      → All IsAnswer answers
      → drop offset s ≡ encode_answers answers rest
      → answers_loop inet_ntop (length answers) s offset ≡ found inet_ntop (first_address answers)
  unfolding answers_loop first_address
  answers_loop-first_address [] s rest offset h e = refl
  answers_loop-first_address (a ∷ answers) s rest offset h e =
      answers_loop_step a answers s rest offset h.0 e
        (λ next q. answers_loop-first_address answers s rest next h.1 q)

  resolve-counted :
      (n : ℕ) (s : Bytes)
      → 12 ≤ length s
      → read16 s 6 ≡ parsed n
      → resolve inet_ntop s
        ≡ (if n == 0 then rejected else answers_loop inet_ntop n s (skip_name s 12 + 4))
  unfolding resolve
  resolve-counted n s long count =
      let short : ltb (length s) 12 ≡ false = ground arith in
      rw (is_empty-long s long, short, count) refl

  answers-first_address :
      (l : List Answer) (s rest : Bytes) (offset : ℕ)
      → All IsAnswer l
      → drop offset s ≡ encode_answers l rest
      → (if length l == 0 then rejected else answers_loop inet_ntop (length l) s offset)
        ≡ found inet_ntop (first_address l)
  unfolding first_address
  answers-first_address [] s rest offset k e = refl
  answers-first_address (a ∷ l) s rest offset k e =
      let some_answer : length (a ∷ l) == 0 ≡ false = ground arith in
      rw some_answer (answers_loop-first_address (a ∷ l) s rest offset k e)

  -- An answer of a name server: a header whose count is that of the records, one question, the records,
  -- and what follows them, with a count, types and lengths below 65,536. `resolve` gives the text of the
  -- first record that is the address of a host of four bytes, wherever it stands among records of other
  -- types and lengths, and is rejected where there is none. A name is a list of labels of 1 to 191 bytes
  -- up to its end, or a pointer.
  pub resolve-first_address :
      (front back question class rest : Bytes) (answers : List Answer)
      → length front ≡ 6
      → length back ≡ 4
      → IsName question
      → length class ≡ 4
      → All IsAnswer answers
      → length answers < 65536
      → resolve inet_ntop (
          front
          ++ (network16 (length answers)
              ++ (back ++ (question ++ (class ++ encode_answers answers rest)))))
        ≡ found inet_ntop (first_address answers)
  unfolding read16
  resolve-first_address front back question class rest answers f b name c h few =
      let records = encode_answers answers rest in
      let asked = question ++ (class ++ records) in
      let counted = network16 (length answers) ++ (back ++ asked) in
      let s = front ++ counted in
      let at_count : drop 6 s ≡ counted = drop-append_at 6 front counted f in
      let count : word_of (drop 6 s) ≡ parsed (length answers) =
        ap word_of at_count ∙ word_of-network16 (length answers) (back ++ asked) few in
      let at_question : drop 12 s ≡ asked =
        drop-word 6 (length answers) 4 s back asked b at_count in
      let skipped : skip_name s 12 ≡ 12 + length question =
        skip_name-IsName question s (class ++ records) 12 name at_question in
      let at_class : drop (12 + length question) s ≡ class ++ records =
        drop-next 12 s question (class ++ records) at_question in
      let at_records : drop (12 + length question + 4) s ≡ records =
        drop_add (12 + length question) 4 s
        ∙ ap (drop 4) at_class
        ∙ drop-append_at 4 class records c in
      let long : 12 ≤ length s = omega (arith, room_for 6 (length answers) s back asked at_count) in
      resolve-counted (length answers) s long count
      ∙ answers-first_address answers s rest (skip_name s 12 + 4) h
          (ap (λ k. drop (k + 4) s) skipped ∙ at_records)
