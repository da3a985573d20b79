-- ===== src/Version/Parse.antt =====
-- Reading a version: the loop ends, and a dotted version is read back whatever stands round it.
use zero_trust_public.Base.{
  ℕ, zero, suc, ◌+◌, ◌/◌, ◌%◌, ◌≤◌, ◌<◌, ◌≡◌, refl, ap, ◌∙◌, true, false, List, [], ◌∷◌, ◌++◌,
  Bytes, is_empty, is_digit, is_empty_pos, ltb, ◌==◌, length, length-append, arith, Bool-cases, inl,
  inr, Option, none, some, to_string, decimal_onto, All, append_assoc,
}
use zero_trust_public.Version.{
  span_digits, skip_to_digit, decimal_value, int_max, stoi, parse_loop, after_number, push_number,
  parse,
}

length-span_digits : (s : Bytes) → length (span_digits s).0 + length (span_digits s).1 ≡ length s
unfolding span_digits
length-span_digits [] = omega arith
length-span_digits (c ∷ cs) = ground (arith, length-span_digits cs)

length-skip_to_digit : (s : Bytes) → length (skip_to_digit s) ≤ length s
unfolding skip_to_digit
length-skip_to_digit [] = omega arith
length-skip_to_digit (c ∷ cs) = ground (arith, length-skip_to_digit cs)

abbrev Returns : Option (List ℕ) → Type 0
Returns o = (ns : List ℕ) × (o ≡ some ns)

after_number-Returns :
    (more : Bytes → Option (List ℕ)) (acc : List ℕ) (s : Bytes)
    → ((t : Bytes) → length t < length s → Returns (more t))
    → Returns (after_number more acc s)
unfolding after_number
after_number-Returns more acc [] h = (acc, refl)
after_number-Returns more acc (c ∷ cs) h = elim (Bool-cases (c == b'.')) [
  | inl e ↦ rw e (h cs (omega arith))
  | inr e ↦ (acc, rw e)
]

push_number-Returns :
    (more : List ℕ → Bytes → Option (List ℕ)) (acc : List ℕ) (o : Option ℕ) (s : Bytes)
    → ((ns : List ℕ) (t : Bytes) → length t < length s → Returns (more ns t))
    → Returns (push_number more acc o s)
unfolding push_number
push_number-Returns more acc none s h = ([], refl)
push_number-Returns more acc (some n) s h =
    after_number-Returns (more (acc ++ n ∷ [])) (acc ++ n ∷ []) s (h (acc ++ n ∷ []))

parse_loop-Returns :
    (f : ℕ) (acc : List ℕ) (s : Bytes) → length s < f → Returns (parse_loop f acc s)
unfolding parse_loop
parse_loop-Returns zero acc s h = absurd (omega arith)
parse_loop-Returns (suc f) acc s h = elim (Bool-cases (is_empty (span_digits s).0)) [
  | inl e ↦ (acc, rw e)
  | inr e ↦ rw e (
      push_number-Returns (parse_loop f) acc (stoi (span_digits s).0) (span_digits s).1 (λ ns t k.
        parse_loop-Returns f ns t
          (omega (arith, length-span_digits s, is_empty_pos (span_digits s).0 e))))
]

Returns-some : (o : Option (List ℕ)) → Returns o → o ≡ some (elim o [ none ↦ [] | some ns ↦ ns ])
Returns-some none (ns, e) = cc
Returns-some (some ns) r = refl

-- The loop of `parse` ends within its fuel on every text, and its result are the components.
parse_total :
    (raw : Bytes)
    → parse_loop (suc (length raw)) [] (skip_to_digit raw) ≡ some (parse raw).components
unfolding parse
parse_total raw = Returns-some _ (
    parse_loop-Returns (suc (length raw)) [] (skip_to_digit raw)
      (omega (arith, length-skip_to_digit raw)))

abbrev IsDigit : ℕ → Type 0
IsDigit c = is_digit c ≡ true

abbrev IsNoDigit : ℕ → Type 0
IsNoDigit c = is_digit c ≡ false

decimal_onto-IsDigit :
    (f n : ℕ) (out : Bytes) → All IsDigit out → All IsDigit (decimal_onto f n out)
unfolding decimal_onto is_digit
decimal_onto-IsDigit zero n out h = h
decimal_onto-IsDigit (suc f) n out h = elim (Bool-cases (ltb n 10)) [
  | inl e ↦ rw e (ground arith, h)
  | inr e ↦ rw e (decimal_onto-IsDigit f (n / 10) _ (ground arith, h))
]

decimal_value-decimal_onto :
    (f n : ℕ) (out : Bytes) → n < f → decimal_value 0 (decimal_onto f n out) ≡ decimal_value n out
unfolding decimal_value decimal_onto
decimal_value-decimal_onto zero n out h = absurd (omega arith)
decimal_value-decimal_onto (suc f) n out h = elim (Bool-cases (ltb n 10)) [
  | inl e ↦ rw e (ap (λ k. decimal_value k out) (omega arith))
  | inr e ↦ rw e (
      decimal_value-decimal_onto f (n / 10) _ (ground arith)
      ∙ ap (λ k. decimal_value k out) (omega arith))
]

-- `std::to_string` gives digits that `std::stoi` reads back.
stoi-to_string : (n : ℕ) → n ≤ int_max → stoi (to_string n) ≡ some n
unfolding stoi to_string
stoi-to_string n h =
    rw (decimal_value-decimal_onto (n + 1) n [] (omega arith))
      (unfold decimal_value in ground arith)

to_string-IsDigit : (n : ℕ) → All IsDigit (to_string n)
unfolding to_string
to_string-IsDigit n = decimal_onto-IsDigit (n + 1) n [] tt

decimal_onto-is_empty : (f n c : ℕ) (out : Bytes) → is_empty (decimal_onto f n (c ∷ out)) ≡ false
unfolding decimal_onto is_empty
decimal_onto-is_empty zero n c out = refl
decimal_onto-is_empty (suc f) n c out =
    ground (arith, decimal_onto-is_empty f (n / 10) (b'0' + n % 10) (c ∷ out))

to_string-is_empty : (n : ℕ) → is_empty (to_string n) ≡ false
unfolding to_string decimal_onto is_empty
to_string-is_empty n =
    rw (let e : n + 1 ≡ suc n = omega arith in e)
      (ground (arith, decimal_onto-is_empty n (n / 10) (b'0' + n % 10) []))

-- No digit stands at the front.
abbrev StopsDigits : Bytes → Type 0
StopsDigits [] = Unit
StopsDigits (c ∷ _) = IsNoDigit c

span_digits-append :
    (ds rest : Bytes) → All IsDigit ds → StopsDigits rest → span_digits (ds ++ rest) ≡ (ds, rest)
unfolding span_digits
span_digits-append [] [] h k = refl
span_digits-append [] (c ∷ rest) h k = rw k
span_digits-append (d ∷ ds) rest h k = rw (h.0, span_digits-append ds rest h.1 k)

-- A version as it is written: numbers with dots between them.
pub dotted : ℕ → List ℕ → Bytes
dotted n [] = to_string n
dotted n (m ∷ ns) = to_string n ++ (b'.' ∷ dotted m ns)

-- What may follow a version: a byte that continues neither its last number nor the row of numbers.
abbrev EndsVersion : Bytes → Type 0
EndsVersion [] = Unit
EndsVersion (c ∷ _) = (is_digit c ≡ false) × ((c == b'.') ≡ false)

EndsVersion-StopsDigits : (rest : Bytes) → EndsVersion rest → StopsDigits rest
EndsVersion-StopsDigits [] h = tt
EndsVersion-StopsDigits (c ∷ rest) h = h.0

after_number_end :
    (more : Bytes → Option (List ℕ)) (acc : List ℕ) (rest : Bytes)
    → EndsVersion rest
    → after_number more acc rest ≡ some acc
unfolding after_number
after_number_end more acc [] h = refl
after_number_end more acc (c ∷ rest) h = rw h.1

after_number_dot :
    (more : Bytes → Option (List ℕ)) (acc : List ℕ) (cs : Bytes)
    → after_number more acc (b'.' ∷ cs) ≡ more cs
unfolding after_number
after_number_dot more acc cs = refl

-- One round of the loop on a number that has been split off.
parse_loop_round :
    (f n : ℕ) (acc : List ℕ) (rest : Bytes)
    → n ≤ int_max
    → StopsDigits rest
    → parse_loop (suc f) acc (to_string n ++ rest)
      ≡ after_number (parse_loop f (acc ++ n ∷ [])) (acc ++ n ∷ []) rest
unfolding parse_loop push_number
parse_loop_round f n acc rest h k =
    rw (span_digits-append (to_string n) rest (to_string-IsDigit n) k)
      (rw (to_string-is_empty n, stoi-to_string n h))

parse_loop-dotted :
    (f n : ℕ) (ns acc : List ℕ) (rest : Bytes)
    → length ns < f
    → n ≤ int_max
    → All (λ m. m ≤ int_max) ns
    → EndsVersion rest
    → parse_loop f acc (dotted n ns ++ rest) ≡ some (acc ++ n ∷ ns)
unfolding dotted
parse_loop-dotted zero n ns acc rest k h hs e = absurd (omega arith)
parse_loop-dotted (suc f) n [] acc rest k h hs e =
    parse_loop_round f n acc rest h (EndsVersion-StopsDigits rest e) ∙ after_number_end _ _ rest e
parse_loop-dotted (suc f) n (m ∷ ns) acc rest k h hs e =
    rw (append_assoc (to_string n) (b'.' ∷ dotted m ns) rest) (
      parse_loop_round f n acc (b'.' ∷ (dotted m ns ++ rest)) h (unfold is_digit in refl)
      ∙ after_number_dot (parse_loop f (acc ++ n ∷ [])) (acc ++ n ∷ []) (dotted m ns ++ rest)
      ∙ parse_loop-dotted f m ns (acc ++ n ∷ []) rest (omega arith) hs.0 hs.1 e
      ∙ ap some (append_assoc acc (n ∷ []) (m ∷ ns)))

skip_to_digit-append : (p s : Bytes) → All IsNoDigit p → skip_to_digit (p ++ s) ≡ skip_to_digit s
unfolding skip_to_digit
skip_to_digit-append [] s h = refl
skip_to_digit-append (c ∷ p) s h = rw h.0 (skip_to_digit-append p s h.1)

skip_to_digit_stays :
    (ds s : Bytes) → All IsDigit ds → is_empty ds ≡ false → skip_to_digit (ds ++ s) ≡ ds ++ s
unfolding skip_to_digit is_empty
skip_to_digit_stays [] s h k = cc
skip_to_digit_stays (d ∷ ds) s h k = rw h.0

skip_to_digit-dotted :
    (n : ℕ) (ns : List ℕ) (rest : Bytes) → skip_to_digit (dotted n ns ++ rest) ≡ dotted n ns ++ rest
unfolding dotted
skip_to_digit-dotted n [] rest =
    skip_to_digit_stays (to_string n) rest (to_string-IsDigit n) (to_string-is_empty n)
skip_to_digit-dotted n (m ∷ ns) rest =
    rw (append_assoc (to_string n) (b'.' ∷ dotted m ns) rest)
      (skip_to_digit_stays (to_string n) _ (to_string-IsDigit n) (to_string-is_empty n))

length-le-dotted : (n : ℕ) (ns : List ℕ) → length ns ≤ length (dotted n ns)
unfolding dotted
length-le-dotted n [] = omega arith
length-le-dotted n (m ∷ ns) =
    omega (arith, length-append (to_string n) (b'.' ∷ dotted m ns), length-le-dotted m ns)

-- A dotted version is read back number by number, whatever text without digits stands before it
-- (a product name) and whatever follows that is neither a digit nor a dot (a suffix such as "p1"),
-- if its numbers fit into an `int`.
pub parse-dotted :
    (p : Bytes) (n : ℕ) (ns : List ℕ) (rest : Bytes)
    → All (λ c. is_digit c ≡ false) p
    → n ≤ int_max
    → All (λ m. m ≤ int_max) ns
    → EndsVersion rest
    → (parse (p ++ (dotted n ns ++ rest))).components ≡ n ∷ ns
parse-dotted p n ns rest hp h hs e =
    let raw = p ++ (dotted n ns ++ rest) in
    let start : skip_to_digit raw ≡ dotted n ns ++ rest =
      skip_to_digit-append p (dotted n ns ++ rest) hp ∙ skip_to_digit-dotted n ns rest in
    let ran =
      parse_loop-dotted (suc (length raw)) n ns [] rest
        (omega (
          arith,
          length-append p (dotted n ns ++ rest),
          length-append (dotted n ns) rest,
          length-le-dotted n ns,
        ))
        h hs e in
    cc (ap (parse_loop (suc (length raw)) []) start, ran, parse_total raw)
