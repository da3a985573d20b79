-- ===== src/Interpreter/Strings.antt =====
-- src/ztl/interpreter.cpp: the methods of strings.
use zero_trust_public.Base.{
  ℕ, suc, ◌-◌, Bool, ◌&&◌, ◌||◌, List, [], ◌∷◌, ◌++◌, map, Bytes, codes, bytes_eq, lower,
  strip_prefix, contains, is_empty, within, if◌then◌else◌, Option, none, some, ltb, leb, ◌==◌,
  length, get_elem?, drop, take,
}
use zero_trust_public.Runtime.{
  Value, boolean, double, text, Completion, normal, runtime_error, returned, thrown, Numbers,
  as_string, as_number,
}

-- `std::isspace` and `std::toupper` in the "C" locale.
abbrev pub is_space : ℕ → Bool
is_space c = c == b' ' || within 9 13 c

unfoldable pub upper : ℕ → ℕ
upper c = if within b'a' b'z' c then c - 32 else c

-- `s.find(p)`; none for `npos`.
unfoldable pub index_of : Bytes → Bytes → Option ℕ
unfolding strip_prefix is_empty
index_of p [] = if is_empty p then some 0 else none
index_of p (x ∷ s) =
    let later = index_of p s in
    elim (strip_prefix p (x ∷ s)) [
      | some _ ↦ some 0
      | none ↦ elim later [ some i ↦ some (suc i) | none ↦ none ]
    ]

-- `s.compare(0, p.size(), p) == 0` behind the test of the sizes, and the same at the end.
unfoldable starts_with : Bytes → Bytes → Bool
starts_with p s = leb (length p) (length s) && bytes_eq (take (length p) s) p

unfoldable ends_with : Bytes → Bytes → Bool
ends_with p s = leb (length p) (length s) && bytes_eq (drop (length s - length p) s) p

-- The two loops of `trim`.
unfoldable pub skip_spaces : Bytes → Bytes
skip_spaces [] = []
skip_spaces (c ∷ s) = let later = skip_spaces s in if is_space c then later else c ∷ s

unfoldable drop_spaces : Bytes → Bytes
drop_spaces [] = []
drop_spaces (c ∷ s) =
    let later = drop_spaces s in if is_space c && is_empty later then [] else c ∷ later

unfoldable pub trim : Bytes → Bytes
unfolding skip_spaces drop_spaces
trim s = drop_spaces (skip_spaces s)

-- `s.substr(start, end - start)` with the bounds of `slice`.
unfoldable slice : Bytes → ℕ → ℕ → Bytes
slice s start end =
    let from = if ltb (length s) start then length s else start in
    let to = if ltb end (length s) then end else length s in
    let last = if ltb to from then from else to in take (last - from) (drop from s)

module _ {D : Type 0} where
  infixl 5 ◌>>=◌
  abbrev pub ◌>>=◌ : {A B : Type 0} → Completion D A → (A → Completion D B) → Completion D B
  normal a >>= f = f a
  runtime_error msg line col >>= f = runtime_error msg line col
  returned v >>= f = returned v
  thrown msg >>= f = thrown msg

  string_of : Value D → Bytes → ℕ → ℕ → Completion D Bytes
  string_of v label line col = elim (as_string v) [
    | none ↦ runtime_error (label ++ codes " must be a string") line col
    | some s ↦ normal s
  ]

  number_of : Value D → Bytes → ℕ → ℕ → Completion D D
  number_of v label line col = elim (as_number v) [
    | none ↦ runtime_error (label ++ codes " must be a number") line col
    | some n ↦ normal n
  ]

  unfoldable need_str : List (Value D) → ℕ → Bytes → ℕ → ℕ → Completion D Bytes
  unfolding string_of
  need_str pos i label line col = elim (get_elem? pos i) [
    | none ↦ runtime_error (label ++ codes " missing") line col
    | some v ↦ string_of v label line col
  ]

  unfoldable need_num : List (Value D) → ℕ → Bytes → ℕ → ℕ → Completion D D
  unfolding number_of
  need_num pos i label line col = elim (get_elem? pos i) [
    | none ↦ runtime_error (label ++ codes " missing") line col
    | some v ↦ number_of v label line col
  ]

  -- The methods in the order of the source.
  module _ (num : Numbers D) where
    -- The `end` of `slice`: the second argument where there is one; below 0 it is 0.
    unfoldable slice_end : Bytes → List (Value D) → ℕ → ℕ → Completion D ℕ
    unfolding need_num
    slice_end s pos line col =
        let given = need_num pos 1 (codes "end") line col in
        if ltb 1 (length pos)
        then (given >>= λ e. normal (if num.less e (num.of_size 0) then 0 else num.to_size e))
        else normal (length s)

    unfoldable call_slice : Bytes → List (Value D) → ℕ → ℕ → Completion D (Value D)
    unfolding need_num slice slice_end
    call_slice s pos line col = need_num pos 0 (codes "start") line col >>= λ start.
        slice_end s pos line col >>= λ end. normal (text (slice s (num.to_size start) end))

    unfoldable call_index_of : Bytes → List (Value D) → ℕ → ℕ → Completion D (Value D)
    unfolding need_str index_of
    call_index_of s pos line col = need_str pos 0 (codes "substring") line col >>= λ p. normal (
        double (elim (index_of p s) [ none ↦ num.negate (num.of_size 1) | some i ↦ num.of_size i ]))

    unfoldable call_byte_at : Bytes → List (Value D) → ℕ → ℕ → Completion D (Value D)
    unfolding need_num
    call_byte_at s pos line col = need_num pos 0 (codes "index") line col >>= λ index. normal (
        double (elim (get_elem? s (num.to_size index)) [
          | none ↦ num.negate (num.of_size 1)
          | some c ↦ num.of_size c
        ]))

    unfoldable pub call_string_method :
        Bytes → Bytes → List (Value D) → ℕ → ℕ → Completion D (Value D)
    unfolding need_str starts_with ends_with contains upper trim call_slice call_index_of
        call_byte_at
    call_string_method s method pos line col =
        let test : Bytes → (Bytes → Bool) → Completion D (Value D) =
          λ label holds. need_str pos 0 label line col >>= λ p. normal (boolean (holds p)) in
        if bytes_eq method (codes "length") || bytes_eq method (codes "size")
        then normal (double (num.of_size (length s)))
        else if bytes_eq method (codes "starts_with")
        then test (codes "prefix") (λ p. starts_with p s)
        else if bytes_eq method (codes "ends_with")
        then test (codes "suffix") (λ p. ends_with p s)
        else if bytes_eq method (codes "contains")
        then test (codes "substring") (λ p. contains p s)
        else if bytes_eq method (codes "slice")
        then call_slice s pos line col
        else if bytes_eq method (codes "to_lower")
        then normal (text (map lower s))
        else if bytes_eq method (codes "to_upper")
        then normal (text (map upper s))
        else if bytes_eq method (codes "trim")
        then normal (text (trim s))
        else if bytes_eq method (codes "index_of")
        then call_index_of s pos line col
        else if bytes_eq method (codes "byte_at")
        then call_byte_at s pos line col
        else runtime_error (codes "string has no method '" ++ (method ++ codes "'")) line col
