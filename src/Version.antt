-- ===== src/Version.antt =====
-- src/scan/cve.cpp: class VersionMatcher, which reads the numeric parts of a version out of a text
-- and orders versions by them.
pub mod Parse
pub mod Order
use zero_trust_public.Base.{
  ℕ, zero, suc, ◌+◌, ◌-◌, ◌*◌, Bool, true, false, not, ◌&&◌, ◌||◌, List, [], ◌∷◌, ◌++◌, Bytes,
  codes, bytes_eq, is_empty, is_digit, if◌then◌else◌, Option, none, some, ltb, leb, ◌==◌, length,
  max,
}

-- The sign of an `int` comparison: -1, 0 or 1.
pub data Cmp : Type 0 where
  less equal greater : Cmp

pub record Version : Type 0 where
  pub raw : Bytes
  pub components : List ℕ

pub record VersionRange : Type 0 where
  pub minimum : Bytes
  pub maximum : Bytes

-- The digits at the front of a text, and what follows them.
unfoldable pub span_digits : Bytes → Bytes × Bytes
span_digits [] = ([], [])
span_digits (c ∷ cs) =
    let (ds, rest) = span_digits cs in if is_digit c then (c ∷ ds, rest) else ([], c ∷ cs)

unfoldable pub skip_to_digit : Bytes → Bytes
skip_to_digit [] = []
skip_to_digit (c ∷ cs) = let later = skip_to_digit cs in if is_digit c then c ∷ cs else later

unfoldable pub decimal_value : ℕ → Bytes → ℕ
decimal_value acc [] = acc
decimal_value acc (c ∷ cs) = decimal_value (acc * 10 + (c - b'0')) cs

-- The largest `int`.
abbrev pub int_max : ℕ
int_max = 2_147_483_647

-- `std::stoi` on digits; none where it throws.
unfoldable pub stoi : Bytes → Option ℕ
unfolding decimal_value
stoi ds = let n = decimal_value 0 ds in if leb n int_max then some n else none

-- What follows a number: a dot and more, or the end of the version.
after_number : (Bytes → Option (List ℕ)) → List ℕ → Bytes → Option (List ℕ)
after_number more acc [] = some acc
after_number more acc (c ∷ cs) = let next = more cs in if c == b'.' then next else some acc

-- The number that was read, or the early return with no components.
push_number : (List ℕ → Bytes → Option (List ℕ)) → List ℕ → Option ℕ → Bytes → Option (List ℕ)
push_number more acc none rest = some []
push_number more acc (some n) rest = let acc' = acc ++ n ∷ [] in after_number (more acc') acc' rest

-- The loop over the numbers of a version; none means that the fuel ran out.
unfoldable pub parse_loop : ℕ → List ℕ → Bytes → Option (List ℕ)
unfolding after_number push_number
parse_loop zero acc s = none
parse_loop (suc f) acc s =
    let (ds, rest) = span_digits s in
    let more = push_number (parse_loop f) acc (stoi ds) rest in
    if is_empty ds then some acc else more

-- Each round takes a byte or more, so this fuel is enough (Version/Parse).
unfoldable pub parse : Bytes → Version
unfolding parse_loop
parse raw = record {
  raw = raw;
  components = elim (parse_loop (suc (length raw)) [] (skip_to_digit raw)) [
    | none ↦ []
    | some ns ↦ ns
  ];
}

-- A missing component counts as 0.
abbrev pub head_or_zero : List ℕ → ℕ
head_or_zero [] = 0
head_or_zero (x ∷ xs) = x

abbrev pub rest_of : List ℕ → List ℕ
rest_of [] = []
rest_of (x ∷ xs) = xs

-- The loop of `compare`: as many rounds as the longer list has components.
unfoldable pub compare_parts : ℕ → List ℕ → List ℕ → Cmp
compare_parts zero l r = equal
compare_parts (suc n) l r =
    let later = compare_parts n (rest_of l) (rest_of r) in
    let x = head_or_zero l in
    let y = head_or_zero r in if not (x == y) then if ltb x y then less else greater else later

unfoldable pub compare : Version → Version → Cmp
compare left right =
    compare_parts (max (length left.components) (length right.components)) left.components
      right.components

abbrev is_less : Cmp → Bool
is_less less = true
is_less _ = false

abbrev is_greater : Cmp → Bool
is_greater greater = true
is_greater _ = false

abbrev is_equal : Cmp → Bool
is_equal equal = true
is_equal _ = false

unfoldable pub in_range : Bytes → VersionRange → Bool
in_range version range =
    let parsed = parse version in
    if is_empty parsed.components
    then false
    else if not (bytes_eq range.minimum (codes "*"))
        && is_less (compare parsed (parse range.minimum))
    then false
    else if not (bytes_eq range.maximum (codes "*"))
        && is_greater (compare parsed (parse range.maximum))
    then false
    else true
