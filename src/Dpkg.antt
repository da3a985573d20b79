-- ===== src/Dpkg.antt =====
-- src/scan/cve.cpp: the comparison of Debian package versions (dpkg_char_order, dpkg_compare_str)
-- and the split of a package version into epoch, upstream version and revision.
pub mod Total
pub mod Laws
use zero_trust_public.Base.{
  ℕ, zero, suc, ◌+◌, Bool, true, false, not, ◌&&◌, List, [], ◌∷◌, ◌++◌, Bytes, codes, is_empty,
  is_digit, is_alpha, if◌then◌else◌, Option, none, some, ltb, ◌==◌, length, split_first, split_last,
}
use zero_trust_public.Version.{Cmp, less, equal, greater, span_digits}

-- The source's value plus one, so that '~' is 0 and the end of the text is 1. A `char` from 128 on
-- is negative there, and `c + 256` is the byte again.
unfoldable pub dpkg_char_order : ℕ → ℕ
unfolding is_alpha
dpkg_char_order c =
    if c == 0
    then 1
    else if c == b'~'
    then 0
    else if is_alpha c
    then c + 1
    else if ltb c 128
    then c + 257
    else c + 1

-- The character at the cursor if it is no digit; '\0' at a digit and at the end.
unfoldable pub lead : Bytes → ℕ
lead [] = 0
lead (c ∷ _) = if is_digit c then 0 else c

-- The cursor moves on if the character is not '\0'.
unfoldable pub step_over : Bytes → Bytes
unfolding lead
step_over [] = []
step_over (c ∷ cs) = if lead (c ∷ cs) == 0 then c ∷ cs else cs

-- How a run of characters ends: with a verdict, or with the two texts that are left.
pub data Run : Type 0 where
  decided : Cmp → Run
  undecided : Bytes → Bytes → Run

-- The loop over characters that are no digits; none means that the fuel ran out.
unfoldable pub nondigit_run : ℕ → Bytes → Bytes → Option Run
nondigit_run zero a b = none
nondigit_run (suc f) a b =
    let oa = dpkg_char_order (lead a) in
    let ob = dpkg_char_order (lead b) in
    let later = nondigit_run f (step_over a) (step_over b) in
    if lead a == 0 && lead b == 0
    then some (undecided a b)
    else if not (oa == ob)
    then some (decided (if ltb oa ob then less else greater))
    else later

unfoldable pub skip_zeros : Bytes → Bytes
skip_zeros [] = []
skip_zeros (c ∷ cs) = let later = skip_zeros cs in if c == b'0' then later else c ∷ cs

-- Digits of equal number, from the left.
unfoldable pub compare_digits : Bytes → Bytes → Cmp
compare_digits (x ∷ xs) (y ∷ ys) =
    let later = compare_digits xs ys in
    if not (x == y) then if ltb x y then less else greater else later
compare_digits _ _ = equal

-- The numbers at the front, without leading zeros: the longer one is greater.
unfoldable pub compare_numbers : Bytes → Bytes → Cmp
unfolding compare_digits
compare_numbers x y =
    if not (length x == length y)
    then if ltb (length x) (length y) then less else greater
    else compare_digits x y

-- The digit run: a verdict, or the texts behind the numbers.
unfoldable pub digit_run : Bytes → Bytes → Run
digit_run a b =
    let (x, a') = span_digits (skip_zeros a) in
    let (y, b') = span_digits (skip_zeros b) in
    elim (compare_numbers x y) [
      | equal ↦ undecided a' b'
      | less ↦ decided less
      | greater ↦ decided greater
    ]

after_digits : (Bytes → Bytes → Option Cmp) → Run → Option Cmp
after_digits more (decided c) = some c
after_digits more (undecided a b) = more a b

after_characters : (Bytes → Bytes → Option Cmp) → Option Run → Option Cmp
after_characters more none = none
after_characters more (some (decided c)) = some c
after_characters more (some (undecided a b)) = after_digits more (digit_run a b)

-- The outer loop.
unfoldable pub dpkg_loop : ℕ → Bytes → Bytes → Option Cmp
unfolding after_digits after_characters
dpkg_loop zero a b = none
dpkg_loop (suc f) a b =
    let round = after_characters (dpkg_loop f) (nondigit_run (suc (length a + length b)) a b) in
    if is_empty a && is_empty b then some equal else round

-- Enough fuel for texts without '\0' (Dpkg/Total); none means that the program's loop does not end.
unfoldable pub dpkg_compare_str : Bytes → Bytes → Option Cmp
dpkg_compare_str a b = dpkg_loop (suc (length a + length b)) a b

pub record DpkgVersion : Type 0 where
  pub epoch : Bytes
  pub upstream : Bytes
  pub revision : Bytes

unfoldable pub all_digits : Bytes → Bool
all_digits [] = true
all_digits (c ∷ cs) = is_digit c && all_digits cs

-- The text in front of a colon is the epoch if it is digits, one at least.
unfoldable pub split_epoch : Bytes → Bytes × Bytes
split_epoch raw = elim (split_first b':' raw) [
  | none ↦ ([], raw)
  | some (e, rest) ↦ if not (is_empty e) && all_digits e then (e, rest) else ([], raw)
]

unfoldable pub with_revision : Bytes → Bytes → Option (Bytes × Bytes) → DpkgVersion
with_revision e rest none = record { epoch = e; upstream = rest; revision = [] }
with_revision e rest (some (u, r)) = record { epoch = e; upstream = u; revision = r }

unfoldable pub parse_dpkg_version : Bytes → DpkgVersion
unfolding with_revision
parse_dpkg_version raw =
    let (e, rest) = split_epoch raw in with_revision e rest (split_last b'-' rest)

epoch_or_zero : Bytes → Bytes
epoch_or_zero [] = codes "0"
epoch_or_zero (c ∷ cs) = c ∷ cs

-- The first verdict that is not 0.
or_else : Option Cmp → Option Cmp → Option Cmp
or_else none later = none
or_else (some equal) later = later
or_else (some c) later = some c

unfoldable pub dpkg_compare : Bytes → Bytes → Option Cmp
unfolding or_else epoch_or_zero
dpkg_compare a b =
    let va = parse_dpkg_version a in
    let vb = parse_dpkg_version b in
    or_else (dpkg_compare_str (epoch_or_zero va.epoch) (epoch_or_zero vb.epoch)) (
      or_else (dpkg_compare_str va.upstream vb.upstream) (dpkg_compare_str va.revision vb.revision))
