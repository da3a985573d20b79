-- ===== src/Base/Text.antt =====
-- Byte strings (`std::string`) and the library functions that the program calls on them:
-- isdigit, isalpha, isspace and tolower in the "C" locale, `==`, `find`, `rfind` and `substr`
-- around one byte, `getline` with a separator, and decimal printing.
use Prim.Native.Nat.{ℕ, zero, suc, ◌+◌, ◌/◌, ◌%◌, ◌<◌}
use Prim.Native.Char.{code}
use Prim.Native.String.{String}
use mathlib.Core.Path.{◌≡◌, refl}
use mathlib.Core.Logic.{◌↔◌}
use mathlib.Core.Bool.{Bool, true, false, ◌&&◌, ◌||◌}
use mathlib.Core.Option.{Option, none, some}
use mathlib.Core.List.{List, [], ◌∷◌}
use native.Mathlib.Omega.{arith}
use zero_trust_public.Base.Lists.{length}
use zero_trust_public.Base.Tests.{ltb, leb, ◌==◌, if◌then◌else◌}

abbrev pub Bytes : Type 0
Bytes = List ℕ

-- The code points of a text: its bytes, if it is ASCII, as all literals of the source are.
abbrev pub codes : String → Bytes
codes String.[] = []
codes (String.◌∷◌ c s) = code c ∷ codes s

abbrev pub within : ℕ → ℕ → ℕ → Bool
within lo hi c = leb lo c && leb c hi

unfoldable pub is_digit : ℕ → Bool
is_digit c = within b'0' b'9' c

unfoldable pub is_alpha : ℕ → Bool
is_alpha c = within b'a' b'z' c || within b'A' b'Z' c

unfoldable pub is_alnum : ℕ → Bool
unfolding is_digit is_alpha
is_alnum c = is_alpha c || is_digit c

unfoldable pub lower : ℕ → ℕ
lower c = if within b'A' b'Z' c then c + 32 else c

-- `==` on strings.
unfoldable pub bytes_eq : Bytes → Bytes → Bool
bytes_eq [] [] = true
bytes_eq (x ∷ xs) (y ∷ ys) = x == y && bytes_eq xs ys
bytes_eq _ _ = false

pub bytes_eq_iff : (a b : Bytes) → (bytes_eq a b ≡ true) ↔ (a ≡ b)
unfolding bytes_eq
bytes_eq_iff (x ∷ a) (y ∷ b) = ground (arith, bytes_eq_iff a b)
bytes_eq_iff _ _ = ground arith

pub bytes_eq_refl : (a : Bytes) → bytes_eq a a ≡ true
bytes_eq_refl a = (bytes_eq_iff a a).1 refl

-- `s.empty()`
unfoldable pub is_empty {ℓ} : {A : Type ℓ} → List A → Bool
is_empty [] = true
is_empty (_ ∷ _) = false

pub is_empty_pos {ℓ} : {A : Type ℓ} (l : List A) → is_empty l ≡ false → 0 < length l
unfolding is_empty
is_empty_pos [] h = cc
is_empty_pos (x ∷ l) h = omega arith

-- `s.find(c)`: the text before and after the first `c`.
unfoldable pub split_first : ℕ → Bytes → Option (Bytes × Bytes)
split_first c [] = none
split_first c (x ∷ xs) =
    let later = split_first c xs in
    if x == c then some ([], xs) else elim later [ none ↦ none | some (a, b) ↦ some (x ∷ a, b) ]

-- `s.rfind(c)`: the text before and after the last `c`.
unfoldable pub split_last : ℕ → Bytes → Option (Bytes × Bytes)
split_last c [] = none
split_last c (x ∷ xs) = elim (split_last c xs) [
  | some (a, b) ↦ some (x ∷ a, b)
  | none ↦ if x == c then some ([], xs) else none
]

-- `s.compare(0, p.size(), p) == 0`, and what follows the prefix.
unfoldable pub strip_prefix : Bytes → Bytes → Option Bytes
strip_prefix [] s = some s
strip_prefix (p ∷ ps) [] = none
strip_prefix (p ∷ ps) (x ∷ xs) = let rest = strip_prefix ps xs in if p == x then rest else none

-- `s.find(p) != npos`
unfoldable pub contains : Bytes → Bytes → Bool
unfolding strip_prefix
contains p [] = is_empty p
contains p (x ∷ xs) =
    let later = contains p xs in elim (strip_prefix p (x ∷ xs)) [ some _ ↦ true | none ↦ later ]

abbrev cons_first : ℕ → List Bytes → List Bytes
cons_first c [] = (c ∷ []) ∷ []
cons_first c (f ∷ fs) = (c ∷ f) ∷ fs

-- `while (std::getline(stream, field, sep))`: a separator at the end opens no further field.
unfoldable pub split_by : ℕ → Bytes → List Bytes
split_by sep [] = []
split_by sep (c ∷ cs) =
    let rest = split_by sep cs in if c == sep then [] ∷ rest else cons_first c rest

-- `std::to_string` of a number that is not negative; `n + 1` digits are more than enough.
unfoldable pub decimal_onto : ℕ → ℕ → Bytes → Bytes
decimal_onto zero n out = out
decimal_onto (suc f) n out =
    let more = decimal_onto f (n / 10) ((b'0' + n % 10) ∷ out) in
    if ltb n 10 then (b'0' + n) ∷ out else more

unfoldable pub to_string : ℕ → Bytes
unfolding decimal_onto
to_string n = decimal_onto (n + 1) n []
