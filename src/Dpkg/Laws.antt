-- ===== src/Dpkg/Laws.antt =====
-- Laws of the order of package versions, and of the split into parts.
use zero_trust_public.Base.{
  ℕ, zero, suc, ◌+◌, ◌≡◌, refl, sym, ap, ◌∙◌, true, false, ◌&&◌, [], ◌∷◌, ◌++◌, Bytes, is_empty,
  is_digit, Option, none, some, ◌==◌, length, arith, Bool-cases, inl, inr, All, split_first,
  split_last,
}
use zero_trust_public.Version.{Cmp, less, equal, greater, span_digits}
use zero_trust_public.Version.Order.{flip}
use zero_trust_public.Dpkg.{
  Run, decided, undecided, step_over, nondigit_run, skip_zeros, compare_digits, compare_numbers,
  digit_run, after_digits, after_characters, dpkg_loop, dpkg_compare_str, parse_dpkg_version,
  split_epoch, with_revision, all_digits,
}
use zero_trust_public.Dpkg.Total.{NoNul, dpkg_compare_str_total}

abbrev flip_run : Run → Run
flip_run (decided c) = decided (flip c)
flip_run (undecided a b) = undecided b a

abbrev pub map_flip : Option Cmp → Option Cmp
map_flip none = none
map_flip (some c) = some (flip c)

abbrev map_flip_run : Option Run → Option Run
map_flip_run none = none
map_flip_run (some r) = some (flip_run r)

nondigit_run-flip : (f : ℕ) (a b : Bytes) → nondigit_run f b a ≡ map_flip_run (nondigit_run f a b)
unfolding nondigit_run
nondigit_run-flip zero a b = refl
nondigit_run-flip (suc f) a b = ground (arith, nondigit_run-flip f (step_over a) (step_over b))

compare_digits-flip : (x y : Bytes) → compare_digits y x ≡ flip (compare_digits x y)
unfolding compare_digits
compare_digits-flip [] [] = refl
compare_digits-flip [] (y ∷ ys) = refl
compare_digits-flip (x ∷ xs) [] = refl
compare_digits-flip (x ∷ xs) (y ∷ ys) = ground (arith, compare_digits-flip xs ys)

compare_numbers-flip : (x y : Bytes) → compare_numbers y x ≡ flip (compare_numbers x y)
unfolding compare_numbers
compare_numbers-flip x y = ground (arith, compare_digits-flip x y)

digit_run-flip : (a b : Bytes) → digit_run b a ≡ flip_run (digit_run a b)
unfolding digit_run
digit_run-flip a b =
    ground
      (arith, compare_numbers-flip (span_digits (skip_zeros a)).0 (span_digits (skip_zeros b)).0)

abbrev Swaps : (Bytes → Bytes → Option Cmp) → Type 0
Swaps more = (a b : Bytes) → more b a ≡ map_flip (more a b)

after_digits-flip :
    (more : Bytes → Bytes → Option Cmp) (r : Run)
    → Swaps more
    → after_digits more (flip_run r) ≡ map_flip (after_digits more r)
unfolding after_digits
after_digits-flip more (decided c) h = refl
after_digits-flip more (undecided a b) h = h a b

after_characters-flip :
    (more : Bytes → Bytes → Option Cmp) (o : Option Run)
    → Swaps more
    → after_characters more (map_flip_run o) ≡ map_flip (after_characters more o)
unfolding after_characters
after_characters-flip more none h = refl
after_characters-flip more (some (decided c)) h = refl
after_characters-flip more (some (undecided a b)) h =
    rw (digit_run-flip a b) (after_digits-flip more (digit_run a b) h)

dpkg_loop-flip : (f : ℕ) (a b : Bytes) → dpkg_loop f b a ≡ map_flip (dpkg_loop f a b)
unfolding dpkg_loop
dpkg_loop-flip zero a b = refl
dpkg_loop-flip (suc f) a b =
    let swapped : length b + length a ≡ length a + length b = omega arith in
    elim (Bool-cases (is_empty a && is_empty b)) [
      | inl e ↦ let e' : (is_empty b && is_empty a) ≡ true = ground arith in rw (e, e')
      | inr e ↦
          let e' : (is_empty b && is_empty a) ≡ false = ground arith in
          rw (e, e')
            (rw (swapped, nondigit_run-flip (suc (length a + length b)) a b)
              (after_characters-flip (dpkg_loop f) (nondigit_run (suc (length a + length b)) a b)
                (λ x y. dpkg_loop-flip f x y)))
    ]

-- Exchanging the texts exchanges -1 and 1, and does not change whether the comparison ends.
pub dpkg_compare_str-flip : (a b : Bytes) → dpkg_compare_str b a ≡ map_flip (dpkg_compare_str a b)
unfolding dpkg_compare_str
dpkg_compare_str-flip a b =
    let swapped : length b + length a ≡ length a + length b = omega arith in
    rw swapped (dpkg_loop-flip (suc (length a + length b)) a b)

flip_fixed : (c : Cmp) → c ≡ flip c → c ≡ equal
flip_fixed equal h = refl
flip_fixed less h = cc
flip_fixed greater h = cc

-- A text without '\0' compares equal to itself.
dpkg_compare_str_refl : (a : Bytes) → NoNul a → dpkg_compare_str a a ≡ some equal
dpkg_compare_str_refl a h =
    let (c, e) = dpkg_compare_str_total a a h h in
    let same : some c ≡ some (flip c) = sym e ∙ dpkg_compare_str-flip a a ∙ ap map_flip e in
    e ∙ ap some (flip_fixed c (cc))

split_first_found :
    (e rest : Bytes) → all_digits e ≡ true → split_first b':' (e ++ (b':' ∷ rest)) ≡ some (e, rest)
unfolding split_first all_digits is_digit
split_first_found [] rest h = refl
split_first_found (c ∷ e) rest h = ground (arith, split_first_found e rest)

-- The byte does not occur.
abbrev Lacks : ℕ → Bytes → Type 0
Lacks c s = All (λ x. (x == c) ≡ false) s

split_last-none : (c : ℕ) (s : Bytes) → Lacks c s → split_last c s ≡ none
unfolding split_last
split_last-none c [] h = refl
split_last-none c (x ∷ s) h = rw (split_last-none c s h.1, h.0)

split_last_found : (u r : Bytes) → Lacks b'-' r → split_last b'-' (u ++ (b'-' ∷ r)) ≡ some (u, r)
unfolding split_last
split_last_found [] r h = rw (split_last-none b'-' r h)
split_last_found (c ∷ u) r h = rw (split_last_found u r h)

split_epoch_found :
    (e rest : Bytes)
    → is_empty e ≡ false
    → all_digits e ≡ true
    → split_epoch (e ++ (b':' ∷ rest)) ≡ (e, rest)
unfolding split_epoch
split_epoch_found e rest h k = rw (split_first_found e rest k, split_epoch) (rw (h, k))

-- A package version written from its parts is split into the same parts: digits before the first
-- colon are the epoch, and the revision is what follows the last dash.
pub parse_dpkg_version_parts :
    (e u r : Bytes)
    → is_empty e ≡ false
    → all_digits e ≡ true
    → Lacks b'-' r
    → parse_dpkg_version (e ++ (b':' ∷ (u ++ (b'-' ∷ r))))
      ≡ record { epoch = e; upstream = u; revision = r }
unfolding parse_dpkg_version
parse_dpkg_version_parts e u r h k l =
    let parts = split_epoch_found e (u ++ (b'-' ∷ r)) h k in
    ap (λ (p : Bytes × Bytes). with_revision p.0 p.1 (split_last b'-' p.1)) parts
    ∙ rw (split_last_found u r l)
