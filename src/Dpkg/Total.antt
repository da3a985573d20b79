-- ===== src/Dpkg/Total.antt =====
-- The loops of `dpkg_compare_str` end on every pair of texts without '\0', and not on a text that
-- begins with one.
use zero_trust_public.Base.{
  ℕ, zero, suc, ◌+◌, ◌≤◌, ◌<◌, ◌≡◌, refl, ◌∙◌, true, false, ◌&&◌, [], ◌∷◌, Bytes, is_empty,
  is_digit, if◌then◌else◌, Option, none, some, ltb, ◌==◌, length, arith, Bool-cases, inl, inr, All,
  subst,
}
use zero_trust_public.Version.{Cmp, less, equal, greater, span_digits}
use zero_trust_public.Dpkg.{
  Run, decided, undecided, dpkg_char_order, lead, step_over, nondigit_run, skip_zeros,
  compare_numbers, digit_run, after_digits, after_characters, dpkg_loop, dpkg_compare_str,
}

abbrev pub NoNul : Bytes → Type 0
NoNul s = All (λ c. (c == 0) ≡ false) s

step_over-NoNul : (s : Bytes) → NoNul s → NoNul (step_over s)
unfolding step_over
step_over-NoNul [] h = tt
step_over-NoNul (c ∷ cs) h = elim (Bool-cases (lead (c ∷ cs) == 0)) [
  | inl e ↦ rw e h
  | inr e ↦ rw e h.1
]

length-step_over : (s : Bytes) → length (step_over s) ≤ length s
unfolding step_over
length-step_over [] = omega arith
length-step_over (c ∷ cs) = ground arith

length-step_over_lt : (s : Bytes) → (lead s == 0) ≡ false → length (step_over s) < length s
unfolding step_over
length-step_over_lt [] h = cc
length-step_over_lt (c ∷ cs) h = rw h (omega arith)

abbrev GoodRun : ℕ → Run → Type 0
GoodRun n (decided c) = Unit
GoodRun n (undecided a b) =
    NoNul a × NoNul b × (length a + length b ≤ n) × (lead a ≡ 0) × (lead b ≡ 0)

GoodRun-mono : (n m : ℕ) (r : Run) → n ≤ m → GoodRun n r → GoodRun m r
GoodRun-mono n m (decided c) h g = tt
GoodRun-mono n m (undecided a b) h g = (g.0, g.1, omega arith, g.3, g.4)

abbrev RunsTo : ℕ → Option Run → Type 0
RunsTo n o = (r : Run) × (o ≡ some r) × GoodRun n r

-- A round that moves on brings the cursors nearer to the end.
step_over_progress :
    (a b : Bytes)
    → (lead a == 0 && lead b == 0) ≡ false
    → length (step_over a) + length (step_over b) < length a + length b
step_over_progress a b h = elim (Bool-cases (lead a == 0)) [
  | inl e ↦ omega (arith, length-step_over a, length-step_over_lt b (rw e at h))
  | inr e ↦ omega (arith, length-step_over_lt a e, length-step_over b)
]

nondigit_run_total :
    (f : ℕ) (a b : Bytes)
    → length a + length b < f
    → NoNul a
    → NoNul b
    → RunsTo (length a + length b) (nondigit_run f a b)
unfolding nondigit_run
nondigit_run_total zero a b h p q = absurd (omega arith)
nondigit_run_total (suc f) a b h p q = elim (Bool-cases (lead a == 0 && lead b == 0)) [
  | inl e ↦ (undecided a b, rw e, (p, q, omega arith, ground arith, ground arith))
  | inr e ↦ elim (Bool-cases (dpkg_char_order (lead a) == dpkg_char_order (lead b))) [
    | inr ne ↦ (
      decided (if ltb (dpkg_char_order (lead a)) (dpkg_char_order (lead b)) then less else greater),
      rw (e, ne),
      tt,
    )
    | inl same ↦
        rw (e, same)
          (let (r, ran, good) =
              nondigit_run_total f (step_over a) (step_over b)
                (omega (arith, step_over_progress a b e)) (step_over-NoNul a p)
                (step_over-NoNul b q) in
            (r, ran, GoodRun-mono _ _ r (omega (arith, step_over_progress a b e)) good))
  ]
]

span_digits-NoNul : (s : Bytes) → NoNul s → NoNul (span_digits s).1
unfolding span_digits
span_digits-NoNul [] h = tt
span_digits-NoNul (c ∷ cs) h = elim (Bool-cases (is_digit c)) [
  | inl e ↦ rw e (span_digits-NoNul cs h.1)
  | inr e ↦ rw e h
]

skip_zeros-NoNul : (s : Bytes) → NoNul s → NoNul (skip_zeros s)
unfolding skip_zeros
skip_zeros-NoNul [] h = tt
skip_zeros-NoNul (c ∷ cs) h = elim (Bool-cases (c == b'0')) [
  | inl e ↦ rw e (skip_zeros-NoNul cs h.1)
  | inr e ↦ rw e h
]

length-span_digits_rest : (s : Bytes) → length (span_digits s).1 ≤ length s
unfolding span_digits
length-span_digits_rest [] = omega arith
length-span_digits_rest (c ∷ cs) = ground (arith, length-span_digits_rest cs)

length-skip_zeros : (s : Bytes) → length (skip_zeros s) ≤ length s
unfolding skip_zeros
length-skip_zeros [] = omega arith
length-skip_zeros (c ∷ cs) = ground (arith, length-skip_zeros cs)

-- What is left behind the number at the front.
abbrev behind : Bytes → Bytes
behind s = (span_digits (skip_zeros s)).1

length-behind : (s : Bytes) → length (behind s) ≤ length s
length-behind s = omega (arith, length-span_digits_rest (skip_zeros s), length-skip_zeros s)

-- A text with no character to look at before its first digit loses a byte to the number.
length-behind_lt :
    (s : Bytes) → lead s ≡ 0 → NoNul s → is_empty s ≡ false → length (behind s) < length s
unfolding lead skip_zeros span_digits is_empty
length-behind_lt [] h p e = cc
length-behind_lt (c ∷ cs) h p e = ground (
  arith,
  length-span_digits_rest (skip_zeros cs),
  length-skip_zeros cs,
  length-span_digits_rest cs,
)

abbrev Returns : Option Cmp → Type 0
Returns o = (c : Cmp) × (o ≡ some c)

digit_run-Returns :
    (more : Bytes → Bytes → Option Cmp) (a b : Bytes)
    → Returns (more (behind a) (behind b))
    → Returns (after_digits more (digit_run a b))
unfolding digit_run after_digits
digit_run-Returns more a b h =
    go (compare_numbers (span_digits (skip_zeros a)).0 (span_digits (skip_zeros b)).0)
  where
    go :
        (c : Cmp)
        → Returns (
            after_digits more (elim c [
              | equal ↦ undecided (behind a) (behind b)
              | less ↦ decided less
              | greater ↦ decided greater
            ]))
    go equal = h
    go less = (less, refl)
    go greater = (greater, refl)

after_characters-Returns :
    (more : Bytes → Bytes → Option Cmp) (n : ℕ) (o : Option Run)
    → RunsTo n o
    → ((a b : Bytes) → GoodRun n (undecided a b) → Returns (more (behind a) (behind b)))
    → Returns (after_characters more o)
unfolding after_characters
after_characters-Returns more n none (r, e, g) h = cc
after_characters-Returns more n (some (decided c)) t h = (c, refl)
after_characters-Returns more n (some (undecided a b)) (r, e, g) h =
    digit_run-Returns more a b (h a b (subst (GoodRun n) {y = undecided a b} (cc) g))

length_of_empty : (s : Bytes) → is_empty s ≡ true → length s ≡ 0
unfolding is_empty
length_of_empty [] h = refl
length_of_empty (c ∷ cs) h = cc

-- The next round of the outer loop has less to read.
behind_progress :
    (n : ℕ) (a b : Bytes)
    → 0 < n
    → GoodRun n (undecided a b)
    → length (behind a) + length (behind b) < n
behind_progress n a b h g = elim (Bool-cases (is_empty a)) [
  | inr e ↦ omega (arith, length-behind_lt a g.3 g.0 e, length-behind b)
  | inl e ↦ elim (Bool-cases (is_empty b)) [
    | inr e' ↦ omega (arith, length-behind_lt b g.4 g.1 e', length-behind a)
    | inl e' ↦
        omega (arith, length_of_empty a e, length_of_empty b e', length-behind a, length-behind b)
  ]
]

some_left : (a b : Bytes) → (is_empty a && is_empty b) ≡ false → 0 < length a + length b
unfolding is_empty
some_left [] [] h = cc
some_left [] (c ∷ b) h = omega arith
some_left (c ∷ a) b h = omega arith

dpkg_loop_total :
    (f : ℕ) (a b : Bytes) → length a + length b < f → NoNul a → NoNul b → Returns (dpkg_loop f a b)
unfolding dpkg_loop
dpkg_loop_total zero a b h p q = absurd (omega arith)
dpkg_loop_total (suc f) a b h p q = elim (Bool-cases (is_empty a && is_empty b)) [
  | inl e ↦ (equal, rw e)
  | inr e ↦ rw e (
      after_characters-Returns (dpkg_loop f) (length a + length b) _
        (nondigit_run_total (suc (length a + length b)) a b (omega arith) p q)
        (λ a' b' g.
          dpkg_loop_total f (behind a') (behind b')
            (omega (arith, behind_progress (length a + length b) a' b' (some_left a b e) g))
            (span_digits-NoNul (skip_zeros a') (skip_zeros-NoNul a' g.0))
            (span_digits-NoNul (skip_zeros b') (skip_zeros-NoNul b' g.1))))
]

-- On texts without '\0' the comparison ends, with a verdict.
pub dpkg_compare_str_total :
    (a b : Bytes) → NoNul a → NoNul b → (c : Cmp) × (dpkg_compare_str a b ≡ some c)
unfolding dpkg_compare_str
dpkg_compare_str_total a b = dpkg_loop_total (suc (length a + length b)) a b (omega arith)

stuck_round :
    (more : Bytes → Bytes → Option Cmp) (f : ℕ) (a b : Bytes)
    → after_characters more (nondigit_run (suc f) (0 ∷ a) (0 ∷ b)) ≡ more (0 ∷ a) (0 ∷ b)
unfolding after_characters after_digits nondigit_run lead digit_run is_digit skip_zeros span_digits
    compare_numbers
stuck_round more f a b = refl

dpkg_loop_stuck : (f : ℕ) (a b : Bytes) → dpkg_loop f (0 ∷ a) (0 ∷ b) ≡ none
unfolding dpkg_loop is_empty
dpkg_loop_stuck zero a b = refl
dpkg_loop_stuck (suc f) a b =
    stuck_round (dpkg_loop f) (suc (length a) + suc (length b)) a b ∙ dpkg_loop_stuck f a b

-- Where both texts begin with '\0' no round moves a cursor: the comparison never ends, whatever
-- follows and however many rounds it is given.
pub dpkg_compare_str_stuck :
    (a b : Bytes)
    → ((f : ℕ) → dpkg_loop f (0 ∷ a) (0 ∷ b) ≡ none) × (dpkg_compare_str (0 ∷ a) (0 ∷ b) ≡ none)
unfolding dpkg_compare_str
dpkg_compare_str_stuck a b = ((λ f. dpkg_loop_stuck f a b), dpkg_loop_stuck _ a b)
