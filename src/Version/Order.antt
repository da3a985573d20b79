-- ===== src/Version/Order.antt =====
-- The order of versions: a total preorder, under which missing components are zeros.
use zero_trust_public.Base.{
  ℕ, zero, suc, ◌+◌, ◌≤◌, ◌<◌, ◌≡◌, ◌≢◌, refl, sym, ◌∙◌, true, false, List, [], ◌∷◌, Bytes, codes,
  bytes_eq, ◌==◌, length, max, arith, ◌↔◌, Bool-cases, inl, inr,
}
use zero_trust_public.Version.{
  Cmp, less, equal, greater, Version, VersionRange, compare_parts, compare, head_or_zero, rest_of,
  in_range, parse,
}

abbrev pub flip : Cmp → Cmp
flip less = greater
flip equal = equal
flip greater = less

compare_parts-flip : (n : ℕ) (l r : List ℕ) → compare_parts n r l ≡ flip (compare_parts n l r)
unfolding compare_parts
compare_parts-flip zero l r = refl
compare_parts-flip (suc n) l r = ground (arith, compare_parts-flip n (rest_of l) (rest_of r))

compare_parts_nil : (n : ℕ) → compare_parts n [] [] ≡ equal
unfolding compare_parts
compare_parts_nil zero = refl
compare_parts_nil (suc n) = compare_parts_nil n

length-rest_of : (n : ℕ) (l : List ℕ) → length l ≤ suc n → length (rest_of l) ≤ n
length-rest_of n [] h = omega arith
length-rest_of n (x ∷ l) h = omega arith

-- Rounds beyond the end of both lists change nothing.
compare_parts_enough :
    (n m : ℕ) (l r : List ℕ)
    → length l ≤ n
    → length r ≤ n
    → length l ≤ m
    → length r ≤ m
    → compare_parts n l r ≡ compare_parts m l r
unfolding compare_parts
compare_parts_enough zero m [] [] hl hr hl' hr' = sym (compare_parts_nil m)
compare_parts_enough zero m (x ∷ l) r hl hr hl' hr' = absurd (omega arith)
compare_parts_enough zero m [] (y ∷ r) hl hr hl' hr' = absurd (omega arith)
compare_parts_enough (suc n) zero [] [] hl hr hl' hr' = compare_parts_nil (suc n)
compare_parts_enough (suc n) zero (x ∷ l) r hl hr hl' hr' = absurd (omega arith)
compare_parts_enough (suc n) zero [] (y ∷ r) hl hr hl' hr' = absurd (omega arith)
compare_parts_enough (suc n) (suc m) l r hl hr hl' hr' = rw (
    compare_parts_enough n m (rest_of l) (rest_of r) (length-rest_of n l hl) (length-rest_of n r hr)
      (length-rest_of m l hl') (length-rest_of m r hr'))

compare_parts_trans :
    (n : ℕ) (a b c : List ℕ)
    → compare_parts n a b ≢ greater
    → compare_parts n b c ≢ greater
    → compare_parts n a c ≢ greater
unfolding compare_parts
compare_parts_trans zero a b c p q = p
compare_parts_trans (suc n) a b c p q =
    ground (arith, compare_parts_trans n (rest_of a) (rest_of b) (rest_of c))

-- The comparison with as many rounds as one likes.
compare_rounds :
    (n : ℕ) (a b : Version)
    → length a.components ≤ n
    → length b.components ≤ n
    → compare a b ≡ compare_parts n a.components b.components
unfolding compare
compare_rounds n a b h k =
    compare_parts_enough (max (length a.components) (length b.components)) n a.components
      b.components (omega arith) (omega arith) h k

-- Exchanging the versions exchanges -1 and 1.
compare-flip : (a b : Version) → compare b a ≡ flip (compare a b)
unfolding compare
compare-flip a b =
    let e : max (length b.components) (length a.components)
        ≡ max (length a.components) (length b.components) =
      omega arith in
    rw e (compare_parts-flip _ a.components b.components)

-- "at most" is transitive.
pub compare_trans :
    (a b c : Version) → compare a b ≢ greater → compare b c ≢ greater → compare a c ≢ greater
compare_trans a b c p q =
    let n = length a.components + length b.components + length c.components in
    rw (compare_rounds n a c (omega arith) (omega arith)) (
      compare_parts_trans n a.components b.components c.components
        (rw (compare_rounds n a b (omega arith) (omega arith)) at p)
        (rw (compare_rounds n b c (omega arith) (omega arith)) at q))

-- The i-th component; 0 behind the end.
pub component : List ℕ → ℕ → ℕ
component [] i = 0
component (x ∷ xs) zero = x
component (x ∷ xs) (suc i) = component xs i

component_head : (l : List ℕ) → component l 0 ≡ head_or_zero l
unfolding component
component_head [] = refl
component_head (x ∷ l) = refl

component_rest : (l : List ℕ) (i : ℕ) → component l (suc i) ≡ component (rest_of l) i
unfolding component
component_rest [] i = refl
component_rest (x ∷ l) i = refl

-- At the first difference the left component is the smaller one.
FirstBelow : List ℕ → List ℕ → Type 0
FirstBelow l r =
    (i : ℕ) × ((j : ℕ) → j < i → component l j ≡ component r j) × (component l i < component r i)

FirstBelow-rest :
    (l r : List ℕ)
    → head_or_zero l ≡ head_or_zero r
    → FirstBelow (rest_of l) (rest_of r)
    → FirstBelow l r
unfolding FirstBelow
FirstBelow-rest l r e (i, same, below) =
    (suc i, agree, rw (component_rest l i, component_rest r i) below)
  where
    agree : (j : ℕ) → j < suc i → component l j ≡ component r j
    agree zero h = component_head l ∙ e ∙ sym (component_head r)
    agree (suc j) h = component_rest l j ∙ same j (omega arith) ∙ sym (component_rest r j)

compare_parts_less : (n : ℕ) (l r : List ℕ) → compare_parts n l r ≡ less → FirstBelow l r
unfolding compare_parts
compare_parts_less zero l r h = cc
compare_parts_less (suc n) l r h = elim (Bool-cases (head_or_zero l == head_or_zero r)) [
  | inl e ↦
      FirstBelow-rest l r (ground arith) (compare_parts_less n (rest_of l) (rest_of r) (rw e at h))
  | inr ne ↦
      (unfold FirstBelow in
        (0, (λ j k. absurd (omega arith)), rw (component_head l, component_head r) (ground arith)))
]

-- -1 says that at the first component in which the versions differ the left one is smaller.
compare_less : (a b : Version) → compare a b ≡ less → FirstBelow a.components b.components
unfolding compare
compare_less a b = compare_parts_less _ a.components b.components

compare_parts_equal :
    (n : ℕ) (l r : List ℕ)
    → length l ≤ n
    → length r ≤ n
    → compare_parts n l r ≡ equal
    → (i : ℕ) → component l i ≡ component r i
unfolding compare_parts
compare_parts_equal zero [] [] hl hr h i = refl
compare_parts_equal zero (x ∷ l) r hl hr h i = absurd (omega arith)
compare_parts_equal zero [] (y ∷ r) hl hr h i = absurd (omega arith)
compare_parts_equal (suc n) l r hl hr h zero =
    rw (component_head l, component_head r) (ground arith)
compare_parts_equal (suc n) l r hl hr h (suc i) =
    component_rest l i
    ∙ compare_parts_equal n (rest_of l) (rest_of r) (length-rest_of n l hl) (length-rest_of n r hr)
        (ground arith) i
    ∙ sym (component_rest r i)

compare_parts_same :
    (n : ℕ) (l r : List ℕ) → ((i : ℕ) → component l i ≡ component r i) → compare_parts n l r ≡ equal
unfolding compare_parts
compare_parts_same zero l r h = refl
compare_parts_same (suc n) l r h =
    let first : head_or_zero l ≡ head_or_zero r = sym (component_head l) ∙ h 0 ∙ component_head r in
    let later : compare_parts n (rest_of l) (rest_of r) ≡ equal =
      compare_parts_same n (rest_of l) (rest_of r)
        (λ i. sym (component_rest l i) ∙ h (suc i) ∙ component_rest r i) in
    ground arith

-- 0 says that the versions agree in every component, missing ones counted as zeros.
compare-equal_iff :
    (a b : Version)
    → (compare a b ≡ equal) ↔ ((i : ℕ) → component a.components i ≡ component b.components i)
unfolding compare
compare-equal_iff a b = (
  compare_parts_equal _ a.components b.components (omega arith) (omega arith),
  compare_parts_same _ a.components b.components,
)

-- A version in a range is in every range that is wider at both ends, given that no end is open.
pub in_range_widen :
    (v : Bytes) (r s : VersionRange)
    → bytes_eq r.minimum (codes "*") ≡ false
    → bytes_eq r.maximum (codes "*") ≡ false
    → compare (parse s.minimum) (parse r.minimum) ≢ greater
    → compare (parse r.maximum) (parse s.maximum) ≢ greater
    → in_range v r ≡ true
    → in_range v s ≡ true
unfolding in_range
in_range_widen v r s m n lo hi h = ground (
  arith,
  compare_trans (parse s.minimum) (parse r.minimum) (parse v),
  compare_trans (parse v) (parse r.maximum) (parse s.maximum),
  compare-flip (parse v) (parse r.minimum),
  compare-flip (parse v) (parse s.minimum),
)
