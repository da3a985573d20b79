-- ===== src/Finding/Dedup/Reference.antt =====
-- An independent description of `deduplicate_findings`, by lists alone, and the proof that the
-- vector and the map of positions compute it.
use zero_trust_public.Base.{
  ℕ, suc, ◌+◌, ◌≡◌, refl, ap, ◌∙◌, true, false, List, [], ◌∷◌, ◌++◌, Bytes, bytes_eq, bytes_eq_iff,
  if◌then◌else◌, Option, none, some, length, arith, Floats, Bool-cases, inl, inr,
}
use zero_trust_public.Finding.{Finding, finding_identity}
use zero_trust_public.Finding.Dedup.{
  Dedup, place, find_position, modify, merge, dedup_step, dedup_loop, deduplicate_findings,
}

-- The map that belongs to a vector of findings.
abbrev index_from : {D : Type 0} → ℕ → List (Finding D) → List (Bytes × ℕ)
index_from n [] = []
index_from n (x ∷ xs) = (finding_identity x, n) ∷ index_from (suc n) xs

module _ {D : Type 0} (fp : Floats D) where
  -- A finding is merged into the one of its identity, or put at the end.
  unfoldable pub combine : Finding D → List (Finding D) → List (Finding D)
  combine f [] = f ∷ []
  combine f (x ∷ xs) =
      let later = combine f xs in
      if bytes_eq (finding_identity f) (finding_identity x) then merge fp f x ∷ xs else x ∷ later

  unfoldable pub combine_all : List (Finding D) → List (Finding D) → List (Finding D)
  combine_all acc [] = acc
  combine_all acc (f ∷ fs) = combine_all (combine f acc) fs

  -- Merging keeps the identity.
  pub merge-identity :
      (f x : Finding D)
      → bytes_eq (finding_identity f) (finding_identity x) ≡ true
      → finding_identity (merge fp f x) ≡ finding_identity x
  unfolding merge finding_identity
  merge-identity f x h =
      ground (arith, (bytes_eq_iff (finding_identity f) (finding_identity x)).0 h)

  -- The map finds the position at which `combine` merges, and none where it appends.
  abbrev Located : ℕ → Finding D → List (Finding D) → Option ℕ → Type 0
  Located n f xs none = combine f xs ≡ xs ++ f ∷ []
  Located n f xs (some j) = (i : ℕ) × (j ≡ n + i) × (modify i (merge fp f) xs ≡ combine f xs)

  Located-cons :
      (n : ℕ) (f x : Finding D) (xs : List (Finding D)) (o : Option ℕ)
      → bytes_eq (finding_identity f) (finding_identity x) ≡ false
      → Located (suc n) f xs o
      → Located n f (x ∷ xs) o
  unfolding combine modify
  Located-cons n f x xs none e h = rw e (ap (λ l. x ∷ l) h)
  Located-cons n f x xs (some j) e (i, p, q) = (suc i, omega arith, rw e (ap (λ l. x ∷ l) q))

  find_position-Located :
      (n : ℕ) (f : Finding D) (xs : List (Finding D))
      → Located n f xs (find_position (finding_identity f) (index_from n xs))
  unfolding find_position combine modify
  find_position-Located n f [] = refl
  find_position-Located n f (x ∷ xs) =
      elim (Bool-cases (bytes_eq (finding_identity f) (finding_identity x))) [
        | inl e ↦ rw e (0, omega arith, rw e)
        | inr e ↦ rw e (Located-cons n f x xs _ e (find_position-Located (suc n) f xs))
      ]

  -- What the step makes of the map: a new key at the end, unless the key was found.
  abbrev grown : Bytes → ℕ → List (Bytes × ℕ) → Option ℕ → List (Bytes × ℕ)
  grown k n m none = m ++ (k, n) ∷ []
  grown k n m (some _) = m

  grown-cons :
      (k : Bytes) (n l : ℕ) (p : Bytes × ℕ) (m : List (Bytes × ℕ)) (o : Option ℕ)
      → p ∷ grown k (suc n + l) m o ≡ grown k (n + suc l) (p ∷ m) o
  grown-cons k n l p m none = let e : suc n + l ≡ n + suc l = omega arith in rw e
  grown-cons k n l p m (some _) = refl

  index_from-combine :
      (n : ℕ) (f : Finding D) (xs : List (Finding D))
      → index_from n (combine f xs)
        ≡ grown
            (finding_identity f)
            (n + length xs)
            (index_from n xs)
            (find_position (finding_identity f) (index_from n xs))
  unfolding combine find_position
  index_from-combine n f [] = let e : n + 0 ≡ n = omega arith in rw e
  index_from-combine n f (x ∷ xs) =
      elim (Bool-cases (bytes_eq (finding_identity f) (finding_identity x))) [
        | inl e ↦ rw e (rw (merge-identity f x e))
        | inr e ↦
            rw (e, index_from-combine (suc n) f xs)
              (grown-cons _ n (length xs) _ _
                (find_position (finding_identity f) (index_from (suc n) xs)))
      ]

  place-combine :
      (f : Finding D) (xs : List (Finding D)) (m : List (Bytes × ℕ)) (o : Option ℕ)
      → Located 0 f xs o
      → place fp (record { unique = xs; positions = m }) f (finding_identity f) o
        ≡ record { unique = combine f xs; positions = grown (finding_identity f) (length xs) m o }
  unfolding place
  place-combine f xs m none h = rw h
  place-combine f xs m (some j) (i, p, q) = let e : j ≡ i = omega arith in rw (e, q)

  -- One round of the loop, on a map that belongs to the vector.
  dedup_step-combine :
      (f : Finding D) (xs : List (Finding D))
      → dedup_step fp (record { unique = xs; positions = index_from 0 xs }) f
        ≡ record { unique = combine f xs; positions = index_from 0 (combine f xs) }
  unfolding dedup_step
  dedup_step-combine f xs =
      let e : 0 + length xs ≡ length xs = omega arith in
      place-combine f xs _ _ (find_position-Located 0 f xs) ∙ rw (index_from-combine 0 f xs, e)

  dedup_loop-combine_all :
      (fs xs : List (Finding D))
      → (dedup_loop fp (record { unique = xs; positions = index_from 0 xs }) fs).unique
        ≡ combine_all xs fs
  unfolding dedup_loop combine_all
  dedup_loop-combine_all [] xs = refl
  dedup_loop-combine_all (f ∷ fs) xs =
      ap (λ (d : Dedup D). (dedup_loop fp d fs).unique) (dedup_step-combine f xs)
      ∙ dedup_loop-combine_all fs (combine f xs)

  -- The vector with its map of positions computes the same list as merging by a plain search, for
  -- every input.
  pub deduplicate_findings-combine_all :
      (fs : List (Finding D)) → deduplicate_findings fp fs ≡ combine_all [] fs
  unfolding deduplicate_findings
  deduplicate_findings-combine_all fs = dedup_loop-combine_all fs []
