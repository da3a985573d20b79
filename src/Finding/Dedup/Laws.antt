-- ===== src/Finding/Dedup/Laws.antt =====
-- What deduplication keeps, drops and prefers.
use zero_trust_public.Base.{
  ℕ, ◌≡◌, refl, sym, ◌∙◌, Bool, true, false, ◌||◌, List, [], ◌∷◌, ◌++◌, Bytes, bytes_eq,
  bytes_eq_iff, bytes_eq_refl, is_empty, if◌then◌else◌, arith, append-nil, append_assoc, Floats,
  Bool-cases, inl, inr, max, All,
}
use zero_trust_public.Finding.{Finding, finding_identity, verification_rank}
use zero_trust_public.Finding.Dedup.{merge, is_better, deduplicate_findings}
use zero_trust_public.Finding.Dedup.Reference.{
  combine, combine_all, merge-identity, deduplicate_findings-combine_all,
}

module _ {D : Type 0} where
  -- Some finding of the list has the identity.
  abbrev pub has_key : Bytes → List (Finding D) → Bool
  has_key k [] = false
  has_key k (x ∷ xs) = bytes_eq k (finding_identity x) || has_key k xs

  -- No two findings of the list have one identity.
  abbrev pub IsDistinct : List (Finding D) → Type 0
  IsDistinct [] = Unit
  IsDistinct (x ∷ xs) = (has_key (finding_identity x) xs ≡ false) × IsDistinct xs

  -- The highest rank among the findings of an identity; 0 if there is none.
  abbrev pub top_rank : Bytes → List (Finding D) → ℕ
  top_rank k [] = 0
  top_rank k (x ∷ xs) =
      max (if bytes_eq k (finding_identity x) then verification_rank x.verification else 0)
        (top_rank k xs)

  abbrev HasEvidence : Finding D → Type 0
  HasEvidence f = is_empty f.evidence ≡ false

module _ {D : Type 0} (fp : Floats D) where
  has_key-combine :
      (k : Bytes) (f : Finding D) (xs : List (Finding D))
      → has_key k (combine fp f xs) ≡ (bytes_eq k (finding_identity f) || has_key k xs)
  unfolding combine
  has_key-combine k f [] = refl
  has_key-combine k f (x ∷ xs) =
      elim (Bool-cases (bytes_eq (finding_identity f) (finding_identity x))) [
        | inl e ↦
            rw (e, merge-identity fp f x e)
              (ground (arith, (bytes_eq_iff (finding_identity f) (finding_identity x)).0 e))
        | inr e ↦ rw (e, has_key-combine k f xs) (ground arith)
      ]

  has_key-append :
      (k : Bytes) (xs ys : List (Finding D)) → has_key k (xs ++ ys) ≡ (has_key k xs || has_key k ys)
  has_key-append k [] ys = refl
  has_key-append k (x ∷ xs) ys = ground (arith, has_key-append k xs ys)

  combine-misses :
      (f x : Finding D) (xs : List (Finding D))
      → bytes_eq (finding_identity f) (finding_identity x) ≡ false
      → has_key (finding_identity x) xs ≡ false
      → has_key (finding_identity x) (combine fp f xs) ≡ false
  combine-misses f x xs e h = ground (
    arith,
    has_key-combine (finding_identity x) f xs,
    bytes_eq_iff (finding_identity f) (finding_identity x),
    bytes_eq_iff (finding_identity x) (finding_identity f),
  )

  IsDistinct-combine :
      (f : Finding D) (xs : List (Finding D)) → IsDistinct xs → IsDistinct (combine fp f xs)
  unfolding combine
  IsDistinct-combine f [] h = (refl, tt)
  IsDistinct-combine f (x ∷ xs) h =
      elim (Bool-cases (bytes_eq (finding_identity f) (finding_identity x))) [
        | inl e ↦ rw e (rw (merge-identity fp f x e) h)
        | inr e ↦ rw e (combine-misses f x xs e h.0, IsDistinct-combine f xs h.1)
      ]

  IsDistinct-combine_all :
      (fs xs : List (Finding D)) → IsDistinct xs → IsDistinct (combine_all fp xs fs)
  unfolding combine_all
  IsDistinct-combine_all [] xs h = h
  IsDistinct-combine_all (f ∷ fs) xs h =
      IsDistinct-combine_all fs (combine fp f xs) (IsDistinct-combine f xs h)

  -- No two findings of the result have the same identity.
  pub deduplicate_findings-IsDistinct :
      (fs : List (Finding D)) → IsDistinct (deduplicate_findings fp fs)
  deduplicate_findings-IsDistinct fs =
      rw (deduplicate_findings-combine_all fp fs) (IsDistinct-combine_all fs [] tt)

  has_key-combine_all :
      (k : Bytes) (fs xs : List (Finding D))
      → has_key k (combine_all fp xs fs) ≡ (has_key k xs || has_key k fs)
  unfolding combine_all
  has_key-combine_all k [] xs = ground arith
  has_key-combine_all k (f ∷ fs) xs =
      ground (arith, has_key-combine_all k fs (combine fp f xs), has_key-combine k f xs)

  -- An identity occurs in the result exactly when it occurs in the input: deduplication loses no
  -- issue and invents none.
  pub deduplicate_findings-has_key :
      (k : Bytes) (fs : List (Finding D)) → has_key k (deduplicate_findings fp fs) ≡ has_key k fs
  deduplicate_findings-has_key k fs =
      rw (deduplicate_findings-combine_all fp fs) (has_key-combine_all k fs [])

  combine-fresh :
      (f : Finding D) (xs : List (Finding D))
      → has_key (finding_identity f) xs ≡ false
      → combine fp f xs ≡ xs ++ f ∷ []
  unfolding combine
  combine-fresh f [] h = refl
  combine-fresh f (x ∷ xs) h = ground (arith, combine-fresh f xs)

  distinct-fresh :
      (f : Finding D) (fs xs : List (Finding D))
      → IsDistinct (xs ++ f ∷ fs)
      → has_key (finding_identity f) xs ≡ false
  distinct-fresh f fs [] h = refl
  distinct-fresh f fs (x ∷ xs) h = ground (
    arith,
    distinct-fresh f fs xs h.1,
    has_key-append (finding_identity x) xs (f ∷ fs),
    bytes_eq_iff (finding_identity f) (finding_identity x),
    bytes_eq_iff (finding_identity x) (finding_identity f),
  )

  combine_all-IsDistinct :
      (fs xs : List (Finding D)) → IsDistinct (xs ++ fs) → combine_all fp xs fs ≡ xs ++ fs
  unfolding combine_all
  combine_all-IsDistinct [] xs h = sym (append-nil xs)
  combine_all-IsDistinct (f ∷ fs) xs h = rw (combine-fresh f xs (distinct-fresh f fs xs h)) (
      combine_all-IsDistinct fs (xs ++ f ∷ []) (rw (append_assoc xs (f ∷ []) fs) h)
      ∙ append_assoc xs (f ∷ []) fs)

  -- Deduplicating twice is deduplicating once.
  deduplicate_findings_idem :
      (fs : List (Finding D))
      → deduplicate_findings fp (deduplicate_findings fp fs) ≡ deduplicate_findings fp fs
  deduplicate_findings_idem fs =
      deduplicate_findings-combine_all fp (deduplicate_findings fp fs)
      ∙ combine_all-IsDistinct (deduplicate_findings fp fs) [] (deduplicate_findings-IsDistinct fs)

  merge-rank :
      (f x : Finding D)
      → HasEvidence x
      → verification_rank (merge fp f x).verification
        ≡ max (verification_rank x.verification) (verification_rank f.verification)
  unfolding merge is_better
  merge-rank f x h = ground arith

  merge-HasEvidence : (f x : Finding D) → HasEvidence f → HasEvidence x → HasEvidence (merge fp f x)
  unfolding merge is_better
  merge-HasEvidence f x h k = ground arith

  combine-HasEvidence :
      (f : Finding D) (xs : List (Finding D))
      → HasEvidence f
      → All HasEvidence xs
      → All HasEvidence (combine fp f xs)
  unfolding combine
  combine-HasEvidence f [] h k = (h, tt)
  combine-HasEvidence f (x ∷ xs) h k =
      elim (Bool-cases (bytes_eq (finding_identity f) (finding_identity x))) [
        | inl e ↦ rw e (merge-HasEvidence f x h k.0, k.1)
        | inr e ↦ rw e (k.0, combine-HasEvidence f xs h k.1)
      ]

  top_rank-combine :
      (k : Bytes) (f : Finding D) (xs : List (Finding D))
      → All HasEvidence xs
      → top_rank k (combine fp f xs) ≡ max (top_rank k (f ∷ [])) (top_rank k xs)
  unfolding combine
  top_rank-combine k f [] h = omega arith
  top_rank-combine k f (x ∷ xs) h =
      elim (Bool-cases (bytes_eq (finding_identity f) (finding_identity x))) [
        | inl e ↦
            rw (e, merge-identity fp f x e)
              (ground (
                arith,
                merge-rank f x h.0,
                (bytes_eq_iff (finding_identity f) (finding_identity x)).0 e,
              ))
        | inr e ↦ rw (e, top_rank-combine k f xs h.1) (omega arith)
      ]

  top_rank-combine_all :
      (k : Bytes) (fs xs : List (Finding D))
      → All HasEvidence xs
      → All HasEvidence fs
      → top_rank k (combine_all fp xs fs) ≡ max (top_rank k xs) (top_rank k fs)
  unfolding combine_all
  top_rank-combine_all k [] xs h h' = omega arith
  top_rank-combine_all k (f ∷ fs) xs h h' =
      top_rank-combine_all k fs (combine fp f xs) (combine-HasEvidence f xs h'.0 h) h'.1
      ∙ rw (top_rank-combine k f xs h) (omega arith)

  -- If every finding carries evidence, the finding that is kept for an identity is verified as far
  -- as the best one of that identity in the input.
  pub deduplicate_findings-top_rank :
      (k : Bytes) (fs : List (Finding D))
      → All HasEvidence fs
      → top_rank k (deduplicate_findings fp fs) ≡ top_rank k fs
  deduplicate_findings-top_rank k fs h =
      rw (deduplicate_findings-combine_all fp fs)
        (top_rank-combine_all k fs [] tt h ∙ (omega arith))

  downgrade :
      (f g : Finding D)
      → finding_identity f ≡ finding_identity g
      → is_empty f.evidence ≡ true
      → bytes_eq (finding_identity g) (finding_identity f) ≡ true
      → top_rank (finding_identity f) (combine_all fp [] (f ∷ g ∷ []))
        ≡ verification_rank g.verification
  unfolding combine_all combine merge
  downgrade f g e h b =
      rw (b, merge-identity fp g f b, bytes_eq_refl (finding_identity f), h) (ground arith)

  -- Of two findings of one identity, where the first has no evidence, the result of deduplicating the
  -- list of the two is verified as far as the second, however far the first one was.
  pub deduplicate_findings_downgrade :
      (f g : Finding D)
      → finding_identity f ≡ finding_identity g
      → is_empty f.evidence ≡ true
      → top_rank (finding_identity f) (deduplicate_findings fp (f ∷ g ∷ []))
        ≡ verification_rank g.verification
  deduplicate_findings_downgrade f g e h =
      rw (deduplicate_findings-combine_all fp (f ∷ g ∷ []))
        (downgrade f g e h ((bytes_eq_iff (finding_identity g) (finding_identity f)).1 (sym e)))
