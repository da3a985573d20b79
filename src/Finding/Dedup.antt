-- ===== src/Finding/Dedup.antt =====
-- src/include/finding.h: `deduplicate_findings`, with its vector of unique findings and its map
-- from identities to positions.
pub mod Reference
pub mod Laws
use zero_trust_public.Base.{
  ℕ, zero, suc, ◌+◌, Bool, true, false, ◌&&◌, ◌||◌, List, [], ◌∷◌, ◌++◌, Bytes, bytes_eq, is_empty,
  if◌then◌else◌, Option, none, some, ltb, ◌==◌, length, Floats,
}
use zero_trust_public.Finding.{Finding, finding_identity, verification_rank}

-- `positions.find(key)`
unfoldable pub find_position : Bytes → List (Bytes × ℕ) → Option ℕ
find_position k [] = none
find_position k ((j, i) ∷ m) =
    let later = find_position k m in if bytes_eq k j then some i else later

-- `unique[i]` replaced by what the function makes of it.
unfoldable pub modify {ℓ} : {A : Type ℓ} → ℕ → (A → A) → List A → List A
modify i g [] = []
modify zero g (x ∷ xs) = g x ∷ xs
modify (suc i) g (x ∷ xs) = x ∷ modify i g xs

pub record Dedup (D : Type 0) : Type 0 where
  pub unique : List (Finding D)
  pub positions : List (Bytes × ℕ)

module _ {D : Type 0} (fp : Floats D) where
  -- `better`: the finding is verified further than the current one, or as far and surer.
  unfoldable pub is_better : Finding D → Finding D → Bool
  is_better current finding =
      let new = verification_rank finding.verification in
      let old = verification_rank current.verification in
      ltb old new || (new == old && fp.greater finding.confidence_score current.confidence_score)

  -- What becomes of `current` when a finding of its identity comes.
  unfoldable pub merge : Finding D → Finding D → Finding D
  merge finding current =
      if is_better current finding || is_empty current.evidence
      then record finding {
        evidence = if is_empty finding.evidence then current.evidence else finding.evidence;
        description =
            if is_empty finding.description then current.description else finding.description;
      }
      else current

  place : Dedup D → Finding D → Bytes → Option ℕ → Dedup D
  place d f key none = record {
    unique = d.unique ++ f ∷ [];
    positions = d.positions ++ (key, length d.unique) ∷ [];
  }
  place d f key (some i) = record d { unique = modify i (merge f) d.unique }

  -- One round of the loop.
  unfoldable pub dedup_step : Dedup D → Finding D → Dedup D
  unfolding place
  dedup_step d f = place d f (finding_identity f) (find_position (finding_identity f) d.positions)

  unfoldable pub dedup_loop : Dedup D → List (Finding D) → Dedup D
  dedup_loop d [] = d
  dedup_loop d (f ∷ fs) = dedup_loop (dedup_step d f) fs

  unfoldable pub deduplicate_findings : List (Finding D) → List (Finding D)
  unfolding dedup_loop
  deduplicate_findings fs = (dedup_loop (record { unique = []; positions = [] }) fs).unique
