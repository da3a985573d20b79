-- ===== src/Backport/Total.antt =====
-- `check_backport` ends on every port and table whose version texts hold no '\0'.
use zero_trust_public.Base.{
  ℕ, zero, suc, ◌+◌, ◌-◌, ◌≡◌, refl, Bool, true, false, not, ◌&&◌, List, [], ◌∷◌, ◌++◌, Bytes,
  codes, is_empty, if◌then◌else◌, Option, none, some, ◌==◌, leb, length, take, drop, Bool-cases,
  inl, inr, All, All-append, split_first, split_last, strip_prefix, contains, filter_by, cons_if,
}
use zero_trust_public.Finding.{Port}
use zero_trust_public.Version.{Cmp, less, equal, greater}
use zero_trust_public.Dpkg.{DpkgVersion, parse_dpkg_version, split_epoch, with_revision, all_digits}
use zero_trust_public.Dpkg.Total.{NoNul, dpkg_compare_str_total}
use zero_trust_public.Backport.{
  DistroFix, FixTable, distro_fix_key, BackportOutcome, no_backport, Verdict, not_affected,
  passed_over, fixes, revision_verdict, upstream_verdict, row_verdict, after_verdict, check_rows,
  check_backport, parse_distro_tag, inside_parens, strip, to_lower,
}
use zero_trust_public.Backport.Index.{IsIndexed, has_fix_key}
use zero_trust_public.Backport.Rows.{installed, is_tagged, check_backport-rows}

module _ (P : ℕ → Type 0) where
  All-take : (n : ℕ) (s : Bytes) → All P s → All P (take n s)
  All-take zero s h = tt
  All-take (suc n) [] h = tt
  All-take (suc n) (c ∷ s) h = (h.0, All-take n s h.1)

  All-drop : (n : ℕ) (s : Bytes) → All P s → All P (drop n s)
  All-drop zero s h = h
  All-drop (suc n) [] h = tt
  All-drop (suc n) (c ∷ s) h = All-drop n s h.1

  -- Both parts of a split keep what holds of every byte.
  abbrev BothHold : Option (Bytes × Bytes) → Type 0
  BothHold none = Unit
  BothHold (some (a, b)) = All P a × All P b

  All-split_first : (c : ℕ) (s : Bytes) → All P s → BothHold (split_first c s)
  unfolding split_first
  All-split_first c [] h = tt
  All-split_first c (x ∷ s) h = elim (Bool-cases (x == c)) [
    | inl e ↦ rw e (tt, h.1)
    | inr e ↦ rw e (put (split_first c s) (All-split_first c s h.1))
  ]
    where
      put :
          (o : Option (Bytes × Bytes))
          → BothHold o
          → BothHold (elim o [ none ↦ none | some (a, b) ↦ some (x ∷ a, b) ])
      put none k = tt
      put (some (a, b)) k = ((h.0, k.0), k.1)

  All-split_last : (c : ℕ) (s : Bytes) → All P s → BothHold (split_last c s)
  unfolding split_last
  All-split_last c [] h = tt
  All-split_last c (x ∷ s) h = put (split_last c s) (All-split_last c s h.1)
    where
      put :
          (o : Option (Bytes × Bytes))
          → BothHold o
          → BothHold (elim o [
            | some (a, b) ↦ some (x ∷ a, b)
            | none ↦ if x == c then some ([], s) else none
          ])
      put (some (a, b)) k = ((h.0, k.0), k.1)
      put none k = elim (Bool-cases (x == c)) [ inl e ↦ rw e (tt, h.1) | inr e ↦ rw e tt ]

  abbrev RestHolds : Option Bytes → Type 0
  RestHolds none = Unit
  RestHolds (some r) = All P r

  All-strip_prefix : (p s : Bytes) → All P s → RestHolds (strip_prefix p s)
  unfolding strip_prefix
  All-strip_prefix [] s h = h
  All-strip_prefix (c ∷ p) [] h = tt
  All-strip_prefix (c ∷ p) (x ∷ s) h = elim (Bool-cases (c == x)) [
    | inl e ↦ rw e (All-strip_prefix p s h.1)
    | inr e ↦ rw e tt
  ]

  All-strip : (p s : Bytes) → All P s → All P (strip p s)
  unfolding strip
  All-strip p s h = put (strip_prefix p s) (All-strip_prefix p s h)
    where
      put : (o : Option Bytes) → RestHolds o → All P (elim o [ none ↦ s | some rest ↦ rest ])
      put none k = h
      put (some r) k = k

  All-inside_parens :
      (tag : Bytes) (o c : Option (Bytes × Bytes)) → All P tag → All P (inside_parens tag o c)
  unfolding inside_parens
  All-inside_parens tag none c h = tt
  All-inside_parens tag (some (a, b)) none h = tt
  All-inside_parens tag (some (a, b)) (some (x, y)) h =
      elim (Bool-cases (leb (length x) (length a + 1))) [
        | inl e ↦ rw e tt
        | inr e ↦ rw e (
            All-strip (codes "Debian-") _ (
              All-strip (codes "Ubuntu-") _
                (All-take (length x - length a - 1) _ (All-drop (length a + 1) tag h))))
      ]

  All-revision : (tag : Bytes) → All P tag → All P (parse_distro_tag tag).revision
  unfolding parse_distro_tag
  All-revision tag h = elim (Bool-cases (contains (codes "ubuntu") (to_lower tag))) [
    | inl e ↦ rw e (All-inside_parens tag (split_last b'(' tag) (split_last b')' tag) h)
    | inr e ↦ elim (Bool-cases (contains (codes "debian") (to_lower tag))) [
      | inl e' ↦ rw (e, e') (All-inside_parens tag (split_last b'(' tag) (split_last b')' tag) h)
      | inr e' ↦ rw (e, e') tt
    ]
  ]

  All-with_revision :
      (e rest : Bytes) (o : Option (Bytes × Bytes))
      → All P rest
      → BothHold o
      → All P (with_revision e rest o).upstream × All P (with_revision e rest o).revision
  unfolding with_revision
  All-with_revision e rest none h k = (h, tt)
  All-with_revision e rest (some (u, r)) h k = k

  All-split_epoch : (raw : Bytes) → All P raw → All P (split_epoch raw).1
  unfolding split_epoch
  All-split_epoch raw h = put (split_first b':' raw) (All-split_first b':' raw h)
    where
      put :
          (o : Option (Bytes × Bytes))
          → BothHold o
          → All P (
              let p : Bytes × Bytes = elim o [
                | none ↦ ([], raw)
                | some (e, rest) ↦ if not (is_empty e) && all_digits e then (e, rest) else ([], raw)
              ] in
              p.1)
      put none k = h
      put (some (e, rest)) k = elim (Bool-cases (not (is_empty e) && all_digits e)) [
        | inl q ↦ rw q k.1
        | inr q ↦ rw q h
      ]

  All-parse_dpkg_version :
      (raw : Bytes)
      → All P raw
      → All P (parse_dpkg_version raw).upstream × All P (parse_dpkg_version raw).revision
  unfolding parse_dpkg_version
  All-parse_dpkg_version raw h =
      All-with_revision (split_epoch raw).0 (split_epoch raw).1 _ (All-split_epoch raw h)
        (All-split_last b'-' (split_epoch raw).1 (All-split_epoch raw h))

abbrev HasVerdict : Option Verdict → Type 0
HasVerdict o = (v : Verdict) × (o ≡ some v)

revision_verdict_total :
    (o : Option Cmp) → (c : Cmp) × (o ≡ some c) → HasVerdict (revision_verdict o)
unfolding revision_verdict
revision_verdict_total none (c, e) = cc
revision_verdict_total (some less) h = (passed_over, refl)
revision_verdict_total (some equal) h = (fixes, refl)
revision_verdict_total (some greater) h = (fixes, refl)

upstream_verdict_total :
    (later : Option Verdict) (o : Option Cmp)
    → HasVerdict later
    → (c : Cmp) × (o ≡ some c)
    → HasVerdict (upstream_verdict later o)
unfolding upstream_verdict
upstream_verdict_total later none h (c, e) = cc
upstream_verdict_total later (some equal) h k = h
upstream_verdict_total later (some less) h k = (passed_over, refl)
upstream_verdict_total later (some greater) h k = (passed_over, refl)

tests_total :
    (a b : Bool) (later : Option Verdict)
    → HasVerdict later
    → HasVerdict (if a then some not_affected else if b then some passed_over else later)
tests_total true b later h = (not_affected, refl)
tests_total false true later h = (passed_over, refl)
tests_total false false later h = h

abbrev pub FixNoNul : DistroFix → Type 0
FixNoNul fix = NoNul fix.fixed_version

row_verdict_total :
    (iv : DpkgVersion) (fix : DistroFix)
    → NoNul iv.upstream
    → NoNul iv.revision
    → FixNoNul fix
    → HasVerdict (row_verdict iv fix)
unfolding row_verdict
row_verdict_total iv fix u r h =
    let fv = All-parse_dpkg_version (λ c. (c == 0) ≡ false) fix.fixed_version h in
    tests_total _ _ _ (
      upstream_verdict_total _ _
        (revision_verdict_total _ (dpkg_compare_str_total iv.revision _ r fv.1))
        (dpkg_compare_str_total _ iv.upstream fv.0 u))

after_verdict_total :
    (distro : Bytes) (result : BackportOutcome) (fix : DistroFix)
    (more : BackportOutcome → Option BackportOutcome) (v : Option Verdict)
    → HasVerdict v
    → ((r : BackportOutcome) → (out : BackportOutcome) × (more r ≡ some out))
    → (out : BackportOutcome) × (after_verdict distro result fix more v ≡ some out)
unfolding after_verdict
after_verdict_total distro result fix more none (v, e) h = cc
after_verdict_total distro result fix more (some not_affected) k h = h _
after_verdict_total distro result fix more (some passed_over) k h = h result
after_verdict_total distro result fix more (some fixes) k h = (_, refl)

check_rows_total :
    (distro : Bytes) (iv : DpkgVersion) (rows : List DistroFix) (result : BackportOutcome)
    → NoNul iv.upstream
    → NoNul iv.revision
    → All FixNoNul rows
    → (out : BackportOutcome) × (check_rows distro iv result rows ≡ some out)
unfolding check_rows
check_rows_total distro iv [] result u r h = (result, refl)
check_rows_total distro iv (fix ∷ rows) result u r h =
    after_verdict_total distro result fix _ (row_verdict iv fix) (row_verdict_total iv fix u r h.0)
      (λ res. check_rows_total distro iv rows res u r h.1)

All-filter_by :
    {A : Type 0} (P : A → Type 0) (p : A → Bool) (xs : List A) → All P xs → All P (filter_by p xs)
All-filter_by P p [] h = tt
All-filter_by P p (x ∷ xs) h = kept (p x) (All-filter_by P p xs h.1)
  where
    kept : (b : Bool) → All P (filter_by p xs) → All P (cons_if b x (filter_by p xs))
    kept true k = (h.0, k)
    kept false k = k

-- On a table that its index fits, the check returns an outcome if no '\0' stands in the port's
-- version and distribution tag and in the fixed versions of the table.
pub check_backport_total :
    (t : FixTable) (cve : Bytes) (port : Port)
    → IsIndexed t
    → NoNul port.version
    → NoNul port.distro
    → All FixNoNul t.table
    → (out : BackportOutcome) × (check_backport t cve port ≡ some out)
check_backport_total t cve port inv v d h =
    rw (check_backport-rows t cve port inv) (tagged (is_tagged port))
  where
    bytes : NoNul (port.version ++ (b'-' ∷ (parse_distro_tag port.distro).revision))
    bytes =
        All-append (λ c. (c == 0) ≡ false) port.version _ v
          (refl, All-revision (λ c. (c == 0) ≡ false) port.distro d)

    parts : NoNul (installed port).upstream × NoNul (installed port).revision
    parts = All-parse_dpkg_version (λ c. (c == 0) ≡ false) _ bytes

    tagged :
        (b : Bool)
        → (out : BackportOutcome) × ((if b
              then check_rows (parse_distro_tag port.distro).distro (installed port) no_backport (
                  filter_by
                    (has_fix_key (distro_fix_key cve (parse_distro_tag port.distro).distro))
                    t.table)
              else some no_backport)
            ≡ some out)
    tagged true =
        check_rows_total _ (installed port) _ no_backport parts.0 parts.1
          (All-filter_by FixNoNul _ t.table h)
    tagged false = (no_backport, refl)
