-- ===== src/Backport.antt =====
-- src/scan/cve.cpp: the table of distribution fixes (load_distro_fixes), the distribution tag of a
-- port (parse_distro_tag) and the question whether an installed package is already patched
-- (check_backport).
pub mod Index
pub mod Rows
pub mod Total
use zero_trust_public.Base.{
  ℕ, zero, suc, ◌+◌, ◌-◌, Bool, true, false, not, ◌&&◌, ◌||◌, List, [], ◌∷◌, ◌++◌, map, Bytes,
  codes, bytes_eq, is_empty, if◌then◌else◌, Option, none, some, leb, ◌==◌, length, get_elem?, take,
  drop, lower, contains, split_last, split_by, strip_prefix,
}
use zero_trust_public.Finding.{Port}
use zero_trust_public.Version.{Cmp, less, equal, greater}
use zero_trust_public.Dpkg.{DpkgVersion, parse_dpkg_version, dpkg_compare_str}

unfoldable pub to_lower : Bytes → Bytes
to_lower s = map lower s

pub record DistroFix : Type 0 where
  pub cve : Bytes
  pub distro : Bytes
  pub release : Bytes
  pub package_name : Bytes
  pub fixed_version : Bytes
  pub status : Bytes

-- `distro_fix_table` and `distro_fix_index`.
pub record FixTable : Type 0 where
  pub table : List DistroFix
  pub index : List (Bytes × List ℕ)

unfoldable pub distro_fix_key : Bytes → Bytes → Bytes
distro_fix_key cve distro = cve ++ (b'|' ∷ to_lower distro)

-- `distro_fix_index[key].push_back(i)`
unfoldable pub add_index : Bytes → ℕ → List (Bytes × List ℕ) → List (Bytes × List ℕ)
add_index k i [] = (k, i ∷ []) ∷ []
add_index k i ((j, is) ∷ m) =
    let later = add_index k i m in if bytes_eq k j then (j, is ++ i ∷ []) ∷ m else (j, is) ∷ later

-- `distro_fix_index.find(key)`
unfoldable pub find_index : Bytes → List (Bytes × List ℕ) → Option (List ℕ)
find_index k [] = none
find_index k ((j, is) ∷ m) = let later = find_index k m in if bytes_eq k j then some is else later

-- The row of a line with six fields or more.
unfoldable pub fix_of_fields : List Bytes → Option DistroFix
fix_of_fields (c ∷ d ∷ r ∷ p ∷ v ∷ s ∷ _) = some (record {
  cve = c;
  distro = to_lower d;
  release = r;
  package_name = p;
  fixed_version = v;
  status = to_lower s;
})
fix_of_fields _ = none

-- A line that is empty or a comment is passed over.
unfoldable pub is_skipped : Bytes → Bool
is_skipped [] = true
is_skipped (c ∷ _) = c == b'#'

unfoldable pub add_row : FixTable → DistroFix → FixTable
add_row t fix = record {
  table = t.table ++ fix ∷ [];
  index = add_index (distro_fix_key fix.cve fix.distro) (length t.table) t.index;
}

add_fields : FixTable → Option DistroFix → FixTable
add_fields t none = t
add_fields t (some fix) = add_row t fix

unfoldable pub load_lines : FixTable → List Bytes → FixTable
unfolding add_fields
load_lines t [] = t
load_lines t (line ∷ lines) =
    load_lines (if is_skipped line then t else add_fields t (fix_of_fields (split_by b'\t' line)))
      lines

-- The content of the file, or none if it cannot be opened.
unfoldable pub load_distro_fixes : FixTable → Option Bytes → FixTable
unfolding load_lines
load_distro_fixes t none = t
load_distro_fixes t (some text) =
    load_lines (record { table = []; index = [] }) (split_by b'\n' text)

pub record DistroTag : Type 0 where
  pub distro : Bytes
  pub revision : Bytes

-- The lambda `strip`.
strip : Bytes → Bytes → Bytes
strip p s = elim (strip_prefix p s) [ none ↦ s | some rest ↦ rest ]

-- The text inside the last "(...)" without a leading "Ubuntu-" or "Debian-"; empty without one.
inside_parens : Bytes → Option (Bytes × Bytes) → Option (Bytes × Bytes) → Bytes
inside_parens tag (some (before_open, _)) (some (before_close, _)) =
    let from = length before_open in
    let to = length before_close in
    if leb to (from + 1)
    then []
    else strip (codes "Debian-")
        (strip (codes "Ubuntu-") (take (to - from - 1) (drop (from + 1) tag)))
inside_parens tag _ _ = []

unfoldable pub parse_distro_tag : Bytes → DistroTag
unfolding inside_parens strip
parse_distro_tag tag =
    let found = inside_parens tag (split_last b'(' tag) (split_last b')' tag) in
    if contains (codes "ubuntu") (to_lower tag)
    then record { distro = codes "ubuntu"; revision = found }
    else if contains (codes "debian") (to_lower tag)
    then record { distro = codes "debian"; revision = found }
    else record { distro = []; revision = [] }

pub record BackportOutcome : Type 0 where
  pub patched : Bool
  pub release_not_affected : Bool
  pub via : Bytes

abbrev pub no_backport : BackportOutcome
no_backport = record { patched = false; release_not_affected = false; via = [] }

unfoldable pub has_fix : Bytes → Bool
has_fix status =
    bytes_eq status (codes "released")
    || bytes_eq status (codes "resolved")
    || bytes_eq status (codes "fixed")

-- What one row says of the installed version.
pub data Verdict : Type 0 where
  not_affected passed_over fixes : Verdict

-- On the upstream versions compared, and then the revisions.
revision_verdict : Option Cmp → Option Verdict
revision_verdict none = none
revision_verdict (some less) = some passed_over
revision_verdict (some _) = some fixes

upstream_verdict : Option Verdict → Option Cmp → Option Verdict
upstream_verdict later none = none
upstream_verdict later (some equal) = later
upstream_verdict later (some _) = some passed_over

-- none: the comparison does not end.
unfoldable pub row_verdict : DpkgVersion → DistroFix → Option Verdict
unfolding revision_verdict upstream_verdict
row_verdict iv fix =
    let fv = parse_dpkg_version fix.fixed_version in
    let by_revision = revision_verdict (dpkg_compare_str iv.revision fv.revision) in
    let compared = upstream_verdict by_revision (dpkg_compare_str fv.upstream iv.upstream) in
    if bytes_eq fix.status (codes "not-affected")
    then some not_affected
    else if not (has_fix fix.status) || is_empty fix.fixed_version
    then some passed_over
    else compared

-- The evidence text.
unfoldable pub via_text : Bytes → DistroFix → Bytes
via_text distro fix =
    distro
    ++ (b' ' ∷ fix.release)
    ++ (codes ": " ++ (fix.package_name ++ (b' ' ∷ fix.fixed_version)))

-- What follows from a row: an early return, or the rows that are left.
after_verdict :
    Bytes
    → BackportOutcome
    → DistroFix
    → (BackportOutcome → Option BackportOutcome)
    → Option Verdict
    → Option BackportOutcome
after_verdict distro result fix more none = none
after_verdict distro result fix more (some not_affected) =
    more (record result { release_not_affected = true })
after_verdict distro result fix more (some passed_over) = more result
after_verdict distro result fix more (some fixes) =
    some (record result { patched = true; via = via_text distro fix })

-- The loop over the rows of the index entry.
unfoldable pub check_rows :
    Bytes → DpkgVersion → BackportOutcome → List DistroFix → Option BackportOutcome
unfolding after_verdict
check_rows distro iv result [] = some result
check_rows distro iv result (fix ∷ rows) =
    after_verdict distro result fix (λ r. check_rows distro iv r rows) (row_verdict iv fix)

unfoldable pub cons_row : Option DistroFix → List DistroFix → List DistroFix
cons_row none rows = rows
cons_row (some r) rows = r ∷ rows

-- `distro_fix_table[idx]` for each index; none of them is out of range (Backport/Index).
unfoldable pub rows_at : List DistroFix → List ℕ → List DistroFix
rows_at table [] = []
rows_at table (i ∷ is) = cons_row (get_elem? table i) (rows_at table is)

check_found : FixTable → Bytes → DpkgVersion → Option (List ℕ) → Option BackportOutcome
check_found t distro iv none = some no_backport
check_found t distro iv (some is) = check_rows distro iv no_backport (rows_at t.table is)

unfoldable pub check_backport : FixTable → Bytes → Port → Option BackportOutcome
unfolding check_found
check_backport t cve_id port =
    let tag = parse_distro_tag port.distro in
    let iv = parse_dpkg_version (port.version ++ (b'-' ∷ tag.revision)) in
    let found =
      check_found t tag.distro iv (find_index (distro_fix_key cve_id tag.distro) t.index) in
    if is_empty port.version || is_empty port.distro
    then some no_backport
    else if is_empty tag.distro || is_empty tag.revision
    then some no_backport
    else found
