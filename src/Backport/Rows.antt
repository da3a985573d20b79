-- ===== src/Backport/Rows.antt =====
-- What `check_backport` concludes from the rows of the table: "patched" rests on a row whose fix is
-- installed, and every such row is found.
use zero_trust_public.Base.{
  ℕ, ◌≡◌, ◌≢◌, refl, sym, ap, ◌∙◌, Bool, true, false, not, ◌&&◌, ◌||◌, List, [], ◌∷◌, ◌++◌, Bytes,
  is_empty, if◌then◌else◌, Option, none, some, arith, inl, inr, filter_by, cons_if, ◌⊎◌,
}
use zero_trust_public.Finding.{Port}
use zero_trust_public.Version.{Cmp, less, equal, greater}
use zero_trust_public.Dpkg.{DpkgVersion, parse_dpkg_version, dpkg_compare_str}
use zero_trust_public.Backport.{
  DistroFix, FixTable, distro_fix_key, BackportOutcome, no_backport, has_fix, Verdict, not_affected,
  passed_over, fixes, revision_verdict, upstream_verdict, row_verdict, via_text, after_verdict,
  check_rows, check_found, check_backport, parse_distro_tag, find_index, rows_at,
}
use zero_trust_public.Backport.Index.{IsIndexed, has_fix_key, indexed_rows, entry_or_nil}

-- The element occurs in the list.
abbrev pub In : {A : Type 0} → A → List A → Type 0
In x [] = ⊥
In x (y ∷ ys) = (x ≡ y) ⊎ In x ys

In-filter_by :
    {A : Type 0} (p : A → Bool) (x : A) (xs : List A)
    → In x (filter_by p xs)
    → In x xs × (p x ≡ true)
In-filter_by p x [] h = absurd h
In-filter_by p x (y ∷ ys) h = kept (p y) refl h (In-filter_by p x ys)
  where
    kept :
        (b : Bool)
        → p y ≡ b
        → In x (cons_if b y (filter_by p ys))
        → (In x (filter_by p ys) → In x ys × (p x ≡ true))
        → In x (y ∷ ys) × (p x ≡ true)
    kept true e (inl q) ih = (inl q, ap p q ∙ e)
    kept true e (inr later) ih = (inr (ih later).0, (ih later).1)
    kept false e later ih = (inr (ih later).0, (ih later).1)

-- The row ships a fix for the installed upstream version, at or below the installed revision.
pub record IsInstalled (iv : DpkgVersion) (fix : DistroFix) : Type 0 where
  ships_fix : has_fix fix.status ≡ true
  same_upstream :
      dpkg_compare_str (parse_dpkg_version fix.fixed_version).upstream iv.upstream ≡ some equal
  pub verdict : Cmp
  pub compared :
      dpkg_compare_str iv.revision (parse_dpkg_version fix.fixed_version).revision ≡ some verdict
  not_older : verdict ≢ less

upstream_fixes :
    (later : Option Verdict) (o : Option Cmp)
    → upstream_verdict later o ≡ some fixes
    → (o ≡ some equal) × (later ≡ some fixes)
unfolding upstream_verdict
upstream_fixes later none h = cc
upstream_fixes later (some equal) h = (refl, h)
upstream_fixes later (some less) h = cc
upstream_fixes later (some greater) h = cc

revision_fixes :
    (o : Option Cmp) → revision_verdict o ≡ some fixes → (c : Cmp) × (o ≡ some c) × (c ≢ less)
unfolding revision_verdict
revision_fixes none h = cc
revision_fixes (some less) h = cc
revision_fixes (some equal) h = (equal, refl, cc)
revision_fixes (some greater) h = (greater, refl, cc)

row_tests :
    (a b : Bool) (later : Option Verdict)
    → (if a then some not_affected else if b then some passed_over else later) ≡ some fixes
    → (b ≡ false) × (later ≡ some fixes)
row_tests true b later h = cc
row_tests false true later h = cc
row_tests false false later h = (refl, h)

row_verdict-IsInstalled :
    (iv : DpkgVersion) (fix : DistroFix) → row_verdict iv fix ≡ some fixes → IsInstalled iv fix
unfolding row_verdict
row_verdict-IsInstalled iv fix h =
    let r = row_tests _ (not (has_fix fix.status) || is_empty fix.fixed_version) _ h in
    let u = upstream_fixes _ _ r.1 in
    let (c, e, ne) = revision_fixes _ u.1 in
    record {
      ships_fix = ground arith;
      same_upstream = u.0;
      verdict = c;
      compared = e;
      not_older = ne;
    }

-- A row that answers for an outcome.
abbrev Evidenced : Bytes → DpkgVersion → List DistroFix → BackportOutcome → Type 0
Evidenced distro iv rows out =
    (fix : DistroFix) × In fix rows
    × (row_verdict iv fix ≡ some fixes)
    × (out.via ≡ via_text distro fix)

Evidenced-cons :
    (distro : Bytes) (iv : DpkgVersion) (r : DistroFix) (rows : List DistroFix)
    (out : BackportOutcome)
    → Evidenced distro iv rows out
    → Evidenced distro iv (r ∷ rows) out
Evidenced-cons distro iv r rows out (fix, i, v, e) = (fix, inr i, v, e)

after_verdict_sound :
    (distro : Bytes) (iv : DpkgVersion) (result : BackportOutcome) (fix : DistroFix)
    (rows : List DistroFix) (more : BackportOutcome → Option BackportOutcome)
    {out : BackportOutcome} (v : Option Verdict)
    → row_verdict iv fix ≡ v
    → result.patched ≡ false
    → ((r : BackportOutcome) → r.patched ≡ false → more r ≡ some out → Evidenced distro iv rows out)
    → after_verdict distro result fix more v ≡ some out
    → Evidenced distro iv (fix ∷ rows) out
unfolding after_verdict
after_verdict_sound distro iv result fix rows more none q h later e = cc
after_verdict_sound distro iv result fix rows more {out} (some not_affected) q h later e =
    Evidenced-cons distro iv fix rows out (later _ h e)
after_verdict_sound distro iv result fix rows more {out} (some passed_over) q h later e =
    Evidenced-cons distro iv fix rows out (later result h e)
after_verdict_sound distro iv result fix rows more (some fixes) q h later e = (fix, inl refl, q, cc)

check_rows_sound :
    (distro : Bytes) (iv : DpkgVersion) (rows : List DistroFix) (result : BackportOutcome)
    {out : BackportOutcome}
    → result.patched ≡ false
    → out.patched ≡ true
    → check_rows distro iv result rows ≡ some out
    → Evidenced distro iv rows out
unfolding check_rows
check_rows_sound distro iv [] result h p e = cc
check_rows_sound distro iv (fix ∷ rows) result h p e =
    after_verdict_sound distro iv result fix rows (λ r. check_rows distro iv r rows)
      (row_verdict iv fix) refl h (λ r k e'. check_rows_sound distro iv rows r k p e') e

-- The installed package of a port, as `check_backport` reads it.
abbrev pub installed : Port → DpkgVersion
installed port =
    parse_dpkg_version (port.version ++ (b'-' ∷ (parse_distro_tag port.distro).revision))

-- What the early returns ask for: a version, and a tag that gives a distribution and a revision.
abbrev pub is_tagged : Port → Bool
is_tagged port =
    not (is_empty port.version || is_empty port.distro)
    && not (
        is_empty (parse_distro_tag port.distro).distro
        || is_empty (parse_distro_tag port.distro).revision)

check_found-rows :
    (t : FixTable) (distro : Bytes) (iv : DpkgVersion) (k : Bytes)
    → check_found t distro iv (find_index k t.index)
      ≡ check_rows distro iv no_backport (indexed_rows k t)
unfolding check_found check_rows rows_at
check_found-rows t distro iv k = found (find_index k t.index)
  where
    found :
        (o : Option (List ℕ))
        → check_found t distro iv o
          ≡ check_rows distro iv no_backport (rows_at t.table (entry_or_nil o))
    found none = refl
    found (some is) = refl

-- On a table that its index fits, the outcome for a tagged port comes from the rows of the CVE and
-- the distribution alone, and a port that is not tagged has no outcome to report.
pub check_backport-rows :
    (t : FixTable) (cve : Bytes) (port : Port)
    → IsIndexed t
    → check_backport t cve port ≡ (
        if is_tagged port
        then check_rows (parse_distro_tag port.distro).distro (installed port) no_backport (
            filter_by
              (has_fix_key (distro_fix_key cve (parse_distro_tag port.distro).distro))
              t.table)
        else some no_backport)
unfolding check_backport
check_backport-rows t cve port inv =
    let tag = parse_distro_tag port.distro in
    let k = distro_fix_key cve tag.distro in
    rw (← inv.complete k, ← check_found-rows t tag.distro (installed port) k) (ground arith)

tagged_outcome :
    (b : Bool) (o : Option BackportOutcome) {out : BackportOutcome}
    → (if b then o else some no_backport) ≡ some out
    → out.patched ≡ true
    → o ≡ some out
tagged_outcome true o e p = e
tagged_outcome false o e p = cc

-- On a table that its index fits, "patched" is never said without reason: some row of the table,
-- for this CVE and the port's distribution, ships a fix for the installed upstream version at or
-- below the installed revision, and the evidence text names that row.
pub check_backport_sound :
    (t : FixTable) (cve : Bytes) (port : Port) {out : BackportOutcome}
    → IsIndexed t
    → check_backport t cve port ≡ some out
    → out.patched ≡ true
    → (fix : DistroFix) × In fix t.table
      × (has_fix_key (distro_fix_key cve (parse_distro_tag port.distro).distro) fix ≡ true)
      × IsInstalled (installed port) fix
      × (out.via ≡ via_text (parse_distro_tag port.distro).distro fix)
check_backport_sound t cve port inv e p =
    let tag = parse_distro_tag port.distro in
    let ran = tagged_outcome (is_tagged port) _ (sym (check_backport-rows t cve port inv) ∙ e) p in
    let (fix, member, verdict, via) =
      check_rows_sound tag.distro (installed port) _ no_backport refl p ran in
    let kept = In-filter_by (has_fix_key (distro_fix_key cve tag.distro)) fix t.table member in
    (fix, kept.0, kept.1, row_verdict-IsInstalled (installed port) fix verdict, via)
