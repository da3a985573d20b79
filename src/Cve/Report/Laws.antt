-- ===== src/Cve/Report/Laws.antt =====
-- The findings of `check_port`: one for each entry that affects the port, and downgraded only where
-- a fix is installed.
use zero_trust_public.Base.{
  ℕ, ◌≡◌, ◌≢◌, refl, sym, ap, ◌∙◌, true, false, ◌||◌, List, [], ◌∷◌, ◌++◌, map, Bytes, codes,
  is_empty, Option, none, some, arith, Bool-cases, inl, inr, filter_by, Floats, All, All-append,
  append-nil, append_assoc, subst,
}
use zero_trust_public.Finding.{Finding, Port}
use mathlib.Core.Option.{some-injective}
use zero_trust_public.Version.{head_or_zero}
use zero_trust_public.Dpkg.Total.{NoNul}
use zero_trust_public.Backport.{
  DistroFix, FixTable, BackportOutcome, check_backport, distro_fix_key, parse_distro_tag,
}
use zero_trust_public.Backport.Index.{IsIndexed, has_fix_key}
use zero_trust_public.Backport.Rows.{In, IsInstalled, installed, check_backport_sound}
use zero_trust_public.Backport.Total.{FixNoNul, check_backport_total}
use zero_trust_public.Cve.{CveEntry, affects}
use zero_trust_public.Cve.Report.{
  finding_of, patched_finding, matched_finding, base_finding, push_finding, check_loop, check_port,
}

names_differ : codes "VERSION_MATCH" ≢ codes "NOT_VULNERABLE"
names_differ e = omega (arith, ap head_or_zero e)

module _ {D : Type 0} (fp : Floats D) (now : ℕ) where
  check_loop_exact :
      (t : FixTable) (port : Port) (outcome : Bytes → BackportOutcome) (db : List (CveEntry D))
      (acc : List (Finding D))
      → ((cve : Bytes) → check_backport t cve port ≡ some (outcome cve))
      → check_loop fp now t port acc db
        ≡ some (
            acc
            ++ map
                (λ e. finding_of fp now port e (outcome e.cve_id))
                (filter_by (affects port.product port.version) db))
  unfolding check_loop push_finding
  check_loop_exact t port outcome [] acc h = ap some (sym (append-nil acc))
  check_loop_exact t port outcome (e ∷ db) acc h =
      elim (Bool-cases (affects port.product port.version e)) [
        | inr q ↦ rw q (check_loop_exact t port outcome db acc h)
        | inl q ↦
            rw (q, h e.cve_id)
              (check_loop_exact t port outcome db
                  (acc ++ finding_of fp now port e (outcome e.cve_id) ∷ []) h
                ∙ ap some (append_assoc acc _ _))
      ]

  -- On a table of fixes that its index fits and a port with a product and a version, and without
  -- '\0' in the version texts that are compared, `check_port` ends and reports exactly the entries
  -- that affect the port, once each and in the order of the database, each by the outcome of its
  -- backport check.
  pub check_port_exact :
      (t : FixTable) (db : List (CveEntry D)) (port : Port)
      → IsIndexed t
      → NoNul port.version
      → NoNul port.distro
      → All FixNoNul t.table
      → (is_empty port.product || is_empty port.version) ≡ false
      → (outcome : Bytes → BackportOutcome) × ((cve : Bytes)
          → check_backport t cve port ≡ some (outcome cve))
        × (check_port fp now t db port
            ≡ some (
                map
                  (λ e. finding_of fp now port e (outcome e.cve_id))
                  (filter_by (affects port.product port.version) db)))
  unfolding check_port
  check_port_exact t db port inv v d h ne =
      let total = λ (cve : Bytes). check_backport_total t cve port inv v d h in
      (
        (λ cve. (total cve).0),
        (λ cve. (total cve).1),
        rw ne (check_loop_exact t port (λ cve. (total cve).0) db [] (λ cve. (total cve).1)),
      )

  -- If the finding says that the port is not vulnerable, a fix for its CVE is installed.
  abbrev pub IsJustified : FixTable → Port → Finding D → Type 0
  IsJustified t port f =
      f.verification ≡ codes "NOT_VULNERABLE"
      → (fix : DistroFix) × In fix t.table
        × (has_fix_key (distro_fix_key f.cve_id (parse_distro_tag port.distro).distro) fix ≡ true)
        × IsInstalled (installed port) fix

  finding_of-IsJustified :
      (t : FixTable) (port : Port) (e : CveEntry D) (out : BackportOutcome)
      → IsIndexed t
      → check_backport t e.cve_id port ≡ some out
      → IsJustified t port (finding_of fp now port e out)
  unfolding finding_of patched_finding matched_finding base_finding
  finding_of-IsJustified t port e out inv h = elim (Bool-cases out.patched) [
    | inl q ↦ rw q (λ _.
        let (fix, member, key, ok, via) = check_backport_sound t e.cve_id port inv h q in
        (fix, member, key, ok))
    | inr q ↦ rw q (λ bad. absurd (names_differ bad))
  ]

  push_finding-All :
      (t : FixTable) (port : Port) (e : CveEntry D) (o : Option BackportOutcome)
      (more : List (Finding D) → Option (List (Finding D))) (acc : List (Finding D))
      {fs : List (Finding D)}
      → IsIndexed t
      → check_backport t e.cve_id port ≡ o
      → All (IsJustified t port) acc
      → ((a : List (Finding D))
          → All (IsJustified t port) a
          → more a ≡ some fs
          → All (IsJustified t port) fs)
      → push_finding fp now port e o more acc ≡ some fs
      → All (IsJustified t port) fs
  unfolding push_finding
  push_finding-All t port e none more acc inv q h k r = cc
  push_finding-All t port e (some out) more acc inv q h k r =
      k _ (All-append (IsJustified t port) acc _ h (finding_of-IsJustified t port e out inv q, tt))
        r

  check_loop-All :
      (t : FixTable) (port : Port) (db : List (CveEntry D)) (acc : List (Finding D))
      {fs : List (Finding D)}
      → IsIndexed t
      → All (IsJustified t port) acc
      → check_loop fp now t port acc db ≡ some fs
      → All (IsJustified t port) fs
  unfolding check_loop
  check_loop-All t port [] acc inv h r = subst (All (IsJustified t port)) (some-injective _ _ r) h
  check_loop-All t port (e ∷ db) acc {fs} inv h r =
      elim (Bool-cases (affects port.product port.version e)) [
        | inr q ↦ check_loop-All t port db acc inv h (rw q at r)
        | inl q ↦
            push_finding-All t port e (check_backport t e.cve_id port)
              (λ out. check_loop fp now t port out db) acc inv refl h
              (λ a k s. check_loop-All t port db a inv k s) (rw q at r)
      ]

  -- On a table of fixes that its index fits, no finding of `check_port` says NOT_VULNERABLE without
  -- a row of the fix table for its CVE and the port's distribution, whose fix is at or below the
  -- installed package version.
  pub check_port-IsJustified :
      (t : FixTable) (db : List (CveEntry D)) (port : Port) {fs : List (Finding D)}
      → IsIndexed t
      → check_port fp now t db port ≡ some fs
      → All (IsJustified t port) fs
  unfolding check_port
  check_port-IsJustified t db port {fs} inv h =
      elim (Bool-cases (is_empty port.product || is_empty port.version)) [
        | inl q ↦
            subst (All (IsJustified t port)) {x = []} {y = fs} (some-injective _ _ (rw q at h)) tt
        | inr q ↦ check_loop-All t port db [] inv tt (rw q at h)
      ]
