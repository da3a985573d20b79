-- ===== src/Cve/Queries.antt =====
-- What the queries of the CVE database answer, against descriptions of the answer by the list of
-- the entries that affect a version.
use zero_trust_public.Base.{
  ◌≡◌, refl, sym, ◌∙◌, Bool, false, ◌&&◌, ◌||◌, List, [], ◌∷◌, ◌++◌, map, Bytes, codes, bytes_eq,
  is_empty, if◌then◌else◌, Option, none, some, arith, Bool-cases, inl, inr, filter_by, find_first,
  Floats, All, append-nil, append_assoc,
}
use zero_trust_public.Cve.{
  CveEntry, CveMatch, affects, lookup_loop, lookup, match_of, match_loop, match, result_of_match,
  verify_version,
}

-- Ids, each behind ", ".
abbrev more_ids : List Bytes → Bytes
more_ids [] = []
more_ids (y ∷ ys) = codes ", " ++ (y ++ more_ids ys)

-- Ids with ", " between them.
abbrev comma_list : List Bytes → Bytes
comma_list [] = []
comma_list (x ∷ xs) = x ++ more_ids xs

is_empty-append : (xs ys : Bytes) → is_empty xs ≡ false → is_empty (xs ++ ys) ≡ false
unfolding is_empty
is_empty-append [] ys h = cc
is_empty-append (x ∷ xs) ys h = refl

module _ {D : Type 0} where
  -- The ids of the entries that affect the version, in the order of the database.
  abbrev affecting : Bytes → Bytes → List (CveEntry D) → List (CveEntry D)
  affecting product version db = filter_by (affects product version) db

  abbrev pub ids : List (CveEntry D) → List Bytes
  ids db = map (λ e. e.cve_id) db

  abbrev HasId : CveEntry D → Type 0
  HasId e = is_empty e.cve_id ≡ false

  lookup_loop-more_ids :
      (p v out : Bytes) (db : List (CveEntry D))
      → is_empty out ≡ false
      → lookup_loop p v out db ≡ out ++ more_ids (ids (affecting p v db))
  unfolding lookup_loop
  lookup_loop-more_ids p v out [] h = sym (append-nil out)
  lookup_loop-more_ids p v out (e ∷ db) h = elim (Bool-cases (affects p v e)) [
    | inr q ↦ rw q (lookup_loop-more_ids p v out db h)
    | inl q ↦
        rw (q, h)
          (lookup_loop-more_ids p v ((out ++ codes ", ") ++ e.cve_id) db
              (is_empty-append _ e.cve_id (is_empty-append out (codes ", ") h))
            ∙ simp append_assoc)
  ]

  lookup_loop-comma_list :
      (p v : Bytes) (db : List (CveEntry D))
      → All HasId db
      → lookup_loop p v [] db ≡ comma_list (ids (affecting p v db))
  unfolding lookup_loop is_empty
  lookup_loop-comma_list p v [] h = refl
  lookup_loop-comma_list p v (e ∷ db) h = elim (Bool-cases (affects p v e)) [
    | inr q ↦ rw q (lookup_loop-comma_list p v db h.1)
    | inl q ↦ rw q (lookup_loop-more_ids p v e.cve_id db h.0)
  ]

  -- `lookup` gives the ids of exactly the entries whose product and range fit, in the order of the
  -- database and with ", " between them, if no entry has an empty id; without a product or a
  -- version it gives the empty text.
  lookup-comma_list :
      (db : List (CveEntry D)) (product version : Bytes)
      → All HasId db
      → lookup db product version ≡ (
          if is_empty product || is_empty version
          then []
          else comma_list (ids (affecting product version db)))
  unfolding lookup
  lookup-comma_list db product version h = rw (lookup_loop-comma_list product version db h)

  -- The entries that `match` looks for.
  abbrev selects : Bytes → Bytes → Bytes → CveEntry D → Bool
  selects cve_id product version e =
      (is_empty cve_id || bytes_eq e.cve_id cve_id) && affects product version e

  abbrev map_match : Bytes → Bytes → Option (CveEntry D) → Option (CveMatch D)
  map_match product version none = none
  map_match product version (some e) = some (match_of product version e)

  match_loop-find_first :
      (id p v : Bytes) (db : List (CveEntry D))
      → match_loop id p v db ≡ map_match p v (find_first (selects id p v) db)
  unfolding match_loop
  match_loop-find_first id p v [] = refl
  match_loop-find_first id p v (e ∷ db) = ground (arith, match_loop-find_first id p v db)

  -- `match` returns the first entry of the database with the id (any, if none is asked for) whose
  -- product and range fit, and nothing if there is none or the product or version is empty.
  match-find_first :
      (db : List (CveEntry D)) (cve_id product version : Bytes)
      → match db cve_id product version ≡ (
          if is_empty product || is_empty version
          then none
          else map_match product version (find_first (selects cve_id product version) db))
  unfolding match
  match-find_first db id p v = rw (match_loop-find_first id p v db)

  -- Some entry is selected.
  abbrev any_selected : Bytes → Bytes → Bytes → List (CveEntry D) → Bool
  any_selected id p v [] = false
  any_selected id p v (e ∷ db) = selects id p v e || any_selected id p v db

module _ {D : Type 0} (fp : Floats D) where
  result_of_found :
      (id p v : Bytes) (db : List (CveEntry D))
      → let r = result_of_match fp id (map_match p v (find_first (selects id p v) db)) in
        (r.vulnerable ≡ any_selected id p v db)
        × (r.verification
            ≡ (if any_selected id p v db then codes "VERSION_MATCH" else codes "NOT_VULNERABLE"))
  unfolding result_of_match
  result_of_found id p v [] = (refl, refl)
  result_of_found id p v (e ∷ db) = elim (Bool-cases (selects id p v e)) [
    | inl q ↦ rw q (refl, refl)
    | inr q ↦ rw q (result_of_found id p v db)
  ]

  -- `verify_version` on a product and version that are not empty says "vulnerable" and
  -- VERSION_MATCH exactly if some entry is selected, and NOT_VULNERABLE otherwise.
  verify_version_verdict :
      (db : List (CveEntry D)) (cve_id product version : Bytes)
      → (is_empty product || is_empty version) ≡ false
      → let r = verify_version fp db cve_id product version in
        (r.vulnerable ≡ any_selected cve_id product version db)
        × (r.verification ≡ (
            if any_selected cve_id product version db
            then codes "VERSION_MATCH"
            else codes "NOT_VULNERABLE"))
  unfolding verify_version
  verify_version_verdict db id p v h =
      rw (h, match-find_first db id p v) (rw h (result_of_found id p v db))
