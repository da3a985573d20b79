-- ===== src/Backport/Index.antt =====
-- The index of the fix table: the rows that it leads to are the rows of the key, in their order.
use zero_trust_public.Base.{
  ℕ, zero, suc, ◌+◌, ◌<◌, ◌≡◌, refl, ap, ◌∙◌, Bool, List, [], ◌∷◌, ◌++◌, Bytes, bytes_eq,
  bytes_eq_iff, if◌then◌else◌, Option, none, some, length, get_elem?, arith, Bool-cases, inl, inr,
  filter_by, All, length-append, split_by,
}
use zero_trust_public.Backport.{
  DistroFix, FixTable, distro_fix_key, add_index, find_index, is_skipped, add_row, add_fields,
  cons_row, load_lines, load_distro_fixes, rows_at,
}

-- The row belongs to the key.
abbrev pub has_fix_key : Bytes → DistroFix → Bool
has_fix_key k fix = bytes_eq k (distro_fix_key fix.cve fix.distro)

abbrev pub entry_or_nil : Option (List ℕ) → List ℕ
entry_or_nil none = []
entry_or_nil (some is) = is

-- The rows that the index leads to.
abbrev pub indexed_rows : Bytes → FixTable → List DistroFix
indexed_rows k t = rows_at t.table (entry_or_nil (find_index k t.index))

find_index-add_index :
    (k j : Bytes) (i : ℕ) (m : List (Bytes × List ℕ))
    → entry_or_nil (find_index k (add_index j i m)) ≡ (
        if bytes_eq k j
        then entry_or_nil (find_index k m) ++ i ∷ []
        else entry_or_nil (find_index k m))
unfolding find_index add_index
find_index-add_index k j i [] = ground arith
find_index-add_index k j i ((l, is) ∷ m) =
    ground
      (arith, bytes_eq_iff k j, bytes_eq_iff j l, bytes_eq_iff k l, find_index-add_index k j i m)

get_elem?-append :
    (xs ys : List DistroFix) (i : ℕ) → i < length xs → get_elem? (xs ++ ys) i ≡ get_elem? xs i
get_elem?-append [] ys i h = absurd (omega arith)
get_elem?-append (x ∷ xs) ys zero h = refl
get_elem?-append (x ∷ xs) ys (suc i) h = get_elem?-append xs ys i (omega arith)

get_elem?_last :
    (xs : List DistroFix) (x : DistroFix) → get_elem? (xs ++ x ∷ []) (length xs) ≡ some x
get_elem?_last [] x = refl
get_elem?_last (y ∷ xs) x = get_elem?_last xs x

abbrev Below : ℕ → List ℕ → Type 0
Below n is = All (λ i. i < n) is

rows_at-append :
    (xs ys : List DistroFix) (is : List ℕ)
    → Below (length xs) is
    → rows_at (xs ++ ys) is ≡ rows_at xs is
unfolding rows_at
rows_at-append xs ys [] h = refl
rows_at-append xs ys (i ∷ is) h = rw (get_elem?-append xs ys i h.0, rows_at-append xs ys is h.1)

cons_row-append :
    (o : Option DistroFix) (xs ys : List DistroFix) → cons_row o (xs ++ ys) ≡ cons_row o xs ++ ys
unfolding cons_row
cons_row-append none xs ys = refl
cons_row-append (some r) xs ys = refl

rows_at_concat :
    (xs : List DistroFix) (is : List ℕ) (x : DistroFix)
    → Below (length xs) is
    → rows_at (xs ++ x ∷ []) (is ++ length xs ∷ []) ≡ rows_at xs is ++ x ∷ []
unfolding rows_at
rows_at_concat xs [] x h = rw (get_elem?_last xs x) (unfold cons_row in refl)
rows_at_concat xs (i ∷ is) x h =
    rw (get_elem?-append xs (x ∷ []) i h.0, rows_at_concat xs is x h.1)
      (cons_row-append (get_elem? xs i) (rows_at xs is) (x ∷ []))

filter_by-concat :
    (k : Bytes) (xs : List DistroFix) (x : DistroFix)
    → filter_by (has_fix_key k) (xs ++ x ∷ []) ≡ (
        if has_fix_key k x
        then filter_by (has_fix_key k) xs ++ x ∷ []
        else filter_by (has_fix_key k) xs)
filter_by-concat k [] x = ground arith
filter_by-concat k (y ∷ xs) x = ground (arith, filter_by-concat k xs x)

Below-concat : (n : ℕ) (is : List ℕ) → Below n is → Below (n + 1) (is ++ n ∷ [])
Below-concat n [] h = (omega arith, tt)
Below-concat n (i ∷ is) h = (omega (arith, h.0), Below-concat n is h.1)

Below-mono : (n : ℕ) (is : List ℕ) → Below n is → Below (n + 1) is
Below-mono n [] h = tt
Below-mono n (i ∷ is) h = (omega (arith, h.0), Below-mono n is h.1)

-- The invariant of the table with its index.
pub record IsIndexed (t : FixTable) : Type 0 where
  pub in_range : (k : Bytes) → All (λ i. i < length t.table) (entry_or_nil (find_index k t.index))
  pub complete : (k : Bytes) → indexed_rows k t ≡ filter_by (has_fix_key k) t.table

add_row-in_range :
    (t : FixTable) (fix : DistroFix) (k : Bytes)
    → IsIndexed t
    → Below (length (add_row t fix).table) (entry_or_nil (find_index k (add_row t fix).index))
unfolding add_row
add_row-in_range t fix k inv =
    rw (find_index-add_index k (distro_fix_key fix.cve fix.distro) (length t.table) t.index) (
      rw (length-append t.table (fix ∷ [])) (elim (Bool-cases (has_fix_key k fix)) [
        | inl e ↦ rw e (Below-concat _ _ (inv.in_range k))
        | inr e ↦ rw e (Below-mono _ _ (inv.in_range k))
      ]))

add_row_complete :
    (t : FixTable) (fix : DistroFix) (k : Bytes)
    → IsIndexed t
    → indexed_rows k (add_row t fix) ≡ filter_by (has_fix_key k) (add_row t fix).table
unfolding add_row
add_row_complete t fix k inv =
    rw
      (
        find_index-add_index k (distro_fix_key fix.cve fix.distro) (length t.table) t.index,
        filter_by-concat k t.table fix,
      )
      (elim (Bool-cases (has_fix_key k fix)) [
        | inl e ↦ rw e (
            rows_at_concat t.table _ fix (inv.in_range k)
            ∙ ap (λ l. l ++ fix ∷ []) (inv.complete k))
        | inr e ↦ rw e (rows_at-append t.table (fix ∷ []) _ (inv.in_range k) ∙ inv.complete k)
      ])

-- Adding a row keeps the index right.
add_row-IsIndexed : (t : FixTable) (fix : DistroFix) → IsIndexed t → IsIndexed (add_row t fix)
add_row-IsIndexed t fix inv = record {
  in_range = λ k. add_row-in_range t fix k inv;
  complete = λ k. add_row_complete t fix k inv;
}

add_fields-IsIndexed :
    (t : FixTable) (o : Option DistroFix) → IsIndexed t → IsIndexed (add_fields t o)
unfolding add_fields
add_fields-IsIndexed t none inv = inv
add_fields-IsIndexed t (some fix) inv = add_row-IsIndexed t fix inv

load_lines-IsIndexed :
    (lines : List Bytes) (t : FixTable) → IsIndexed t → IsIndexed (load_lines t lines)
unfolding load_lines
load_lines-IsIndexed [] t inv = inv
load_lines-IsIndexed (line ∷ lines) t inv = elim (Bool-cases (is_skipped line)) [
  | inl e ↦ rw e (load_lines-IsIndexed lines t inv)
  | inr e ↦ rw e (load_lines-IsIndexed lines _ (add_fields-IsIndexed t _ inv))
]

-- Whatever the file holds, the index of the loaded table leads to exactly the rows of a key, each
-- once and in the order of the file, and to no place outside the table.
pub load_distro_fixes-IsIndexed :
    (t : FixTable) (text : Bytes) → IsIndexed (load_distro_fixes t (some text))
unfolding load_distro_fixes find_index rows_at
load_distro_fixes-IsIndexed t text =
    load_lines-IsIndexed (split_by b'\n' text) (record { table = []; index = [] })
      (record { in_range = λ k. tt; complete = λ k. refl })
