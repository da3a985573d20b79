-- ===== src/Dns/Laws.antt =====
-- Names are walked over as they are encoded, the walk ends on every answer, and what a well-formed and
-- what a cut answer give.
use zero_trust_public.Base.{
  ℕ, zero, suc, ◌+◌, ◌%◌, ◌≤◌, ◌<◌, ◌≡◌, refl, ap, ◌∙◌, false, List, [], ◌∷◌, ◌++◌, append_assoc,
  Bytes, split_by, Option, none, some, leb, ◌==◌, length, length-append, length-drop, drop-append,
  drop_add, drop, All, arith,
}
use zero_trust_public.Dns.{
  encode_label, encode_labels, encode_hostname, Skip, returns, moves, skip_round, skip_after,
  skip_loop, skip_name,
}

-- Where the walk ends, and that it does not move back.
abbrev Ends : Option ℕ → ℕ → Type 0
Ends r offset = (o : ℕ) × (r ≡ some o) × (offset ≤ o)

-- One round, if the walk ends from every later offset that the fuel is enough for.
skip_after-Ends :
    (f : ℕ) (s : Bytes) (offset : ℕ)
    → length s < suc f + offset
    → ((later : ℕ) → 0 < f → length s < f + later → Ends (skip_loop f s later) later)
    → (rest : Bytes) → drop offset s ≡ rest
    → (r : Skip) → skip_round rest ≡ r
    → Ends (skip_after (skip_loop f s) offset r) offset
unfolding skip_after skip_round
skip_after-Ends f s offset k more rest e (returns n) q = (offset + n, refl, omega arith)
skip_after-Ends f s offset k more [] e (moves len) q = absurd (ground arith)
skip_after-Ends f s offset k more (c ∷ rest) e (moves len) q =
    let inside = length-drop offset s in
    let size = ap length e in
    let rest_ends = more (offset + (1 + len)) (omega arith) (omega arith) in
    (rest_ends.0, rest_ends.1, omega (arith, rest_ends.2))

skip_loop-Ends :
    (f : ℕ) (s : Bytes) (offset : ℕ)
    → 0 < f
    → length s < f + offset
    → Ends (skip_loop f s offset) offset
unfolding skip_loop
skip_loop-Ends zero s offset h k = absurd (omega arith)
skip_loop-Ends (suc f) s offset h k =
    skip_after-Ends f s offset (omega arith) (skip_loop-Ends f s) (drop offset s) refl
      (skip_round (drop offset s)) refl

found_of :
    (r : Option ℕ) (offset : ℕ)
    → Ends r offset
    → (r ≡ some (elim r [ none ↦ offset | some o ↦ o ]))
      × (offset ≤ elim r [ none ↦ offset | some o ↦ o ])
found_of none offset e = absurd (ground (arith, e.1))
found_of (some o) offset e = let same : o ≡ e.0 = ground (arith, e.1) in (refl, omega (arith, e.2))

-- The walk over a name ends on all data and never moves back.
skip_name_total :
    (s : Bytes) (offset : ℕ)
    → (skip_loop (suc (length s)) s offset ≡ some (skip_name s offset))
      × (offset ≤ skip_name s offset)
unfolding skip_name
skip_name_total s offset =
    found_of (skip_loop (suc (length s)) s offset) offset
      (skip_loop-Ends (suc (length s)) s offset (omega arith) (omega arith))

-- A label that the encoding can hold and the walk does not take for a pointer.
abbrev pub IsLabel : Bytes → Type 0
IsLabel l = (0 < length l) × (length l < 192)

length-encode_labels : (labels : List Bytes) → length labels < length (encode_labels labels)
unfolding encode_labels encode_label
length-encode_labels [] = omega arith
length-encode_labels (l ∷ labels) =
    omega (arith, length-encode_labels labels, length-append l (encode_labels labels))

skip_loop-encode_labels :
    (labels : List Bytes) (f : ℕ) (s rest : Bytes) (offset : ℕ)
    → All IsLabel labels
    → length labels < f
    → drop offset s ≡ encode_labels labels ++ rest
    → skip_loop f s offset ≡ some (offset + length (encode_labels labels))
unfolding skip_loop encode_labels skip_after skip_round encode_label
skip_loop-encode_labels labels zero s rest offset h k e = absurd (omega arith)
skip_loop-encode_labels [] (suc f) s rest offset h k e = rw e refl
skip_loop-encode_labels (l ∷ labels) (suc f) s rest offset h k e =
    let size : length l % 256 ≡ length l = omega arith in
    let pointer : leb 192 (length l) ≡ false = ground arith in
    let end : length l == 0 ≡ false = ground arith in
    let one_more : 1 + length l ≡ suc (length l) = omega arith in
    let behind : drop (1 + length l) ((encode_label l ++ encode_labels labels) ++ rest)
        ≡ encode_labels labels ++ rest =
      rw one_more (
        ap (drop (length l)) (append_assoc l (encode_labels labels) rest)
        ∙ drop-append l (encode_labels labels ++ rest)) in
    let next : drop (offset + (1 + length l)) s ≡ encode_labels labels ++ rest =
      drop_add offset (1 + length l) s ∙ ap (drop (1 + length l)) e ∙ behind in
    rw (e, size, pointer, end)
      (skip_loop-encode_labels labels f s rest (offset + (1 + length l)) h.1 (omega arith) next
        ∙ ap some (omega (arith, length-append l (encode_labels labels))))

pub skip_name-encode_labels :
    (labels : List Bytes) (s rest : Bytes) (offset : ℕ)
    → All IsLabel labels
    → drop offset s ≡ encode_labels labels ++ rest
    → skip_name s offset ≡ offset + length (encode_labels labels)
skip_name-encode_labels labels s rest offset h e =
    let size = ap length e in
    let inside = length-drop offset s in
    let whole = length-append (encode_labels labels) rest in
    let few = length-encode_labels labels in
    let total = skip_name_total s offset in
    let walked = skip_loop-encode_labels labels (suc (length s)) s rest offset h (omega arith) e in
    ground (arith, total.0, walked)

-- A host name as `build_query` writes it, without empty labels and with labels of fewer than 192
-- bytes: `skip_name` ends right behind it, wherever it stands in the data.
pub skip_name-encode_hostname :
    (hostname : Bytes) (s rest : Bytes) (offset : ℕ)
    → All IsLabel (split_by b'.' hostname)
    → drop offset s ≡ encode_hostname hostname ++ rest
    → skip_name s offset ≡ offset + length (encode_hostname hostname)
unfolding encode_hostname
skip_name-encode_hostname hostname s rest offset labels e =
    skip_name-encode_labels (split_by b'.' hostname) s rest offset labels e
