-- ===== src/KnowledgeBase/Laws.antt =====
-- The knowledge base is a map: what was set is what is got, and the scopes do not meet.
use zero_trust_public.Base.{
  ◌≡◌, refl, sym, ◌∙◌, Bool, true, false, List, [], ◌∷◌, Bytes, bytes_eq, bytes_eq_iff,
  if◌then◌else◌, some, All, Bool-cases, inl, inr,
}
use zero_trust_public.KnowledgeBase.{
  KnowledgeScope, host, port, scoped_key, KnowledgeBase, assign_key, find_key, set, get, set_scoped,
  get_scoped,
}

pub find_key-assign_key :
    (key k value : Bytes) (l : List (Bytes × Bytes))
    → find_key k (assign_key key value l) ≡ (if bytes_eq key k then some value else find_key k l)
unfolding find_key assign_key
find_key-assign_key key k value [] = refl
find_key-assign_key key k value ((a, v) ∷ l) = elim (Bool-cases (bytes_eq a key)) [
  | inl p ↦ let same = (bytes_eq_iff a key).0 p in rw (p, same) (behind (bytes_eq key k))
  | inr p ↦ rw p (elim (Bool-cases (bytes_eq a k)) [
    | inl q ↦ let other = differs p ((bytes_eq_iff a k).0 q) in rw (q, other) refl
    | inr q ↦ rw q (find_key-assign_key key k value l)
  ])
]
  where
    behind :
        (b : Bool)
        → (if b then some value else find_key k l)
          ≡ (if b then some value else if b then some v else find_key k l)
    behind true = refl
    behind false = refl

    differs : bytes_eq a key ≡ false → a ≡ k → bytes_eq key k ≡ false
    differs p e = elim (Bool-cases (bytes_eq key k)) [
      | inr r ↦ r
      | inl r ↦ absurd (falsity p (e ∙ sym ((bytes_eq_iff key k).0 r)))
    ]
      where
        falsity : bytes_eq a key ≡ false → a ≡ key → ⊥
        falsity p e = let q = (bytes_eq_iff a key).1 e in cc

-- The same name of the same scope.
abbrev same_key : KnowledgeScope → Bytes → KnowledgeScope → Bytes → Bool
same_key host a host b = bytes_eq a b
same_key port a port b = bytes_eq a b
same_key _ a _ b = false

scoped_key-same_key :
    (s t : KnowledgeScope) (a b : Bytes)
    → bytes_eq (scoped_key s a) (scoped_key t b) ≡ same_key s a t b
unfolding scoped_key bytes_eq
scoped_key-same_key host host a b = refl
scoped_key-same_key host port a b = refl
scoped_key-same_key port host a b = refl
scoped_key-same_key port port a b = refl

-- After a value is set, the same key of the same scope gives that value, and every other key, of
-- the same or the other scope, gives what it gave before.
get_scoped-set_scoped :
    (s t : KnowledgeScope) (a b value : Bytes) (kb : KnowledgeBase)
    → get_scoped t b (set_scoped s a value kb)
      ≡ (if same_key s a t b then some value else get_scoped t b kb)
unfolding get_scoped set_scoped get set
get_scoped-set_scoped s t a b value kb =
    rw (← scoped_key-same_key s t a b)
      (find_key-assign_key (scoped_key s a) (scoped_key t b) value kb.facts)

-- No two facts have the same key.
abbrev IsMap : List (Bytes × Bytes) → Type 0
IsMap [] = Unit
IsMap ((k, v) ∷ l) = All (λ f. bytes_eq f.0 k ≡ false) l × IsMap l

assign_key-All :
    (P : Bytes → Type 0) (key value : Bytes) (l : List (Bytes × Bytes))
    → P key
    → All (λ f. P f.0) l
    → All (λ f. P f.0) (assign_key key value l)
unfolding assign_key
assign_key-All P key value [] h k = (h, tt)
assign_key-All P key value ((a, v) ∷ l) h k = elim (Bool-cases (bytes_eq a key)) [
  | inl p ↦ rw p k
  | inr p ↦ rw p (k.0, assign_key-All P key value l h k.1)
]

bytes_eq_sym : (a b : Bytes) → bytes_eq a b ≡ false → bytes_eq b a ≡ false
bytes_eq_sym a b h = elim (Bool-cases (bytes_eq b a)) [
  | inr p ↦ p
  | inl p ↦ let q = (bytes_eq_iff a b).1 (sym ((bytes_eq_iff b a).0 p)) in cc
]

assign_key-IsMap :
    (key value : Bytes) (l : List (Bytes × Bytes)) → IsMap l → IsMap (assign_key key value l)
unfolding assign_key
assign_key-IsMap key value [] h = (tt, tt)
assign_key-IsMap key value ((a, v) ∷ l) h = elim (Bool-cases (bytes_eq a key)) [
  | inl p ↦ rw p h
  | inr p ↦ rw p (
    assign_key-All (λ k. bytes_eq k a ≡ false) key value l (bytes_eq_sym a key p) h.0,
    assign_key-IsMap key value l h.1,
  )
]

-- Setting a value keeps the keys of the map distinct.
set-IsMap :
    (key value : Bytes) (kb : KnowledgeBase) → IsMap kb.facts → IsMap (set key value kb).facts
unfolding set
set-IsMap key value kb h = assign_key-IsMap key value kb.facts h
