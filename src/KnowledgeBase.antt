-- ===== src/KnowledgeBase.antt =====
-- src/core/knowledge_base.hpp and .cpp: the map of facts that the checks of a host share, with keys
-- of its own for each scope. Each operation holds the object's mutex, so it is one function here.
use zero_trust_public.Base.{
  Bool, true, false, List, [], ◌∷◌, ◌++◌, Bytes, codes, bytes_eq, if◌then◌else◌, Option, none, some,
}
pub mod Laws

pub data KnowledgeScope : Type 0 where
  host : KnowledgeScope
  port : KnowledgeScope

unfoldable pub scoped_key : KnowledgeScope → Bytes → Bytes
scoped_key host key = codes "host." ++ key
scoped_key port key = codes "port." ++ key

-- `std::map<std::string, std::string>`: its pairs, of which no two have the same key.
pub record KnowledgeBase : Type 0 where
  pub facts : List (Bytes × Bytes)

-- `data[key] = value`
unfoldable pub assign_key : Bytes → Bytes → List (Bytes × Bytes) → List (Bytes × Bytes)
assign_key key value [] = (key, value) ∷ []
assign_key key value ((k, v) ∷ rest) =
    let later = assign_key key value rest in
    if bytes_eq k key then (k, value) ∷ rest else (k, v) ∷ later

-- `data.find(key)`
unfoldable pub find_key : Bytes → List (Bytes × Bytes) → Option Bytes
find_key key [] = none
find_key key ((k, v) ∷ rest) =
    let later = find_key key rest in if bytes_eq k key then some v else later

-- A map as it is made, with no pairs.
abbrev pub empty : KnowledgeBase
empty = record { facts = [] }

unfoldable pub set : Bytes → Bytes → KnowledgeBase → KnowledgeBase
unfolding assign_key
set key value kb = record { facts = assign_key key value kb.facts }

unfoldable pub get : Bytes → KnowledgeBase → Option Bytes
unfolding find_key
get key kb = find_key key kb.facts

unfoldable pub has : Bytes → KnowledgeBase → Bool
unfolding find_key
has key kb = elim (find_key key kb.facts) [ none ↦ false | some _ ↦ true ]

unfoldable pub set_scoped : KnowledgeScope → Bytes → Bytes → KnowledgeBase → KnowledgeBase
unfolding set scoped_key
set_scoped scope key value = set (scoped_key scope key) value

unfoldable pub get_scoped : KnowledgeScope → Bytes → KnowledgeBase → Option Bytes
unfolding get scoped_key
get_scoped scope key = get (scoped_key scope key)

unfoldable pub has_scoped : KnowledgeScope → Bytes → KnowledgeBase → Bool
unfolding has scoped_key
has_scoped scope key = has (scoped_key scope key)
