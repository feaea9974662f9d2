-- ===== src/LocalRepair.antt =====
-- LA_Client_aodv/localRepair.h and localRepair.cc: the destinations that may be repaired locally. An
-- entry is its destination.
pub mod Laws
use unified_routing_framewor.Prelude.{
  ℕ, List, [], ◌∷◌, ◌++◌, Bool, true, false, ◌==◌, if◌then◌else◌,
}

-- `findInList`, compared with the null iterator.
unfoldable pub find_in_list : ℕ → List ℕ → Bool
find_in_list dst [] = false
find_in_list dst (d ∷ l) = if d == dst then true else find_in_list dst l

-- `addToList`
unfoldable pub add_to_list : ℕ → List ℕ → List ℕ
add_to_list dst l = if find_in_list dst l then l else l ++ dst ∷ []

-- `erase` at the iterator that `findInList` returned.
unfoldable pub erase_found : ℕ → List ℕ → List ℕ
erase_found dst [] = []
erase_found dst (d ∷ l) = if d == dst then l else d ∷ erase_found dst l

-- `deleteFromList(dst)`
unfoldable pub delete_from_list : ℕ → List ℕ → List ℕ
delete_from_list dst l = if find_in_list dst l then erase_found dst l else l
