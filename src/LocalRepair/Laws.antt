-- ===== src/LocalRepair/Laws.antt =====
-- The local repair list as a set: no destination twice, so that one deletion removes it.
use unified_routing_framewor.Prelude.{
  ℕ, ◌≡◌, refl, List, [], ◌∷◌, ◌++◌, false, not, ◌&&◌, ◌||◌, arith, ◌==◌,
}
use unified_routing_framewor.LocalRepair.{find_in_list, add_to_list, erase_found, delete_from_list}

-- No destination stands twice.
abbrev pub IsDistinct : List ℕ → Type 0
IsDistinct [] = Unit {0}
IsDistinct (d ∷ l) = (find_in_list d l ≡ false) × IsDistinct l

find_in_list-append :
    (j k : ℕ) (l : List ℕ) → find_in_list j (l ++ k ∷ []) ≡ (find_in_list j l || k == j)
unfolding find_in_list
find_in_list-append j k [] = ground arith
find_in_list-append j k (d ∷ l) = ground (arith, find_in_list-append j k l)

append-IsDistinct :
    (k : ℕ) (l : List ℕ) → find_in_list k l ≡ false → IsDistinct l → IsDistinct (l ++ k ∷ [])
unfolding find_in_list
append-IsDistinct k [] h d = (refl, tt)
append-IsDistinct k (e ∷ l) h d = ground (arith, find_in_list-append e k l, append-IsDistinct k l)

pub find_in_list-add_to_list :
    (j k : ℕ) (l : List ℕ) → find_in_list j (add_to_list k l) ≡ (find_in_list j l || k == j)
unfolding add_to_list
find_in_list-add_to_list j k l = ground (arith, find_in_list-append j k l)

pub add_to_list-IsDistinct : (k : ℕ) (l : List ℕ) → IsDistinct l → IsDistinct (add_to_list k l)
unfolding add_to_list
add_to_list-IsDistinct k l d = ground (arith, append-IsDistinct k l)

find_in_list-erase_found :
    (j k : ℕ) (l : List ℕ)
    → IsDistinct l
    → find_in_list j (erase_found k l) ≡ (find_in_list j l && not (k == j))
unfolding find_in_list erase_found
find_in_list-erase_found j k [] d = refl
find_in_list-erase_found j k (e ∷ l) d = ground (arith, find_in_list-erase_found j k l d.1)

erase_found-IsDistinct : (k : ℕ) (l : List ℕ) → IsDistinct l → IsDistinct (erase_found k l)
unfolding erase_found
erase_found-IsDistinct k [] d = tt
erase_found-IsDistinct k (e ∷ l) d =
    ground (arith, erase_found-IsDistinct k l d.1, find_in_list-erase_found e k l d.1)

pub find_in_list-delete_from_list :
    (j k : ℕ) (l : List ℕ)
    → IsDistinct l
    → find_in_list j (delete_from_list k l) ≡ (find_in_list j l && not (k == j))
unfolding delete_from_list
find_in_list-delete_from_list j k l d = ground (arith, find_in_list-erase_found j k l d)

pub delete_from_list-IsDistinct :
    (k : ℕ) (l : List ℕ) → IsDistinct l → IsDistinct (delete_from_list k l)
unfolding delete_from_list
delete_from_list-IsDistinct k l d = ground (arith, erase_found-IsDistinct k l d)

-- From a list without repetitions, `addToList` and `deleteFromList` keep it so; afterwards the list
-- answers for the destination yes and no respectively, and for any other one as before.
pub local_repair_set :
    (j k : ℕ) (l : List ℕ)
    → IsDistinct l
    → IsDistinct (add_to_list k l)
      × IsDistinct (delete_from_list k l)
      × (find_in_list j (add_to_list k l) ≡ (find_in_list j l || k == j))
      × (find_in_list j (delete_from_list k l) ≡ (find_in_list j l && not (k == j)))
local_repair_set j k l d = (
  add_to_list-IsDistinct k l d,
  delete_from_list-IsDistinct k l d,
  find_in_list-add_to_list j k l,
  find_in_list-delete_from_list j k l d,
)
