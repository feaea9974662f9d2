-- ===== src/RouteMap/Laws.antt =====
-- What `find` reads after each operation of the map, and that the map stays sorted.
use unified_routing_framewor.Prelude.{
  ℕ, ◌<◌, ◌≤◌, ◌≡◌, refl, sym, subst, inl, inr, Option-cases, List, [], ◌∷◌, Option, none, some,
  arith, ◌==◌, if◌then◌else◌,
}
use unified_routing_framewor.RouteEntry.{RtableEntry}
use unified_routing_framewor.RouteMap.{find, insert, update, erase, Above, IsSorted}

pub find-dest_ip :
    (k : ℕ) (m : List RtableEntry) (e : RtableEntry) → find k m ≡ some e → e.dest_ip ≡ k
unfolding find
find-dest_ip k [] e h = cc
find-dest_ip k (d ∷ m) e h = ground (arith, find-dest_ip k m e)

-- An entry that is there hides the inserted one.
abbrev pub or_else : Option RtableEntry → RtableEntry → RtableEntry
or_else none e = e
or_else (some d) e = d

-- An absent entry stays absent under an assignment.
abbrev pub if_present : Option RtableEntry → RtableEntry → Option RtableEntry
if_present none e = none
if_present (some d) e = some e

Above-mono : {j k : ℕ} (m : List RtableEntry) → j ≤ k → Above k m → Above j m
Above-mono [] h a = tt
Above-mono (e ∷ m) h a = (omega arith, a.1)

pub find-Above : (k j : ℕ) (m : List RtableEntry) → Above k m → j ≤ k → find j m ≡ none
unfolding find
find-Above k j [] a h = refl
find-Above k j (e ∷ m) a h = ground (arith, find-Above e.dest_ip j m a.1)

pub find-insert :
    (k : ℕ) (e : RtableEntry) (m : List RtableEntry)
    → IsSorted m
    → find k (insert e m) ≡ (if e.dest_ip == k then some (or_else (find k m) e) else find k m)
unfolding find insert
find-insert k e [] s = refl
find-insert k e (d ∷ []) s = ground arith
find-insert k e (d ∷ c ∷ m) s =
    ground (arith, find-insert k e (c ∷ m) s.1, find-Above d.dest_ip k (c ∷ m) s)

pub find-update :
    (k : ℕ) (e : RtableEntry) (m : List RtableEntry)
    → find k (update e m) ≡ (if e.dest_ip == k then if_present (find k m) e else find k m)
unfolding find update
find-update k e [] = ground arith
find-update k e (d ∷ m) = ground (arith, find-update k e m)

pub find-erase :
    (k j : ℕ) (m : List RtableEntry)
    → IsSorted m
    → find k (erase j m) ≡ (if j == k then none else find k m)
unfolding find erase
find-erase k j [] s = ground arith
find-erase k j (d ∷ []) s = ground arith
find-erase k j (d ∷ c ∷ m) s =
    ground (arith, find-erase k j (c ∷ m) s.1, find-Above d.dest_ip k (c ∷ m) s)

Above-insert :
    (k : ℕ) (e : RtableEntry) (m : List RtableEntry)
    → k < e.dest_ip
    → Above k m
    → Above k (insert e m)
unfolding insert
Above-insert k e [] h a = (h, tt)
Above-insert k e (d ∷ m) h a = ground (arith, Above-insert d.dest_ip e m)

pub insert-IsSorted : (e : RtableEntry) (m : List RtableEntry) → IsSorted m → IsSorted (insert e m)
unfolding insert
insert-IsSorted e [] s = tt
insert-IsSorted e (d ∷ m) s = ground (arith, Above-insert d.dest_ip e m)

Above-update : (k : ℕ) (e : RtableEntry) (m : List RtableEntry) → Above k m → Above k (update e m)
unfolding update
Above-update k e [] a = tt
Above-update k e (d ∷ m) a =
    ground (arith, Above-update d.dest_ip e m a.1, Above-mono {j = e.dest_ip} {k = d.dest_ip} m)

pub update-IsSorted : (e : RtableEntry) (m : List RtableEntry) → IsSorted m → IsSorted (update e m)
unfolding update
update-IsSorted e [] s = tt
update-IsSorted e (d ∷ m) s =
    ground (arith, Above-update d.dest_ip e m s, Above-mono {j = e.dest_ip} {k = d.dest_ip} m)

Above-erase : (k j : ℕ) (m : List RtableEntry) → Above k m → Above k (erase j m)
unfolding erase
Above-erase k j [] a = tt
Above-erase k j (d ∷ m) a =
    ground (arith, Above-erase d.dest_ip j m a.1, Above-mono {j = k} {k = d.dest_ip} m)

IsSorted-Above : (k : ℕ) (m : List RtableEntry) → Above k m → IsSorted m
IsSorted-Above k [] a = tt
IsSorted-Above k (e ∷ m) a = a.1

pub erase-IsSorted : (j : ℕ) (m : List RtableEntry) → IsSorted m → IsSorted (erase j m)
unfolding erase
erase-IsSorted j [] s = tt
erase-IsSorted j (d ∷ m) s =
    ground (arith, Above-erase d.dest_ip j m s, IsSorted-Above d.dest_ip m s)

-- A predicate at the entry that was found, if any.
abbrev pub OnSome {ℓ} : (RtableEntry → Type ℓ) → Option RtableEntry → Type ℓ
OnSome P none = Unit
OnSome P (some e) = P e

-- A predicate that every entry of the table has.
abbrev pub Each {ℓ} : (RtableEntry → Type ℓ) → List RtableEntry → Type ℓ
Each P m = (k : ℕ) → OnSome P (find k m)

module _ {ℓ} (P : RtableEntry → Type ℓ) (m : List RtableEntry) where
  pub Each-at : Each P m → (k : ℕ) (e : RtableEntry) → find k m ≡ some e → P e
  Each-at h k e x = subst (OnSome P) x (h k)

  pub Each-of : ((k : ℕ) (e : RtableEntry) → find k m ≡ some e → P e) → Each P m
  Each-of h k = elim (Option-cases (find k m)) [
    | inl x ↦ subst (OnSome P) (sym x) tt
    | inr (e, x) ↦ subst (OnSome P) (sym x) (h k e x)
  ]
