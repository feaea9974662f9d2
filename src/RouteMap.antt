-- ===== src/RouteMap.antt =====
-- `rTableMap` of LA_Client_aodv/routingTable.h, a `std::map` from the destination to its entry.
-- The source inserts an entry under its own `getDestIP()` only, and no setter changes `dest_ip`, so
-- the key is read off the entry. Entries stand in the order of their keys, as iterators visit them.
pub mod Laws
use unified_routing_framewor.Prelude.{
  ℕ, ◌<◌, List, [], ◌∷◌, Option, none, some, ltb, ◌==◌, if◌then◌else◌,
}
use unified_routing_framewor.RouteEntry.{RtableEntry}

-- `rTableMap.find`; `none` stands for `end()`.
unfoldable pub find : ℕ → List RtableEntry → Option RtableEntry
find k [] = none
find k (e ∷ m) = if e.dest_ip == k then some e else find k m

-- `rTableMap.insert`, which leaves an entry that is there alone.
unfoldable pub insert : RtableEntry → List RtableEntry → List RtableEntry
insert e [] = e ∷ []
insert e (d ∷ m) =
    if d.dest_ip == e.dest_ip
    then d ∷ m
    else if ltb e.dest_ip d.dest_ip
    then e ∷ d ∷ m
    else d ∷ insert e m

-- The assignments through an iterator to the entry with this key.
unfoldable pub update : RtableEntry → List RtableEntry → List RtableEntry
update e [] = []
update e (d ∷ m) = if d.dest_ip == e.dest_ip then e ∷ m else d ∷ update e m

-- `rTableMap.erase(iter)`, for the iterator to the entry with this key.
unfoldable pub erase : ℕ → List RtableEntry → List RtableEntry
erase k [] = []
erase k (d ∷ m) = if d.dest_ip == k then m else d ∷ erase k m

-- The keys rise along the list and stay above the bound.
abbrev pub Above : ℕ → List RtableEntry → Type 0
Above k [] = Unit {0}
Above k (e ∷ m) = (k < e.dest_ip) × Above e.dest_ip m

-- The keys rise along the list, so no destination has two entries.
abbrev pub IsSorted : List RtableEntry → Type 0
IsSorted [] = Unit {0}
IsSorted (e ∷ m) = Above e.dest_ip m
