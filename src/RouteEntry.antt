-- ===== src/RouteEntry.antt =====
-- LA_Client_aodv/rtable_entry.h and rtable_entry.cc: one entry of the routing table.
use unified_routing_framewor.Prelude.{
  ℕ, List, [], ◌∷◌, Option, none, some, ◌==◌, if◌then◌else◌, length,
}

pub record RtableEntry : Type 0 where
  pub dest_ip : ℕ
  pub dest_seq_num : ℕ
  pub interface : ℕ
  pub hop_cnt : ℕ
  pub last_hop_cnt : ℕ
  pub next_hop : ℕ
  pub precursors : List ℕ
  pub lifetime : ℕ
  pub routing_flags : ℕ

-- `createEntry`, on a fresh object, whose precursor list is empty.
unfoldable pub create_entry : ℕ → ℕ → ℕ → ℕ → ℕ → ℕ → RtableEntry
create_entry dest seq_num hop_cnt nhop time r_flag = record {
  dest_ip = dest;
  dest_seq_num = seq_num;
  interface = 0;
  hop_cnt = hop_cnt;
  last_hop_cnt = 0;
  next_hop = nhop;
  precursors = [];
  lifetime = time;
  routing_flags = r_flag;
}

unfoldable pub get_prec_cnt : RtableEntry → ℕ
get_prec_cnt e = length e.precursors

-- The first precursor; `none` stands for the read through `begin()` of an empty list.
unfoldable pub get_prec_addr : RtableEntry → Option ℕ
get_prec_addr e = elim e.precursors [ [] ↦ none | a ∷ _ ↦ some a ]

-- The search loop of `addToPrecursor` with the `push_back` behind it.
unfoldable pub push_new : ℕ → List ℕ → List ℕ
push_new precur [] = precur ∷ []
push_new precur (a ∷ l) = if a == precur then a ∷ l else a ∷ push_new precur l

unfoldable pub add_to_precursor : ℕ → RtableEntry → RtableEntry
add_to_precursor precur e = record e { precursors = push_new precur e.precursors }
