-- ===== src/PendingRreqs.antt =====
-- LA_Client_aodv/rreqPendingList.h and rreqPendingList.cc: the requests of this node that wait for a
-- reply.
pub mod Laws
use unified_routing_framewor.Prelude.{
  ℕ, List, [], ◌∷◌, ◌++◌, Option, none, some, ◌==◌, if◌then◌else◌,
}
use unified_routing_framewor.Packets.{Rreq}

pub record RreqListEntry : Type 0 where
  pub rreq_ob : Rreq
  pub retries : ℕ
  pub ttl : ℕ

-- `inList(dst)`
unfoldable pub in_list : ℕ → List RreqListEntry → Option RreqListEntry
in_list dst [] = none
in_list dst (e ∷ l) = if e.rreq_ob.dest_ip == dst then some e else in_list dst l

-- `addToList`
unfoldable pub add_to_list : Rreq → ℕ → ℕ → List RreqListEntry → List RreqListEntry
add_to_list r retry_val ttl_val l =
    l ++ record { rreq_ob = r; retries = retry_val; ttl = ttl_val } ∷ []

-- `deleteFromList`
unfoldable pub delete_from_list : ℕ → List RreqListEntry → List RreqListEntry
delete_from_list dest [] = []
delete_from_list dest (e ∷ l) = if e.rreq_ob.dest_ip == dest then l else e ∷ delete_from_list dest l

-- The assignments through the pointer that `inList(dst)` returned.
unfoldable pub write_entry : ℕ → RreqListEntry → List RreqListEntry → List RreqListEntry
write_entry dst e [] = []
write_entry dst e (d ∷ l) = if d.rreq_ob.dest_ip == dst then e ∷ l else d ∷ write_entry dst e l
