-- ===== src/PendingRreqs/Laws.antt =====
-- What `inList` reads in the list of pending requests after each operation.
use unified_routing_framewor.Prelude.{ℕ, ◌≡◌, List, [], ◌∷◌, some, arith}
use unified_routing_framewor.PendingRreqs.{RreqListEntry, in_list, write_entry}

pub in_list-dest_ip :
    (dst : ℕ) (l : List RreqListEntry) (e : RreqListEntry)
    → in_list dst l ≡ some e
    → e.rreq_ob.dest_ip ≡ dst
unfolding in_list
in_list-dest_ip dst [] e h = cc
in_list-dest_ip dst (d ∷ l) e h = ground (arith, in_list-dest_ip dst l e)

pub in_list-write_entry :
    (dst : ℕ) (e : RreqListEntry) (l : List RreqListEntry) (d : RreqListEntry)
    → e.rreq_ob.dest_ip ≡ dst
    → in_list dst l ≡ some d
    → in_list dst (write_entry dst e l) ≡ some e
unfolding in_list write_entry
in_list-write_entry dst e [] d x h = cc
in_list-write_entry dst e (c ∷ l) d x h = ground (arith, in_list-write_entry dst e l d)
