-- ===== src/ForwardedRreqs/Laws.antt =====
-- The list of handled requests as a set of pairs of source and id.
use unified_routing_framewor.Prelude.{
  ℕ, ◌<◌, ◌≡◌, List, [], ◌∷◌, ◌++◌, ◌&&◌, ◌||◌, arith, ◌==◌, All, add64,
}
use unified_routing_framewor.Params.{path_traversal_time}
use unified_routing_framewor.ForwardedRreqs.{FwRreqEntry, in_list, add_to_list, update_entries}

in_list-append :
    (src rreq_id : ℕ) (l : List FwRreqEntry) (e : FwRreqEntry)
    → in_list src rreq_id (l ++ e ∷ [])
      ≡ (in_list src rreq_id l || (e.src_ip == src && e.rreq_id == rreq_id))
unfolding in_list
in_list-append src rreq_id [] e = ground arith
in_list-append src rreq_id (d ∷ l) e = ground (arith, in_list-append src rreq_id l e)

-- After `addToList` the list answers yes for the pair that was added and for those that it answered
-- yes for before, and for no other.
pub in_list-add_to_list :
    (now src rreq_id : ℕ) (l : List FwRreqEntry) (src' rreq_id' : ℕ)
    → in_list src' rreq_id' (add_to_list now src rreq_id l)
      ≡ (in_list src' rreq_id' l || (src == src' && rreq_id == rreq_id'))
unfolding add_to_list
in_list-add_to_list now src rreq_id l src' rreq_id' = ground (
  arith,
  in_list-append src' rreq_id' l
      (record { src_ip = src; rreq_id = rreq_id; lifetime = add64 now path_traversal_time }),
)

-- After `updateEntries` no entry has expired.
pub update_entries-live :
    (now : ℕ) (l : List FwRreqEntry) → All (λ e. now < e.lifetime) (update_entries now l)
unfolding update_entries
update_entries-live now [] = tt
update_entries-live now (e ∷ l) = ground (arith, update_entries-live now l)
