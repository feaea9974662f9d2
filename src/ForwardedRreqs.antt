-- ===== src/ForwardedRreqs.antt =====
-- LA_Client_aodv/fwRreqList.h and fwRreqList.cc: the requests that this node has handled lately.
pub mod Laws
use unified_routing_framewor.Prelude.{
  ℕ, List, [], ◌∷◌, ◌++◌, Bool, true, false, ◌&&◌, ◌==◌, leb, add64, if◌then◌else◌,
}
use unified_routing_framewor.Params.{path_traversal_time}

pub record FwRreqEntry : Type 0 where
  pub src_ip : ℕ
  pub rreq_id : ℕ
  pub lifetime : ℕ

-- `inList`
unfoldable pub in_list : ℕ → ℕ → List FwRreqEntry → Bool
in_list src rreq_id [] = false
in_list src rreq_id (e ∷ l) =
    if e.src_ip == src && e.rreq_id == rreq_id then true else in_list src rreq_id l

-- `addToList` at the time `now`.
unfoldable pub add_to_list : ℕ → ℕ → ℕ → List FwRreqEntry → List FwRreqEntry
add_to_list now src rreq_id l =
    if in_list src rreq_id l
    then l
    else l
      ++ record { src_ip = src; rreq_id = rreq_id; lifetime = add64 now path_traversal_time } ∷ []

-- `updateEntries` at the time `now`.
unfoldable pub update_entries : ℕ → List FwRreqEntry → List FwRreqEntry
update_entries now [] = []
update_entries now (e ∷ l) =
    if leb e.lifetime now then update_entries now l else e ∷ update_entries now l
