-- ===== src/RoutingTable/Sorted.antt =====
-- The updates from received messages keep the table a map: sorted, with one entry for a destination.
use unified_routing_framewor.Prelude.{
  ℕ, ◌≡◌, subst, sym, inl, inr, arith, Option-cases, Bool-cases, ℕ_discrete,
}
use unified_routing_framewor.Params.{active_route}
use unified_routing_framewor.RouteEntry.{RtableEntry}
use unified_routing_framewor.RouteMap.{find, update, insert, IsSorted}
use unified_routing_framewor.RouteMap.Laws.{update-IsSorted, insert-IsSorted}
use unified_routing_framewor.Packets.{Rreq, Rrep}
use unified_routing_framewor.Node.{Node, add_kroute, del_kroute, emit}
use unified_routing_framewor.RoutingTable.{is_better, insert_route, add_route_entry}
use unified_routing_framewor.RoutingTable.Updates.{
  as_neighbor, replace_route, forward_route_entry, forward_route_update, reverse_route_entry,
  reverse_route_update, neighbor_entry, neighbor_update,
}
use unified_routing_framewor.RoutingTable.Frame.{SameRoutes}
use unified_routing_framewor.RoutingTable.Frame.After.{
  route_found-SameRoutes, after_neighbor-SameRoutes,
}
use unified_routing_framewor.RoutingTable.Freshness.{
  forward_active, forward_inactive, forward_none, reverse_active, reverse_inactive, reverse_none,
}
use unified_routing_framewor.RoutingTable.Neighbors.{
  neighbor_active, neighbor_inactive, neighbor_none,
}

abbrev pub TableSorted : Node → Type 0
TableSorted s = IsSorted s.rtable

pub SameRoutes-TableSorted : {s t : Node} → TableSorted s → SameRoutes s t → TableSorted t
SameRoutes-TableSorted o same = subst IsSorted (sym same.table) o

insert_route-rtable : (e : RtableEntry) (s : Node) → (insert_route e s).rtable ≡ insert e s.rtable
unfolding insert_route add_route_entry add_kroute emit
insert_route-rtable e s = ground arith

pub insert_route-TableSorted :
    (e : RtableEntry) (s : Node) → TableSorted s → TableSorted (insert_route e s)
insert_route-TableSorted e s o =
    subst IsSorted (sym (insert_route-rtable e s)) (insert-IsSorted e s.rtable o)

replace_route-rtable :
    (e e' : RtableEntry) (hop_cnt : ℕ) (s : Node)
    → (replace_route e e' hop_cnt s).rtable ≡ update e' s.rtable
unfolding replace_route add_kroute del_kroute emit
replace_route-rtable e e' hop_cnt s = ground arith

pub replace_route-TableSorted :
    (e e' : RtableEntry) (hop_cnt : ℕ) (s : Node)
    → TableSorted s
    → TableSorted (replace_route e e' hop_cnt s)
replace_route-TableSorted e e' hop_cnt s o =
    subst IsSorted (sym (replace_route-rtable e e' hop_cnt s)) (update-IsSorted e' s.rtable o)

pub revive-TableSorted :
    (e : RtableEntry) (s : Node)
    → TableSorted s
    → TableSorted (add_kroute e (record s { rtable = update e s.rtable }))
unfolding add_kroute emit
revive-TableSorted e s o = update-IsSorted e s.rtable o

pub forward_route_entry-TableSorted :
    (nhop : ℕ) (r : Rrep) (s : Node) → TableSorted s → TableSorted (forward_route_entry nhop r s)
forward_route_entry-TableSorted nhop r s o = elim (Option-cases (find r.dest_ip s.rtable)) [
  | inl h ↦ rw (forward_none nhop r s h) (insert_route-TableSorted _ s o)
  | inr (e, h) ↦ elim (ℕ_discrete e.routing_flags active_route) [
    | yes a ↦ elim (Bool-cases (is_better r.dest_seq_num r.hop_cnt e)) [
      | inl b ↦ rw (forward_active nhop r s e h a, b) (replace_route-TableSorted e _ r.hop_cnt s o)
      | inr b ↦ rw (forward_active nhop r s e h a, b) o
    ]
    | no a ↦ rw (forward_inactive nhop r s e h a) (revive-TableSorted _ s o)
  ]
]

pub reverse_route_entry-TableSorted :
    (nhop : ℕ) (r : Rreq) (s : Node) → TableSorted s → TableSorted (reverse_route_entry nhop r s)
reverse_route_entry-TableSorted nhop r s o = elim (Option-cases (find r.src_ip s.rtable)) [
  | inl h ↦ rw (reverse_none nhop r s h) (insert_route-TableSorted _ s o)
  | inr (e, h) ↦ elim (ℕ_discrete e.routing_flags active_route) [
    | yes a ↦ elim (Bool-cases (is_better r.src_seq_num r.hop_cnt e)) [
      | inl b ↦ rw (reverse_active nhop r s e h a, b) (replace_route-TableSorted e _ r.hop_cnt s o)
      | inr b ↦ rw (reverse_active nhop r s e h a, b) o
    ]
    | no a ↦ rw (reverse_inactive nhop r s e h a) (revive-TableSorted _ s o)
  ]
]

pub neighbor_entry-TableSorted :
    (neighbor seq life_time : ℕ) (s : Node)
    → TableSorted s
    → TableSorted (neighbor_entry neighbor seq life_time s)
neighbor_entry-TableSorted neighbor seq life_time s o =
    elim (Option-cases (find neighbor s.rtable)) [
      | inl h ↦ rw (neighbor_none neighbor seq life_time s h) (insert_route-TableSorted _ s o)
      | inr (e, h) ↦ elim (ℕ_discrete e.routing_flags active_route) [
        | yes a ↦
            rw (neighbor_active neighbor seq life_time s e h a)
              (update-IsSorted (as_neighbor neighbor seq life_time e) s.rtable o)
        | no a ↦ rw (neighbor_inactive neighbor seq life_time s e h a) (revive-TableSorted _ s o)
      ]
    ]

-- Where the table is sorted, with at most one entry for a destination, it is after
-- `forwardRouteUpdate`, `reverseRouteUpdate` and `neighborUpdate`, whatever the messages.
pub updates-IsSorted :
    (nhop : ℕ) (reply : Rrep) (request : Rreq) (src seq life_time : ℕ) (s : Node)
    → IsSorted s.rtable
    → IsSorted (forward_route_update nhop reply s).rtable
      × IsSorted (reverse_route_update nhop request s).rtable
      × IsSorted (neighbor_update nhop src seq life_time s).rtable
updates-IsSorted nhop reply request src seq life_time s o = (
  unfold forward_route_update in
      SameRoutes-TableSorted (forward_route_entry-TableSorted nhop reply s o)
        (route_found-SameRoutes reply.dest_ip _),
  unfold reverse_route_update in
      SameRoutes-TableSorted (reverse_route_entry-TableSorted nhop request s o)
        (route_found-SameRoutes request.src_ip _),
  unfold neighbor_update in
      SameRoutes-TableSorted (neighbor_entry-TableSorted nhop seq life_time s o)
        (after_neighbor-SameRoutes nhop src _),
)
