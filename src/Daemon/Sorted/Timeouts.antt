-- ===== src/Daemon/Sorted/Timeouts.antt =====
-- Timeouts of routes keep the order of the table: `neighbor_timeout_handler` and `refreshEntries`.
use unified_routing_framewor.Prelude.{
  ℕ, List, [], ◌∷◌, none, some, not, ◌&&◌, leb, map, ◌==◌, if◌then◌else◌, add64, sub64,
}
use unified_routing_framewor.Prelude.Int.{ℤ, pos, ltb_ℤ, u64_of_int}
use unified_routing_framewor.Prelude.Outcome.{Outcome, done, fault, null_pointer, past_end}
use unified_routing_framewor.Params.{infinity, active_route, active_route_timeout}
use unified_routing_framewor.RouteEntry.{RtableEntry}
use unified_routing_framewor.RouteMap.{find, update, erase}
use unified_routing_framewor.RouteMap.Laws.{update-IsSorted, erase-IsSorted}
use unified_routing_framewor.LocalRepair
use unified_routing_framewor.Node.{Node, del_kroute, emit}
use unified_routing_framewor.RoutingTable.Sorted.{TableSorted}
use unified_routing_framewor.RoutingTable.Timeouts.{
  break_neighbor, broken, break_route, break_routes, neighbor_timeout_handler,
}
use unified_routing_framewor.RoutingTable.Refresh.{
  route_idle, invalidated, invalidate, invalidate_behind, prolong, expire, refresh_entry,
  refresh_keys, refresh_entries,
}
use unified_routing_framewor.Daemon.Sorted.{if-TableSorted}
use unified_routing_framewor.Daemon.Sorted.Received.{Leaves, Leaves-if, Leaves-bind}

del_kroute-TableSorted : (e : RtableEntry) (s : Node) → TableSorted s → TableSorted (del_kroute e s)
unfolding del_kroute emit
del_kroute-TableSorted e s o = o

break_neighbor-TableSorted :
    (e : RtableEntry) (s : Node) → TableSorted s → TableSorted (break_neighbor e s)
unfolding break_neighbor
break_neighbor-TableSorted e s o =
    if-TableSorted (e.hop_cnt == infinity) _ _ (update-IsSorted _ s.rtable o)
      (del_kroute-TableSorted _ _ (update-IsSorted _ s.rtable o))

break_route-TableSorted :
    (dst : ℕ) (e : RtableEntry) (s : Node) → TableSorted s → TableSorted (break_route dst e s)
unfolding break_route
break_route-TableSorted dst e s o =
    if-TableSorted
      (not (e.dest_ip == dst) && (dst == e.next_hop && e.routing_flags == active_route)) _ s
      (del_kroute-TableSorted (broken s.now e) _ (update-IsSorted (broken s.now e) s.rtable o)) o

break_routes-TableSorted :
    (dst : ℕ) (m : List RtableEntry) (s : Node) → TableSorted s → TableSorted (break_routes dst m s)
unfolding break_routes
break_routes-TableSorted dst [] s o = o
break_routes-TableSorted dst (e ∷ m) s o =
    break_routes-TableSorted dst m (break_route dst e s) (break_route-TableSorted dst e s o)

-- The test of an empty table, and the search for the neighbour.
empty-Leaves :
    (m : List RtableEntry) (s : Node)
    → TableSorted s
    → Leaves (λ t. t) (elim m [ [] ↦ done s | _ ∷ _ ↦ fault past_end ])
empty-Leaves [] s o = o
empty-Leaves (e ∷ m) s o = tt

pub neighbor_timeout_handler-Leaves :
    (dst : ℕ) (s : Node) → TableSorted s → Leaves (λ t. t) (neighbor_timeout_handler dst s)
unfolding neighbor_timeout_handler
neighbor_timeout_handler-Leaves dst s o =
    let s₁ = record s { local_repair_list = LocalRepair.add_to_list dst s.local_repair_list } in
    elim (find dst s.rtable)
      as (λ x.
        Leaves (λ t. t)
          (elim x as (λ y. Outcome Node) [
            | none ↦ elim s.rtable [ [] ↦ done s₁ | _ ∷ _ ↦ fault past_end ]
            | some e ↦ done (break_routes dst (break_neighbor e s₁).rtable (break_neighbor e s₁))
          ])) [
            | none ↦ empty-Leaves s.rtable s₁ o
            | some e ↦ break_routes-TableSorted dst _ _ (break_neighbor-TableSorted e s₁ o)
          ]

invalidate-TableSorted : (e : RtableEntry) (s : Node) → TableSorted s → TableSorted (invalidate e s)
unfolding invalidate
invalidate-TableSorted e s o =
    update-IsSorted (invalidated s.now e) _
      (if-TableSorted (e.routing_flags == active_route) _ s (del_kroute-TableSorted e s o) o)

invalidate_behind-TableSorted :
    (k : ℕ) (m : List RtableEntry) (s : Node)
    → TableSorted s
    → TableSorted (invalidate_behind k m s)
unfolding invalidate_behind
invalidate_behind-TableSorted k [] s o = o
invalidate_behind-TableSorted k (d ∷ m) s o = invalidate_behind-TableSorted k m _ (
    if-TableSorted (not (d.dest_ip == k) && (k == d.next_hop && not (d.hop_cnt == infinity))) _ s
      (invalidate-TableSorted d s o) o)

expire-TableSorted : (e : RtableEntry) (s : Node) → TableSorted s → TableSorted (expire e s)
unfolding expire
expire-TableSorted e s o =
    let sorted = invalidate-TableSorted e s o in
    if-TableSorted (e.hop_cnt == 1) _ _ (invalidate_behind-TableSorted e.dest_ip _ _ sorted) sorted

prolong-Leaves :
    (t : ℤ) (e : RtableEntry) (s : Node) → TableSorted s → Leaves (λ u. u) (prolong t e s)
unfolding prolong
prolong-Leaves t e s o =
    let life = add64 (sub64 s.now (u64_of_int t)) active_route_timeout in
    let m = update (record e { lifetime = life }) s.rtable in
    elim (find e.next_hop m)
      as (λ x.
        Leaves (λ u. u)
          (elim x as (λ y. Outcome Node) [
            | none ↦ fault null_pointer
            | some n ↦ done (record s { rtable = update (record n { lifetime = life }) m })
          ])) [ none ↦ tt | some n ↦ update-IsSorted _ m (update-IsSorted _ s.rtable o) ]

module _ (idle : ℕ → ℕ → ℤ) where
  refresh_entry-Leaves :
      (k : ℕ) (s : Node) → TableSorted s → Leaves (λ t. t) (refresh_entry idle k s)
  unfolding refresh_entry
  refresh_entry-Leaves k s o =
      elim (find k s.rtable)
        as (λ x.
          Leaves (λ t. t)
            (elim x as (λ y. Outcome Node) [
              | none ↦ done s
              | some e ↦
                  if leb e.lifetime s.now
                  then if e.hop_cnt == infinity
                    then done (record s { rtable = erase k s.rtable })
                    else if ltb_ℤ (route_idle idle e s.rtable) (pos active_route_timeout)
                    then prolong (route_idle idle e s.rtable) e s
                    else done (expire e s)
                  else done s
            ])) [
              | none ↦ o
              | some e ↦
                  Leaves-if (leb e.lifetime s.now) (λ t. t) _ (done s)
                    (Leaves-if (e.hop_cnt == infinity) (λ t. t) _ _ (erase-IsSorted k s.rtable o)
                      (Leaves-if (ltb_ℤ (route_idle idle e s.rtable) (pos active_route_timeout))
                        (λ t. t) _ _ (prolong-Leaves _ e s o) (expire-TableSorted e s o)))
                    o
            ]

  refresh_keys-Leaves :
      (ks : List ℕ) (s : Node) → TableSorted s → Leaves (λ t. t) (refresh_keys idle ks s)
  unfolding refresh_keys
  refresh_keys-Leaves [] s o = o
  refresh_keys-Leaves (k ∷ ks) s o =
      Leaves-bind (refresh_entry idle k s) (λ t. t) (λ t. t) (refresh_keys idle ks)
        (refresh_entry-Leaves k s o) (λ t p. refresh_keys-Leaves ks t p)

  pub refresh_entries-Leaves : (s : Node) → TableSorted s → Leaves (λ t. t) (refresh_entries idle s)
  unfolding refresh_entries
  refresh_entries-Leaves s o = refresh_keys-Leaves (map (λ e. e.dest_ip) s.rtable) s o
