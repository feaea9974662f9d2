-- ===== src/RoutingTable/Neighbors.antt =====
-- `neighborUpdate`: the entry of a node that was just heard, and the kernel's route to it.
use unified_routing_framewor.Prelude.{
  ℕ, ◌≡◌, refl, ◌⊎◌, inl, inr, ◌≢◌, none, some, arith, Option-cases, ℕ_discrete,
}
use unified_routing_framewor.Params.{active_route}
use unified_routing_framewor.RouteEntry.{RtableEntry, create_entry}
use unified_routing_framewor.RouteMap.{find, update, IsSorted}
use unified_routing_framewor.Node.{Node, add_kroute}
use unified_routing_framewor.RoutingTable.{insert_route}
use unified_routing_framewor.RoutingTable.Updates.{neighbor_entry, neighbor_update, as_neighbor}
use unified_routing_framewor.RoutingTable.Frame.After.{after_neighbor-SameRoutes}
use unified_routing_framewor.RoutingTable.Freshness.{Sets, insert_route-Sets, write_found}
use unified_routing_framewor.RoutingTable.Kernel.{
  KernelAgrees, KernelAgrees-then, insert_route-KernelAgrees, revive-KernelAgrees,
}

module _ (neighbor seq life_time : ℕ) (s : Node) where
  pub neighbor_none :
      find neighbor s.rtable ≡ none
      → neighbor_entry neighbor seq life_time s
        ≡ insert_route (create_entry neighbor seq 1 neighbor life_time active_route) s
  unfolding neighbor_entry
  neighbor_none h = rw (h, neighbor_entry)

  module _ (e : RtableEntry) (h : find neighbor s.rtable ≡ some e) where
    pub neighbor_active :
        e.routing_flags ≡ active_route
        → neighbor_entry neighbor seq life_time s
          ≡ record s { rtable = update (as_neighbor neighbor seq life_time e) s.rtable }
    unfolding neighbor_entry
    neighbor_active a = rw (h, neighbor_entry) (ground arith)

    pub neighbor_inactive :
        e.routing_flags ≢ active_route
        → (let n' = record (as_neighbor neighbor seq life_time e) {
          routing_flags = active_route;
        } in
            neighbor_entry neighbor seq life_time s
            ≡ add_kroute n' (record s { rtable = update n' s.rtable }))
    unfolding neighbor_entry
    neighbor_inactive a = rw (h, neighbor_entry) (ground arith)

-- The entry of a neighbour with this sequence number.
abbrev pub IsNeighbor : ℕ → ℕ → ℕ → RtableEntry → Type 0
IsNeighbor neighbor seq life_time e =
    (e.next_hop ≡ neighbor)
    × (e.hop_cnt ≡ 1)
    × (e.dest_seq_num ≡ seq)
    × (e.lifetime ≡ life_time)
    × (e.routing_flags ≡ active_route)

neighbor_entry-Sets :
    (neighbor seq life_time : ℕ) (s : Node)
    → IsSorted s.rtable
    → (e : RtableEntry) × Sets neighbor e s (neighbor_entry neighbor seq life_time s)
      × IsNeighbor neighbor seq life_time e
neighbor_entry-Sets neighbor seq life_time s o = elim (Option-cases (find neighbor s.rtable)) [
  | inl h ↦
      let c = create_entry neighbor seq 1 neighbor life_time active_route in
      (
        c,
        rw (neighbor_none neighbor seq life_time s h)
            (unfold create_entry in insert_route-Sets c s h o),
        unfold create_entry in (refl, refl, refl, refl, refl),
      )
  | inr (e, h) ↦
      let n = as_neighbor neighbor seq life_time e in
      elim (ℕ_discrete e.routing_flags active_route) [
        | yes a ↦ (
          n,
          rw (neighbor_active neighbor seq life_time s e h a) (write_found neighbor e n s h refl),
          (refl, refl, refl, refl, a),
        )
        | no a ↦
            let n' : RtableEntry = record n { routing_flags = active_route } in
            (
              n',
              rw (neighbor_inactive neighbor seq life_time s e h a)
                  (unfold add_kroute in write_found neighbor e n' s h refl),
              (refl, refl, refl, refl, refl),
            )
      ]
]

-- After `neighborUpdate` on a sorted table the neighbour has an active one-hop route over itself,
-- with the lifetime and the sequence number of the call, and no other destination's entry has
-- changed. The sequence number is the one of the call even if that is 0 for "unknown" and the entry
-- had a later one.
pub neighbor_update-Sets :
    (neighbor src seq life_time : ℕ) (s : Node)
    → IsSorted s.rtable
    → (e : RtableEntry) × Sets neighbor e s (neighbor_update neighbor src seq life_time s)
      × IsNeighbor neighbor seq life_time e
unfolding neighbor_update
neighbor_update-Sets neighbor src seq life_time s o =
    let (e, sets, n) = neighbor_entry-Sets neighbor seq life_time s o in
    (
      e,
      λ k.
          rw
            (after_neighbor-SameRoutes neighbor src (neighbor_entry neighbor seq life_time s)).table
            (sets k),
      n,
    )

-- Where the table is sorted and the requests to the kernel agree with it, `neighborUpdate` keeps
-- them so if the neighbour had no active route over another node.
pub neighbor_update-KernelAgrees :
    (neighbor src seq life_time : ℕ) (s : Node)
    → IsSorted s.rtable
    → KernelAgrees s
    → ((e : RtableEntry)
        → find neighbor s.rtable ≡ some e
        → (e.routing_flags ≢ active_route) ⊎ (e.next_hop ≡ neighbor))
    → KernelAgrees (neighbor_update neighbor src seq life_time s)
unfolding neighbor_update
neighbor_update-KernelAgrees neighbor src seq life_time s o g direct =
    KernelAgrees-then kept (after_neighbor-SameRoutes neighbor src _)
  where
    active :
        (e : RtableEntry)
        → find neighbor s.rtable ≡ some e
        → e.routing_flags ≡ active_route
        → KernelAgrees
            (record s { rtable = update (as_neighbor neighbor seq life_time e) s.rtable })
    active e h a k = ground (
      arith,
      write_found neighbor e (as_neighbor neighbor seq life_time e) s h refl k,
      g k,
      direct e h,
    )

    kept : KernelAgrees (neighbor_entry neighbor seq life_time s)
    kept = elim (Option-cases (find neighbor s.rtable)) [
      | inl h ↦ rw (neighbor_none neighbor seq life_time s h) (
          insert_route-KernelAgrees _ s (unfold create_entry in h) o (unfold create_entry in refl)
            g)
      | inr (e, h) ↦ elim (ℕ_discrete e.routing_flags active_route) [
        | yes a ↦ rw (neighbor_active neighbor seq life_time s e h a) (active e h a)
        | no a ↦
            rw (neighbor_inactive neighbor seq life_time s e h a)
              (revive-KernelAgrees neighbor e s h g _ refl refl)
      ]
    ]

-- Where the requests to the kernel agree with the table and the neighbour has an active entry over
-- another node, they do not agree with it after `neighborUpdate`.
pub neighbor_update_stale :
    (neighbor src seq life_time : ℕ) (s : Node) (e : RtableEntry)
    → KernelAgrees s
    → find neighbor s.rtable ≡ some e
    → e.routing_flags ≡ active_route
    → e.next_hop ≢ neighbor
    → ¬ KernelAgrees (neighbor_update neighbor src seq life_time s)
unfolding neighbor_update
neighbor_update_stale neighbor src seq life_time s e g h a other agrees =
    let same = after_neighbor-SameRoutes neighbor src (neighbor_entry neighbor seq life_time s) in
    let t = neighbor_active neighbor seq life_time s e h a in
    let wants = write_found neighbor e (as_neighbor neighbor seq life_time e) s h refl neighbor in
    ground (arith, same.kernel neighbor, same.table, t, wants, g neighbor, agrees neighbor)
