-- ===== src/RoutingTable/Timeouts/Handled.antt =====
-- What the timeout of a neighbour does to the table, the kernel and the running repairs.
use unified_routing_framewor.Prelude.{
  ℕ, ◌≡◌, refl, ◌≢◌, ◌⊎◌, inl, inr, Option, none, some, Bool, false, not, ◌&&◌, ◌||◌, arith, ◌==◌,
  ◌*◌, add32, add64, if◌then◌else◌, Bool-cases, Option-cases, ℕ_discrete,
}
use unified_routing_framewor.Prelude.Outcome.{done}
use unified_routing_framewor.Params.{infinity, active_route, broken_route, active_route_timeout}
use unified_routing_framewor.RouteEntry.{RtableEntry}
use unified_routing_framewor.RouteMap.{find, update, IsSorted}
use unified_routing_framewor.RouteMap.Laws.{
  Each, Each-of, find-dest_ip, find-update, update-IsSorted,
}
use unified_routing_framewor.LocalRepair
use unified_routing_framewor.LocalRepair.{find_in_list}
use unified_routing_framewor.LocalRepair.Laws.{find_in_list-add_to_list}
use unified_routing_framewor.Node.{Node, del_kroute}
use unified_routing_framewor.RoutingTable.Frame.{kernel_route}
use unified_routing_framewor.RoutingTable.Timeouts.{
  break_neighbor, break_routes, neighbor_timeout_handler,
}
use unified_routing_framewor.RoutingTable.Timeouts.Broken.{
  over, is_over?, find-break_routes, repair-break_routes,
}

-- Whether a route is active over a node.
abbrev pub is_active_over : ℕ → Option RtableEntry → Bool
is_active_over dst none = false
is_active_over dst (some d) = d.routing_flags == active_route && dst == d.next_hop

-- The neighbour's own entry is marked broken; it leaves the kernel unless its route was invalid.
break_neighbor-writes :
    (e : RtableEntry) (s : Node)
    → (e' : RtableEntry) × ((break_neighbor e s).rtable ≡ update e' s.rtable)
      × (e'.dest_ip ≡ e.dest_ip)
      × (e'.routing_flags ≡ broken_route)
      × ((k : ℕ)
          → kernel_route k (break_neighbor e s).log ≡ (
              if not (e.hop_cnt == infinity) && e.dest_ip == k then none else kernel_route k s.log))
      × ((break_neighbor e s).local_repair_list ≡ s.local_repair_list)
unfolding break_neighbor del_kroute kernel_route
break_neighbor-writes e s = elim (Bool-cases (e.hop_cnt == infinity)) [
  | inl b ↦ (
    record e {
      routing_flags = broken_route;
      lifetime = add64 s.now (10 * active_route_timeout);
      hop_cnt = e.last_hop_cnt;
    },
    rw (b, break_neighbor),
    refl,
    refl,
    λ k. rw (b, break_neighbor),
    rw (b, break_neighbor),
  )
  | inr b ↦ (
    record e {
      routing_flags = broken_route;
      lifetime = add64 s.now (10 * active_route_timeout);
      last_hop_cnt = e.hop_cnt;
      dest_seq_num = add32 e.dest_seq_num 1;
    },
    rw (b, break_neighbor),
    refl,
    refl,
    λ k. rw (b, break_neighbor),
    rw (b, break_neighbor),
  )
]

-- The handler at the entry that it finds.
handler_found :
    (dst : ℕ) (s : Node) (e : RtableEntry)
    → find dst s.rtable ≡ some e
    → (let s₁ = record s { local_repair_list = LocalRepair.add_to_list dst s.local_repair_list } in
        let s₂ = break_neighbor e s₁ in
        neighbor_timeout_handler dst s ≡ done (break_routes dst s₂.rtable s₂))
unfolding neighbor_timeout_handler
handler_found dst s e h = rw (h, neighbor_timeout_handler)

module _ (dst : ℕ) (s : Node) (e : RtableEntry) (h : find dst s.rtable ≡ some e)
    (o : IsSorted s.rtable) where
  -- The state between the two parts of the handler.
  abbrev repairing : Node
  repairing = record s { local_repair_list = LocalRepair.add_to_list dst s.local_repair_list }

  abbrev half : Node
  half = break_neighbor e repairing

  find-half :
      (k : ℕ)
      → find k half.rtable
        ≡ (if dst == k then some (break_neighbor-writes e repairing).0 else find k s.rtable)
  find-half k =
      let (e', wr, d, _, _, _) = break_neighbor-writes e repairing in
      rw wr (ground (arith, find-update k e' s.rtable, find-dest_ip dst s.rtable e))

  half-IsSorted : IsSorted half.rtable
  half-IsSorted =
      let w = break_neighbor-writes e repairing in rw w.1 (update-IsSorted (w.0) s.rtable o)

  half-broken : (break_neighbor-writes e repairing).0.routing_flags ≡ broken_route
  half-broken = (break_neighbor-writes e repairing).3

  find-final :
      (k : ℕ)
      → find k (break_routes dst half.rtable half).rtable
        ≡ over dst half.now (find k half.rtable) (find k half.rtable)
  find-final k = find-break_routes dst k half.rtable half half-IsSorted (λ j d x. x)

  final-inactive :
      (k : ℕ) → is_active_over dst (find k (break_routes dst half.rtable half).rtable) ≡ false
  final-inactive k = rw (find-final k) (elim (Option-cases (find k half.rtable)) [
    | inl x ↦ rw x
    | inr (d, x) ↦ rw x (ground (arith, find-half k, half-broken, find-dest_ip k half.rtable d x))
  ])

  final-broken :
      Each
        (λ d. (d.dest_ip ≢ dst) ⊎ (d.routing_flags ≡ broken_route))
        (break_routes dst half.rtable half).rtable
  final-broken = Each-of _ _ λ k d x. elim (ℕ_discrete dst k) [
    | yes p ↦ inr (ground (arith, find-final k, find-half k, half-broken))
    | no p ↦ inl (ground (arith, find-dest_ip k (break_routes dst half.rtable half).rtable d x))
  ]

  final-repair :
      (k : ℕ)
      → find_in_list k (break_routes dst half.rtable half).local_repair_list
        ≡ (find_in_list k s.local_repair_list || dst == k || is_over? dst (find k s.rtable))
  final-repair k = ground (
    arith,
    repair-break_routes dst k half.rtable half half-IsSorted,
    (break_neighbor-writes e repairing).5,
    find_in_list-add_to_list k dst s.local_repair_list,
    find-half k,
    half-broken,
    (break_neighbor-writes e repairing).2,
    find-dest_ip dst s.rtable e h,
  )

-- Where the table is sorted and has an entry for the neighbour, the handler of its timeout returns.
-- No route is active over the neighbour then, the one to it is marked broken, and the local repair
-- list has gained just the neighbour and the other destinations whose routes were active over it.
pub neighbor_timeout_handler-breaks :
    (dst : ℕ) (s : Node) (e : RtableEntry)
    → find dst s.rtable ≡ some e
    → IsSorted s.rtable
    → (t : Node) × (neighbor_timeout_handler dst s ≡ done t)
      × ((k : ℕ) → is_active_over dst (find k t.rtable) ≡ false)
      × Each (λ d. (d.dest_ip ≢ dst) ⊎ (d.routing_flags ≡ broken_route)) t.rtable
      × ((k : ℕ)
          → find_in_list k t.local_repair_list
            ≡ (find_in_list k s.local_repair_list || dst == k || is_over? dst (find k s.rtable)))
neighbor_timeout_handler-breaks dst s e h o = (
  break_routes dst (half dst s e h o).rtable (half dst s e h o),
  handler_found dst s e h,
  final-inactive dst s e h o,
  final-broken dst s e h o,
  final-repair dst s e h o,
)
