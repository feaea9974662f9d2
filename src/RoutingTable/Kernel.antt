-- ===== src/RoutingTable/Kernel.antt =====
-- The kernel's routes against the routing table. `KernelAgrees` speaks of the requests that the daemon
-- has sent: whether the kernel obeys them is not part of the program.
use unified_routing_framewor.Prelude.{
  ℕ, ◌≡◌, refl, ◌∙◌, inl, inr, Option, none, some, arith, ◌==◌, if◌then◌else◌, Option-cases,
  Bool-cases, ℕ_discrete,
}
use unified_routing_framewor.Params.{active_route}
use unified_routing_framewor.RouteEntry.{RtableEntry, create_entry}
use unified_routing_framewor.RouteMap.{find, update, IsSorted}
use unified_routing_framewor.RouteMap.Laws.{find-dest_ip, find-insert}
use unified_routing_framewor.Packets.{Rreq, Rrep}
use unified_routing_framewor.Node.{Node, add_kroute, del_kroute}
use unified_routing_framewor.RoutingTable.{is_better, insert_route}
use unified_routing_framewor.RoutingTable.Updates.{
  replace_route, forward_better, forward_revived, forward_created, forward_route_entry,
  forward_route_update, reverse_better, reverse_revived, reverse_created, reverse_route_entry,
  reverse_route_update,
}
use unified_routing_framewor.RoutingTable.Frame.{kernel_route, SameRoutes}
use unified_routing_framewor.RoutingTable.Frame.After.{route_found-SameRoutes}
use unified_routing_framewor.RoutingTable.Freshness.{
  forward_active, forward_inactive, forward_none, reverse_active, reverse_inactive, reverse_none,
  write_found,
}

-- The route that an entry asks for.
abbrev pub wanted : Option RtableEntry → Option ℕ
wanted none = none
wanted (some e) = if e.routing_flags == active_route then some e.next_hop else none

-- The last request to the kernel about each destination gave it the next hop of the active route, or
-- took the route away if there is none.
abbrev pub KernelAgrees : Node → Type 0
KernelAgrees s = (k : ℕ) → kernel_route k s.log ≡ wanted (find k s.rtable)

pub KernelAgrees-then : {s t : Node} → KernelAgrees s → SameRoutes s t → KernelAgrees t
KernelAgrees-then h same k = rw same.table (same.kernel k ∙ h k)

add_kroute-kernel_route :
    (e : RtableEntry) (s : Node) (k : ℕ)
    → kernel_route k (add_kroute e s).log
      ≡ (if e.dest_ip == k then some e.next_hop else kernel_route k s.log)
unfolding add_kroute kernel_route
add_kroute-kernel_route e s k = refl

del_kroute-kernel_route :
    (e : RtableEntry) (s : Node) (k : ℕ)
    → kernel_route k (del_kroute e s).log ≡ (if e.dest_ip == k then none else kernel_route k s.log)
unfolding del_kroute kernel_route
del_kroute-kernel_route e s k = refl

module _ (dst : ℕ) (e : RtableEntry) (s : Node) (h : find dst s.rtable ≡ some e)
    (g : KernelAgrees s) where
  -- An active route that stays active.
  replace_route-KernelAgrees :
      (e' : RtableEntry) (hop_cnt : ℕ)
      → e.routing_flags ≡ active_route
      → e'.routing_flags ≡ active_route
      → e'.dest_ip ≡ e.dest_ip
      → KernelAgrees (replace_route e e' hop_cnt s)
  unfolding replace_route add_kroute del_kroute kernel_route
  replace_route-KernelAgrees e' hop_cnt a a' d k =
      ground (arith, write_found dst e e' s h d k, g k, find-dest_ip dst s.rtable e)

  -- A route that becomes active.
  pub revive-KernelAgrees :
      (e' : RtableEntry)
      → e'.routing_flags ≡ active_route
      → e'.dest_ip ≡ e.dest_ip
      → KernelAgrees (add_kroute e' (record s { rtable = update e' s.rtable }))
  unfolding add_kroute kernel_route
  revive-KernelAgrees e' a' d k =
      ground (arith, write_found dst e e' s h d k, g k, find-dest_ip dst s.rtable e)

pub insert_route-KernelAgrees :
    (e : RtableEntry) (s : Node)
    → find e.dest_ip s.rtable ≡ none
    → IsSorted s.rtable
    → e.routing_flags ≡ active_route
    → KernelAgrees s
    → KernelAgrees (insert_route e s)
unfolding insert_route add_kroute kernel_route
insert_route-KernelAgrees e s h o a g k =
    ground (arith, find-insert k e s.rtable o, find-insert e.dest_ip e s.rtable o, g k)

forward_route_entry-KernelAgrees :
    (nhop : ℕ) (r : Rrep) (s : Node)
    → IsSorted s.rtable
    → KernelAgrees s
    → KernelAgrees (forward_route_entry nhop r s)
forward_route_entry-KernelAgrees nhop r s o g = elim (Option-cases (find r.dest_ip s.rtable)) [
  | inl h ↦ rw (forward_none nhop r s h) (
      insert_route-KernelAgrees (forward_created s.now nhop r) s (unfold create_entry in h) o
        (unfold create_entry in refl) g)
  | inr (e, h) ↦ elim (ℕ_discrete e.routing_flags active_route) [
    | yes a ↦ elim (Bool-cases (is_better r.dest_seq_num r.hop_cnt e)) [
      | inl b ↦
          rw (forward_active nhop r s e h a, b)
            (replace_route-KernelAgrees r.dest_ip e s h g (forward_better s.now nhop r e) r.hop_cnt
              a a refl)
      | inr b ↦ rw (forward_active nhop r s e h a, b) g
    ]
    | no a ↦
        rw (forward_inactive nhop r s e h a)
          (revive-KernelAgrees r.dest_ip e s h g (forward_revived s.now nhop r e) refl refl)
  ]
]

reverse_route_entry-KernelAgrees :
    (nhop : ℕ) (r : Rreq) (s : Node)
    → IsSorted s.rtable
    → KernelAgrees s
    → KernelAgrees (reverse_route_entry nhop r s)
reverse_route_entry-KernelAgrees nhop r s o g = elim (Option-cases (find r.src_ip s.rtable)) [
  | inl h ↦ rw (reverse_none nhop r s h) (
      insert_route-KernelAgrees (reverse_created s.now nhop r) s (unfold create_entry in h) o
        (unfold create_entry in refl) g)
  | inr (e, h) ↦ elim (ℕ_discrete e.routing_flags active_route) [
    | yes a ↦ elim (Bool-cases (is_better r.src_seq_num r.hop_cnt e)) [
      | inl b ↦
          rw (reverse_active nhop r s e h a, b)
            (replace_route-KernelAgrees r.src_ip e s h g (reverse_better s.now nhop r e) r.hop_cnt a
              a refl)
      | inr b ↦ rw (reverse_active nhop r s e h a, b) g
    ]
    | no a ↦
        rw (reverse_inactive nhop r s e h a)
          (revive-KernelAgrees r.src_ip e s h g (reverse_revived s.now nhop r e) refl refl)
  ]
]

-- Where the table is sorted and the requests to the kernel agree with it, they agree after
-- `forwardRouteUpdate` and after `reverseRouteUpdate`, whatever the message.
pub route_update-KernelAgrees :
    (nhop : ℕ) (reply : Rrep) (request : Rreq) (s : Node)
    → IsSorted s.rtable
    → KernelAgrees s
    → KernelAgrees (forward_route_update nhop reply s)
      × KernelAgrees (reverse_route_update nhop request s)
route_update-KernelAgrees nhop reply request s o g = (
  unfold forward_route_update in
      KernelAgrees-then (forward_route_entry-KernelAgrees nhop reply s o g)
        (route_found-SameRoutes reply.dest_ip _),
  unfold reverse_route_update in
      KernelAgrees-then (reverse_route_entry-KernelAgrees nhop request s o g)
        (route_found-SameRoutes request.src_ip _),
)
