-- ===== src/RoutingTable/Answered/Updates.antt =====
-- LA_Client_aodv/routingTable.cc: the updates that give a route, and what the local agent hears of them.
use unified_routing_framewor.Prelude.{
  ℕ, ◌≡◌, refl, ap, ◌∙◌, inl, inr, List, ◌∷◌, some, arith, ◌==◌, ==_self, if◌then◌else◌, Bool-cases,
  Option-cases, ℕ_discrete,
}
use unified_routing_framewor.Params.{active_route, lr_timer}
use unified_routing_framewor.RouteEntry.{create_entry, RtableEntry}
use unified_routing_framewor.RouteMap.{find, IsSorted}
use unified_routing_framewor.Packets.{Rrep}
use unified_routing_framewor.LocalRepair
use unified_routing_framewor.TimerQueue.{
  Handler, TimerData, neighbor_timeout, is_active_timer_in_queue, remove_active_route_timer,
}
use unified_routing_framewor.Node.{
  Node, emit, add_kroute, del_kroute, feedback, ip_found, set_real_timer,
}
use unified_routing_framewor.Node.Timers.{timer_add, set_lowest_timer, set_timer, remove_rreq_timer}
use unified_routing_framewor.RoutingTable.{insert_route, add_route_entry, is_better}
use unified_routing_framewor.RoutingTable.Updates.{
  set_neighbor_timer, watch_neighbor, neighbor_entry, neighbor_found, neighbor_update,
  replace_route, forward_better, forward_revived, forward_created, forward_route_entry,
  forward_route_update,
}
use unified_routing_framewor.RoutingTable.Frame.After.{route_found-SameRoutes}
use unified_routing_framewor.RoutingTable.Freshness.{
  Sets, replace_route-Sets, forward_active, forward_none, forward_route_entry-revives,
  forward_route_entry-creates, forward_inactive,
}
use unified_routing_framewor.RoutingTable.Answered.{
  answers, IsQuiet, if-IsQuiet, remove_rreq_timer-IsQuiet, feedback-answers, route_found-answers,
}

-- The table has an active route.
abbrev pub HasRoute : ℕ → Node → Type 0
HasRoute dst t = (e : RtableEntry) × (find dst t.rtable ≡ some e) × (e.routing_flags ≡ active_route)

Sets-HasRoute :
    (dst : ℕ) (e : RtableEntry) (s t : Node)
    → Sets dst e s t
    → e.routing_flags ≡ active_route
    → HasRoute dst t
Sets-HasRoute dst e s t h a =
    (e, h dst ∙ ap (λ b. if b then some e else find dst s.rtable) (==_self dst), a)

insert_route-IsQuiet : (dst : ℕ) (e : RtableEntry) (s : Node) → IsQuiet dst s (insert_route e s)
unfolding insert_route add_route_entry add_kroute emit answers
insert_route-IsQuiet dst e s = ground arith

replace_route-IsQuiet :
    (dst : ℕ) (e e' : RtableEntry) (n : ℕ) (s : Node) → IsQuiet dst s (replace_route e e' n s)
unfolding replace_route add_kroute del_kroute emit answers
replace_route-IsQuiet dst e e' n s = ground arith

revive-IsQuiet :
    (dst : ℕ) (e : RtableEntry) (m : List RtableEntry) (s : Node)
    → IsQuiet dst s (add_kroute e (record s { rtable = m }))
unfolding add_kroute emit answers
revive-IsQuiet dst e m s = refl

-- The table's part of the update leaves an active route, and answers nothing.
forward_route_entry-HasRoute :
    (nhop : ℕ) (r : Rrep) (s : Node)
    → IsSorted s.rtable
    → HasRoute r.dest_ip (forward_route_entry nhop r s)
      × IsQuiet r.dest_ip s (forward_route_entry nhop r s)
forward_route_entry-HasRoute nhop r s o = elim (Option-cases (find r.dest_ip s.rtable)) [
  | inl h ↦ (
    Sets-HasRoute r.dest_ip (forward_created s.now nhop r) s (forward_route_entry nhop r s)
        (forward_route_entry-creates nhop r s h o) (unfold create_entry in refl),
    rw (forward_none nhop r s h) (insert_route-IsQuiet r.dest_ip _ s),
  )
  | inr (e, h) ↦ elim (ℕ_discrete e.routing_flags active_route) [
    | yes a ↦ elim (Bool-cases (is_better r.dest_seq_num r.hop_cnt e)) [
      | inl b ↦
          let t = forward_better s.now nhop r e in
          rw (forward_active nhop r s e h a, b)
            (
              Sets-HasRoute r.dest_ip t s (replace_route e t r.hop_cnt s)
                  (replace_route-Sets r.dest_ip e t r.hop_cnt s h refl) a,
              replace_route-IsQuiet r.dest_ip e t r.hop_cnt s,
            )
      | inr b ↦ rw (forward_active nhop r s e h a, b) ((e, h, a), refl)
    ]
    | no a ↦ (
      Sets-HasRoute r.dest_ip (forward_revived s.now nhop r e) s (forward_route_entry nhop r s)
          (forward_route_entry-revives nhop r s e h a) refl,
      rw (forward_inactive nhop r s e h a) (revive-IsQuiet r.dest_ip _ _ s),
    )
  ]
]

-- Where the table is sorted, `forwardRouteUpdate` leaves an active route to the reply's destination,
-- whatever the table held, and has told the local agent just once more of the destination, that a
-- route is found.
pub forward_route_update-answers :
    (nhop : ℕ) (r : Rrep) (s : Node)
    → IsSorted s.rtable
    → HasRoute r.dest_ip (forward_route_update nhop r s)
      × (answers r.dest_ip (forward_route_update nhop r s).log ≡ ip_found ∷ answers r.dest_ip s.log)
unfolding forward_route_update
forward_route_update-answers nhop r s o =
    let t = forward_route_entry nhop r s in
    let ((e, h, a), quiet) = forward_route_entry-HasRoute nhop r s o in
    (
      (e, ap (find r.dest_ip) (route_found-SameRoutes r.dest_ip t).table ∙ h, a),
      route_found-answers r.dest_ip t ∙ ap (λ l. ip_found ∷ l) quiet,
    )

set_timer-IsQuiet :
    (dst n : ℕ) (h : Handler) (d : TimerData) (s : Node) → IsQuiet dst s (set_timer n h d s)
unfolding set_timer timer_add set_lowest_timer set_real_timer emit answers
set_timer-IsQuiet dst n h d s = ground arith

set_neighbor_timer-IsQuiet : (dst n : ℕ) (s : Node) → IsQuiet dst s (set_neighbor_timer n s)
unfolding set_neighbor_timer
set_neighbor_timer-IsQuiet dst n s = set_timer-IsQuiet dst _ neighbor_timeout _ s

watch_neighbor-IsQuiet : (dst n src : ℕ) (s : Node) → IsQuiet dst s (watch_neighbor n src s)
watch_neighbor-IsQuiet dst n src s =
    unfold watch_neighbor in
    (if-IsQuiet dst (is_active_timer_in_queue n s.timer_q) s
      (set_neighbor_timer n (record s { timer_q = remove_active_route_timer n s.timer_q }))
      (if src == 0 then set_neighbor_timer n s else s) (set_neighbor_timer-IsQuiet dst n _)
      (if-IsQuiet dst (src == 0) s (set_neighbor_timer n s) s (set_neighbor_timer-IsQuiet dst n s)
        refl))

neighbor_entry-IsQuiet :
    (dst n seq life : ℕ) (s : Node) → IsQuiet dst s (neighbor_entry n seq life s)
unfolding neighbor_entry insert_route add_route_entry add_kroute emit answers
neighbor_entry-IsQuiet dst n seq life s = ground arith

-- `neighborUpdate` tells the local agent once that there is a route to the neighbour.
pub neighbor_update-answers :
    (n src seq life : ℕ) (s : Node)
    → answers n (neighbor_update n src seq life s).log ≡ ip_found ∷ answers n s.log
unfolding neighbor_update neighbor_found
neighbor_update-answers n src seq life s =
    let t = neighbor_entry n seq life s in
    let fed = feedback n ip_found t in
    let (ret, u) = remove_rreq_timer n fed in
    let found =
      if ret == lr_timer
      then record u { local_repair_list = LocalRepair.delete_from_list n u.local_repair_list }
      else u in
    watch_neighbor-IsQuiet n n src found
    ∙ if-IsQuiet n (ret == lr_timer) u _ u refl refl
    ∙ remove_rreq_timer-IsQuiet n n fed
    ∙ feedback-answers n ip_found t
    ∙ ap (λ l. ip_found ∷ l) (neighbor_entry-IsQuiet n n seq life s)
