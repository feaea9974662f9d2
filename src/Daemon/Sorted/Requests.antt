-- ===== src/Daemon/Sorted/Requests.antt =====
-- Requests of the local agent keep the order of the table: `process_asl` and what it calls.
use unified_routing_framewor.Prelude.{
  ℕ, ◌≡◌, subst, sym, List, Option, none, some, Bool, true, false, arith, ◌==◌, add64,
}
use unified_routing_framewor.Prelude.Outcome.{done, fault, overrun}
use unified_routing_framewor.LaMessage.{parse_stream}
use unified_routing_framewor.Params.{broadcast_addr, broken_route, path_traversal_time}
use unified_routing_framewor.RouteMap.{find, IsSorted}
use unified_routing_framewor.RouteMap.Laws.{update-IsSorted}
use unified_routing_framewor.LocalRepair
use unified_routing_framewor.Node.{Node, feedback, emit, ip_found, ip_nofound, set_real_timer}
use unified_routing_framewor.Node.Timers.{reset_reboot_timer}
use unified_routing_framewor.ErrorReports.{generate_rerr}
use unified_routing_framewor.RoutingTable.{find_active_route, set_life_time}
use unified_routing_framewor.RoutingTable.Frame.{send_packet-SameRoutes, generate_rerr-SameRoutes}
use unified_routing_framewor.RoutingTable.Frame.After.{set_timer-SameRoutes}
use unified_routing_framewor.RoutingTable.Sorted.{TableSorted, SameRoutes-TableSorted}
use unified_routing_framewor.Requests.{create_rreq}
use unified_routing_framewor.Daemon.{process_asl, repair_or_report}
use unified_routing_framewor.Daemon.Discovery.{
  Uninitialised, first_ttl, set_rreq_timer, set_lr_timer, send_rreq, do_local_repair,
}
use unified_routing_framewor.Daemon.Loop.{
  Received, Arrivals, la_buffer, recv_la_data, process_aodv, run_handlers, main_daemon_loop_pass,
}
use unified_routing_framewor.Daemon.Sorted.{if-TableSorted, elim-TableSorted}
use unified_routing_framewor.Daemon.Sorted.Received.{Leaves, Leaves-if, Leaves-bind}
use unified_routing_framewor.Daemon.Sorted.Messages.{process_recv_msg-Leaves}

pub feedback-TableSorted :
    (dst result : ℕ) (s : Node) → TableSorted s → TableSorted (feedback dst result s)
unfolding feedback emit
feedback-TableSorted dst result s o = o

pub generate_rerr-TableSorted :
    (dst n : ℕ) (b : Bool) (s : Node) → TableSorted s → TableSorted (generate_rerr dst n b s)
generate_rerr-TableSorted dst n b s o =
    SameRoutes-TableSorted o (generate_rerr-SameRoutes dst n b s)

pub set_rreq_timer-TableSorted :
    (dst ttl : ℕ) (s : Node) → TableSorted s → TableSorted (set_rreq_timer dst ttl s)
unfolding set_rreq_timer
set_rreq_timer-TableSorted dst ttl s o = SameRoutes-TableSorted o (set_timer-SameRoutes _ _ _ s)

set_lr_timer-TableSorted :
    (dst ttl : ℕ) (s : Node) → TableSorted s → TableSorted (set_lr_timer dst ttl s)
unfolding set_lr_timer
set_lr_timer-TableSorted dst ttl s o = SameRoutes-TableSorted o (set_timer-SameRoutes _ _ _ s)

reset_reboot_timer-rtable : (s : Node) → (reset_reboot_timer s).rtable ≡ s.rtable
unfolding reset_reboot_timer set_real_timer emit
reset_reboot_timer-rtable s = ground arith

create_rreq-TableSorted :
    (dst flags : ℕ) (s : Node) → TableSorted s → TableSorted (create_rreq dst flags s).1
unfolding create_rreq
create_rreq-TableSorted dst flags s o = o

set_life_time-TableSorted :
    (dst life : ℕ) (s : Node) → TableSorted s → TableSorted (set_life_time dst life s)
unfolding set_life_time
set_life_time-TableSorted dst life s o =
    elim-TableSorted (find dst s.rtable) s _ o (λ e. update-IsSorted _ s.rtable o)

send_rreq-TableSorted :
    (raw : Uninitialised) (dst flags : ℕ) (s : Node)
    → TableSorted s
    → TableSorted (send_rreq raw dst flags s)
unfolding send_rreq
send_rreq-TableSorted raw dst flags s o =
    let s₁ = (create_rreq dst flags s).1 in
    let s₂ = set_life_time dst (add64 s₁.now path_traversal_time) s₁ in
    let sorted = set_life_time-TableSorted dst _ s₁ (create_rreq-TableSorted dst flags s o) in
    if-TableSorted (dst == s.my_ip) s _ o (
      SameRoutes-TableSorted (set_rreq_timer-TableSorted dst (first_ttl raw dst s₂) _ sorted)
        (send_packet-SameRoutes broadcast_addr _ _ _))

do_local_repair-TableSorted :
    (dst src rflags : ℕ) (s : Node) → TableSorted s → TableSorted (do_local_repair dst src rflags s)
unfolding do_local_repair
do_local_repair-TableSorted dst src rflags s o =
    SameRoutes-TableSorted
      (set_lr_timer-TableSorted dst _ _ (create_rreq-TableSorted dst rflags s o))
      (send_packet-SameRoutes broadcast_addr _ _ _)

repair_or_report-TableSorted :
    (dst src protocol : ℕ) (s : Node)
    → TableSorted s
    → TableSorted (repair_or_report dst src protocol s)
unfolding repair_or_report
repair_or_report-TableSorted dst src protocol s o =
    let fed = feedback-TableSorted dst ip_nofound s o in
    if-TableSorted (LocalRepair.find_in_list dst s.local_repair_list) _ _
      (elim-TableSorted (find dst s.rtable) s _ o (λ e.
        if-TableSorted (e.routing_flags == broken_route) _ s
          (do_local_repair-TableSorted dst src _ s o) o))
      (elim-TableSorted (find dst (feedback dst ip_nofound s).rtable) _ _
        (generate_rerr-TableSorted dst 0 true _ fed)
        (λ e. generate_rerr-TableSorted dst 0 false _ fed))

routed-TableSorted :
    {A : Type 0} (o : Option A) (t u : Node)
    → TableSorted t
    → TableSorted u
    → TableSorted (elim o [ some x ↦ t | none ↦ u ])
routed-TableSorted none t u x y = y
routed-TableSorted (some a) t u x y = x

pub process_asl-TableSorted :
    (raw : Uninitialised) (dst src protocol : ℕ) (s : Node)
    → TableSorted s
    → TableSorted (process_asl raw dst src protocol s)
unfolding process_asl
process_asl-TableSorted raw dst src protocol s o =
    if-TableSorted s.during_reboot _ _
      (if-TableSorted (src == s.my_ip) _ _ (feedback-TableSorted dst ip_nofound s o) (
        generate_rerr-TableSorted dst 0 true _ (
          feedback-TableSorted dst ip_nofound _
            (subst IsSorted (sym (reset_reboot_timer-rtable s)) o))))
      (routed-TableSorted (find_active_route dst s) _ _ (feedback-TableSorted dst ip_found s o) (
        if-TableSorted (src == s.my_ip) _ _ (send_rreq-TableSorted raw dst _ s o)
          (repair_or_report-TableSorted dst src protocol s o)))

recv_la_data-Leaves :
    (raw : Uninitialised) (received : Option (List ℕ)) (s : Node)
    → TableSorted s
    → Leaves (λ t. t) (recv_la_data raw received s)
unfolding recv_la_data
recv_la_data-Leaves raw none s o = o
recv_la_data-Leaves raw (some bytes) s o =
    elim (parse_stream (la_buffer bytes))
      as (λ x.
        Leaves (λ t. t)
          (elim x [
            | none ↦ fault overrun
            | some m ↦ done (process_asl raw m.dst_address m.src_address m.protocol s)
          ])) [
            | none ↦ tt
            | some m ↦ process_asl-TableSorted raw m.dst_address m.src_address m.protocol s o
          ]

process_aodv-Leaves :
    (raw : Uninitialised) (x : Received) (s : Node)
    → TableSorted s
    → Leaves (λ t. t) (process_aodv raw x s)
unfolding process_aodv
process_aodv-Leaves raw x s o = process_recv_msg-Leaves raw x.src_ip x.ttl x.msg s o

-- A pass of the main loop.
pub main_daemon_loop_pass-Leaves :
    (raw : Uninitialised) (io : Arrivals) (s : Node)
    → TableSorted s
    → Leaves (λ t. t) (main_daemon_loop_pass raw io s)
unfolding main_daemon_loop_pass run_handlers
main_daemon_loop_pass-Leaves raw io s o =
    Leaves-if io.selected (λ t. t) (run_handlers raw io s) (done s)
      (Leaves-bind _ (λ t. t) (λ t. t) _
        (elim io.packet
          as (λ x. Leaves (λ t. t) (elim x [ none ↦ done s | some y ↦ process_aodv raw y s ])) [
            | none ↦ o
            | some y ↦ process_aodv-Leaves raw y s o
          ])
        (λ t p.
          elim io.request
            as (λ x. Leaves (λ u. u) (elim x [ none ↦ done t | some y ↦ recv_la_data raw y t ])) [
              | none ↦ p
              | some y ↦ recv_la_data-Leaves raw y t p
            ]))
      o
