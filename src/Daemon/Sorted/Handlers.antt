-- ===== src/Daemon/Sorted/Handlers.antt =====
-- The timers' handlers keep the order of the table, and so does `scheduleTimer` with all that it runs.
use unified_routing_framewor.Prelude.{
  ℕ, zero, suc, ◌*◌, List, [], ◌∷◌, Option, none, some, false, ◌&&◌, leb, ltb, ◌==◌, if◌then◌else◌,
  sub64,
}
use unified_routing_framewor.Prelude.Int.{ℤ}
use unified_routing_framewor.Prelude.Outcome.{Outcome, done, fault, hang}
use unified_routing_framewor.Params.{
  allowed_hello_loss, blacklist_timeout, periodic_interval, hello_interval, rreq_retries,
  hello_timer, broadcast_addr, active_route,
}
use unified_routing_framewor.RouteEntry.{RtableEntry}
use unified_routing_framewor.RouteMap.{find}
use unified_routing_framewor.RouteMap.Laws.{update-IsSorted}
use unified_routing_framewor.Packets.{Rrep, rrep}
use unified_routing_framewor.Blacklist
use unified_routing_framewor.PendingRreqs
use unified_routing_framewor.TimerQueue.{
  Handler, neighbor_timeout, rrep_ack, resend_rreq, local_repair_timeout, reboot, periodic, hello,
  TimerData, Timer, first, next_of,
}
use unified_routing_framewor.Node.{
  Node, send_packet, hops, feedback, ip_nofound, add_kroute, emit, set_real_timer,
}
use unified_routing_framewor.Node.Timers.{timer_add}
use unified_routing_framewor.RoutingTable.{add_valid_routes, add_all_valid_routes}
use unified_routing_framewor.RoutingTable.Frame.{send_packet-SameRoutes}
use unified_routing_framewor.RoutingTable.Frame.After.{timer_add-SameRoutes}
use unified_routing_framewor.RoutingTable.Refresh.{refresh_entries}
use unified_routing_framewor.RoutingTable.Sorted.{TableSorted, SameRoutes-TableSorted}
use unified_routing_framewor.Daemon.Discovery.{next_attempt, send_again, resend_request}
use unified_routing_framewor.Daemon.Handlers.{
  rrep_ack_handler, lr_handler, send_hello, reboot_handler, periodic_handler, run_handler, arm_next,
  schedule_from, schedule_timer,
}
use unified_routing_framewor.Daemon.Sorted.{if-TableSorted, elim-TableSorted}
use unified_routing_framewor.Daemon.Sorted.Received.{Leaves, Leaves-if, Leaves-bind}
use unified_routing_framewor.Daemon.Sorted.Requests.{
  feedback-TableSorted, generate_rerr-TableSorted, set_rreq_timer-TableSorted,
}
use unified_routing_framewor.Daemon.Sorted.Timeouts.{
  neighbor_timeout_handler-Leaves, refresh_entries-Leaves,
}

rrep_ack_handler-Leaves :
    (dst : ℕ) (s : Node) → TableSorted s → Leaves (λ t. t) (rrep_ack_handler dst s)
unfolding rrep_ack_handler
rrep_ack_handler-Leaves dst s o =
    elim (Blacklist.add_to_list s.now dst blacklist_timeout s.black_list)
      as (λ x.
        Leaves (λ t. t)
          (elim x as (λ y. Outcome Node) [
            | none ↦ fault hang
            | some l ↦ done (record s { black_list = l })
          ])) [ none ↦ tt | some l ↦ o ]

send_again-TableSorted :
    (dst : ℕ) (e : PendingRreqs.RreqListEntry) (s : Node)
    → TableSorted s
    → TableSorted (send_again dst e s)
unfolding send_again
send_again-TableSorted dst e s o =
    SameRoutes-TableSorted (set_rreq_timer-TableSorted dst e.ttl _ o)
      (send_packet-SameRoutes broadcast_addr _ _ _)

resend_request-TableSorted :
    (dst : ℕ) (s : Node) → TableSorted s → TableSorted (resend_request dst s)
unfolding resend_request
resend_request-TableSorted dst s o =
    elim-TableSorted (PendingRreqs.in_list dst s.rreq_list) s _ o (λ e.
      if-TableSorted (ltb rreq_retries (next_attempt s.expanding_ring_search e).retries) _ _
        (feedback-TableSorted dst ip_nofound _ o) (send_again-TableSorted dst _ s o))

lr_handler-TableSorted : (dst : ℕ) (s : Node) → TableSorted s → TableSorted (lr_handler dst s)
unfolding lr_handler
lr_handler-TableSorted dst s o =
    let fed = feedback-TableSorted dst ip_nofound s o in
    generate_rerr-TableSorted dst 0 false _ (
      elim-TableSorted (find dst (feedback dst ip_nofound s).rtable) _ _ fed
        (λ e. update-IsSorted _ _ fed))

timer_add-TableSorted :
    (t : ℕ) (h : Handler) (d : TimerData) (s : Node)
    → TableSorted s
    → TableSorted (timer_add t h d s)
timer_add-TableSorted t h d s o = SameRoutes-TableSorted o (timer_add-SameRoutes t h d s)

-- The message of `sendHello`.
abbrev hello_message : Node → Rrep
hello_message s = record {
  a_flag = 0;
  prefix_size = 0;
  hop_cnt = 0;
  dest_ip = s.my_ip;
  dest_seq_num = s.local_seq_num;
  src_ip = 0;
  lifetime = allowed_hello_loss * hello_interval;
}

send_hello-TableSorted : (s : Node) → TableSorted s → TableSorted (send_hello s)
unfolding send_hello
send_hello-TableSorted s o =
    let sent = send_packet broadcast_addr (hops 1) (rrep (hello_message s)) s in
    let s₁ = if s.need_to_send_hello then sent else s in
    let sorted =
      if-TableSorted s.need_to_send_hello sent s
        (SameRoutes-TableSorted o
          (send_packet-SameRoutes broadcast_addr (hops 1) (rrep (hello_message s)) s))
        o in
    timer_add-TableSorted hello_interval hello (record { kind = hello_timer; value = 0 }) s₁ sorted

add_valid_routes-TableSorted :
    (m : List RtableEntry) (s : Node) → TableSorted s → TableSorted (add_valid_routes m s)
unfolding add_valid_routes add_kroute emit
add_valid_routes-TableSorted [] s o = o
add_valid_routes-TableSorted (e ∷ m) s o =
    add_valid_routes-TableSorted m _
      (if-TableSorted (e.routing_flags == active_route) (add_kroute e s) s o o)

reboot_handler-TableSorted : (s : Node) → TableSorted s → TableSorted (reboot_handler s)
unfolding reboot_handler add_all_valid_routes
reboot_handler-TableSorted s o =
    let t : Node = record s { during_reboot = false } in
    let s₁ = add_valid_routes t.rtable t in
    let sorted = add_valid_routes-TableSorted t.rtable t o in
    if-TableSorted s₁.hello_send_flag (send_hello s₁) s₁ (send_hello-TableSorted s₁ sorted) sorted

module _ (idle : ℕ → ℕ → ℤ) where
  periodic_handler-Leaves : (s : Node) → TableSorted s → Leaves (λ t. t) (periodic_handler idle s)
  unfolding periodic_handler
  periodic_handler-Leaves s o =
      Leaves-bind (refresh_entries idle _) (λ t. t) (λ t. t) _
        (refresh_entries-Leaves idle _ (timer_add-TableSorted periodic_interval periodic _ s o))
        (λ t p. p)

  run_handler-Leaves :
      (h : Handler) (d : TimerData) (s : Node)
      → TableSorted s
      → Leaves (λ t. t) (run_handler idle h d s)
  unfolding run_handler
  run_handler-Leaves neighbor_timeout d s o = neighbor_timeout_handler-Leaves d.value s o
  run_handler-Leaves rrep_ack d s o = rrep_ack_handler-Leaves d.value s o
  run_handler-Leaves resend_rreq d s o = resend_request-TableSorted d.value s o
  run_handler-Leaves local_repair_timeout d s o = lr_handler-TableSorted d.value s o
  run_handler-Leaves reboot d s o = reboot_handler-TableSorted s o
  run_handler-Leaves periodic d s o = periodic_handler-Leaves s o
  run_handler-Leaves hello d s o = send_hello-TableSorted s o

  arm_next-TableSorted :
      (t : Option Timer) (s : Node) → TableSorted s → TableSorted (arm_next idle t s)
  unfolding arm_next set_real_timer emit
  arm_next-TableSorted none s o = o
  arm_next-TableSorted (some t) s o =
      if-TableSorted (ltb 0 t.timeout && ltb s.now t.timeout)
        (set_real_timer (sub64 t.timeout s.now) s) s o o

  schedule_from-Leaves :
      (fuel : ℕ) (iter : Option Timer) (s : Node)
      → TableSorted s
      → Leaves (λ t. t) (schedule_from idle fuel iter s)
  unfolding schedule_from
  schedule_from-Leaves zero iter s o = tt
  schedule_from-Leaves (suc fuel) none s o = o
  schedule_from-Leaves (suc fuel) (some t) s o =
      Leaves-if (leb t.timeout s.now) (λ u. u) _ (done (arm_next idle (some t) s))
        (Leaves-bind (run_handler idle t.handler t.timer_data s) (λ u. u) (λ u. u) _
          (run_handler-Leaves t.handler t.timer_data s o)
          (λ u p. schedule_from-Leaves fuel (next_of t.node u.timer_q) _ p))
        (arm_next-TableSorted (some t) s o)

  pub schedule_timer-Leaves :
      (fuel : ℕ) (s : Node) → TableSorted s → Leaves (λ t. t) (schedule_timer idle fuel s)
  unfolding schedule_timer
  schedule_timer-Leaves fuel s o = schedule_from-Leaves fuel (first s.timer_q) s o
