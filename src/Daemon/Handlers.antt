-- ===== src/Daemon/Handlers.antt =====
-- The timers' handlers of LA_Client_aodv/aodv.cc, and `scheduleTimer` of timerQueue.cc that calls
-- them. `idle` is `FO_query_route_idle_time`.
use unified_routing_framewor.Prelude.{
  ℕ, zero, suc, ◌*◌, Option, none, some, true, false, ◌&&◌, ltb, leb, if◌then◌else◌, add64, sub64,
}
use unified_routing_framewor.Prelude.Int.{ℤ}
use unified_routing_framewor.Prelude.Outcome.{Outcome, done, fault, hang, ◌>>=◌}
use unified_routing_framewor.Params.{
  infinity, delete_period, invalid_route, blacklist_timeout, periodic_interval, hello_interval,
  allowed_hello_loss, periodic_timer, hello_timer, reboot_timer, broadcast_addr,
}
use unified_routing_framewor.RouteMap.{find}
use unified_routing_framewor.Packets.{rrep}
use unified_routing_framewor.Blacklist
use unified_routing_framewor.ForwardedRreqs
use unified_routing_framewor.LocalRepair
use unified_routing_framewor.TimerQueue.{
  Handler, neighbor_timeout, rrep_ack, resend_rreq, local_repair_timeout, reboot, periodic, hello,
  TimerData, Timer, first, next_of, erase_timer,
}
use unified_routing_framewor.Node.{Node, hops, send_packet, feedback, ip_nofound, set_real_timer}
use unified_routing_framewor.Node.Timers.{timer_add, set_timer, set_timer_first}
use unified_routing_framewor.ErrorReports.{generate_rerr}
use unified_routing_framewor.RoutingTable.{write, add_all_valid_routes}
use unified_routing_framewor.RoutingTable.Timeouts.{neighbor_timeout_handler}
use unified_routing_framewor.RoutingTable.Refresh.{refresh_entries}
use unified_routing_framewor.Daemon.Discovery.{resend_request}

-- `rrep_ack_handler`
unfoldable pub rrep_ack_handler : ℕ → Node → Outcome Node
unfolding Blacklist.add_to_list
rrep_ack_handler dst s = elim (Blacklist.add_to_list s.now dst blacklist_timeout s.black_list) [
  | none ↦ fault hang
  | some l ↦ done (record s { black_list = l })
]

-- `LR_handler`
unfoldable pub lr_handler : ℕ → Node → Node
unfolding generate_rerr
lr_handler dst s =
    let s₁ = feedback dst ip_nofound s in
    let s₂ : Node = elim (find dst s₁.rtable) [
      | none ↦ s₁
      | some e ↦
          write
            (record e {
              last_hop_cnt = e.hop_cnt;
              hop_cnt = infinity;
              lifetime = add64 s₁.now delete_period;
              routing_flags = invalid_route;
            })
            s₁
    ] in
    let s₃ = generate_rerr dst 0 false s₂ in
    record s₃ { local_repair_list = LocalRepair.delete_from_list dst s₃.local_repair_list }

-- `sendHello`
unfoldable pub send_hello : Node → Node
unfolding send_packet timer_add
send_hello s =
    let s₁ =
      if s.need_to_send_hello
      then send_packet broadcast_addr (hops 1)
          (rrep (record {
            a_flag = 0;
            prefix_size = 0;
            hop_cnt = 0;
            dest_ip = s.my_ip;
            dest_seq_num = s.local_seq_num;
            src_ip = 0;
            lifetime = allowed_hello_loss * hello_interval;
          }))
          s
      else s in
    let s₂ = timer_add hello_interval hello (record { kind = hello_timer; value = 0 }) s₁ in
    record s₂ { need_to_send_hello = true }

-- `rebootHandler`
unfoldable pub reboot_handler : Node → Node
unfolding add_all_valid_routes send_hello
reboot_handler s =
    let s₁ = add_all_valid_routes (record s { during_reboot = false }) in
    if s₁.hello_send_flag then send_hello s₁ else s₁

-- `setRebootTimer`
unfoldable pub set_reboot_timer : Node → Node
set_reboot_timer s =
    set_timer_first delete_period reboot (record { kind = reboot_timer; value = 0 }) s

-- `setPeriodicTimer`
unfoldable pub set_periodic_timer : Node → Node
set_periodic_timer s =
    set_timer periodic_interval periodic (record { kind = periodic_timer; value = 0 }) s

module _ (idle : ℕ → ℕ → ℤ) where
  -- `periodicHandler`
  unfoldable pub periodic_handler : Node → Outcome Node
  unfolding refresh_entries
  periodic_handler s =
      refresh_entries idle
        (timer_add periodic_interval periodic (record { kind = periodic_timer; value = 0 }) s)
      >>= λ t. done (record t {
        fw_rreq_list = ForwardedRreqs.update_entries t.now t.fw_rreq_list;
        black_list = Blacklist.update_entries t.now t.black_list;
      })

  -- The call `iter->handler(iter->data)`.
  unfoldable pub run_handler : Handler → TimerData → Node → Outcome Node
  unfolding rrep_ack_handler lr_handler reboot_handler periodic_handler neighbor_timeout_handler
  run_handler neighbor_timeout d s = neighbor_timeout_handler d.value s
  run_handler rrep_ack d s = rrep_ack_handler d.value s
  run_handler resend_rreq d s = done (resend_request d.value s)
  run_handler local_repair_timeout d s = done (lr_handler d.value s)
  run_handler reboot d s = done (reboot_handler s)
  run_handler periodic d s = periodic_handler s
  run_handler hello d s = done (send_hello s)

  -- The end of `scheduleTimer`: the system's timer is set for the timer that is due next.
  unfoldable pub arm_next : Option Timer → Node → Node
  arm_next none s = s
  arm_next (some t) s =
      if ltb 0 t.timeout && ltb s.now t.timeout then set_real_timer (sub64 t.timeout s.now) s else s

  -- The loop of `scheduleTimer`, on fuel, from the timer at `iter` (`none` for `end()`).
  unfoldable pub schedule_from : ℕ → Option Timer → Node → Outcome Node
  unfolding run_handler arm_next next_of
  schedule_from zero iter s = fault hang
  schedule_from (suc fuel) none s = done s
  schedule_from (suc fuel) (some t) s =
      let rest = λ (s₁ : Node).
        schedule_from fuel (next_of t.node s₁.timer_q)
          (record s₁ { timer_q = erase_timer t.node s₁.timer_q }) in
      if leb t.timeout s.now
      then run_handler t.handler t.timer_data s >>= rest
      else done (arm_next (some t) s)

  -- `scheduleTimer`
  unfoldable pub schedule_timer : ℕ → Node → Outcome Node
  unfolding schedule_from first
  schedule_timer fuel s = schedule_from fuel (first s.timer_q) s
