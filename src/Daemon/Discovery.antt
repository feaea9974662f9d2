-- ===== src/Daemon/Discovery.antt =====
-- Route discovery in LA_Client_aodv/aodv.cc: sending a request, sending it again, and local repair.
pub mod Progress
use unified_routing_framewor.Prelude.{
  ℕ, ◌+◌, ◌*◌, ◌<◌, Option, none, some, Bool, ltb, leb, ◌==◌, if◌then◌else◌, add32, add64,
}
use unified_routing_framewor.Params.{
  node_traversal_time, net_traversal_time, path_traversal_time, ttl_start, ttl_increment,
  ttl_threshold, net_diameter, rreq_retries, rreq_timer, lr_timer, local_add_ttl, broadcast_addr,
}
use unified_routing_framewor.RouteMap.{find}
use unified_routing_framewor.Packets.{Rreq, Rrep, rreq}
use unified_routing_framewor.PendingRreqs
use unified_routing_framewor.PendingRreqs.{RreqListEntry}
use unified_routing_framewor.TimerQueue.{TimerData, resend_rreq, local_repair_timeout}
use unified_routing_framewor.Node.{Node, hops, send_packet, feedback, ip_nofound}
use unified_routing_framewor.Node.Timers.{set_timer}
use unified_routing_framewor.RoutingTable.{set_life_time, get_ttl, get_dest_seq_num}
use unified_routing_framewor.Requests.{create_rreq}

-- What the variables hold that the code reads and may not have set: the two replies of `processRREQ`,
-- the memory behind `precAddr`, `rflags` of `process_asl` and `ttl` of `sendRREQ`.
pub record Uninitialised : Type 0 where
  pub rrep_ob : Rrep
  pub grrep_ob : Rrep
  pub prec_addr : ℕ
  pub rflags : ℕ
  pub ttl : ℕ

-- `setRREQTimer`
unfoldable pub set_rreq_timer : ℕ → ℕ → Node → Node
set_rreq_timer dst ttl s =
    set_timer
      (if s.expanding_ring_search then 2 * ttl * node_traversal_time else net_traversal_time)
      resend_rreq (record { kind = rreq_timer; value = dst }) s

-- `setLRTimer`
unfoldable pub set_lr_timer : ℕ → ℕ → Node → Node
set_lr_timer dst ttl s =
    set_timer (2 * ttl * node_traversal_time) local_repair_timeout
      (record { kind = lr_timer; value = dst }) s

-- The first ttl of `sendRREQ`.
unfoldable pub first_ttl : Uninitialised → ℕ → Node → ℕ
unfolding get_ttl
first_ttl raw dst_ip s =
    if s.expanding_ring_search
    then (let ttl = get_ttl dst_ip s in if ttl == 0 then ttl_start else ttl + ttl_increment)
    else raw.ttl

-- `sendRREQ`
unfoldable pub send_rreq : Uninitialised → ℕ → ℕ → Node → Node
unfolding create_rreq first_ttl set_rreq_timer set_life_time
send_rreq raw dst_ip flags s =
    if dst_ip == s.my_ip
    then s
    else let (r, s₁) = create_rreq dst_ip flags s in
      let s₂ = set_life_time dst_ip (add64 s₁.now path_traversal_time) s₁ in
      let ttl = first_ttl raw dst_ip s₂ in
      let s₃ = record s₂ { rreq_list = PendingRreqs.add_to_list r 0 ttl s₂.rreq_list } in
      send_packet broadcast_addr (hops ttl) (rreq r) (set_rreq_timer dst_ip ttl s₃)

-- The ttl and the retries of the next attempt, in `resendRREQ`.
unfoldable pub next_attempt : Bool → RreqListEntry → RreqListEntry
next_attempt ring e =
    if ring
    then if e.ttl == net_diameter
      then (record e { retries = add32 e.retries 1 })
      else if leb ttl_threshold (e.ttl + ttl_increment)
      then (record e { ttl = net_diameter; retries = add32 e.retries 1 })
      else (record e { ttl = e.ttl + ttl_increment })
    else (record e { retries = add32 e.retries 1 })

-- The end of `resendRREQ`: the request goes out again under a new id.
unfoldable pub send_again : ℕ → RreqListEntry → Node → Node
send_again dst e s =
    let id = add32 s.rreq_id 1 in
    let seq = add32 s.local_seq_num 1 in
    let r : Rreq = record e.rreq_ob {
      rreq_id = id;
      dest_seq_num = get_dest_seq_num dst s;
      src_seq_num = seq;
    } in
    let s₁ = record s {
      rreq_id = id;
      local_seq_num = seq;
      rreq_list = PendingRreqs.write_entry dst (record e { rreq_ob = r }) s.rreq_list;
    } in
    send_packet broadcast_addr (hops e.ttl) (rreq r) (set_rreq_timer dst e.ttl s₁)

-- `resendRREQ`
unfoldable pub resend_request : ℕ → Node → Node
resend_request dst s = elim (PendingRreqs.in_list dst s.rreq_list) [
  | none ↦ s
  | some e ↦
      let e' = next_attempt s.expanding_ring_search e in
      if ltb rreq_retries e'.retries
      then feedback dst ip_nofound
          (record s { rreq_list = PendingRreqs.delete_from_list dst s.rreq_list })
      else send_again dst e' s
]

-- `doLocalRepair`; what it computes from the source's route is not used.
unfoldable pub do_local_repair : ℕ → ℕ → ℕ → Node → Node
unfolding create_rreq set_lr_timer
do_local_repair dst src rflags s =
    let (r, s₁) = create_rreq dst rflags s in
    let min_repair_ttl : ℕ = elim (find dst s₁.rtable) [ none ↦ 0 | some e ↦ e.last_hop_cnt ] in
    let ttl = min_repair_ttl + local_add_ttl in
    send_packet broadcast_addr (hops ttl) (rreq r) (set_lr_timer dst ttl s₁)
