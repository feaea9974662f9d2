-- ===== src/Daemon.antt =====
-- LA_Client_aodv/aodv.cc: what the daemon does on a received message and on a request of the local
-- agent. Route discovery, the timers' handlers and the timer's signal stand in the children.
pub mod Discovery
pub mod Handlers
pub mod Loop
pub mod Meeting
pub mod Sorted
use unified_routing_framewor.Prelude.{
  ℕ, ◌+◌, ◌-◌, ◌*◌, List, [], ◌∷◌, Option, none, some, Bool, true, false, not, ◌&&◌, ltb, ◌==◌,
  if◌then◌else◌, add64,
}
use unified_routing_framewor.Prelude.Outcome.{Outcome, done, fault, past_end, ◌>>=◌}
use unified_routing_framewor.Params.{
  active_route_timeout, allowed_hello_loss, hello_interval, rrep_ack_timeout, rrep_ack_timer,
  broadcast_addr, fwd_rreq, gen_rrep, send_rrep, broken_route,
}
use unified_routing_framewor.RouteEntry.{RtableEntry, get_prec_cnt}
use unified_routing_framewor.RouteMap.{find}
use unified_routing_framewor.Packets.{
  Rreq, Rrep, Rerr, UnrchDest, Packet, rreq, rrep, rerr, rrep_ack,
}
use unified_routing_framewor.LocalRepair
use unified_routing_framewor.TimerQueue
use unified_routing_framewor.Node.{Node, hops, unset, send_packet, feedback, ip_found, ip_nofound}
use unified_routing_framewor.Node.Timers.{set_timer, remove_rrep_ack_timer, reset_reboot_timer}
use unified_routing_framewor.ErrorReports.{generate_rerr}
use unified_routing_framewor.RoutingTable.{write, find_active_route}
use unified_routing_framewor.RoutingTable.Updates.{
  neighbor_update, reboot_neighbor_update, reboot_reverse_route_update, reboot_forward_route_update,
}
use unified_routing_framewor.Requests.{recv_rreq, recv_rrep, create_rrep, create_grrep}
use unified_routing_framewor.Reports.{update_invalid_entries, update_valid_entries, create_new_rerr}
use Discovery.{Uninitialised, send_rreq, do_local_repair}

-- `get_next_hop`: 0 stands for no route; a route that is used lives on.
unfoldable pub get_next_hop : ℕ → Node → ℕ × Node
get_next_hop dst s = elim (find_active_route dst s) [
  | none ↦ (0, s)
  | some e ↦
      let life = add64 s.now active_route_timeout in
      (
        e.next_hop,
        write (record e { lifetime = if ltb life e.lifetime then e.lifetime else life }) s,
      )
]

-- A reply goes to the next hop, with a timer for its acknowledgement if it asks for one.
unfoldable pub unicast_rrep : ℕ → Rrep → Node → Node
unicast_rrep next_hop r s =
    let s₁ =
      if r.a_flag == 1
      then set_timer rrep_ack_timeout TimerQueue.rrep_ack
          (record { kind = rrep_ack_timer; value = next_hop }) s
      else s in
    send_packet next_hop unset (rrep r) s₁

-- The case GEN_RREP of `processRREQ`; `r` is the request as it was received.
unfoldable pub reply_rreq : Uninitialised → ℕ → Rreq → Node → Node
reply_rreq raw src_ip r s =
    let (reply, s₁) = create_rrep raw.rrep_ob src_ip r s in
    let (next, s₂) = get_next_hop r.src_ip s₁ in
    let s₃ = if next == 0 then s₂ else unicast_rrep next reply s₂ in
    if r.g_flag == 1 && not (r.dest_ip == s₃.my_ip)
    then (let gratuitous = create_grrep raw.grrep_ob r.src_ip r.dest_ip r.src_seq_num s₃ in
        let (next', s₄) = get_next_hop r.dest_ip s₃ in
        if next' == 0 then s₄ else send_packet next' unset (rrep gratuitous) s₄)
    else s₃

-- The lifetime of a route to a neighbour that was just heard.
abbrev pub neighbor_life : Node → ℕ
neighbor_life s = add64 s.now (allowed_hello_loss * hello_interval)

-- `processRREQ` while the node reboots.
unfoldable pub reboot_rreq : ℕ → Rreq → Node → Node
reboot_rreq src_ip r s =
    let s₁ =
      reboot_neighbor_update src_ip (if r.src_ip == src_ip then r.src_seq_num else 0)
        (neighbor_life s) s in
    let s₂ = if r.src_ip == src_ip then s₁ else reboot_reverse_route_update src_ip r s₁ in
    if r.dest_ip == s₂.my_ip && ltb s₂.local_seq_num r.dest_seq_num
    then (record s₂ { local_seq_num = r.dest_seq_num })
    else s₂

-- `processRREQ`; `ttl` is the packet's, already decremented.
unfoldable pub process_rreq : Uninitialised → ℕ → ℕ → Rreq → Node → Outcome Node
process_rreq raw src_ip ttl r s =
    if s.during_reboot
    then done (reboot_rreq src_ip r s)
    else recv_rreq src_ip r s >>= λ (result, r', s₁). done (
        if result == fwd_rreq
        then if ltb 0 ttl then send_packet broadcast_addr (hops ttl) (rreq r') s₁ else s₁
        else if result == gen_rrep
        then reply_rreq raw src_ip r s₁
        else s₁)

-- `processRREP`
unfoldable pub process_rrep : ℕ → Rrep → Node → Node
process_rrep src_ip r s =
    if s.during_reboot
    then (let s₁ =
          reboot_neighbor_update src_ip (if r.dest_ip == src_ip then r.dest_seq_num else 0)
            (neighbor_life s) s in
        if r.dest_ip == src_ip then s₁ else reboot_forward_route_update src_ip r s₁)
    else let s₁ = if r.a_flag == 1 then send_packet src_ip (hops 1) rrep_ack s else s in
      let (result, r', s₂) = recv_rrep src_ip r s₁ in
      let (next, s₃) = get_next_hop r'.src_ip s₂ in
      if result == send_rrep then if next == 0 then s₃ else unicast_rrep next r' s₃ else s₂

-- `processRERR` for a message with the N bit, of one destination: it goes on towards the precursors.
unfoldable pub forward_n_rerr : ℕ → UnrchDest → Node → Node
forward_n_rerr src_ip u s = elim (find_active_route u.dest_ip s) [
  | none ↦ s
  | some e ↦
      if e.next_hop == src_ip
      then (let s₁ = write (record e { dest_seq_num = u.dest_seq_num }) s in
          if ltb 0 (get_prec_cnt e) then generate_rerr u.dest_ip 1 false s₁ else s₁)
      else s
]

-- The end of `processRERR`. `precAddr` points to memory that nothing has set, and is not NULL.
unfoldable pub renew_rerr : Uninitialised → ℕ → Rerr → Node → Outcome Node
renew_rerr raw src_ip r s = create_new_rerr r src_ip s >>= λ (result, r', s₁).
    done (if result then send_packet raw.prec_addr (hops 1) (rerr r') s₁ else s₁)

-- `processRERR`
unfoldable pub process_rerr : Uninitialised → ℕ → Rerr → Node → Outcome Node
process_rerr raw src_ip r s =
    if s.during_reboot
    then done (
        update_valid_entries src_ip r.unreachable_dest (
          update_invalid_entries r.unreachable_dest
            (reboot_neighbor_update src_ip 0 (neighbor_life s) s)))
    else let s₁ =
        update_invalid_entries r.unreachable_dest
          (neighbor_update src_ip src_ip 0 (neighbor_life s) s) in
      (if r.n_flag == 1
        then if r.dest_cnt == 1
          then elim r.unreachable_dest [
            | [] ↦ fault past_end
            | u ∷ _ ↦ done (forward_n_rerr src_ip u s₁)
          ]
          else done s₁
        else renew_rerr raw src_ip r s₁)

-- `processRecvMsg`; `none` is a message of another type. A ttl of 0 becomes -1 in the source, which
-- is not above 0 either.
unfoldable pub process_recv_msg : Uninitialised → ℕ → ℕ → Option Packet → Node → Outcome Node
process_recv_msg raw src_ip ttl msg s = if src_ip == s.my_ip then done s else elim msg [
  | none ↦ done s
  | some (rreq r) ↦ process_rreq raw src_ip (ttl - 1) r s
  | some (rrep r) ↦ done (process_rrep src_ip r s)
  | some (rerr r) ↦ process_rerr raw src_ip r s
  | some rrep_ack ↦ done (remove_rrep_ack_timer src_ip s)
]

-- `IPPROTO_TCP` of the system's headers.
abbrev pub ipproto_tcp : ℕ
ipproto_tcp = 6

-- The branch of `process_asl` for a packet of another node without a route.
unfoldable pub repair_or_report : ℕ → ℕ → ℕ → Node → Node
repair_or_report dst_ip src_ip protocol s =
    if LocalRepair.find_in_list dst_ip s.local_repair_list
    then elim (find dst_ip s.rtable) [
      | none ↦ s
      | some e ↦
          if e.routing_flags == broken_route
          then do_local_repair dst_ip src_ip (if protocol == ipproto_tcp then 1 else 0) s
          else s
    ]
    else let s₁ = feedback dst_ip ip_nofound s in
      elim (find dst_ip s₁.rtable) [
        | none ↦ generate_rerr dst_ip 0 true s₁
        | some _ ↦ generate_rerr dst_ip 0 false s₁
      ]

-- `process_asl(struct rt_info *)`. For a packet of this node that is not TCP, `rflags` is not set.
unfoldable pub process_asl : Uninitialised → ℕ → ℕ → ℕ → Node → Node
process_asl raw dst_ip src_ip protocol s =
    if s.during_reboot
    then if src_ip == s.my_ip
      then feedback dst_ip ip_nofound s
      else generate_rerr dst_ip 0 true (feedback dst_ip ip_nofound (reset_reboot_timer s))
    else elim (find_active_route dst_ip s) [
      | some _ ↦ feedback dst_ip ip_found s
      | none ↦
          if src_ip == s.my_ip
          then send_rreq raw dst_ip (if protocol == ipproto_tcp then 1 else raw.rflags) s
          else repair_or_report dst_ip src_ip protocol s
    ]
