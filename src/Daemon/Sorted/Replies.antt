-- ===== src/Daemon/Sorted/Replies.antt =====
-- Route requests and replies keep the order of the table: `processRREQ` and `processRREP`, and what
-- they call while the node reboots.
use unified_routing_framewor.Prelude.{ℕ, Bool, true, false, ltb, ◌==◌, ◌&&◌, if◌then◌else◌}
use unified_routing_framewor.Prelude.Outcome.{done}
use unified_routing_framewor.Params.{active_route, send_rrep, gen_rrep, fwd_rreq, broadcast_addr}
use unified_routing_framewor.RouteEntry.{RtableEntry}
use unified_routing_framewor.RouteMap.{find}
use unified_routing_framewor.RouteMap.Laws.{update-IsSorted, insert-IsSorted}
use unified_routing_framewor.Packets.{Rreq, Rrep, rreq, rrep_ack}
use unified_routing_framewor.Node.{Node, send_packet, hops}
use unified_routing_framewor.RoutingTable.{is_better, write, add_route_entry}
use unified_routing_framewor.RoutingTable.Updates.{
  reboot_neighbor_update, reboot_reverse_route_update, reboot_forward_route_update, reverse_better,
  reverse_revived, forward_better, forward_revived,
}
use unified_routing_framewor.RoutingTable.Frame.{send_packet-SameRoutes}
use unified_routing_framewor.RoutingTable.Sorted.{TableSorted, SameRoutes-TableSorted}
use unified_routing_framewor.Requests.{recv_rreq, recv_rrep}
use unified_routing_framewor.Daemon.Discovery.{Uninitialised}
use unified_routing_framewor.Daemon.{
  neighbor_life, get_next_hop, unicast_rrep, reply_rreq, reboot_rreq, process_rreq, process_rrep,
}
use unified_routing_framewor.Daemon.Sorted.{
  if-TableSorted, elim-TableSorted, get_next_hop-TableSorted, unicast_rrep-TableSorted,
}
use unified_routing_framewor.Daemon.Sorted.Received.{
  Leaves, Leaves-if, Leaves-bind, recv_rreq-Leaves, recv_rrep-TableSorted, reply_rreq-TableSorted,
}

pub writes-TableSorted :
    (a b : Bool) (e e' : RtableEntry) (s : Node)
    → TableSorted s
    → TableSorted (if a then if b then write e s else s else write e' s)
writes-TableSorted true true e e' s o = update-IsSorted e s.rtable o
writes-TableSorted true false e e' s o = o
writes-TableSorted false b e e' s o = update-IsSorted e' s.rtable o

pub reboot_neighbor_update-TableSorted :
    (neighbor seq life_time : ℕ) (s : Node)
    → TableSorted s
    → TableSorted (reboot_neighbor_update neighbor seq life_time s)
unfolding reboot_neighbor_update add_route_entry
reboot_neighbor_update-TableSorted neighbor seq life_time s o =
    elim-TableSorted (find neighbor s.rtable) _ _ (insert-IsSorted _ s.rtable o)
      (λ e. update-IsSorted _ s.rtable o)

pub reboot_reverse_route_update-TableSorted :
    (nhop : ℕ) (r : Rreq) (s : Node)
    → TableSorted s
    → TableSorted (reboot_reverse_route_update nhop r s)
unfolding reboot_reverse_route_update add_route_entry
reboot_reverse_route_update-TableSorted nhop r s o =
    elim-TableSorted (find r.src_ip s.rtable) _ _ (insert-IsSorted _ s.rtable o) (λ e.
      writes-TableSorted (e.routing_flags == active_route) (is_better r.src_seq_num r.hop_cnt e)
        (reverse_better s.now nhop r e) (reverse_revived s.now nhop r e) s o)

pub reboot_forward_route_update-TableSorted :
    (nhop : ℕ) (r : Rrep) (s : Node)
    → TableSorted s
    → TableSorted (reboot_forward_route_update nhop r s)
unfolding reboot_forward_route_update add_route_entry
reboot_forward_route_update-TableSorted nhop r s o =
    elim-TableSorted (find r.dest_ip s.rtable) _ _ (insert-IsSorted _ s.rtable o) (λ e.
      writes-TableSorted (e.routing_flags == active_route) (is_better r.dest_seq_num r.hop_cnt e)
        (forward_better s.now nhop r e) (forward_revived s.now nhop r e) s o)

pub reboot_rreq-TableSorted :
    (src_ip : ℕ) (r : Rreq) (s : Node) → TableSorted s → TableSorted (reboot_rreq src_ip r s)
unfolding reboot_rreq
reboot_rreq-TableSorted src_ip r s o =
    let s₁ =
      reboot_neighbor_update src_ip (if r.src_ip == src_ip then r.src_seq_num else 0)
        (neighbor_life s) s in
    let a =
      reboot_neighbor_update-TableSorted src_ip (if r.src_ip == src_ip then r.src_seq_num else 0)
        (neighbor_life s) s o in
    let s₂ = if r.src_ip == src_ip then s₁ else reboot_reverse_route_update src_ip r s₁ in
    let b =
      if-TableSorted (r.src_ip == src_ip) s₁ (reboot_reverse_route_update src_ip r s₁) a
        (reboot_reverse_route_update-TableSorted src_ip r s₁ a) in
    if-TableSorted (r.dest_ip == s₂.my_ip && ltb s₂.local_seq_num r.dest_seq_num)
      (record s₂ { local_seq_num = r.dest_seq_num }) s₂ b b

pub process_rreq-Leaves :
    (raw : Uninitialised) (src_ip ttl : ℕ) (r : Rreq) (s : Node)
    → TableSorted s
    → Leaves (λ t. t) (process_rreq raw src_ip ttl r s)
unfolding process_rreq
process_rreq-Leaves raw src_ip ttl r s o =
    Leaves-if s.during_reboot (λ t. t) (done (reboot_rreq src_ip r s)) _
      (reboot_rreq-TableSorted src_ip r s o)
      (Leaves-bind (recv_rreq src_ip r s) (λ x. x.2) (λ t. t) _ (recv_rreq-Leaves src_ip r s o)
        (λ x p.
          let sent = send_packet broadcast_addr (hops ttl) (rreq x.1) x.2 in
          if-TableSorted (x.0 == fwd_rreq) (if ltb 0 ttl then sent else x.2)
            (if x.0 == gen_rrep then reply_rreq raw src_ip r x.2 else x.2)
            (if-TableSorted (ltb 0 ttl) sent x.2
              (SameRoutes-TableSorted p (send_packet-SameRoutes _ _ _ x.2)) p)
            (if-TableSorted (x.0 == gen_rrep) (reply_rreq raw src_ip r x.2) x.2
              (reply_rreq-TableSorted raw src_ip r x.2 p) p)))

pub process_rrep-TableSorted :
    (src_ip : ℕ) (r : Rrep) (s : Node) → TableSorted s → TableSorted (process_rrep src_ip r s)
unfolding process_rrep
process_rrep-TableSorted src_ip r s o =
    let n =
      reboot_neighbor_update src_ip (if r.dest_ip == src_ip then r.dest_seq_num else 0)
        (neighbor_life s) s in
    let m =
      reboot_neighbor_update-TableSorted src_ip (if r.dest_ip == src_ip then r.dest_seq_num else 0)
        (neighbor_life s) s o in
    let told = if r.a_flag == 1 then send_packet src_ip (hops 1) rrep_ack s else s in
    let a =
      if-TableSorted (r.a_flag == 1) (send_packet src_ip (hops 1) rrep_ack s) s
        (SameRoutes-TableSorted o (send_packet-SameRoutes src_ip (hops 1) rrep_ack s)) o in
    let got = recv_rrep src_ip r told in
    let b = recv_rrep-TableSorted src_ip r told a in
    let back = get_next_hop got.1.src_ip got.2 in
    let c = get_next_hop-TableSorted got.1.src_ip got.2 b in
    if-TableSorted s.during_reboot
      (if r.dest_ip == src_ip then n else reboot_forward_route_update src_ip r n)
      (if got.0 == send_rrep
        then if back.0 == 0 then back.1 else unicast_rrep back.0 got.1 back.1
        else got.2)
      (if-TableSorted (r.dest_ip == src_ip) n (reboot_forward_route_update src_ip r n) m
        (reboot_forward_route_update-TableSorted src_ip r n m))
      (if-TableSorted (got.0 == send_rrep)
        (if back.0 == 0 then back.1 else unicast_rrep back.0 got.1 back.1) got.2
        (if-TableSorted (back.0 == 0) back.1 (unicast_rrep back.0 got.1 back.1) c
          (unicast_rrep-TableSorted back.0 got.1 back.1 c))
        b)
