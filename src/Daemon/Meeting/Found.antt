-- ===== src/Daemon/Meeting/Found.antt =====
-- LA_Client_aodv: two neighbours find a route to each other, from the request to the reply.
use unified_routing_framewor.Prelude.{
  ℕ, ◌≡◌, ◌≢◌, refl, sym, ap, subst, ◌∙◌, List, ◌∷◌, some, true, false, ◌==◌, ==_self, ==_no,
  if◌then◌else◌,
}
use unified_routing_framewor.Prelude.Outcome.{done}
use unified_routing_framewor.Params.{active_route, send_rrep, broadcast_addr}
use unified_routing_framewor.RouteEntry.{RtableEntry}
use unified_routing_framewor.RouteMap.{find, IsSorted}
use unified_routing_framewor.Packets.{Rrep, rreq, rrep, rrep_ack}
use unified_routing_framewor.Node.{Node, Effect, send_to, send_packet, hops, ip_found}
use unified_routing_framewor.RoutingTable.Updates.{
  neighbor_update, reboot_neighbor_update, reboot_forward_route_update,
}
use unified_routing_framewor.RoutingTable.Answered.{answers, send_packet-IsQuiet}
use unified_routing_framewor.RoutingTable.Answered.Updates.{neighbor_update-answers}
use unified_routing_framewor.RoutingTable.Frame.{send_packet-SameRoutes}
use unified_routing_framewor.RoutingTable.Neighbors.{neighbor_update-Sets}
use unified_routing_framewor.Requests.{create_rreq, recv_rrep}
use unified_routing_framewor.Daemon.Discovery.{Uninitialised, send_rreq}
use unified_routing_framewor.Daemon.{
  neighbor_life, get_next_hop, unicast_rrep, process_rrep, process_recv_msg,
}
use unified_routing_framewor.Daemon.Meeting.{own_reply, taken}
use unified_routing_framewor.Daemon.Meeting.Sent.{send_rreq-sends}
use unified_routing_framewor.Daemon.Meeting.Source.{
  IsMet, neighbor_update-frame, process_recv_msg-replies,
}

-- The source after the acknowledgement of the reply, if it asks for one.
abbrev acked : Rrep → Node → Node
acked p v = if p.a_flag == 1 then send_packet p.dest_ip (hops 1) rrep_ack v else v

-- The source after the reply.
abbrev met : Rrep → Node → Node
met p v = neighbor_update p.dest_ip p.src_ip p.dest_seq_num (neighbor_life (acked p v)) (acked p v)

recv_rrep-own :
    (p : Rrep) (s : Node)
    → (p.src_ip == (neighbor_update p.dest_ip p.src_ip p.dest_seq_num (neighbor_life s) s).my_ip)
      ≡ true
    → recv_rrep p.dest_ip p s
      ≡ (0, p, neighbor_update p.dest_ip p.src_ip p.dest_seq_num (neighbor_life s) s)
unfolding recv_rrep
recv_rrep-own p s h = rw (==_self p.dest_ip, h) refl

-- `processRREP` while the node reboots, and otherwise.
abbrev rebooted : ℕ → Rrep → Node → Node
rebooted src_ip r s =
    let s₁ =
      reboot_neighbor_update src_ip (if r.dest_ip == src_ip then r.dest_seq_num else 0)
        (neighbor_life s) s in
    if r.dest_ip == src_ip then s₁ else reboot_forward_route_update src_ip r s₁

abbrev relayed : ℕ × Rrep × Node → Node
relayed x =
    let (next, s₃) = get_next_hop x.1.src_ip x.2 in
    if x.0 == send_rrep then if next == 0 then s₃ else unicast_rrep next x.1 s₃ else x.2

process_rrep-met :
    (p : Rrep) (v : Node)
    → v.during_reboot ≡ false
    → recv_rrep p.dest_ip p (acked p v) ≡ (0, p, met p v)
    → process_rrep p.dest_ip p v ≡ met p v
unfolding process_rrep
process_rrep-met p v d h =
    ap
      (λ b.
        if b
        then rebooted p.dest_ip p v
        else relayed (
            recv_rrep p.dest_ip p
              (if p.a_flag == 1 then send_packet p.dest_ip (hops 1) rrep_ack v else v)))
      d
    ∙ ap relayed h

acked-frame :
    (p : Rrep) (v : Node)
    → ((acked p v).rtable ≡ v.rtable)
      × ((acked p v).my_ip ≡ v.my_ip)
      × (answers p.dest_ip (acked p v).log ≡ answers p.dest_ip v.log)
acked-frame p v =
    let same = send_packet-SameRoutes p.dest_ip (hops 1) rrep_ack v in
    elim (p.a_flag == 1)
      as (λ b.
        let t = if b then send_packet p.dest_ip (hops 1) rrep_ack v else v in
        (t.rtable ≡ v.rtable)
        × (t.my_ip ≡ v.my_ip)
        × (answers p.dest_ip t.log ≡ answers p.dest_ip v.log)) [
          | true ↦ (
            same.table,
            same.address,
            send_packet-IsQuiet p.dest_ip p.dest_ip (hops 1) rrep_ack v,
          )
          | false ↦ (refl, refl, refl)
        ]

-- The source takes the reply in.
process_recv_msg-met :
    (raw : Uninitialised) (ttl : ℕ) (p : Rrep) (v : Node)
    → v.during_reboot ≡ false
    → p.src_ip ≡ v.my_ip
    → p.dest_ip ≢ v.my_ip
    → process_recv_msg raw p.dest_ip ttl (some (rrep p)) v ≡ done (met p v)
unfolding process_recv_msg
process_recv_msg-met raw ttl p v d own other =
    let (table, address, quiet) = acked-frame p v in
    let (a, b, c) =
      neighbor_update-frame p.dest_ip p.src_ip p.dest_seq_num (neighbor_life (acked p v))
        (acked p v) in
    rw (==_no p.dest_ip v.my_ip other) (
      ap done (
        process_rrep-met p v d (
          recv_rrep-own p (acked p v)
            (ap (λ x. p.src_ip == x) (a ∙ address ∙ sym own) ∙ ==_self p.src_ip))))

-- The route of the source to the destination, and what its agent has heard.
pub record HasMet (dst : ℕ) (v w : Node) : Type 0 where
  pub entry : RtableEntry
  pub is_there : find dst w.rtable ≡ some entry
  pub direct : entry.next_hop ≡ dst
  pub one_hop : entry.hop_cnt ≡ 1
  pub active : entry.routing_flags ≡ active_route
  pub told : answers dst w.log ≡ ip_found ∷ answers dst v.log

met-HasMet : (p : Rrep) (v : Node) → IsSorted v.rtable → HasMet p.dest_ip v (met p v)
met-HasMet p v o =
    let (table, address, quiet) = acked-frame p v in
    let (e, sets, n) =
      neighbor_update-Sets p.dest_ip p.src_ip p.dest_seq_num (neighbor_life (acked p v)) (acked p v)
        (subst IsSorted (sym table) o) in
    record {
      entry = e;
      is_there =
          sets p.dest_ip
          ∙ ap (λ b. if b then some e else find p.dest_ip (acked p v).rtable) (==_self p.dest_ip);
      direct = n.0;
      one_hop = n.1;
      active = n.4;
      told =
          neighbor_update-answers p.dest_ip p.src_ip p.dest_seq_num (neighbor_life (acked p v))
            (acked p v)
          ∙ ap (λ l. ip_found ∷ l) quiet;
    }

-- Where a node with an expanding ring asks for a route to a neighbour, which is awake, has a sorted
-- table, and neither has the node on its black list nor has handled the request before, while its clock is
-- far from its bound: `sendRREQ` sends the request, the neighbour's `processRecvMsg` returns on it
-- and has sent the node a reply, and the node's `processRecvMsg` returns on the reply, if the node is then awake
-- and its table sorted; it then has an active route of one hop to the neighbour, and its agent is told once
-- that there is one.
pub neighbors-HasMet :
    (raw raw' raw'' : Uninitialised) (flags ttl ttl' : ℕ) (s u v : Node)
    → (let r = (create_rreq u.my_ip flags s).0 in IsMet r u)
    → s.expanding_ring_search ≡ true
    → v.during_reboot ≡ false
    → IsSorted v.rtable
    → v.my_ip ≡ s.my_ip
    → (let r = (create_rreq u.my_ip flags s).0 in
        (p : Rrep) × (t w : Node) × (l l' : List Effect) × ((send_rreq raw u.my_ip flags s).log
          ≡ send_to broadcast_addr (rreq r) ∷ l)
        × (process_recv_msg raw' s.my_ip ttl (some (rreq r)) u ≡ done t)
        × (t.log ≡ send_to s.my_ip (rrep p) ∷ l')
        × (process_recv_msg raw'' u.my_ip ttl' (some (rrep p)) v ≡ done w)
        × HasMet u.my_ip v w)
unfolding create_rreq
neighbors-HasMet raw raw' raw'' flags ttl ttl' s u v m ring awake sorted same =
    let r = (create_rreq u.my_ip flags s).0 in
    let p = own_reply raw' r (taken r u) in
    let (l, sent) = send_rreq-sends raw u.my_ip flags s (λ e. m.not_own (sym e)) ring in
    let (t, l', done_t, reply) = process_recv_msg-replies raw' ttl r u m in
    (
      p,
      t,
      met p v,
      l,
      l',
      sent,
      done_t,
      reply,
      process_recv_msg-met raw'' ttl' p v awake (sym same) (λ e. m.not_own (sym same ∙ sym e)),
      met-HasMet p v sorted,
    )
