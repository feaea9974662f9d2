-- ===== src/Daemon/Meeting/Source.antt =====
-- LA_Client_aodv: the reply of a destination that is a neighbour, at the destination and at the source.
use unified_routing_framewor.Prelude.{
  ℕ, ◌*◌, ◌+◌, ◌<◌, ◌^◌, ◌-◌, ◌≡◌, ◌≢◌, sym, ap, ◌∙◌, List, ◌∷◌, some, false, arith, lt→ltb, ◌==◌,
  ==_self, ==_no, if◌then◌else◌,
}
use unified_routing_framewor.Prelude.Outcome.{done}
use unified_routing_framewor.Params.{gen_rrep, allowed_hello_loss, hello_interval}
use unified_routing_framewor.RouteEntry.{RtableEntry}
use unified_routing_framewor.RouteMap.{find, IsSorted}
use unified_routing_framewor.Packets.{Rreq, rreq, rrep}
use unified_routing_framewor.Blacklist
use unified_routing_framewor.ForwardedRreqs
use unified_routing_framewor.Node.{Node, Effect, send_to, emit, add_kroute}
use unified_routing_framewor.RoutingTable.{find_active_route, insert_route, add_route_entry}
use unified_routing_framewor.RoutingTable.Updates.{neighbor_entry, neighbor_update}
use unified_routing_framewor.RoutingTable.Frame.After.{after_neighbor-SameRoutes}
use unified_routing_framewor.RoutingTable.Neighbors.{neighbor_update-Sets}
use unified_routing_framewor.Requests.{recv_rreq}
use unified_routing_framewor.Daemon.Discovery.{Uninitialised}
use unified_routing_framewor.Daemon.{neighbor_life, process_recv_msg}
use unified_routing_framewor.Daemon.Meeting.{
  heard, taken, accept_rreq-taken, recv_rreq-taken, process_rreq-replies, own_reply,
  find_active_route-found, replied, reply_rreq-own, unicast_rrep-sends,
}

neighbor_entry-frame :
    (n seq life : ℕ) (u : Node)
    → ((neighbor_entry n seq life u).my_ip ≡ u.my_ip)
      × ((neighbor_entry n seq life u).now ≡ u.now)
      × ((neighbor_entry n seq life u).fw_rreq_list ≡ u.fw_rreq_list)
unfolding neighbor_entry insert_route add_route_entry add_kroute emit
neighbor_entry-frame n seq life u = ground arith

pub neighbor_update-frame :
    (n src seq life : ℕ) (u : Node)
    → ((neighbor_update n src seq life u).my_ip ≡ u.my_ip)
      × ((neighbor_update n src seq life u).now ≡ u.now)
      × ((neighbor_update n src seq life u).fw_rreq_list ≡ u.fw_rreq_list)
unfolding neighbor_update
neighbor_update-frame n src seq life u =
    let same = after_neighbor-SameRoutes n src (neighbor_entry n seq life u) in
    let (a, b, c) = neighbor_entry-frame n seq life u in
    (same.address ∙ a, same.clock ∙ b, same.handled ∙ c)

-- The destination of a request has it from its source, and can answer.
pub record IsMet (r : Rreq) (u : Node) : Type 0 where
  pub awake : u.during_reboot ≡ false
  pub sorted : IsSorted u.rtable
  pub not_black : Blacklist.in_list u.black_list r.src_ip ≡ some false
  pub is_new : ForwardedRreqs.in_list r.src_ip r.rreq_id u.fw_rreq_list ≡ false
  pub for_it : r.dest_ip ≡ u.my_ip
  pub not_own : r.src_ip ≢ u.my_ip
  pub has_source : r.src_ip ≢ 0
  pub clock_bound : u.now + allowed_hello_loss * hello_interval < 2 ^ 64

recv_rreq-IsMet :
    (r : Rreq) (u : Node) → IsMet r u → recv_rreq r.src_ip r u ≡ done (gen_rrep, r, taken r u)
recv_rreq-IsMet r u m =
    let (a, b, c) = neighbor_update-frame r.src_ip r.src_ip r.src_seq_num (neighbor_life u) u in
    recv_rreq-taken r u m.not_black (==_no r.src_ip u.my_ip m.not_own) (
      accept_rreq-taken r u (ap (ForwardedRreqs.in_list r.src_ip r.rreq_id) c ∙ m.is_new)
        (ap (λ x. r.dest_ip == x) (a ∙ sym m.for_it) ∙ ==_self r.dest_ip))

-- The destination's entry for the source.
route_back :
    (r : Rreq) (u : Node)
    → IsMet r u
    → (e : RtableEntry) × (find_active_route r.src_ip (taken r u) ≡ some e)
      × (e.next_hop ≡ r.src_ip)
route_back r u m =
    let (e, sets, n) =
      neighbor_update-Sets r.src_ip r.src_ip r.src_seq_num (neighbor_life u) u m.sorted in
    let (a, b, c) = neighbor_update-frame r.src_ip r.src_ip r.src_seq_num (neighbor_life u) u in
    (
      e,
      find_active_route-found r.src_ip e (taken r u)
          (sets r.src_ip
            ∙ ap (λ x. if x then some e else find r.src_ip u.rtable) (==_self r.src_ip))
          (lt→ltb (heard r u).now e.lifetime (omega (arith, b, n.3, m.clock_bound))) n.4,
      n.0,
    )

-- The destination answers the source.
pub process_recv_msg-replies :
    (raw : Uninitialised) (ttl : ℕ) (r : Rreq) (u : Node)
    → IsMet r u
    → (t : Node) × (l : List Effect) × (process_recv_msg raw r.src_ip ttl (some (rreq r)) u
        ≡ done t)
      × (t.log ≡ send_to r.src_ip (rrep (own_reply raw r (taken r u))) ∷ l)
unfolding process_recv_msg
process_recv_msg-replies raw ttl r u m =
    let (e, found, back) = route_back r u m in
    let t = replied raw r e (taken r u) in
    let (a, b, c) = neighbor_update-frame r.src_ip r.src_ip r.src_seq_num (neighbor_life u) u in
    let (l, sent) = unicast_rrep-sends e.next_hop (own_reply raw r (taken r u)) _ in
    (
      t,
      l,
      rw (==_no r.src_ip u.my_ip m.not_own) (
          process_rreq-replies raw (ttl - 1) r u (taken r u) m.awake (recv_rreq-IsMet r u m)
          ∙ ap done (
              reply_rreq-own raw r e (taken r u)
                (ap (λ x. r.dest_ip == x) (a ∙ sym m.for_it) ∙ ==_self r.dest_ip) found
                (==_no e.next_hop 0 (λ z. m.has_source (sym back ∙ z))))),
      sent ∙ ap (λ n. send_to n (rrep (own_reply raw r (taken r u))) ∷ l) back,
    )
