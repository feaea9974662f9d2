-- ===== src/Daemon/Meeting.antt =====
-- LA_Client_aodv: a route request that meets its destination, which is a neighbour of the source.
pub mod Source
pub mod Sent
pub mod Found
use unified_routing_framewor.Prelude.{
  ℕ, ◌*◌, ◌+◌, ◌<◌, ◌^◌, ◌-◌, ◌≡◌, ◌≢◌, refl, sym, ap, ◌∙◌, List, [], ◌∷◌, Option, none, some, Bool,
  true, false, not, ◌&&◌, arith, ltb, lt→ltb, ◌==◌, ==_self, ==_no, if◌then◌else◌, add64,
}
use unified_routing_framewor.Prelude.Outcome.{Outcome, done, ◌>>=◌}
use unified_routing_framewor.Params.{
  active_route, active_route_timeout, allowed_hello_loss, hello_interval, gen_rrep, fwd_rreq,
  broadcast_addr, my_route_timeout, rrep_ack_timeout, rrep_ack_timer,
}
use unified_routing_framewor.RouteEntry.{RtableEntry}
use unified_routing_framewor.RouteMap.{find, IsSorted}
use unified_routing_framewor.Packets.{Rreq, Rrep, Packet, rreq, rrep}
use unified_routing_framewor.Blacklist
use unified_routing_framewor.ForwardedRreqs
use unified_routing_framewor.Node.{Node, Effect, send_to, send_packet, hops, unset, emit}
use unified_routing_framewor.TimerQueue
use unified_routing_framewor.Node.Timers.{set_timer}
use unified_routing_framewor.RoutingTable.{find_active_route, write}
use unified_routing_framewor.RoutingTable.Updates.{neighbor_update}
use unified_routing_framewor.RoutingTable.Frame.{SameRoutes, send_packet-SameRoutes}
use unified_routing_framewor.RoutingTable.Frame.After.{set_timer-SameRoutes}
use unified_routing_framewor.RoutingTable.Neighbors.{IsNeighbor, neighbor_update-Sets}
use unified_routing_framewor.Requests.{recv_rreq, accept_rreq, answer_rreq, create_rrep, ack_flag}
use unified_routing_framewor.Daemon.Discovery.{Uninitialised}
use unified_routing_framewor.Daemon.{
  neighbor_life, get_next_hop, unicast_rrep, reply_rreq, reboot_rreq, process_rreq,
}

-- The destination after the update for the source, its neighbour.
abbrev pub heard : Rreq → Node → Node
heard r u = neighbor_update r.src_ip r.src_ip r.src_seq_num (neighbor_life u) u

-- The destination when it has taken the request in.
abbrev pub taken : Rreq → Node → Node
taken r u = record (heard r u) {
  fw_rreq_list =
      ForwardedRreqs.add_to_list (heard r u).now r.src_ip r.rreq_id (heard r u).fw_rreq_list;
  local_seq_num =
      if ltb (heard r u).local_seq_num r.dest_seq_num
      then r.dest_seq_num
      else (heard r u).local_seq_num;
}

pub accept_rreq-taken :
    (r : Rreq) (u : Node)
    → ForwardedRreqs.in_list r.src_ip r.rreq_id (heard r u).fw_rreq_list ≡ false
    → (r.dest_ip == (heard r u).my_ip) ≡ true
    → accept_rreq r.src_ip r u ≡ (gen_rrep, r, taken r u)
unfolding accept_rreq answer_rreq
accept_rreq-taken r u h d = rw (==_self r.src_ip, h, d) refl

pub recv_rreq-taken :
    (r : Rreq) (u : Node)
    → Blacklist.in_list u.black_list r.src_ip ≡ some false
    → (r.src_ip == u.my_ip) ≡ false
    → accept_rreq r.src_ip r u ≡ (gen_rrep, r, taken r u)
    → recv_rreq r.src_ip r u ≡ done (gen_rrep, r, taken r u)
unfolding recv_rreq
recv_rreq-taken r u b n a = rw (b, recv_rreq, n, a) refl

-- What `processRREQ` does with the result of `recvRREQ`.
abbrev answered : Uninitialised → ℕ → ℕ → Rreq → ℕ × Rreq × Node → Outcome Node
answered raw src_ip ttl r x = done (
    if x.0 == fwd_rreq
    then if ltb 0 ttl then send_packet broadcast_addr (hops ttl) (rreq x.1) x.2 else x.2
    else if x.0 == gen_rrep
    then reply_rreq raw src_ip r x.2
    else x.2)

process_rreq-awake :
    (raw : Uninitialised) (src_ip ttl : ℕ) (r : Rreq) (u : Node)
    → u.during_reboot ≡ false
    → process_rreq raw src_ip ttl r u ≡ (recv_rreq src_ip r u >>= λ x. answered raw src_ip ttl r x)
unfolding process_rreq
process_rreq-awake raw src_ip ttl r u h =
    ap
      (λ b.
        if b
        then done (reboot_rreq src_ip r u)
        else (recv_rreq src_ip r u >>= λ x. answered raw src_ip ttl r x))
      h

pub process_rreq-replies :
    (raw : Uninitialised) (ttl : ℕ) (r : Rreq) (u t : Node)
    → u.during_reboot ≡ false
    → recv_rreq r.src_ip r u ≡ done (gen_rrep, r, t)
    → process_rreq raw r.src_ip ttl r u ≡ done (reply_rreq raw r.src_ip r t)
process_rreq-replies raw ttl r u t d h =
    process_rreq-awake raw r.src_ip ttl r u d ∙ ap (λ o. o >>= λ x. answered raw r.src_ip ttl r x) h

-- The reply of the destination itself.
abbrev pub own_reply : Uninitialised → Rreq → Node → Rrep
own_reply raw r t = record {
  a_flag = ack_flag t;
  prefix_size = 0;
  hop_cnt = 0;
  dest_ip = r.dest_ip;
  dest_seq_num = t.local_seq_num;
  src_ip = r.src_ip;
  lifetime = my_route_timeout;
}

create_rrep-own :
    (raw : Uninitialised) (prev_hop : ℕ) (r : Rreq) (t : Node)
    → (r.dest_ip == t.my_ip) ≡ true
    → create_rrep raw.rrep_ob prev_hop r t ≡ (own_reply raw r t, t)
unfolding create_rrep
create_rrep-own raw prev_hop r t h = rw h refl

-- The entry of a route that is used.
abbrev used : RtableEntry → Node → RtableEntry
used e t =
    let life = add64 t.now active_route_timeout in
    record e { lifetime = if ltb life e.lifetime then e.lifetime else life }

pub find_active_route-found :
    (dst : ℕ) (e : RtableEntry) (t : Node)
    → find dst t.rtable ≡ some e
    → ltb t.now e.lifetime ≡ true
    → e.routing_flags ≡ active_route
    → find_active_route dst t ≡ some e
unfolding find_active_route
find_active_route-found dst e t h l a = rw (h, find_active_route, l, a) refl

get_next_hop-found :
    (dst : ℕ) (e : RtableEntry) (t : Node)
    → find_active_route dst t ≡ some e
    → get_next_hop dst t ≡ (e.next_hop, write (used e t) t)
unfolding get_next_hop
get_next_hop-found dst e t h =
    ap
      (λ o. elim o as (λ x. ℕ × Node) [ none ↦ (0, t) | some x ↦ (x.next_hop, write (used x t) t) ])
      h

unicast_rrep-my_ip : (n : ℕ) (p : Rrep) (t : Node) → (unicast_rrep n p t).my_ip ≡ t.my_ip
unfolding unicast_rrep
unicast_rrep-my_ip n p t =
    let timed =
      set_timer rrep_ack_timeout TimerQueue.rrep_ack (record { kind = rrep_ack_timer; value = n })
        t in
    (send_packet-SameRoutes n unset (rrep p) (if p.a_flag == 1 then timed else t)).address
    ∙ (elim (p.a_flag == 1) as (λ b. (if b then timed else t).my_ip ≡ t.my_ip) [
      | true ↦ (set_timer-SameRoutes rrep_ack_timeout TimerQueue.rrep_ack _ t).address
      | false ↦ refl
    ])

pub unicast_rrep-sends :
    (n : ℕ) (p : Rrep) (t : Node)
    → (l : List Effect) × ((unicast_rrep n p t).log ≡ send_to n (rrep p) ∷ l)
unfolding unicast_rrep send_packet emit
unicast_rrep-sends n p t = (_, refl)

-- The end of `reply_rreq`, where the destination has a route back.
abbrev pub replied : Uninitialised → Rreq → RtableEntry → Node → Node
replied raw r e t = unicast_rrep e.next_hop (own_reply raw r t) (write (used e t) t)

no_copy : (b : Bool) (s t : Node) → (if b && not true then s else t) ≡ t
no_copy true s t = refl
no_copy false s t = refl

pub reply_rreq-own :
    (raw : Uninitialised) (r : Rreq) (e : RtableEntry) (t : Node)
    → (r.dest_ip == t.my_ip) ≡ true
    → find_active_route r.src_ip t ≡ some e
    → (e.next_hop == 0) ≡ false
    → reply_rreq raw r.src_ip r t ≡ replied raw r e t
unfolding reply_rreq
reply_rreq-own raw r e t h f z =
    let same : (r.dest_ip == (replied raw r e t).my_ip) ≡ true =
      ap (λ x. r.dest_ip == x)
        (unicast_rrep-my_ip e.next_hop (own_reply raw r t) (write (used e t) t))
      ∙ h in
    rw (create_rrep-own raw r.src_ip r t h, get_next_hop-found r.src_ip e t f, z, same)
      (no_copy (r.g_flag == 1) _ _)
