-- ===== src/Daemon/Meeting/Sent.antt =====
-- LA_Client_aodv/aodv.cc: the request that `sendRREQ` sends.
use unified_routing_framewor.Prelude.{ℕ, ◌≡◌, ◌≢◌, refl, ◌∙◌, List, ◌∷◌, true, arith, ==_no, add64}
use unified_routing_framewor.Params.{broadcast_addr, path_traversal_time}
use unified_routing_framewor.Packets.{Packet, rreq}
use unified_routing_framewor.Node.{Node, Effect, send_to, send_packet, hops, emit}
use unified_routing_framewor.RoutingTable.{set_life_time}
use unified_routing_framewor.Requests.{create_rreq}
use unified_routing_framewor.Daemon.Discovery.{Uninitialised, first_ttl, send_rreq}

set_life_time-ring :
    (dst life : ℕ) (s : Node)
    → (set_life_time dst life s).expanding_ring_search ≡ s.expanding_ring_search
unfolding set_life_time
set_life_time-ring dst life s = ground arith

first_ttl-ring :
    (raw : Uninitialised) (dst : ℕ) (s : Node)
    → s.expanding_ring_search ≡ true
    → first_ttl raw dst s ≢ 0
unfolding first_ttl
first_ttl-ring raw dst s h = ground (arith, h)

create_rreq-ring :
    (dst flags : ℕ) (s : Node)
    → (create_rreq dst flags s).1.expanding_ring_search ≡ s.expanding_ring_search
unfolding create_rreq
create_rreq-ring dst flags s = refl

send_packet-sends :
    (dst ttl : ℕ) (p : Packet) (s : Node)
    → ttl ≢ 0
    → (l : List Effect) × ((send_packet dst (hops ttl) p s).log ≡ send_to dst p ∷ l)
unfolding send_packet emit
send_packet-sends dst ttl p s z = rw (==_no ttl 0 z) (_, refl)

-- `sendRREQ` sends the request, by an expanding ring.
pub send_rreq-sends :
    (raw : Uninitialised) (dst flags : ℕ) (s : Node)
    → dst ≢ s.my_ip
    → s.expanding_ring_search ≡ true
    → (l : List Effect) × ((send_rreq raw dst flags s).log
        ≡ send_to broadcast_addr (rreq (create_rreq dst flags s).0) ∷ l)
unfolding send_rreq
send_rreq-sends raw dst flags s z ring =
    let s₁ = (create_rreq dst flags s).1 in
    let s₂ = set_life_time dst (add64 s₁.now path_traversal_time) s₁ in
    let nonzero = first_ttl-ring raw dst s₂ (
      set_life_time-ring dst (add64 s₁.now path_traversal_time) s₁
      ∙ create_rreq-ring dst flags s
      ∙ ring) in
    rw (==_no dst s.my_ip z) (
      send_packet-sends broadcast_addr (first_ttl raw dst s₂) (rreq (create_rreq dst flags s).0) _
        nonzero)
