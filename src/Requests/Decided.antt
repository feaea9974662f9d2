-- ===== src/Requests/Decided.antt =====
-- LA_Client_aodv/rreq.cc, `recvRREQ`: whether a request is answered or forwarded.
use unified_routing_framewor.Prelude.{
  ℕ, ◌+◌, ◌≡◌, refl, ◌∙◌, ap, ◌≢◌, inl, inr, none, some, ◌≤◌, List, ltb, ℕ_discrete, Option-cases,
  ==_self, ==_no, subst, sym, true, false, arith, ◌==◌, if◌then◌else◌, to_u8,
}
use unified_routing_framewor.Prelude.Outcome.{done}
use unified_routing_framewor.Params.{gen_rrep, fwd_rreq, active_route}
use unified_routing_framewor.Packets.{Rreq}
use unified_routing_framewor.RouteEntry.{RtableEntry}
use unified_routing_framewor.RouteMap.{find}
use unified_routing_framewor.Node.{Node, add_kroute, del_kroute, emit}
use unified_routing_framewor.RoutingTable.{insert_route, add_route_entry, find_valid_route}
use unified_routing_framewor.RoutingTable.Updates.{
  reverse_route_update, reverse_route_entry, neighbor_update, neighbor_entry, replace_route,
}
use unified_routing_framewor.RoutingTable.Frame.After.{
  route_found-SameRoutes, after_neighbor-SameRoutes,
}
use unified_routing_framewor.Requests.{recv_rreq, answer_rreq, forwarded}
use unified_routing_framewor.Requests.Once.{met, listed, noted, recv_rreq-nonzero}

-- The table has an active route to the destination whose sequence number is not below the given one.
pub record IsFresh (dest seq_num : ℕ) (m : List RtableEntry) : Type 0 where
  pub route : RtableEntry
  pub found : find dest m ≡ some route
  pub active : route.routing_flags ≡ active_route
  pub recent : seq_num ≤ route.dest_seq_num

find_valid_route-some :
    (dest seq_num : ℕ) (s : Node) (e : RtableEntry)
    → find_valid_route dest seq_num s ≡ some e
    → IsFresh dest seq_num s.rtable
unfolding find_valid_route
find_valid_route-some dest seq_num s e h = elim (Option-cases (find dest s.rtable)) [
  | inl n ↦ absurd (ground (arith, h, n))
  | inr (d, f) ↦ record {
    route = d;
    found = f;
    active = ground (arith, h, f);
    recent = ground (arith, h, f);
  }
]

find_valid_route-none :
    (dest seq_num : ℕ) (s : Node)
    → find_valid_route dest seq_num s ≡ none
    → ¬ (IsFresh dest seq_num s.rtable)
unfolding find_valid_route
find_valid_route-none dest seq_num s h i = ground (arith, h, i.found, i.active, i.recent)

neighbor_entry-address :
    (neighbor seq life_time : ℕ) (s : Node)
    → (neighbor_entry neighbor seq life_time s).my_ip ≡ s.my_ip
unfolding neighbor_entry insert_route add_route_entry add_kroute emit
neighbor_entry-address neighbor seq life_time s = ground arith

reverse_route_entry-address :
    (nhop : ℕ) (r : Rreq) (s : Node) → (reverse_route_entry nhop r s).my_ip ≡ s.my_ip
unfolding reverse_route_entry replace_route insert_route add_route_entry add_kroute del_kroute emit
reverse_route_entry-address nhop r s = ground arith

met-address : (prev_hop : ℕ) (r : Rreq) (s : Node) → (met prev_hop r s).my_ip ≡ s.my_ip
met-address prev_hop r s =
    unfold neighbor_update in
    (after_neighbor-SameRoutes prev_hop r.src_ip (neighbor_entry prev_hop _ _ s)).address
    ∙ neighbor_entry-address prev_hop _ _ s

reverse_route_update-address :
    (nhop : ℕ) (r : Rreq) (s : Node) → (reverse_route_update nhop r s).my_ip ≡ s.my_ip
reverse_route_update-address nhop r s =
    unfold reverse_route_update in
    (route_found-SameRoutes r.src_ip (reverse_route_entry nhop r s)).address
    ∙ reverse_route_entry-address nhop r s

noted-address : (prev_hop : ℕ) (r : Rreq) (s : Node) → (noted prev_hop r s).my_ip ≡ s.my_ip
noted-address prev_hop r s =
    let s₂ = listed r (met prev_hop r s) in
    elim (r.src_ip == prev_hop)
      as (λ b. (if b then s₂ else reverse_route_update prev_hop r s₂).my_ip ≡ s.my_ip) [
        | true ↦ met-address prev_hop r s
        | false ↦ reverse_route_update-address prev_hop r s₂ ∙ met-address prev_hop r s
      ]

-- The greater one of the sequence numbers of the request and of the table.
abbrev pub newest_seq_num : Rreq → List RtableEntry → ℕ
newest_seq_num r m = elim (find r.dest_ip m) [
  | none ↦ r.dest_seq_num
  | some e ↦ if ltb r.dest_seq_num e.dest_seq_num then e.dest_seq_num else r.dest_seq_num
]

-- How a request that is not dropped was decided, by the node's address, the request, the result, the
-- request as it was changed, and the table after the call.
pub data Decision (my_ip : ℕ) (r : Rreq) (b : ℕ) (r' : Rreq) (m : List RtableEntry) : Type 0 where
  is_destination : b ≡ gen_rrep → r' ≡ r → r.dest_ip ≡ my_ip → Decision my_ip r b r' m
  has_route :
      b ≡ gen_rrep
      → r' ≡ r
      → r.dest_ip ≢ my_ip
      → IsFresh r.dest_ip r.dest_seq_num m
      → Decision my_ip r b r' m
  goes_on :
      b ≡ fwd_rreq
      → r'.hop_cnt ≡ to_u8 (r.hop_cnt + 1)
      → r'.dest_seq_num ≡ newest_seq_num r m
      → r.dest_ip ≢ my_ip
      → ¬ (IsFresh r.dest_ip r.dest_seq_num m)
      → Decision my_ip r b r' m

answer_rreq-Decision :
    (r : Rreq) (s : Node)
    → Decision s.my_ip r (answer_rreq r s).0 (answer_rreq r s).1 (answer_rreq r s).2.rtable
unfolding answer_rreq forwarded
answer_rreq-Decision r s = elim (ℕ_discrete r.dest_ip s.my_ip) [
  | yes h ↦ rw (ap (λ a. a == s.my_ip) h ∙ ==_self s.my_ip) (is_destination refl refl h)
  | no z ↦ elim (Option-cases (find_valid_route r.dest_ip r.dest_seq_num s)) [
    | inr (e, f) ↦
        rw (==_no r.dest_ip s.my_ip z, f)
          (has_route refl refl z (find_valid_route-some r.dest_ip r.dest_seq_num s e f))
    | inl f ↦
        rw (==_no r.dest_ip s.my_ip z, f)
          (goes_on refl refl refl z (find_valid_route-none r.dest_ip r.dest_seq_num s f))
  ]
]

-- Where `recvRREQ` neither drops a request nor hangs, it decides by the node's own address, by the
-- request and by the table that it leaves: it answers with the request unchanged if the request asks
-- for this node, or if the table has an active route to the destination whose sequence number is at
-- least the one asked for; and if neither holds it forwards the request one hop further, with the
-- greater one of its sequence number and the one in the table's entry for the destination.
pub recv_rreq-decides :
    (prev_hop : ℕ) (r r' : Rreq) (s t : Node) (b : ℕ)
    → recv_rreq prev_hop r s ≡ done (b, r', t)
    → b ≢ 0
    → Decision s.my_ip r b r' t.rtable
recv_rreq-decides prev_hop r r' s t b h n =
    subst (λ a. Decision a r b r' t.rtable) (noted-address prev_hop r s)
      (subst (λ x. Decision (noted prev_hop r s).my_ip r x.0 x.1 x.2.rtable)
        (sym (recv_rreq-nonzero prev_hop r r' s t b h n))
        (answer_rreq-Decision r (noted prev_hop r s)))
