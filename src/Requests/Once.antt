-- ===== src/Requests/Once.antt =====
-- A request is handled once: what `recvRREQ` does with it, and with a copy that comes later.
use unified_routing_framewor.Prelude.{
  ℕ, ◌*◌, ◌≡◌, refl, ◌∙◌, ap, ◌≢◌, inl, inr, some, Bool, true, false, arith, ◌==◌, if◌then◌else◌,
  add64, Bool-cases,
}
use unified_routing_framewor.Prelude.Outcome.{done}
use unified_routing_framewor.Params.{allowed_hello_loss, hello_interval}
use unified_routing_framewor.Packets.{Rreq}
use unified_routing_framewor.Blacklist
use unified_routing_framewor.ForwardedRreqs
use unified_routing_framewor.ForwardedRreqs.Laws.{in_list-add_to_list}
use unified_routing_framewor.Node.{Node, add_kroute, del_kroute, emit}
use unified_routing_framewor.RoutingTable.{insert_route, add_route_entry}
use unified_routing_framewor.RoutingTable.Updates.{
  reverse_route_update, reverse_route_entry, neighbor_update, neighbor_entry, replace_route,
}
use unified_routing_framewor.RoutingTable.Frame.After.{
  route_found-SameRoutes, after_neighbor-SameRoutes,
}
use unified_routing_framewor.Requests.{recv_rreq, accept_rreq, answer_rreq, forwarded}

reverse_route_entry-handled :
    (nhop : ℕ) (r : Rreq) (s : Node) → (reverse_route_entry nhop r s).fw_rreq_list ≡ s.fw_rreq_list
unfolding reverse_route_entry replace_route insert_route add_route_entry add_kroute del_kroute emit
reverse_route_entry-handled nhop r s = ground arith

reverse_route_update-handled :
    (nhop : ℕ) (r : Rreq) (s : Node) → (reverse_route_update nhop r s).fw_rreq_list ≡ s.fw_rreq_list
reverse_route_update-handled nhop r s =
    unfold reverse_route_update in
    (route_found-SameRoutes r.src_ip (reverse_route_entry nhop r s)).handled
    ∙ reverse_route_entry-handled nhop r s

-- The request that `recvRREQ` leaves in the list of handled requests.
answer_rreq-handled : (r : Rreq) (s : Node) → (answer_rreq r s).2.fw_rreq_list ≡ s.fw_rreq_list
unfolding answer_rreq
answer_rreq-handled r s = ground arith

answer_rreq-pair :
    (r : Rreq) (s : Node)
    → ((answer_rreq r s).1.src_ip ≡ r.src_ip) × ((answer_rreq r s).1.rreq_id ≡ r.rreq_id)
unfolding answer_rreq forwarded
answer_rreq-pair r s = ground arith

neighbor_entry-handled :
    (neighbor seq life_time : ℕ) (s : Node)
    → (neighbor_entry neighbor seq life_time s).fw_rreq_list ≡ s.fw_rreq_list
unfolding neighbor_entry insert_route add_route_entry add_kroute emit
neighbor_entry-handled neighbor seq life_time s = ground arith

neighbor_update-handled :
    (neighbor src seq life_time : ℕ) (s : Node)
    → (neighbor_update neighbor src seq life_time s).fw_rreq_list ≡ s.fw_rreq_list
neighbor_update-handled neighbor src seq life_time s =
    unfold neighbor_update in
    (after_neighbor-SameRoutes neighbor src (neighbor_entry neighbor seq life_time s)).handled
    ∙ neighbor_entry-handled neighbor seq life_time s

-- The state with the neighbour that sent the request.
abbrev pub met : ℕ → Rreq → Node → Node
met prev_hop r s =
    neighbor_update prev_hop r.src_ip (if r.src_ip == prev_hop then r.src_seq_num else 0)
      (add64 s.now (allowed_hello_loss * hello_interval)) s

abbrev is_handled : Rreq → Node → Bool
is_handled r s = ForwardedRreqs.in_list r.src_ip r.rreq_id s.fw_rreq_list

abbrev pub listed : Rreq → Node → Node
listed r s = record s {
  fw_rreq_list = ForwardedRreqs.add_to_list s.now r.src_ip r.rreq_id s.fw_rreq_list;
}

-- The state in which a new request is answered.
abbrev pub noted : ℕ → Rreq → Node → Node
noted prev_hop r s =
    let s₂ = listed r (met prev_hop r s) in
    if r.src_ip == prev_hop then s₂ else reverse_route_update prev_hop r s₂

is_handled-met :
    (prev_hop : ℕ) (r : Rreq) (s : Node) → is_handled r (met prev_hop r s) ≡ is_handled r s
is_handled-met prev_hop r s =
    ap (ForwardedRreqs.in_list r.src_ip r.rreq_id) (neighbor_update-handled prev_hop r.src_ip _ _ s)

is_handled-listed : (r : Rreq) (s : Node) → is_handled r (listed r s) ≡ true
is_handled-listed r s =
    ground (arith, in_list-add_to_list s.now r.src_ip r.rreq_id s.fw_rreq_list r.src_ip r.rreq_id)

is_handled-if :
    (b : Bool) (prev_hop : ℕ) (r : Rreq) (s : Node)
    → is_handled r (if b then listed r s else reverse_route_update prev_hop r (listed r s)) ≡ true
is_handled-if true prev_hop r s = is_handled-listed r s
is_handled-if false prev_hop r s =
    ap (ForwardedRreqs.in_list r.src_ip r.rreq_id)
      (reverse_route_update-handled prev_hop r (listed r s))
    ∙ is_handled-listed r s

is_handled-noted : (prev_hop : ℕ) (r : Rreq) (s : Node) → is_handled r (noted prev_hop r s) ≡ true
is_handled-noted prev_hop r s = is_handled-if (r.src_ip == prev_hop) prev_hop r (met prev_hop r s)

module _ (prev_hop : ℕ) (r : Rreq) (s : Node) where
  accept_rreq-known : is_handled r s ≡ true → accept_rreq prev_hop r s ≡ (0, r, met prev_hop r s)
  unfolding accept_rreq
  accept_rreq-known h = rw (is_handled-met prev_hop r s, h) refl

  accept_rreq-new :
      is_handled r s ≡ false → accept_rreq prev_hop r s ≡ answer_rreq r (noted prev_hop r s)
  unfolding accept_rreq
  accept_rreq-new h = rw (is_handled-met prev_hop r s, h) refl

-- `recvRREQ` took the request for itself or to forward it: how the call ended, in the terms of its
-- steps.
pub recv_rreq-nonzero :
    (prev_hop : ℕ) (r r' : Rreq) (s t : Node) (b : ℕ)
    → recv_rreq prev_hop r s ≡ done (b, r', t)
    → b ≢ 0
    → (b, r', t) ≡ answer_rreq r (noted prev_hop r s)
unfolding recv_rreq
recv_rreq-nonzero prev_hop r r' s t b h n =
    ground (arith, accept_rreq-known prev_hop r s, accept_rreq-new prev_hop r s)

recv_rreq-known :
    (prev_hop : ℕ) (r : Rreq) (s : Node)
    → Blacklist.in_list s.black_list prev_hop ≡ some false
    → is_handled r s ≡ true
    → (u : Node) × (recv_rreq prev_hop r s ≡ done (0, r, u))
unfolding recv_rreq
recv_rreq-known prev_hop r s l h = elim (Bool-cases (r.src_ip == s.my_ip)) [
  | inl x ↦ (s, ground arith)
  | inr x ↦ (met prev_hop r s, ground (arith, accept_rreq-known prev_hop r s h))
]

-- After `recvRREQ` has answered or forwarded a request, a copy of it that comes from any neighbour
-- for which the black list answers no is neither answered nor forwarded.
pub recv_rreq-once :
    (prev_hop next : ℕ) (r r' : Rreq) (s t : Node) (b : ℕ)
    → recv_rreq prev_hop r s ≡ done (b, r', t)
    → b ≢ 0
    → Blacklist.in_list t.black_list next ≡ some false
    → (u : Node) × (recv_rreq next r t ≡ done (0, r, u))
recv_rreq-once prev_hop next r r' s t b h n l = recv_rreq-known next r t l (
    ap (λ x. is_handled r x.2) (recv_rreq-nonzero prev_hop r r' s t b h n)
    ∙ ap (ForwardedRreqs.in_list r.src_ip r.rreq_id) (answer_rreq-handled r (noted prev_hop r s))
    ∙ is_handled-noted prev_hop r s)
