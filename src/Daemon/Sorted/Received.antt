-- ===== src/Daemon/Sorted/Received.antt =====
-- `recvRREQ`, `recvRREP` and the making of replies keep the order of the table.
use unified_routing_framewor.Prelude.{
  ℕ, ◌≡◌, subst, sym, Option, none, some, Bool, true, false, arith, ◌==◌, ◌&&◌, not, if◌then◌else◌,
  add64,
}
use unified_routing_framewor.Prelude.Outcome.{Outcome, done, fault, ◌>>=◌, hang}
use unified_routing_framewor.Blacklist
use unified_routing_framewor.RouteMap.{IsSorted}
use unified_routing_framewor.RouteMap.Laws.{update-IsSorted}
use unified_routing_framewor.Packets.{Rreq, Rrep, rrep}
use unified_routing_framewor.Node.{Node, send_packet, unset}
use unified_routing_framewor.RoutingTable.{find_active_route}
use unified_routing_framewor.RoutingTable.Updates.{neighbor_update}
use unified_routing_framewor.RoutingTable.Frame.{send_packet-SameRoutes}
use unified_routing_framewor.RoutingTable.Sorted.{
  TableSorted, SameRoutes-TableSorted, updates-IsSorted,
}
use unified_routing_framewor.Requests.{
  recv_rreq, accept_rreq, answer_rreq, recv_rrep, create_rrep, create_grrep,
}
use unified_routing_framewor.Daemon.Discovery.{Uninitialised}
use unified_routing_framewor.Daemon.{get_next_hop, unicast_rrep, reply_rreq}
use unified_routing_framewor.Daemon.Sorted.{
  if-TableSorted, get_next_hop-TableSorted, unicast_rrep-TableSorted, add_precursor-TableSorted,
  note_precursor-TableSorted,
}

pub answer_rreq-rtable : (r : Rreq) (s : Node) → (answer_rreq r s).2.rtable ≡ s.rtable
unfolding answer_rreq
answer_rreq-rtable r s = ground arith

pub answer_rreq-TableSorted :
    (r : Rreq) (s : Node) → TableSorted s → TableSorted (answer_rreq r s).2
answer_rreq-TableSorted r s o = subst IsSorted (sym (answer_rreq-rtable r s)) o

pub neighbor_update-TableSorted :
    (neighbor src seq life_time : ℕ) (reply : Rrep) (request : Rreq) (s : Node)
    → TableSorted s
    → TableSorted (neighbor_update neighbor src seq life_time s)
neighbor_update-TableSorted neighbor src seq life_time reply request s o =
    (updates-IsSorted neighbor reply request src seq life_time s o).2

abbrev pub no_reply : Rrep
no_reply = record {
  a_flag = 0;
  prefix_size = 0;
  hop_cnt = 0;
  dest_ip = 0;
  dest_seq_num = 0;
  src_ip = 0;
  lifetime = 0;
}

abbrev pub no_request : Rreq
no_request = record {
  g_flag = 0;
  hop_cnt = 0;
  rreq_id = 0;
  dest_ip = 0;
  dest_seq_num = 0;
  src_ip = 0;
  src_seq_num = 0;
}

pub third-if :
    {X : Type 0} (b : Bool) (x y : ℕ × X × Node)
    → TableSorted x.2
    → TableSorted y.2
    → TableSorted (if b then x else y).2
third-if true x y p q = p
third-if false x y p q = q

pub accept_rreq-TableSorted :
    (prev_hop : ℕ) (r : Rreq) (s : Node) → TableSorted s → TableSorted (accept_rreq prev_hop r s).2
unfolding accept_rreq
accept_rreq-TableSorted prev_hop r s o =
    let n =
      neighbor_update-TableSorted prev_hop r.src_ip
        (if r.src_ip == prev_hop then r.src_seq_num else 0) (add64 s.now 4000) no_reply r s o in
    third-if _ _ _ n (
      answer_rreq-TableSorted r _ (
        if-TableSorted (r.src_ip == prev_hop) _ _ n
          (updates-IsSorted prev_hop no_reply r 0 0 0 _ n).1))

-- What an outcome leaves, if it is no fault.
abbrev pub Leaves {ℓ} : {A : Type ℓ} → (A → Node) → Outcome A → Type 0
Leaves f (done a) = TableSorted (f a)
Leaves f (fault x) = Unit {0}

pub Leaves-if :
    {A : Type 0} (b : Bool) (f : A → Node) (x y : Outcome A)
    → Leaves f x
    → Leaves f y
    → Leaves f (if b then x else y)
Leaves-if true f x y p q = p
Leaves-if false f x y p q = q

pub Leaves-bind :
    {A B : Type 0} (x : Outcome A) (f : A → Node) (g : B → Node) (h : A → Outcome B)
    → Leaves f x
    → ((a : A) → TableSorted (f a) → Leaves g (h a))
    → Leaves g (x >>= h)
Leaves-bind (done a) f g h p q = q a p
Leaves-bind (fault x) f g h p q = tt

pub Leaves-listed :
    {A : Type 0} (o : Option Bool) (f : A → Node) (a b : Outcome A)
    → Leaves f a
    → Leaves f b
    → Leaves f (elim o [ none ↦ fault hang | some true ↦ a | some false ↦ b ])
Leaves-listed none f a b p q = tt
Leaves-listed (some true) f a b p q = p
Leaves-listed (some false) f a b p q = q

pub recv_rreq-Leaves :
    (prev_hop : ℕ) (r : Rreq) (s : Node)
    → TableSorted s
    → Leaves (λ x. x.2) (recv_rreq prev_hop r s)
unfolding recv_rreq
recv_rreq-Leaves prev_hop r s o =
    Leaves-listed (Blacklist.in_list s.black_list prev_hop) (λ x. x.2) (done (0, r, s)) _ o
      (Leaves-if (r.src_ip == s.my_ip) (λ x. x.2) (done (0, r, s)) (done (accept_rreq prev_hop r s))
        o (accept_rreq-TableSorted prev_hop r s o))

pub pair-if :
    {X : Type 0} (b : Bool) (x y : X × Node)
    → TableSorted x.1
    → TableSorted y.1
    → TableSorted (if b then x else y).1
pair-if true x y p q = p
pair-if false x y p q = q

pub pair-elim :
    {X A : Type 0} (o : Option A) (x : X × Node) (f : A → X × Node)
    → TableSorted x.1
    → ((a : A) → TableSorted (f a).1)
    → TableSorted (elim o as (λ y. X × Node) [ none ↦ x | some a ↦ f a ]).1
pair-elim none x f p q = p
pair-elim (some a) x f p q = q a

pub recv_rrep-TableSorted :
    (prev_hop : ℕ) (r : Rrep) (s : Node) → TableSorted s → TableSorted (recv_rrep prev_hop r s).2
unfolding recv_rrep
recv_rrep-TableSorted prev_hop r s o =
    let n =
      neighbor_update-TableSorted prev_hop r.src_ip
        (if r.dest_ip == prev_hop then r.dest_seq_num else 0) (add64 s.now 4000) r no_request s o in
    let m =
      if-TableSorted (r.dest_ip == prev_hop) _ _ n
        (updates-IsSorted prev_hop r no_request 0 0 0 _ n).0 in
    third-if _ _ _ (note_precursor-TableSorted r _ m) m

pub create_rrep-TableSorted :
    (raw : Rrep) (prev_hop : ℕ) (r : Rreq) (s : Node)
    → TableSorted s
    → TableSorted (create_rrep raw prev_hop r s).1
unfolding create_rrep
create_rrep-TableSorted raw prev_hop r s o = pair-if (r.dest_ip == s.my_ip) _ _ o (
    pair-elim (find_active_route r.dest_ip s) _ _ o
      (λ e. add_precursor-TableSorted r.src_ip e.next_hop _ (update-IsSorted _ s.rtable o)))

pub reply_rreq-TableSorted :
    (raw : Uninitialised) (src_ip : ℕ) (r : Rreq) (s : Node)
    → TableSorted s
    → TableSorted (reply_rreq raw src_ip r s)
unfolding reply_rreq
reply_rreq-TableSorted raw src_ip r s o =
    let made = create_rrep raw.rrep_ob src_ip r s in
    let there = get_next_hop r.src_ip made.1 in
    let replied = if there.0 == 0 then there.1 else unicast_rrep there.0 made.0 there.1 in
    let back = get_next_hop r.dest_ip replied in
    let gratuitous = create_grrep raw.grrep_ob r.src_ip r.dest_ip r.src_seq_num replied in
    let told = send_packet back.0 unset (rrep gratuitous) back.1 in
    let a =
      get_next_hop-TableSorted r.src_ip made.1 (create_rrep-TableSorted raw.rrep_ob src_ip r s o) in
    let b =
      if-TableSorted (there.0 == 0) there.1 (unicast_rrep there.0 made.0 there.1) a
        (unicast_rrep-TableSorted there.0 made.0 there.1 a) in
    let c = get_next_hop-TableSorted r.dest_ip replied b in
    if-TableSorted (r.g_flag == 1 && not (r.dest_ip == replied.my_ip))
      (if back.0 == 0 then back.1 else told) replied
      (if-TableSorted (back.0 == 0) back.1 told c
        (SameRoutes-TableSorted c (send_packet-SameRoutes back.0 unset (rrep gratuitous) back.1)))
      b
