-- ===== src/RoutingTable/Answered.antt =====
-- LA_Client_aodv/routingTable.cc: what the local agent hears when a reply gives a route.
pub mod Updates
use unified_routing_framewor.Prelude.{
  ℕ, ◌≡◌, refl, ap, ◌∙◌, inl, inr, List, [], ◌∷◌, Option, none, some, Bool, true, false, ◌||◌,
  arith, ◌==◌, ==_self, if◌then◌else◌, ltb, Bool-cases, Option-cases, ℕ_discrete,
}
use unified_routing_framewor.Params.{active_route, lr_timer, broadcast_addr}
use unified_routing_framewor.RouteEntry.{create_entry, RtableEntry, get_prec_cnt, get_prec_addr}
use unified_routing_framewor.RouteMap.{find, IsSorted}
use unified_routing_framewor.Packets.{Packet, Rerr, Rrep, rerr}
use unified_routing_framewor.LocalRepair
use unified_routing_framewor.TimerQueue.{
  Timer, Handler, TimerData, neighbor_timeout, is_active_timer_in_queue, remove_active_route_timer,
  search_timer, is_rreq_timer, next_of,
}
use unified_routing_framewor.Node.{
  Node, Effect, Ttl, hops, unset, add_route, del_route, ods_reply, set_socket_ttl, send_to,
  set_itimer, emit, add_kroute, del_kroute, feedback, ip_found, set_real_timer, send_packet,
}
use unified_routing_framewor.Node.Timers.{
  timer_add, set_lowest_timer, set_timer, is_timer_set_now, remove_found, remove_rreq_timer,
}
use unified_routing_framewor.ErrorReports.{generate_rerr, send_rerr, one_dest_rerr}
use unified_routing_framewor.RoutingTable.{insert_route, add_route_entry, is_better}
use unified_routing_framewor.RoutingTable.Updates.{
  set_neighbor_timer, watch_neighbor, neighbor_entry, neighbor_found, neighbor_update, repaired,
  route_found, replace_route, forward_better, forward_revived, forward_created, forward_route_entry,
  forward_route_update,
}
use unified_routing_framewor.RoutingTable.Frame.After.{route_found-SameRoutes}
use unified_routing_framewor.RoutingTable.Freshness.{
  Sets, replace_route-Sets, forward_active, forward_none, forward_route_entry-revives,
  forward_route_entry-creates, forward_inactive,
}

-- The results that the local agent has got for a destination, newest first.
unfoldable pub answers : ℕ → List Effect → List ℕ
answers dst [] = []
answers dst (ods_reply d result ∷ l) =
    let rest = answers dst l in if d == dst then result ∷ rest else rest
answers dst (add_route d n ∷ l) = answers dst l
answers dst (del_route d g m ∷ l) = answers dst l
answers dst (set_socket_ttl n ∷ l) = answers dst l
answers dst (send_to d p ∷ l) = answers dst l
answers dst (set_itimer sec usec ∷ l) = answers dst l

-- Nothing is answered.
abbrev pub IsQuiet : ℕ → Node → Node → Type 0
IsQuiet dst s t = answers dst t.log ≡ answers dst s.log

set_real_timer-IsQuiet : (dst n : ℕ) (s : Node) → IsQuiet dst s (set_real_timer n s)
unfolding set_real_timer emit answers
set_real_timer-IsQuiet dst n s = refl

pub send_packet-IsQuiet :
    (dst a : ℕ) (t : Ttl) (p : Packet) (s : Node) → IsQuiet dst s (send_packet a t p s)
unfolding send_packet emit answers
send_packet-IsQuiet dst a (hops n) p s = ground arith
send_packet-IsQuiet dst a unset p s = ground arith

pub if-IsQuiet :
    (dst : ℕ) (b : Bool) (s t u : Node)
    → IsQuiet dst s t
    → IsQuiet dst s u
    → IsQuiet dst s (if b then t else u)
if-IsQuiet dst true s t u x y = x
if-IsQuiet dst false s t u x y = y

elim-IsQuiet :
    {A : Type 0} (dst : ℕ) (o : Option A) (s t : Node) (f : A → Node)
    → IsQuiet dst s t
    → ((a : A) → IsQuiet dst s (f a))
    → IsQuiet dst s (elim o [ none ↦ t | some a ↦ f a ])
elim-IsQuiet dst none s t f x y = x
elim-IsQuiet dst (some a) s t f x y = y a

send_rerr-IsQuiet :
    (dst : ℕ) (a : Option ℕ) (n : ℕ) (r : Rerr) (s : Node) → IsQuiet dst s (send_rerr a n r s)
unfolding send_rerr
send_rerr-IsQuiet dst a n r s =
    if-IsQuiet dst (n == 1) s _ _
      (elim-IsQuiet dst a s s _ refl (λ x. send_packet-IsQuiet dst x (hops 1) (rerr r) s))
      (send_packet-IsQuiet dst broadcast_addr (hops 1) (rerr r) s)

generate_rerr-IsQuiet : (dst d n : ℕ) (b : Bool) (s : Node) → IsQuiet dst s (generate_rerr d n b s)
unfolding generate_rerr
generate_rerr-IsQuiet dst d n b s =
    elim-IsQuiet dst (find d s.rtable) s _ _
      (if-IsQuiet dst b s _ s (send_rerr-IsQuiet dst none 0 (one_dest_rerr d 0 n) s) refl)
      (λ e.
        if-IsQuiet dst (ltb 0 (get_prec_cnt e) || b) s _ s
          (send_rerr-IsQuiet dst (get_prec_addr e) (get_prec_cnt e)
            (one_dest_rerr d e.dest_seq_num n) s)
          refl)

remove_found-IsQuiet : (dst : ℕ) (t : Timer) (s : Node) → IsQuiet dst s (remove_found t s)
unfolding remove_found
remove_found-IsQuiet dst t s =
    if-IsQuiet dst (is_timer_set_now t s.timer_q) s _ s
      (elim-IsQuiet dst (next_of t.node s.timer_q) s s _ refl (λ u. set_real_timer-IsQuiet dst _ s))
      refl

pub remove_rreq_timer-IsQuiet : (dst d : ℕ) (s : Node) → IsQuiet dst s (remove_rreq_timer d s).1
unfolding remove_rreq_timer
remove_rreq_timer-IsQuiet dst d s = elim (Option-cases (search_timer (is_rreq_timer d) s.timer_q)) [
  | inl e ↦ rw (e, remove_rreq_timer) refl
  | inr (t, e) ↦ rw (e, remove_rreq_timer) (remove_found-IsQuiet dst t s)
]

repaired-IsQuiet : (dst d : ℕ) (s : Node) → IsQuiet dst s (repaired d s)
unfolding repaired
repaired-IsQuiet dst d s = elim-IsQuiet dst (find d s.rtable) s _ _ refl (λ e.
    if-IsQuiet dst (ltb e.last_hop_cnt e.hop_cnt) s _ _ (generate_rerr-IsQuiet dst d 1 false _)
      refl)

pub feedback-answers :
    (dst result : ℕ) (s : Node)
    → answers dst (feedback dst result s).log ≡ result ∷ answers dst s.log
unfolding feedback emit answers
feedback-answers dst result s = rw (==_self dst) refl

-- The end of an update answers once.
pub route_found-answers :
    (dst : ℕ) (s : Node) → answers dst (route_found dst s).log ≡ ip_found ∷ answers dst s.log
unfolding route_found
route_found-answers dst s =
    let fed = feedback dst ip_found s in
    let (ret, t) = remove_rreq_timer dst fed in
    if-IsQuiet dst (ret == lr_timer) t _ t (repaired-IsQuiet dst dst t) refl
    ∙ remove_rreq_timer-IsQuiet dst dst fed
    ∙ feedback-answers dst ip_found s
