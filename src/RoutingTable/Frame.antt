-- ===== src/RoutingTable/Frame.antt =====
-- The parts of the table's updates that leave the table, or the kernel's routes, alone.
pub mod After
use unified_routing_framewor.Prelude.{
  ℕ, ◌≡◌, refl, ◌∙◌, inl, inr, List, [], ◌∷◌, Option, none, some, Bool, true, false, ◌||◌, ltb,
  add64, ◌==◌, if◌then◌else◌, Option-cases,
}
use unified_routing_framewor.Params.{broadcast_addr}
use unified_routing_framewor.Packets.{Rerr, Packet, rerr}
use unified_routing_framewor.RouteMap.{find}
use unified_routing_framewor.TimerQueue.{
  Timer, Handler, TimerData, first, next_of, search_timer, is_rreq_timer, neighbor_timeout,
  is_active_timer_in_queue, remove_active_route_timer,
}
use unified_routing_framewor.Node.{
  Node, Effect, add_route, del_route, ods_reply, set_socket_ttl, send_to, set_itimer, emit,
  set_real_timer, send_packet, feedback, Ttl, hops, unset, ip_found,
}
use unified_routing_framewor.Node.Timers.{
  timer_add, set_lowest_timer, set_timer, is_timer_set_now, remove_found, remove_rreq_timer,
}
use unified_routing_framewor.ErrorReports.{send_rerr, generate_rerr, one_dest_rerr}
use unified_routing_framewor.RouteEntry.{get_prec_cnt, get_prec_addr}
use unified_routing_framewor.RoutingTable.Updates.{
  repaired, route_found, neighbor_found, set_neighbor_timer, watch_neighbor,
}

-- The next hop of the last request to the kernel about a destination: `none` after a deletion, or
-- with no request.
unfoldable pub kernel_route : ℕ → List Effect → Option ℕ
kernel_route k [] = none
kernel_route k (add_route dst nhop ∷ l) = if dst == k then some nhop else kernel_route k l
kernel_route k (del_route dst gateway metric ∷ l) = if dst == k then none else kernel_route k l
kernel_route k (ods_reply dst result ∷ l) = kernel_route k l
kernel_route k (set_socket_ttl ttl ∷ l) = kernel_route k l
kernel_route k (send_to dst p ∷ l) = kernel_route k l
kernel_route k (set_itimer sec usec ∷ l) = kernel_route k l

-- Two states that agree on the table, the clock, the address, the black list, the handled requests
-- and the kernel's routes.
pub record SameRoutes (s t : Node) : Type 0 where
  pub table : t.rtable ≡ s.rtable
  pub clock : t.now ≡ s.now
  pub address : t.my_ip ≡ s.my_ip
  pub black : t.black_list ≡ s.black_list
  pub handled : t.fw_rreq_list ≡ s.fw_rreq_list
  pub kernel : (k : ℕ) → kernel_route k t.log ≡ kernel_route k s.log

pub SameRoutes-refl : (s : Node) → SameRoutes s s
SameRoutes-refl s = record {
  table = refl;
  clock = refl;
  address = refl;
  black = refl;
  handled = refl;
  kernel = λ k. refl;
}

pub SameRoutes-trans : {s t u : Node} → SameRoutes s t → SameRoutes t u → SameRoutes s u
SameRoutes-trans a b = record {
  table = b.table ∙ a.table;
  clock = b.clock ∙ a.clock;
  address = b.address ∙ a.address;
  black = b.black ∙ a.black;
  handled = b.handled ∙ a.handled;
  kernel = λ k. b.kernel k ∙ a.kernel k;
}

SameRoutes-if :
    (b : Bool) (s t u : Node) → SameRoutes s t → SameRoutes s u → SameRoutes s (if b then t else u)
SameRoutes-if true s t u x y = x
SameRoutes-if false s t u x y = y

SameRoutes-elim :
    {A : Type 0} (o : Option A) (s t : Node) (f : A → Node)
    → SameRoutes s t
    → ((a : A) → SameRoutes s (f a))
    → SameRoutes s (elim o [ none ↦ t | some a ↦ f a ])
SameRoutes-elim none s t f x y = x
SameRoutes-elim (some a) s t f x y = y a

-- An effect that is no request to the kernel's table.
emit-SameRoutes :
    (x : Effect) (s : Node)
    → ((k : ℕ) (l : List Effect) → kernel_route k (x ∷ l) ≡ kernel_route k l)
    → SameRoutes s (emit x s)
unfolding emit
emit-SameRoutes x s h = record {
  table = refl;
  clock = refl;
  address = refl;
  black = refl;
  handled = refl;
  kernel = λ k. h k s.log;
}

feedback-SameRoutes : (dst result : ℕ) (s : Node) → SameRoutes s (feedback dst result s)
unfolding feedback kernel_route
feedback-SameRoutes dst result s = emit-SameRoutes (ods_reply dst result) s (λ k l. refl)

set_real_timer-SameRoutes : (timeout : ℕ) (s : Node) → SameRoutes s (set_real_timer timeout s)
unfolding set_real_timer kernel_route
set_real_timer-SameRoutes timeout s = emit-SameRoutes (set_itimer _ _) s (λ k l. refl)

set_ttl-SameRoutes : (ttl : ℕ) (s : Node) → SameRoutes s (emit (set_socket_ttl ttl) s)
unfolding kernel_route
set_ttl-SameRoutes ttl s = emit-SameRoutes (set_socket_ttl ttl) s (λ k l. refl)

send_to-SameRoutes : (dst : ℕ) (p : Packet) (s : Node) → SameRoutes s (emit (send_to dst p) s)
unfolding kernel_route
send_to-SameRoutes dst p s = emit-SameRoutes (send_to dst p) s (λ k l. refl)

no_hello-SameRoutes :
    (b : Bool) (s : Node) → SameRoutes s (if b then record s { need_to_send_hello = false } else s)
no_hello-SameRoutes true s = record {
  table = refl;
  clock = refl;
  address = refl;
  black = refl;
  handled = refl;
  kernel = λ k. refl;
}
no_hello-SameRoutes false s = SameRoutes-refl s

pub send_packet-SameRoutes :
    (dst : ℕ) (t : Ttl) (p : Packet) (s : Node) → SameRoutes s (send_packet dst t p s)
unfolding send_packet
send_packet-SameRoutes dst (hops ttl) p s = SameRoutes-if (ttl == 0) s _ _ (SameRoutes-refl s) (
    SameRoutes-trans (no_hello-SameRoutes (dst == broadcast_addr) s) (
      SameRoutes-trans
        (SameRoutes-if (ltb ttl 256) _ _ _ (set_ttl-SameRoutes ttl _) (SameRoutes-refl _))
        (send_to-SameRoutes dst p _)))
send_packet-SameRoutes dst unset p s =
    SameRoutes-trans (no_hello-SameRoutes (dst == broadcast_addr) s) (send_to-SameRoutes dst p _)

send_rerr-SameRoutes :
    (a : Option ℕ) (n : ℕ) (r : Rerr) (s : Node) → SameRoutes s (send_rerr a n r s)
unfolding send_rerr
send_rerr-SameRoutes a n r s =
    SameRoutes-if (n == 1) s _ _
      (SameRoutes-elim a s s _ (SameRoutes-refl s)
        (λ x. send_packet-SameRoutes x (hops 1) (rerr r) s))
      (send_packet-SameRoutes broadcast_addr (hops 1) (rerr r) s)

pub generate_rerr-SameRoutes :
    (dst n_flag : ℕ) (brd_flag : Bool) (s : Node)
    → SameRoutes s (generate_rerr dst n_flag brd_flag s)
unfolding generate_rerr
generate_rerr-SameRoutes dst n_flag brd_flag s =
    SameRoutes-elim (find dst s.rtable) s _ _
      (SameRoutes-if brd_flag s _ _ (send_rerr-SameRoutes none 0 _ s) (SameRoutes-refl s))
      (λ e.
        SameRoutes-if (ltb 0 (get_prec_cnt e) || brd_flag) s _ _
          (send_rerr-SameRoutes (get_prec_addr e) (get_prec_cnt e)
            (one_dest_rerr dst e.dest_seq_num n_flag) s)
          (SameRoutes-refl s))
