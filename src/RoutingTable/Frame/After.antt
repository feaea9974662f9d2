-- ===== src/RoutingTable/Frame/After.antt =====
-- The parts of the updates that work on the timers, the repairs and the agent leave the routes alone.
use unified_routing_framewor.Prelude.{
  ℕ, refl, inl, inr, List, false, add64, ◌==◌, if◌then◌else◌, Option-cases,
}
use unified_routing_framewor.RouteMap.{find}
use unified_routing_framewor.TimerQueue.{
  Timer, Handler, TimerData, first, next_of, search_timer, is_rreq_timer, neighbor_timeout,
  is_active_timer_in_queue, remove_active_route_timer,
}
use unified_routing_framewor.Node.{Node, ip_found}
use unified_routing_framewor.Node.Timers.{
  timer_add, set_lowest_timer, set_timer, is_timer_set_now, remove_found, remove_rreq_timer,
}
use unified_routing_framewor.RoutingTable.Updates.{
  repaired, route_found, neighbor_found, set_neighbor_timer, watch_neighbor,
}
use unified_routing_framewor.RoutingTable.Frame.{
  SameRoutes, SameRoutes-refl, SameRoutes-trans, SameRoutes-if, SameRoutes-elim,
  feedback-SameRoutes, set_real_timer-SameRoutes, generate_rerr-SameRoutes,
}

timers-SameRoutes :
    (q : List Timer) (n : ℕ) (s : Node) → SameRoutes s (record s { timer_q = q; next_node = n })
timers-SameRoutes q n s = record {
  table = refl;
  clock = refl;
  address = refl;
  black = refl;
  handled = refl;
  kernel = λ k. refl;
}

repairs-SameRoutes : (l : List ℕ) (s : Node) → SameRoutes s (record s { local_repair_list = l })
repairs-SameRoutes l s = record {
  table = refl;
  clock = refl;
  address = refl;
  black = refl;
  handled = refl;
  kernel = λ k. refl;
}

pub timer_add-SameRoutes :
    (time_val : ℕ) (h : Handler) (d : TimerData) (s : Node)
    → SameRoutes s (timer_add time_val h d s)
unfolding timer_add
timer_add-SameRoutes time_val h d s = timers-SameRoutes _ _ s

set_lowest_timer-SameRoutes : (time_val : ℕ) (s : Node) → SameRoutes s (set_lowest_timer time_val s)
unfolding set_lowest_timer
set_lowest_timer-SameRoutes time_val s =
    SameRoutes-elim (first s.timer_q) s s _ (SameRoutes-refl s) (λ t.
      SameRoutes-if (t.timeout == add64 s.now time_val) s _ s (set_real_timer-SameRoutes time_val s)
        (SameRoutes-refl s))

pub set_timer-SameRoutes :
    (time_val : ℕ) (h : Handler) (d : TimerData) (s : Node)
    → SameRoutes s (set_timer time_val h d s)
unfolding set_timer
set_timer-SameRoutes time_val h d s =
    SameRoutes-trans (timer_add-SameRoutes time_val h d s)
      (set_lowest_timer-SameRoutes time_val (timer_add time_val h d s))

remove_found-SameRoutes : (t : Timer) (s : Node) → SameRoutes s (remove_found t s)
unfolding remove_found
remove_found-SameRoutes t s =
    SameRoutes-trans
      (SameRoutes-if (is_timer_set_now t s.timer_q) s _ s
        (SameRoutes-elim (next_of t.node s.timer_q) s s _ (SameRoutes-refl s)
          (λ u. set_real_timer-SameRoutes _ s))
        (SameRoutes-refl s))
      (timers-SameRoutes _ _ _)

remove_rreq_timer-SameRoutes : (dst : ℕ) (s : Node) → SameRoutes s (remove_rreq_timer dst s).1
unfolding remove_rreq_timer
remove_rreq_timer-SameRoutes dst s =
    elim (Option-cases (search_timer (is_rreq_timer dst) s.timer_q)) [
      | inl e ↦ rw (e, remove_rreq_timer) (SameRoutes-refl s)
      | inr (t, e) ↦ rw (e, remove_rreq_timer) (remove_found-SameRoutes t s)
    ]

repaired-SameRoutes : (dst : ℕ) (s : Node) → SameRoutes s (repaired dst s)
unfolding repaired
repaired-SameRoutes dst s = SameRoutes-trans (repairs-SameRoutes _ s) (
    SameRoutes-elim (find dst s.rtable) _ _ _ (SameRoutes-refl _)
      (λ e. SameRoutes-if _ _ _ _ (generate_rerr-SameRoutes dst 1 false _) (SameRoutes-refl _)))

-- What follows the table's update in `reverseRouteUpdate` and `forwardRouteUpdate`.
pub route_found-SameRoutes : (dst : ℕ) (s : Node) → SameRoutes s (route_found dst s)
unfolding route_found
route_found-SameRoutes dst s = SameRoutes-trans (feedback-SameRoutes dst ip_found s) (
    SameRoutes-trans (remove_rreq_timer-SameRoutes dst _)
      (SameRoutes-if _ _ _ _ (repaired-SameRoutes dst _) (SameRoutes-refl _)))

neighbor_found-SameRoutes : (neighbor : ℕ) (s : Node) → SameRoutes s (neighbor_found neighbor s)
unfolding neighbor_found
neighbor_found-SameRoutes neighbor s = SameRoutes-trans (feedback-SameRoutes neighbor ip_found s) (
    SameRoutes-trans (remove_rreq_timer-SameRoutes neighbor _)
      (SameRoutes-if _ _ _ _ (repairs-SameRoutes _ _) (SameRoutes-refl _)))

set_neighbor_timer-SameRoutes :
    (neighbor : ℕ) (s : Node) → SameRoutes s (set_neighbor_timer neighbor s)
unfolding set_neighbor_timer
set_neighbor_timer-SameRoutes neighbor s = set_timer-SameRoutes _ neighbor_timeout _ s

watch_neighbor-SameRoutes :
    (neighbor src : ℕ) (s : Node) → SameRoutes s (watch_neighbor neighbor src s)
watch_neighbor-SameRoutes neighbor src s =
    unfold watch_neighbor in
    (SameRoutes-if (is_active_timer_in_queue neighbor s.timer_q) s
      (set_neighbor_timer neighbor
        (record s { timer_q = remove_active_route_timer neighbor s.timer_q }))
      (if src == 0 then set_neighbor_timer neighbor s else s)
      (SameRoutes-trans (timers-SameRoutes _ s.next_node s)
        (set_neighbor_timer-SameRoutes neighbor _))
      (SameRoutes-if (src == 0) s (set_neighbor_timer neighbor s) s
        (set_neighbor_timer-SameRoutes neighbor s) (SameRoutes-refl s)))

-- What follows the table's update in `neighborUpdate`.
pub after_neighbor-SameRoutes :
    (neighbor src : ℕ) (s : Node)
    → SameRoutes s (watch_neighbor neighbor src (neighbor_found neighbor s))
after_neighbor-SameRoutes neighbor src s =
    SameRoutes-trans (neighbor_found-SameRoutes neighbor s)
      (watch_neighbor-SameRoutes neighbor src _)
