-- ===== src/TimerQueue/Laws.antt =====
-- The timer list stays ordered by its timeouts.
use unified_routing_framewor.Prelude.{ℕ, List, ◌==◌}
use unified_routing_framewor.Prelude.Ordered.{insert_by-IsOrdered, erase_first-IsOrdered}
use unified_routing_framewor.Params.{active_route_timer}
use unified_routing_framewor.TimerQueue.{
  Timer, insert_timer, erase_timer, has_data, remove_active_route_timer, IsOrdered,
}

pub insert_timer-IsOrdered :
    (t : Timer) (q : List Timer) → IsOrdered q → IsOrdered (insert_timer t q)
unfolding insert_timer
insert_timer-IsOrdered t q o = insert_by-IsOrdered (λ u. u.timeout) t q o

pub erase_timer-IsOrdered : (k : ℕ) (q : List Timer) → IsOrdered q → IsOrdered (erase_timer k q)
unfolding erase_timer
erase_timer-IsOrdered k q o = erase_first-IsOrdered (λ u. u.timeout) (λ t. t.node == k) q o

pub remove_active_route_timer-IsOrdered :
    (dst : ℕ) (q : List Timer) → IsOrdered q → IsOrdered (remove_active_route_timer dst q)
unfolding remove_active_route_timer
remove_active_route_timer-IsOrdered dst q o =
    erase_first-IsOrdered (λ u. u.timeout) (has_data active_route_timer dst) q o
