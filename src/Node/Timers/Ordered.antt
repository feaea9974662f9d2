-- ===== src/Node/Timers/Ordered.antt =====
-- The operations on the daemon's timers keep the list ordered.
use unified_routing_framewor.Prelude.{ℕ, ◌≡◌, none, some, arith, ◌==◌, if◌then◌else◌}
use unified_routing_framewor.TimerQueue.{
  Timer, TimerData, Handler, search_timer, is_rreq_timer, has_data, IsOrdered,
}
use unified_routing_framewor.Params.{rrep_ack_timer, rreq_timer, lr_timer}
use unified_routing_framewor.TimerQueue.Laws.{insert_timer-IsOrdered, erase_timer-IsOrdered}
use unified_routing_framewor.Node.{Node, set_real_timer, emit}
use unified_routing_framewor.Node.Timers.{
  timer_add, set_lowest_timer, set_timer, remove_found, remove_rreq_timer, remove_rrep_ack_timer,
}

set_lowest_timer-timer_q :
    (time_val : ℕ) (s : Node) → (set_lowest_timer time_val s).timer_q ≡ s.timer_q
unfolding set_lowest_timer set_real_timer emit
set_lowest_timer-timer_q time_val s = ground arith

set_timer-IsOrdered :
    (time_val : ℕ) (h : Handler) (d : TimerData) (s : Node)
    → IsOrdered s.timer_q
    → IsOrdered (set_timer time_val h d s).timer_q
unfolding set_timer timer_add
set_timer-IsOrdered time_val h d s o =
    rw (set_lowest_timer-timer_q time_val (timer_add time_val h d s))
      (insert_timer-IsOrdered _ s.timer_q o)

remove_found-IsOrdered :
    (t : Timer) (s : Node) → IsOrdered s.timer_q → IsOrdered (remove_found t s).timer_q
unfolding remove_found set_real_timer emit
remove_found-IsOrdered t s o = ground (arith, erase_timer-IsOrdered t.node s.timer_q o)

remove_rreq_timer-IsOrdered :
    (dst : ℕ) (s : Node) → IsOrdered s.timer_q → IsOrdered (remove_rreq_timer dst s).1.timer_q
remove_rreq_timer-IsOrdered dst s o =
    unfold remove_rreq_timer in
    elim (search_timer (is_rreq_timer dst) s.timer_q)
      as (λ x.
        IsOrdered
          (elim x as (λ y. ℕ × Node) [
            | none ↦ (0, s)
            | some t ↦
                (if t.timer_data.kind == lr_timer then lr_timer else rreq_timer, remove_found t s)
          ]).1.timer_q) [ none ↦ o | some t ↦ remove_found-IsOrdered t s o ]

remove_rrep_ack_timer-IsOrdered :
    (dst : ℕ) (s : Node) → IsOrdered s.timer_q → IsOrdered (remove_rrep_ack_timer dst s).timer_q
remove_rrep_ack_timer-IsOrdered dst s o =
    unfold remove_rrep_ack_timer in
    elim (search_timer (has_data rrep_ack_timer dst) s.timer_q)
      as (λ x. IsOrdered (elim x as (λ y. Node) [ none ↦ s | some t ↦ remove_found t s ]).timer_q) [
        | none ↦ o
        | some t ↦ remove_found-IsOrdered t s o
      ]

-- Where the timers are ordered by their timeouts, they are after `set_timer`, after
-- `removeRREQTimer` and after `removeRREP_ACK_Timer`.
pub timers-IsOrdered :
    (time_val : ℕ) (h : Handler) (d : TimerData) (dst : ℕ) (s : Node)
    → IsOrdered s.timer_q
    → IsOrdered (set_timer time_val h d s).timer_q
      × IsOrdered (remove_rreq_timer dst s).1.timer_q
      × IsOrdered (remove_rrep_ack_timer dst s).timer_q
timers-IsOrdered time_val h d dst s o = (
  set_timer-IsOrdered time_val h d s o,
  remove_rreq_timer-IsOrdered dst s o,
  remove_rrep_ack_timer-IsOrdered dst s o,
)
