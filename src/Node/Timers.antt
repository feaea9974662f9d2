-- ===== src/Node/Timers.antt =====
-- The operations of LA_Client_aodv/timerQueue.cc that read the clock or set the system's timer.
pub mod Ordered
use unified_routing_framewor.Prelude.{
  ℕ, suc, List, [], ◌∷◌, Option, none, some, Bool, true, false, ◌&&◌, ltb, leb, ◌==◌, add64, sub64,
  if◌then◌else◌,
}
use unified_routing_framewor.Params.{
  reboot_timer, rreq_timer, lr_timer, rrep_ack_timer, delete_period,
}
use unified_routing_framewor.TimerQueue.{
  Timer, TimerData, Handler, insert_timer, erase_timer, first, next_of, search_timer, is_rreq_timer,
  has_data,
}
use unified_routing_framewor.Node.{Node, set_real_timer}

-- `timer_add`
unfoldable pub timer_add : ℕ → Handler → TimerData → Node → Node
timer_add time_val func data_val s = record s {
  timer_q =
      insert_timer
        (record {
          timeout = add64 s.now time_val;
          handler = func;
          timer_data = data_val;
          node = s.next_node;
        })
        s.timer_q;
  next_node = suc s.next_node;
}

-- `setLowestTimer`
unfoldable pub set_lowest_timer : ℕ → Node → Node
unfolding first
set_lowest_timer time_val s = elim (first s.timer_q) [
  | none ↦ s
  | some t ↦ if t.timeout == add64 s.now time_val then set_real_timer time_val s else s
]

-- `set_timer`
unfoldable pub set_timer : ℕ → Handler → TimerData → Node → Node
unfolding timer_add set_lowest_timer
set_timer time_val fun data_val s = set_lowest_timer time_val (timer_add time_val fun data_val s)

-- `set_timer_first`
unfoldable pub set_timer_first : ℕ → Handler → TimerData → Node → Node
unfolding timer_add
set_timer_first time_val fun data_val s =
    set_real_timer time_val (timer_add time_val fun data_val s)

-- `isTimerSetNow`: the first timer has the same type and data.
unfoldable pub is_timer_set_now : Timer → List Timer → Bool
unfolding first
is_timer_set_now t q = elim (first q) [
  | none ↦ false
  | some f ↦ f.timer_data.kind == t.timer_data.kind && f.timer_data.value == t.timer_data.value
]

-- The body of the loops of `removeRREQTimer` and `removeRREP_ACK_Timer` at the timer that they found.
unfoldable pub remove_found : Timer → Node → Node
unfolding is_timer_set_now next_of
remove_found t s =
    let rearmed =
      if is_timer_set_now t s.timer_q
      then elim (next_of t.node s.timer_q) [
        | none ↦ s
        | some u ↦ set_real_timer (sub64 u.timeout s.now) s
      ]
      else s in
    record rearmed { timer_q = erase_timer t.node rearmed.timer_q }

-- `removeRREQTimer`; the result is the type of the timer that was removed, or 0.
unfoldable pub remove_rreq_timer : ℕ → Node → ℕ × Node
unfolding remove_found search_timer
remove_rreq_timer dst s = elim (search_timer (is_rreq_timer dst) s.timer_q) [
  | none ↦ (0, s)
  | some t ↦ (if t.timer_data.kind == lr_timer then lr_timer else rreq_timer, remove_found t s)
]

-- `removeRREP_ACK_Timer`
unfoldable pub remove_rrep_ack_timer : ℕ → Node → Node
unfolding remove_found search_timer
remove_rrep_ack_timer dst s = elim (search_timer (has_data rrep_ack_timer dst) s.timer_q) [
  | none ↦ s
  | some t ↦ remove_found t s
]

-- The loop of `resetRebootTimer` on the list: the first reboot timer gets a new timeout where it
-- stands.
unfoldable pub move_reboot_timer : ℕ → List Timer → List Timer
move_reboot_timer timeout [] = []
move_reboot_timer timeout (t ∷ q) =
    if t.timer_data.kind == reboot_timer
    then record t { timeout = timeout } ∷ q
    else t ∷ move_reboot_timer timeout q

abbrev pub is_reboot_timer : Timer → Bool
is_reboot_timer t = t.timer_data.kind == reboot_timer

-- `resetRebootTimer`. `isSetNow` compares the types of the first and of the found timer; the system's
-- timer is then set to the absolute time.
unfoldable pub reset_reboot_timer : Node → Node
unfolding first search_timer move_reboot_timer
reset_reboot_timer s = elim (search_timer is_reboot_timer s.timer_q) [
  | none ↦ s
  | some t ↦
      let timeout = add64 s.now delete_period in
      let moved = record s { timer_q = move_reboot_timer timeout s.timer_q } in
      elim (first s.timer_q) [
        | none ↦ moved
        | some f ↦
            if f.timer_data.kind == t.timer_data.kind then set_real_timer timeout moved else moved
      ]
]
