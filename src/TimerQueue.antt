-- ===== src/TimerQueue.antt =====
-- LA_Client_aodv/timer.h, timer.cc and the list of timerQueue.cc. What goes on to the system's timer
-- stands in `Node`. A callback is a constructor, and `node` tells the list's nodes apart, as
-- iterators do.
pub mod Laws
use unified_routing_framewor.Prelude.{
  ℕ, ◌≤◌, List, [], ◌∷◌, Option, none, some, Bool, true, false, ◌&&◌, ◌||◌, ltb, ◌==◌,
  if◌then◌else◌, erase_first,
}
use unified_routing_framewor.Prelude.Ordered
use unified_routing_framewor.Prelude.Ordered.{insert_by}
use unified_routing_framewor.Params.{rreq_timer, lr_timer, active_route_timer}

-- The handler functions that the daemon registers.
pub data Handler : Type 0 where
  neighbor_timeout rrep_ack resend_rreq local_repair_timeout reboot periodic hello : Handler

-- `struct timerData`; its `data` is `value` here.
pub record TimerData : Type 0 where
  pub kind : ℕ
  pub value : ℕ

-- `class timer`, with the node of the list that holds it.
pub record Timer : Type 0 where
  pub timeout : ℕ
  pub handler : Handler
  pub timer_data : TimerData
  pub node : ℕ

-- The search loop of `timer_add` with the insertion behind it. The loop's condition reads the timeout
-- at `end()` before it compares with `end()`, which then stops it whatever was read.
unfoldable pub insert_timer : Timer → List Timer → List Timer
insert_timer t q = insert_by (λ u. u.timeout) t q

-- `timerQ.erase(iter)`
unfoldable pub erase_timer : ℕ → List Timer → List Timer
erase_timer n q = erase_first (λ t. t.node == n) q

-- The timer at an iterator.
unfoldable pub find_timer : ℕ → List Timer → Option Timer
find_timer n [] = none
find_timer n (t ∷ q) = if t.node == n then some t else find_timer n q

-- `begin()`
unfoldable pub first : List Timer → Option Timer
first [] = none
first (t ∷ q) = some t

-- The timer behind an iterator, `iter++`.
unfoldable pub next_of : ℕ → List Timer → Option Timer
unfolding first
next_of n [] = none
next_of n (t ∷ q) = if t.node == n then first q else next_of n q

-- The tests by which the removal loops choose a timer.
abbrev pub is_rreq_timer : ℕ → Timer → Bool
is_rreq_timer dst t =
    (t.timer_data.kind == rreq_timer || t.timer_data.kind == lr_timer) && t.timer_data.value == dst

abbrev pub has_data : ℕ → ℕ → Timer → Bool
has_data kind dst t = t.timer_data.kind == kind && t.timer_data.value == dst

-- The first timer that passes a test.
unfoldable pub search_timer : (Timer → Bool) → List Timer → Option Timer
search_timer p [] = none
search_timer p (t ∷ q) = if p t then some t else search_timer p q

-- `isActiveTimerInQueue`
unfoldable pub is_active_timer_in_queue : ℕ → List Timer → Bool
is_active_timer_in_queue dst [] = false
is_active_timer_in_queue dst (t ∷ q) =
    if has_data active_route_timer dst t then true else is_active_timer_in_queue dst q

-- `removeActiveRouteTimer`
unfoldable pub remove_active_route_timer : ℕ → List Timer → List Timer
remove_active_route_timer dst q = erase_first (has_data active_route_timer dst) q

-- What the source's comment asks of the list: the timer that is due first stands first, and timeouts
-- do not fall along it.
abbrev pub IsOrdered : List Timer → Type 0
IsOrdered q = Ordered.IsOrdered (λ t. t.timeout) q
