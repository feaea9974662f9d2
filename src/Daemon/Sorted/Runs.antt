-- ===== src/Daemon/Sorted/Runs.antt =====
-- LA_Client_aodv/aodv.cc: the daemon under messages, requests and timers that come in any order.
use unified_routing_framewor.Prelude.{ℕ, ◌≡◌, subst, sym}
use unified_routing_framewor.Prelude.Int.{ℤ}
use unified_routing_framewor.Prelude.Outcome.{done}
use unified_routing_framewor.RouteMap.{IsSorted}
use unified_routing_framewor.Node.{Node}
use unified_routing_framewor.Daemon.Discovery.{Uninitialised}
use unified_routing_framewor.Daemon.Handlers.{schedule_timer}
use unified_routing_framewor.Daemon.Loop.{Arrivals, main_daemon_loop_pass}
use unified_routing_framewor.Daemon.Sorted.Received.{Leaves}
use unified_routing_framewor.Daemon.Sorted.Requests.{main_daemon_loop_pass-Leaves}
use unified_routing_framewor.Daemon.Sorted.Handlers.{schedule_timer-Leaves}

-- A pass of the main loop, with whatever comes in; the signal of the timer; or the clock goes on.
pub data Step (s t : Node) : Type 0 where
  pass : (raw : Uninitialised) (io : Arrivals) → main_daemon_loop_pass raw io s ≡ done t → Step s t
  alarm : (idle : ℕ → ℕ → ℤ) (fuel : ℕ) → schedule_timer idle fuel s ≡ done t → Step s t
  tick : (now : ℕ) → t ≡ record s { now = now } → Step s t

pub data Run (s : Node) : Node → Type 0 where
  here : Run s s
  next : {t u : Node} → Run s t → Step t u → Run s u

Step-IsSorted : {s t : Node} → IsSorted s.rtable → Step s t → IsSorted t.rtable
Step-IsSorted {s = s} o (pass raw io h) =
    subst (Leaves (λ u. u)) h (main_daemon_loop_pass-Leaves raw io s o)
Step-IsSorted {s = s} o (alarm idle fuel h) =
    subst (Leaves (λ u. u)) h (schedule_timer-Leaves idle fuel s o)
Step-IsSorted o (tick now h) = subst (λ u. IsSorted u.rtable) (sym h) o

-- Where the table is sorted, with at most one entry for a destination, it is so after any number of
-- passes of the main loop, of signals of the timer and of moves of the clock, in any order, that
-- return: whatever the messages, their senders and ttls and the requests of the agent are, whichever timers
-- are due, whatever the kernel says of idle times and whether the node reboots.
pub Run-IsSorted : {s t : Node} → IsSorted s.rtable → Run s t → IsSorted t.rtable
Run-IsSorted o here = o
Run-IsSorted o (next r st) = Step-IsSorted (Run-IsSorted o r) st
