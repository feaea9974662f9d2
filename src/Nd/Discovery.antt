-- ===== src/Nd/Discovery.antt =====
-- lib/ND/nd.cpp, and `scheduleTimer` of nd_timer_queue.cpp: the handlers of the timers, a pass of the
-- main loop, and the interface of the library.
pub mod Handling
pub mod Schedule
pub mod Names
pub mod Runs
use unified_routing_framewor.Prelude.{
  same_string, ℕ, zero, suc, ◌-◌, List, [], ◌∷◌, Option, none, some, Bool, true, false, not, ◌&&◌,
  ltb, leb, ◌==◌, if◌then◌else◌, set_elem, map,
}
use unified_routing_framewor.Prelude.Outcome.{Outcome, done, fault, overrun, hang, ◌>>=◌}
use unified_routing_framewor.Nd.{
  OneHopEntry, InterfaceEntry, NdHandler, NdTimer, NdState, send_hello, delete_entry, close, call,
  timer_type_hello,
}
use unified_routing_framewor.Nd.Timers.{
  erase_at, timer_at, begin_of, node_behind, set_real_timer, set_timer,
}
use unified_routing_framewor.Nd.Interface.{
  interface_at, generate_and_send_hello_message, store_neighbors, handle_hello_message,
}

-- `send_hello_message` with a timer's `contain`.
unfoldable pub send_hello_message : ℕ → NdState → Outcome NdState
send_hello_message i s = interface_at i s >>= λ e. generate_and_send_hello_message i s >>= λ sent.
    if e.hello_interval == 0
    then done sent.1
    else done (set_timer e.hello_interval send_hello timer_type_hello 0 i sent.1)

-- The loop of `start_discovery`.
unfoldable pub start_from : ℕ → List InterfaceEntry → NdState → Outcome NdState
start_from i [] s = done s
start_from i (e ∷ l) s = send_hello_message i s >>= λ s₁. start_from (suc i) l s₁

-- `start_discovery`
unfoldable pub start_discovery : NdState → Outcome NdState
start_discovery s = start_from 0 s.interfaces s

-- The loop of `delete_one_hop_entry`.
unfoldable pub erase_neighbor : ℕ → List OneHopEntry → List OneHopEntry
erase_neighbor a [] = []
erase_neighbor a (e ∷ l) = if e.ip_address == a then l else e ∷ erase_neighbor a l

-- `delete_one_hop_entry` with a timer's `contain` and `data`.
unfoldable pub delete_one_hop_entry : ℕ → ℕ → NdState → Outcome NdState
delete_one_hop_entry i a s =
    interface_at i s >>= λ e. done (store_neighbors i e (erase_neighbor a e.one_hop_neighbor_set) s)

-- `iter->handler(iter->data)`
unfoldable pub run_handler : NdTimer → NdState → Outcome NdState
run_handler t s = elim t.handler [
  | send_hello ↦ send_hello_message t.contain s
  | delete_entry ↦ delete_one_hop_entry t.contain t.value s
]

-- The loop of `scheduleTimer` from an iterator, `none` for `end()`, with the iterator at its end.
unfoldable pub schedule_from : ℕ → ℕ → Option ℕ → NdState → Outcome (Option ℕ × NdState)
schedule_from zero currtime iter s = fault hang
schedule_from (suc fuel) currtime none s = done (none, s)
schedule_from (suc fuel) currtime (some n) s = elim (timer_at n s.timer_q) [
  | none ↦ fault overrun
  | some t ↦ elim (leb t.timeout currtime) [
    | false ↦ done (some n, s)
    | true ↦ run_handler t s >>= λ s₁.
        schedule_from fuel currtime (node_behind n s₁.timer_q)
          (record s₁ { timer_q = erase_at n s₁.timer_q })
  ]
]

-- The test behind the loop.
unfoldable pub rearm : ℕ → Option ℕ → NdState → NdState
rearm currtime none s = s
rearm currtime (some n) s = elim (timer_at n s.timer_q) [
  | none ↦ s
  | some t ↦
      if ltb 0 t.timeout && ltb currtime t.timeout
      then set_real_timer (t.timeout - currtime) s
      else s
]

-- `scheduleTimer`
unfoldable pub schedule_timer : ℕ → NdState → Outcome NdState
schedule_timer fuel s =
    schedule_from fuel s.now (begin_of s.timer_q) s >>= λ end. done (rearm s.now end.0 end.1)

-- What a pass of `main_loop` finds at the interfaces behind `select`: not ready, or ready with what
-- `handle_hello_message` then reads.
unfoldable pub main_loop_pass : ℕ → List (Option (Option (ℕ × List ℕ))) → NdState → Outcome NdState
main_loop_pass i [] s = done s
main_loop_pass i (none ∷ ready) s = main_loop_pass (suc i) ready s
main_loop_pass i (some read ∷ ready) s =
    handle_hello_message i read s >>= λ s₁. main_loop_pass (suc i) ready s₁

-- The loop that closes the sockets.
unfoldable pub close_all : List InterfaceEntry → NdState → NdState
close_all [] s = s
close_all (e ∷ l) s = close_all l (call (close e.fd) s)

-- `clean_interface_entry_list`
unfoldable pub clean_interface_entry_list : NdState → NdState
clean_interface_entry_list s = record (close_all s.interfaces s) { interfaces = [] }

-- `nd_turn_down`, less the end of the thread.
unfoldable pub nd_turn_down : NdState → NdState
nd_turn_down s = record (clean_interface_entry_list s) { timer_q = [] }

-- The searches for an interface by its name, from an index.
unfoldable pub find_interface : List ℕ → ℕ → List InterfaceEntry → Option ℕ
find_interface name i [] = none
find_interface name i (e ∷ l) =
    if same_string e.name name then some i else find_interface name (suc i) l

-- The return values: `none` is -1.
unfoldable pub nd_set_hello_interval : List ℕ → ℕ → NdState → Outcome (Option ℕ × NdState)
nd_set_hello_interval name interval s = elim (find_interface name 0 s.interfaces) [
  | none ↦ done (none, s)
  | some i ↦ interface_at i s >>= λ e.
      let s₁ = record s {
        interfaces = set_elem s.interfaces i (record e { hello_interval = interval });
      } in
      if not (e.hello_interval == 0)
      then done (some 0, s₁)
      else send_hello_message i s₁ >>= λ s₂. done (some 0, s₂)
]

-- `nd_send_hello_now`
unfoldable pub nd_send_hello_now : List ℕ → NdState → Outcome (Option ℕ × NdState)
nd_send_hello_now name s = elim (find_interface name 0 s.interfaces) [
  | none ↦ done (none, s)
  | some i ↦ generate_and_send_hello_message i s >>= λ sent. done (some sent.0, sent.1)
]

-- `nd_get_one_hop_neighbor_information`: what `neighbor_list` then holds.
unfoldable pub nd_get_one_hop_neighbor_information :
    List ℕ → List (ℕ × ℕ) → NdState → Outcome (List (ℕ × ℕ))
nd_get_one_hop_neighbor_information name neighbor_list s =
    elim (find_interface name 0 s.interfaces) [
      | none ↦ done neighbor_list
      | some i ↦ interface_at i s >>= λ e.
          done (map (λ n. (n.ip_address, n.status)) e.one_hop_neighbor_set)
    ]
