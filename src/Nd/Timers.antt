-- ===== src/Nd/Timers.antt =====
-- lib/ND/nd_timer_queue.cpp: the queue of timers, less `scheduleTimer`, which runs the handlers.
pub mod Laws
pub mod Owned
use unified_routing_framewor.Prelude.{
  same_string, ℕ, suc, ◌-◌, ◌*◌, ◌/◌, List, [], ◌∷◌, Option, none, some, Bool, true, false, ◌&&◌,
  ltb, ◌==◌, add64, sub64, if◌then◌else◌, erase_first, get_elem?,
}
use unified_routing_framewor.Prelude.Outcome.{Outcome, done, fault, overrun, ◌>>=◌}
use unified_routing_framewor.Prelude.Ordered.{insert_by}
use unified_routing_framewor.Nd.{
  NdTimer, NdHandler, NdState, InterfaceEntry, setitimer, call, timer_type_entry,
}

-- `timerQ.erase(iter)`
unfoldable pub erase_at : ℕ → List NdTimer → List NdTimer
erase_at n q = erase_first (λ t. t.node == n) q

-- `*iter`
unfoldable pub timer_at : ℕ → List NdTimer → Option NdTimer
timer_at n [] = none
timer_at n (t ∷ q) = if t.node == n then some t else timer_at n q

-- `begin()`; `none` is `end()`.
abbrev pub begin_of : List NdTimer → Option ℕ
begin_of [] = none
begin_of (t ∷ q) = some t.node

-- `iter++`
unfoldable pub node_behind : ℕ → List NdTimer → Option ℕ
node_behind n [] = none
node_behind n (t ∷ q) = if t.node == n then begin_of q else node_behind n q

-- `setRealTimer`
unfoldable pub set_real_timer : ℕ → NdState → NdState
set_real_timer timeout s =
    let time_sec = timeout / 1000 in
    call (setitimer time_sec ((timeout - time_sec * 1000) * 1000)) s

-- `timer_add`
unfoldable pub timer_add : ℕ → NdHandler → ℕ → ℕ → ℕ → NdState → NdState
timer_add time_val func kind value contain s = record s {
  timer_q =
      insert_by (λ t. t.timeout)
        (record {
          timeout = add64 s.now time_val;
          handler = func;
          kind = kind;
          value = value;
          contain = contain;
          node = s.next_node;
        })
        s.timer_q;
  next_node = suc s.next_node;
}

-- `setLowestTimer`. It is called behind `timer_add`, where the queue is not empty.
unfoldable pub set_lowest_timer : ℕ → NdState → NdState
set_lowest_timer time_val s = elim s.timer_q [
  | [] ↦ s
  | t ∷ q ↦ if t.timeout == add64 s.now time_val then set_real_timer time_val s else s
]

-- `set_timer`
unfoldable pub set_timer : ℕ → NdHandler → ℕ → ℕ → ℕ → NdState → NdState
set_timer time_val func kind value contain s =
    set_lowest_timer time_val (timer_add time_val func kind value contain s)

-- `is_set_now`: the first timer has the type and the interface of the given one.
unfoldable pub is_set_now : NdTimer → List NdTimer → Bool
is_set_now t [] = false
is_set_now t (f ∷ q) = f.kind == t.kind && f.contain == t.contain

-- The condition in the loop of `remove_neighbor_entry_timer`, at an interface of the given name.
abbrev pub is_entry_timer : ℕ → List ℕ → List ℕ → NdTimer → Bool
is_entry_timer dst_address interface_name now_entry_name t =
    t.kind == timer_type_entry
    && t.value == dst_address
    && same_string now_entry_name interface_name

-- The search of `remove_neighbor_entry_timer`.
unfoldable pub search_entry_timer :
    ℕ → List ℕ → List InterfaceEntry → List NdTimer → Outcome (Option NdTimer)
search_entry_timer dst name l [] = done none
search_entry_timer dst name l (t ∷ q) = elim (get_elem? l t.contain) [
  | none ↦ fault overrun
  | some e ↦
      if is_entry_timer dst name e.name t then done (some t) else search_entry_timer dst name l q
]

-- `remove_neighbor_entry_timer` at the timer that it found.
unfoldable pub remove_found : NdTimer → NdState → NdState
remove_found t s =
    let rearmed =
      if is_set_now t s.timer_q
      then elim (node_behind t.node s.timer_q) [
        | none ↦ s
        | some n ↦ elim (timer_at n s.timer_q) [
          | none ↦ s
          | some u ↦ set_real_timer (sub64 u.timeout s.now) s
        ]
      ]
      else s in
    record rearmed { timer_q = erase_at t.node s.timer_q }

-- `remove_neighbor_entry_timer`
unfoldable pub remove_neighbor_entry_timer : ℕ → List ℕ → NdState → Outcome NdState
remove_neighbor_entry_timer dst name s =
    search_entry_timer dst name s.interfaces s.timer_q >>= λ found. elim found [
      | none ↦ done s
      | some t ↦ done (remove_found t s)
    ]
