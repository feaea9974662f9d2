-- ===== src/Nd/Discovery/Handling.antt =====
-- lib/ND/nd.cpp: what the handlers of the timers do to the queue.
use unified_routing_framewor.Prelude.{
  ℕ, ◌+◌, ◌*◌, ◌^◌, ◌<◌, ◌≤◌, ◌≡◌, refl, ap, ◌∙◌, ◌⊎◌, inl, inr, List, [], ◌∷◌, some, arith, ◌==◌,
  length, get_elem?, get_elem?-some, length-set_elem, All, All-get_elem?, All-set_elem,
  if◌then◌else◌, ◌≢◌, ℕ_discrete,
}
use unified_routing_framewor.Prelude.Outcome.{Outcome, done, ◌>>=◌}
use unified_routing_framewor.Prelude.Ordered.{insert_by}
use unified_routing_framewor.Nd.{
  OneHopEntry, InterfaceEntry, NdTimer, NdState, Call, send_hello, delete_entry, timer_type_hello,
  sendto, call,
}
use unified_routing_framewor.Nd.Timers.{set_timer}
use unified_routing_framewor.Nd.Timers.Laws.{
  timeout_of, new_timer, set_timer-timer_q, set_timer-interfaces, set_timer-now,
}
use unified_routing_framewor.Nd.Interface.{
  hello_of, generate_and_send_hello_message, store_neighbors,
}
use unified_routing_framewor.Nd.Interface.Size.{
  interface_at-some, generate_and_send_hello_message-hello_size,
}
use unified_routing_framewor.Nd.Discovery.{
  send_hello_message, erase_neighbor, delete_one_hop_entry, run_handler,
}

-- An interface whose message fits its buffer, among `n` interfaces, and whose interval does not
-- overflow the clock.
abbrev pub Sends : ℕ → ℕ → InterfaceEntry → Type 0
Sends n now e =
    (8 + 4 * n + 5 * length e.one_hop_neighbor_set ≤ 32768) × (now + e.hello_interval < 2 ^ 64)

-- All the interfaces of a node do.
abbrev pub AllSend : NdState → Type 0
AllSend s = All (Sends (length s.interfaces) s.now) s.interfaces

-- What a handler leaves of the state `s`: the queue as it was, or with a timer that is not due.
pub record Handles (s s₁ : NdState) : Type 0 where
  pub same_now : s₁.now ≡ s.now
  pub same_length : length s₁.interfaces ≡ length s.interfaces
  pub sends : AllSend s₁
  pub queue :
      (s₁.timer_q ≡ s.timer_q)
      ⊎ ((u : NdTimer) × (s₁.timer_q ≡ insert_by timeout_of u s.timer_q)
          × (s.now < u.timeout)
          × (u.contain < length s.interfaces))

generate_and_send_hello_message-Sends :
    (i : ℕ) (e : InterfaceEntry) (s : NdState)
    → get_elem? s.interfaces i ≡ some e
    → Sends (length s.interfaces) s.now e
    → generate_and_send_hello_message i s
      ≡ done (
        8 + 4 * length s.interfaces + 5 * length e.one_hop_neighbor_set,
        call (sendto e.fd e.listen_port (hello_of e s)) s,
      )
generate_and_send_hello_message-Sends i e s h f =
    generate_and_send_hello_message-hello_size i e s h ∙ ground (arith, f)

send_hello_message-eq :
    (i : ℕ) (e : InterfaceEntry) (s : NdState)
    → get_elem? s.interfaces i ≡ some e
    → Sends (length s.interfaces) s.now e
    → send_hello_message i s ≡ (
        let s₁ = call (sendto e.fd e.listen_port (hello_of e s)) s in
        if e.hello_interval == 0
        then done s₁
        else done (set_timer e.hello_interval send_hello timer_type_hello 0 i s₁))
unfolding send_hello_message
send_hello_message-eq i e s h f =
    rw (interface_at-some i e s h, generate_and_send_hello_message-Sends i e s h f) refl

call-Handles :
    (i : ℕ) (e : InterfaceEntry) (s : NdState)
    → AllSend s
    → Handles s (call (sendto e.fd e.listen_port (hello_of e s)) s)
unfolding call
call-Handles i e s a = record { same_now = refl; same_length = refl; sends = a; queue = inl refl }

set_timer-Handles :
    (interval i : ℕ) (s : NdState)
    → AllSend s
    → i < length s.interfaces
    → interval ≢ 0
    → s.now + interval < 2 ^ 64
    → Handles s (set_timer interval send_hello timer_type_hello 0 i s)
set_timer-Handles interval i s a b z w = record {
  same_now = set_timer-now interval send_hello timer_type_hello 0 i s;
  same_length = ap length (set_timer-interfaces interval send_hello timer_type_hello 0 i s);
  sends =
      rw
        (
          set_timer-interfaces interval send_hello timer_type_hello 0 i s,
          set_timer-now interval send_hello timer_type_hello 0 i s,
        )
        a;
  queue = inr (
    new_timer interval send_hello timer_type_hello 0 i s,
    set_timer-timer_q interval send_hello timer_type_hello 0 i s,
    omega arith,
    b,
  );
}

-- Put a call to the network before.
Handles-call : (x : Call) (s s₁ : NdState) → Handles (call x s) s₁ → Handles s s₁
unfolding call
Handles-call x s s₁ h = record {
  same_now = h.same_now;
  same_length = h.same_length;
  sends = h.sends;
  queue = h.queue;
}

send_hello_message-Handles :
    (i : ℕ) (s : NdState)
    → i < length s.interfaces
    → AllSend s
    → (s₁ : NdState) × (send_hello_message i s ≡ done s₁) × Handles s s₁
send_hello_message-Handles i s b a =
    let (e, h) = get_elem?-some s.interfaces i b in
    let f = All-get_elem? (Sends (length s.interfaces) s.now) s.interfaces i e h a in
    let s₁ = call (sendto e.fd e.listen_port (hello_of e s)) s in
    let c = call-Handles i e s a in
    elim (ℕ_discrete e.hello_interval 0) [
      | yes z ↦ (s₁, send_hello_message-eq i e s h f ∙ ground (arith, z), c)
      | no z ↦ (
        set_timer e.hello_interval send_hello timer_type_hello 0 i s₁,
        send_hello_message-eq i e s h f ∙ ground (arith, z),
        Handles-call (sendto e.fd e.listen_port (hello_of e s)) s _ (
            set_timer-Handles e.hello_interval i s₁ c.sends (omega (arith, c.same_length, b)) z
              (omega (arith, c.same_now, f))),
      )
    ]

erase_neighbor-length : (a : ℕ) (l : List OneHopEntry) → length (erase_neighbor a l) ≤ length l
unfolding erase_neighbor
erase_neighbor-length a [] = omega arith
erase_neighbor-length a (e ∷ l) = ground (arith, erase_neighbor-length a l)

delete_one_hop_entry-Handles :
    (i a : ℕ) (s : NdState)
    → i < length s.interfaces
    → AllSend s
    → (s₁ : NdState) × (delete_one_hop_entry i a s ≡ done s₁) × Handles s s₁
unfolding delete_one_hop_entry store_neighbors
delete_one_hop_entry-Handles i a s b w =
    let (e, h) = get_elem?-some s.interfaces i b in
    let f = All-get_elem? (Sends (length s.interfaces) s.now) s.interfaces i e h w in
    (
      store_neighbors i e (erase_neighbor a e.one_hop_neighbor_set) s,
      ap (λ x. x >>= λ y. done (store_neighbors i y (erase_neighbor a y.one_hop_neighbor_set) s))
          (interface_at-some i e s h),
      record {
        same_now = refl;
        same_length = length-set_elem s.interfaces i _;
        sends =
            rw
              (length-set_elem s.interfaces i
                (record e { one_hop_neighbor_set = erase_neighbor a e.one_hop_neighbor_set }))
              (All-set_elem (Sends (length s.interfaces) s.now) s.interfaces i _
                (omega (arith, erase_neighbor-length a e.one_hop_neighbor_set, f)) w);
        queue = inl refl;
      },
    )

pub run_handler-Handles :
    (t : NdTimer) (s : NdState)
    → t.contain < length s.interfaces
    → AllSend s
    → (s₁ : NdState) × (run_handler t s ≡ done s₁) × Handles s s₁
unfolding run_handler
run_handler-Handles t s b a =
    elim t.handler
      as (λ x.
        (s₁ : NdState) × (elim x as (λ y. Outcome NdState) [
          | send_hello ↦ send_hello_message t.contain s
          | delete_entry ↦ delete_one_hop_entry t.contain t.value s
        ]
          ≡ done s₁)
        × Handles s s₁) [
          | send_hello ↦ send_hello_message-Handles t.contain s b a
          | delete_entry ↦ delete_one_hop_entry-Handles t.contain t.value s b a
        ]
