-- ===== src/Nd/Discovery/Schedule.antt =====
-- lib/ND/nd_timer_queue.cpp: `scheduleTimer` with the handlers that it runs.
use unified_routing_framewor.Prelude.{
  ℕ, suc, ◌<◌, ◌≤◌, ◌≡◌, refl, ap, ◌∙◌, inl, inr, List, [], ◌∷◌, some, true, false, arith, leb,
  length, All, if◌then◌else◌,
}
use unified_routing_framewor.Prelude.Outcome.{Outcome, done, ◌>>=◌}
use unified_routing_framewor.Prelude.Ordered.{
  insert_by, From, IsOrdered, From-IsOrdered, insert_by-IsOrdered, insert_by-All,
}
use unified_routing_framewor.Nd.{NdTimer, NdState}
use unified_routing_framewor.Nd.Timers.{erase_at, timer_at, begin_of, node_behind}
use unified_routing_framewor.Nd.Timers.Laws.{timeout_of}
use unified_routing_framewor.Nd.Discovery.{run_handler, schedule_from}
use unified_routing_framewor.Nd.Discovery.Handling.{AllSend, Handles}

-- The timers that are due.
unfoldable pub due_timers : ℕ → List NdTimer → List NdTimer
due_timers now [] = []
due_timers now (t ∷ q) = if leb t.timeout now then t ∷ due_timers now q else due_timers now q

-- The queue without its first timer.
abbrev drop_first : NdState → NdState
drop_first s = record s { timer_q = elim s.timer_q [ [] ↦ [] | t ∷ q ↦ q ] }

-- What `scheduleTimer` is to do: run the handlers of the given timers in their order, and take the
-- first timer out of the queue behind each.
unfoldable pub run_all : List NdTimer → NdState → Outcome NdState
run_all [] s = done s
run_all (t ∷ l) s = run_handler t s >>= λ s₁. run_all l (drop_first s₁)

-- A node in good order, with the given queue.
pub record IsRunning (q : List NdTimer) (s : NdState) : Type 0 where
  pub queue : s.timer_q ≡ q
  pub ordered : IsOrdered timeout_of q
  pub linked : All (λ t. t.contain < length s.interfaces) q
  pub sends : AllSend s

due_timers-insert_by :
    (now : ℕ) (u : NdTimer) (q : List NdTimer)
    → now < u.timeout
    → due_timers now (insert_by timeout_of u q) ≡ due_timers now q
unfolding due_timers insert_by
due_timers-insert_by now u [] h = ground (arith, h)
due_timers-insert_by now u (t ∷ q) h = ground (arith, due_timers-insert_by now u q h)

insert_by-behind :
    (u t : NdTimer) (q : List NdTimer)
    → t.timeout < u.timeout
    → insert_by timeout_of u (t ∷ q) ≡ t ∷ insert_by timeout_of u q
unfolding insert_by
insert_by-behind u t q h = ground (arith, h)

pub due_timers-From :
    (now n : ℕ) (q : List NdTimer) → now < n → From timeout_of n q → due_timers now q ≡ []
unfolding due_timers
due_timers-From now n [] h f = refl
due_timers-From now n (t ∷ q) h f = ground (arith, due_timers-From now t.timeout q, f)

-- Behind the handler of the first timer, which is due, the rest of the queue is as it was, or has
-- another timer that is not due.
pub record Behind (t : NdTimer) (q : List NdTimer) (s s₁ : NdState) : Type 0 where
  pub rest : List NdTimer
  pub queue : s₁.timer_q ≡ t ∷ rest
  pub running : IsRunning rest (record s₁ { timer_q = rest })
  pub same_due : due_timers s.now rest ≡ due_timers s.now q
  pub same_now : s₁.now ≡ s.now

pub Handles-Behind :
    (t : NdTimer) (q : List NdTimer) (s s₁ : NdState)
    → IsRunning (t ∷ q) s
    → t.timeout ≤ s.now
    → Handles s s₁
    → Behind t q s s₁
Handles-Behind t q s s₁ r d h = elim h.queue [
  | inl e ↦ record {
    rest = q;
    queue = e ∙ r.queue;
    running = record {
      queue = refl;
      ordered = From-IsOrdered timeout_of t.timeout q r.ordered;
      linked = rw h.same_length r.linked.1;
      sends = h.sends;
    };
    same_due = refl;
    same_now = h.same_now;
  }
  | inr (u, e, l, c) ↦ record {
    rest = insert_by timeout_of u q;
    queue = e ∙ ap (insert_by timeout_of u) r.queue ∙ insert_by-behind u t q (omega arith);
    running = record {
      queue = refl;
      ordered =
          insert_by-IsOrdered timeout_of u q (From-IsOrdered timeout_of t.timeout q r.ordered);
      linked =
          rw h.same_length
            (insert_by-All timeout_of (λ x. x.contain < length s.interfaces) u q c r.linked.1);
      sends = h.sends;
    };
    same_due = due_timers-insert_by s.now u q l;
    same_now = h.same_now;
  }
]

pub timer_at-first : (t : NdTimer) (q : List NdTimer) → timer_at t.node (t ∷ q) ≡ some t
unfolding timer_at
timer_at-first t q = ground arith

node_behind-first : (t : NdTimer) (q : List NdTimer) → node_behind t.node (t ∷ q) ≡ begin_of q
unfolding node_behind
node_behind-first t q = ground arith

erase_at-first : (t : NdTimer) (q : List NdTimer) → erase_at t.node (t ∷ q) ≡ q
unfolding erase_at
erase_at-first t q = ground arith

le→leb : (a b : ℕ) → a ≤ b → leb a b ≡ true
le→leb a b h = ground arith

lt→leb_no : (a b : ℕ) → b < a → leb a b ≡ false
lt→leb_no a b h = ground arith

pub schedule_from-due :
    (fuel now : ℕ) (t : NdTimer) (q rest : List NdTimer) (s s₁ : NdState)
    → s.timer_q ≡ t ∷ q
    → t.timeout ≤ now
    → run_handler t s ≡ done s₁
    → s₁.timer_q ≡ t ∷ rest
    → schedule_from (suc fuel) now (some t.node) s
      ≡ schedule_from fuel now (begin_of rest) (record s₁ { timer_q = rest })
unfolding schedule_from
schedule_from-due fuel now t q rest s s₁ e d h k =
    rw
      (
        ap (timer_at t.node) e ∙ timer_at-first t q,
        schedule_from,
        le→leb t.timeout now d,
        h,
        ap (node_behind t.node) k ∙ node_behind-first t rest,
        ap (erase_at t.node) k ∙ erase_at-first t rest,
      )
      refl

pub schedule_from-later :
    (fuel now : ℕ) (t : NdTimer) (q : List NdTimer) (s : NdState)
    → s.timer_q ≡ t ∷ q
    → now < t.timeout
    → schedule_from (suc fuel) now (some t.node) s ≡ done (some t.node, s)
unfolding schedule_from
schedule_from-later fuel now t q s e d =
    rw (ap (timer_at t.node) e ∙ timer_at-first t q, schedule_from, lt→leb_no t.timeout now d) refl
