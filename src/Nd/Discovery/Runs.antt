-- ===== src/Nd/Discovery/Runs.antt =====
-- lib/ND/nd_timer_queue.cpp: a whole run of `scheduleTimer`.
use unified_routing_framewor.Prelude.{
  ℕ, zero, suc, ◌-◌, ◌<◌, ◌≤◌, ◌≡◌, refl, sym, ap, subst, ◌∙◌, inl, inr, List, [], ◌∷◌, arith, leb,
  length, All, Bool-cases, leb→le, leb_no→lt, lt→ltb,
}
use unified_routing_framewor.Prelude.Outcome.{done, ◌>>=◌}
use unified_routing_framewor.Prelude.Ordered.{From, IsOrdered}
use unified_routing_framewor.Nd.{NdTimer, NdState}
use unified_routing_framewor.Nd.Timers.{timer_at, begin_of, set_real_timer}
use unified_routing_framewor.Nd.Timers.Laws.{timeout_of}
use unified_routing_framewor.Nd.Discovery.{run_handler, schedule_from, rearm, schedule_timer}
use unified_routing_framewor.Nd.Discovery.Handling.{run_handler-Handles}
use unified_routing_framewor.Nd.Discovery.Schedule.{
  due_timers, run_all, IsRunning, due_timers-From, Handles-Behind, timer_at-first,
  schedule_from-due, schedule_from-later,
}

-- The loop ran the handlers of the due timers of `q`, and left a queue without one.
record Runs (now : ℕ) (q : List NdTimer) (s s₁ : NdState) : Type 0 where
  left : List NdTimer
  running : IsRunning left s₁
  none_due : From timeout_of (suc now) left
  ran : run_all (due_timers now q) s ≡ done s₁
  same_now : s₁.now ≡ now

due_timers-first :
    (now : ℕ) (t : NdTimer) (q : List NdTimer)
    → t.timeout ≤ now
    → due_timers now (t ∷ q) ≡ t ∷ due_timers now q
unfolding due_timers
due_timers-first now t q h = ground (arith, h)

run_all-first :
    (t : NdTimer) (l rest : List NdTimer) (s s₁ s₂ : NdState)
    → run_handler t s ≡ done s₁
    → s₁.timer_q ≡ t ∷ rest
    → run_all l (record s₁ { timer_q = rest }) ≡ done s₂
    → run_all (t ∷ l) s ≡ done s₂
unfolding run_all
run_all-first t l rest s s₁ s₂ h k r = rw (h, k) r

schedule_from-Runs :
    (fuel now : ℕ) (q : List NdTimer) (s : NdState)
    → IsRunning q s
    → s.now ≡ now
    → length (due_timers now q) < fuel
    → (s₁ : NdState) × (r : Runs now q s s₁) × (schedule_from fuel now (begin_of q) s
        ≡ done (begin_of r.left, s₁))
schedule_from-Runs zero now q s r n h = ground (arith, h)
schedule_from-Runs (suc fuel) now [] s r n h = (
  s,
  record {
    left = [];
    running = r;
    none_due = tt;
    ran = unfold due_timers run_all in refl;
    same_now = n;
  },
  unfold schedule_from in refl,
)
schedule_from-Runs (suc fuel) now (t ∷ q) s r n h = elim (Bool-cases (leb t.timeout now)) [
  | inl d ↦
      let le = leb→le t.timeout now d in
      let (s₁, ran, handles) = run_handler-Handles t s r.linked.0 r.sends in
      let b = Handles-Behind t q s s₁ r (omega (arith, le, n)) handles in
      let same_due = subst (λ m. due_timers m b.rest ≡ due_timers m q) n b.same_due in
      let fewer = ap length (due_timers-first now t q le) in
      let (s₂, runs, k) =
        schedule_from-Runs fuel now b.rest (record s₁ { timer_q = b.rest }) b.running
          (b.same_now ∙ n) (omega (arith, h, fewer, ap length same_due)) in
      (
        s₂,
        record {
          left = runs.left;
          running = runs.running;
          none_due = runs.none_due;
          ran = rw (due_timers-first now t q le) (
              run_all-first t (due_timers now q) b.rest s s₁ s₂ ran b.queue (
                subst (λ l. run_all l (record s₁ { timer_q = b.rest }) ≡ done s₂) same_due
                  runs.ran));
          same_now = runs.same_now;
        },
        schedule_from-due fuel now t q b.rest s s₁ r.queue le ran b.queue ∙ k,
      )
  | inr d ↦
      let later = leb_no→lt t.timeout now d in
      (
        s,
        record {
          left = t ∷ q;
          running = r;
          none_due = (later, r.ordered);
          ran =
              rw (due_timers-From now t.timeout (t ∷ q) later (omega arith, r.ordered))
                (unfold run_all in refl);
          same_now = n;
        },
        schedule_from-later fuel now t q s r.queue later,
      )
]

-- The system's timer set for the first timer of a queue.
unfoldable pub arm_first : ℕ → List NdTimer → NdState → NdState
arm_first now [] s = s
arm_first now (t ∷ q) s = set_real_timer (t.timeout - now) s

rearm-arm_first :
    (now : ℕ) (q : List NdTimer) (s : NdState)
    → s.timer_q ≡ q
    → From timeout_of (suc now) q
    → rearm now (begin_of q) s ≡ arm_first now q s
unfolding rearm arm_first
rearm-arm_first now [] s e f = refl
rearm-arm_first now (t ∷ q) s e f =
    rw
      (
        ap (timer_at t.node) e ∙ timer_at-first t q,
        rearm,
        lt→ltb 0 t.timeout (omega (arith, f.0)),
        lt→ltb now t.timeout f.0,
      )
      refl

schedule_timer-eq :
    (fuel : ℕ) (q left : List NdTimer) (s s₁ : NdState)
    → s.timer_q ≡ q
    → schedule_from fuel s.now (begin_of q) s ≡ done (begin_of left, s₁)
    → schedule_timer fuel s ≡ done (rearm s.now (begin_of left) s₁)
unfolding schedule_timer
schedule_timer-eq fuel q left s s₁ e k =
    ap (λ l. schedule_from fuel s.now (begin_of l) s >>= λ end. done (rearm s.now end.0 end.1)) e
    ∙ ap (λ x. x >>= λ end. done (rearm s.now end.0 end.1)) k

-- On a queue ordered by its timeouts, whose timers belong to interfaces of the list, where each
-- interface's hello message fits its buffer and no interval overflows the clock, and with more
-- fuel than timers are due, `scheduleTimer` returns. It has then run the handlers of just the timers that
-- were due, in their order, and taken each out of the queue; no timer that is left is due, the same
-- conditions hold of the node, and the system's timer is set for the first timer that is left.
pub schedule_timer-refines :
    (fuel : ℕ) (s : NdState)
    → IsRunning s.timer_q s
    → length (due_timers s.now s.timer_q) < fuel
    → (s₁ : NdState) × (run_all (due_timers s.now s.timer_q) s ≡ done s₁)
      × (schedule_timer fuel s ≡ done (arm_first s.now s₁.timer_q s₁))
      × From timeout_of (suc s.now) s₁.timer_q
      × IsRunning s₁.timer_q s₁
schedule_timer-refines fuel s r h =
    let (s₁, runs, k) = schedule_from-Runs fuel s.now s.timer_q s r refl h in
    let e = runs.running.queue in
    (
      s₁,
      runs.ran,
      schedule_timer-eq fuel s.timer_q runs.left s s₁ refl k
          ∙ ap done (
              rearm-arm_first s.now runs.left s₁ e runs.none_due
              ∙ ap (λ q. arm_first s.now q s₁) (sym e)),
      subst (From timeout_of (suc s.now)) (sym e) runs.none_due,
      record {
        queue = refl;
        ordered = subst (IsOrdered timeout_of) (sym e) runs.running.ordered;
        linked =
            subst (λ q. All (λ t. t.contain < length s₁.interfaces) q) (sym e) runs.running.linked;
        sends = runs.running.sends;
      },
    )
