-- ===== src/Nd/Timers/Laws.antt =====
-- lib/ND/nd_timer_queue.cpp: what the operations on the queue do to the state.
use unified_routing_framewor.Prelude.{
  ℕ, ◌<◌, ◌≡◌, refl, List, [], ◌∷◌, Option, none, some, true, false, arith, add64, length,
  get_elem?-some, All, Any, if◌then◌else◌, erase_first-All, ◌==◌,
}
use unified_routing_framewor.Prelude.Outcome.{Outcome, done}
use unified_routing_framewor.Prelude.Ordered.{
  insert_by, IsOrdered, insert_by-IsOrdered, erase_first-IsOrdered, insert_by-All, insert_by-Any,
}
use unified_routing_framewor.Nd.{NdTimer, NdHandler, NdState, InterfaceEntry, call}
use unified_routing_framewor.Nd.Timers.{
  erase_at, set_real_timer, timer_add, set_lowest_timer, set_timer, is_entry_timer,
  search_entry_timer, remove_found, remove_neighbor_entry_timer,
}

abbrev pub timeout_of : NdTimer → ℕ
timeout_of t = t.timeout

-- The interface of each timer is one of the list.
abbrev pub IsLinked : NdState → Type 0
IsLinked s = All (λ t. t.contain < length s.interfaces) s.timer_q

-- The timer that `set_timer` makes.
abbrev pub new_timer : ℕ → NdHandler → ℕ → ℕ → ℕ → NdState → NdTimer
new_timer time_val func kind value contain s = record {
  timeout = add64 s.now time_val;
  handler = func;
  kind = kind;
  value = value;
  contain = contain;
  node = s.next_node;
}

pub set_timer-timer_q :
    (time_val : ℕ) (func : NdHandler) (kind value contain : ℕ) (s : NdState)
    → (set_timer time_val func kind value contain s).timer_q
      ≡ insert_by timeout_of (new_timer time_val func kind value contain s) s.timer_q
unfolding set_timer set_lowest_timer set_real_timer call timer_add
set_timer-timer_q time_val func kind value contain s = ground arith

pub set_timer-interfaces :
    (time_val : ℕ) (func : NdHandler) (kind value contain : ℕ) (s : NdState)
    → (set_timer time_val func kind value contain s).interfaces ≡ s.interfaces
unfolding set_timer set_lowest_timer set_real_timer call timer_add
set_timer-interfaces time_val func kind value contain s = ground arith

pub set_timer-now :
    (time_val : ℕ) (func : NdHandler) (kind value contain : ℕ) (s : NdState)
    → (set_timer time_val func kind value contain s).now ≡ s.now
unfolding set_timer set_lowest_timer set_real_timer call timer_add
set_timer-now time_val func kind value contain s = ground arith

pub remove_found-timer_q :
    (t : NdTimer) (s : NdState) → (remove_found t s).timer_q ≡ erase_at t.node s.timer_q
unfolding remove_found set_real_timer call
remove_found-timer_q t s = ground arith

pub remove_found-interfaces :
    (t : NdTimer) (s : NdState) → (remove_found t s).interfaces ≡ s.interfaces
unfolding remove_found set_real_timer call
remove_found-interfaces t s = ground arith

pub remove_found-now : (t : NdTimer) (s : NdState) → (remove_found t s).now ≡ s.now
unfolding remove_found set_real_timer call
remove_found-now t s = ground arith

search_entry_timer-done :
    (dst : ℕ) (name : List ℕ) (l : List InterfaceEntry) (q : List NdTimer)
    → All (λ t. t.contain < length l) q
    → (found : Option NdTimer) × (search_entry_timer dst name l q ≡ done found)
unfolding search_entry_timer
search_entry_timer-done dst name l [] a = (none, refl)
search_entry_timer-done dst name l (t ∷ q) a =
    let (e, h) = get_elem?-some l t.contain a.0 in
    rw (h, search_entry_timer)
      (elim (is_entry_timer dst name e.name t)
        as (λ b.
          (found : Option NdTimer) × ((if b then done (some t) else search_entry_timer dst name l q)
            ≡ done found)) [
              | true ↦ (some t, refl)
              | false ↦ search_entry_timer-done dst name l q a.1
            ])

erase_at-All {κ} :
    (P : NdTimer → Type κ) (n : ℕ) (q : List NdTimer) → All P q → All P (erase_at n q)
unfolding erase_at
erase_at-All P n q a = erase_first-All P (λ t. t.node == n) q a

erase_at-IsOrdered :
    (n : ℕ) (q : List NdTimer) → IsOrdered timeout_of q → IsOrdered timeout_of (erase_at n q)
unfolding erase_at
erase_at-IsOrdered n q o = erase_first-IsOrdered timeout_of (λ t. t.node == n) q o

-- What a removal of an entry's timer leaves as it was.
pub record Removes (s s₁ : NdState) : Type 0 where
  pub same_interfaces : s₁.interfaces ≡ s.interfaces
  pub same_now : s₁.now ≡ s.now
  pub ordered : IsOrdered timeout_of s.timer_q → IsOrdered timeout_of s₁.timer_q
  pub linked : IsLinked s₁

pub remove_neighbor_entry_timer-Removes :
    (dst : ℕ) (name : List ℕ) (s : NdState)
    → IsLinked s
    → (s₁ : NdState) × (remove_neighbor_entry_timer dst name s ≡ done s₁) × Removes s s₁
unfolding remove_neighbor_entry_timer
remove_neighbor_entry_timer-Removes dst name s a =
    let (found, h) = search_entry_timer-done dst name s.interfaces s.timer_q a in
    rw h
      (elim found
        as (λ x.
          (s₁ : NdState) × (elim x as (λ y. Outcome NdState) [
            | none ↦ done s
            | some t ↦ done (remove_found t s)
          ]
            ≡ done s₁)
          × Removes s s₁) [
            | none ↦ (
              s,
              refl,
              record { same_interfaces = refl; same_now = refl; ordered = λ o. o; linked = a },
            )
            | some t ↦ (
              remove_found t s,
              refl,
              record {
                same_interfaces = remove_found-interfaces t s;
                same_now = remove_found-now t s;
                ordered =
                    λ o. rw (remove_found-timer_q t s) (erase_at-IsOrdered t.node s.timer_q o);
                linked =
                    rw (remove_found-timer_q t s, remove_found-interfaces t s)
                      (erase_at-All (λ u. u.contain < length s.interfaces) t.node s.timer_q a);
              },
            )
          ])

-- `set_timer` keeps the queue ordered and its timers at interfaces of the list, and the queue then
-- has the new timer.
pub set_timer-IsOrdered :
    (time_val : ℕ) (func : NdHandler) (kind value contain : ℕ) (s : NdState)
    → IsOrdered timeout_of s.timer_q
    → IsOrdered timeout_of (set_timer time_val func kind value contain s).timer_q
set_timer-IsOrdered time_val func kind value contain s o =
    rw (set_timer-timer_q time_val func kind value contain s)
      (insert_by-IsOrdered timeout_of _ s.timer_q o)

pub set_timer-IsLinked :
    (time_val : ℕ) (func : NdHandler) (kind value contain : ℕ) (s : NdState)
    → contain < length s.interfaces
    → IsLinked s
    → IsLinked (set_timer time_val func kind value contain s)
set_timer-IsLinked time_val func kind value contain s h a =
    rw
      (
        set_timer-timer_q time_val func kind value contain s,
        set_timer-interfaces time_val func kind value contain s,
      )
      (insert_by-All timeout_of (λ u. u.contain < length s.interfaces)
        (new_timer time_val func kind value contain s) s.timer_q h a)

pub set_timer-Any :
    (P : NdTimer → Type 0) (time_val : ℕ) (func : NdHandler) (kind value contain : ℕ) (s : NdState)
    → P (new_timer time_val func kind value contain s)
    → Any P (set_timer time_val func kind value contain s).timer_q
set_timer-Any P time_val func kind value contain s h =
    rw (set_timer-timer_q time_val func kind value contain s)
      (insert_by-Any timeout_of P _ s.timer_q h)
