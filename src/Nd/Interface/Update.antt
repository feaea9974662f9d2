-- ===== src/Nd/Interface/Update.antt =====
-- lib/ND/nd_interface.cpp: `update_info` on the whole state.
use unified_routing_framewor.Prelude.{
  ℕ, ◌<◌, ◌≡◌, refl, ap, ◌∙◌, inl, inr, List, [], ◌∷◌, ◌++◌, none, some, arith, add64, length,
  set_elem, length-set_elem, All, Any, Option-cases,
}
use unified_routing_framewor.Prelude.Outcome.{done, ◌>>=◌}
use unified_routing_framewor.Prelude.Ordered.{IsOrdered}
use unified_routing_framewor.Nd.{
  OneHopEntry, InterfaceEntry, NdTimer, NdState, delete_entry, timer_type_entry,
}
use unified_routing_framewor.Nd.Timers.Laws.{
  timeout_of, IsLinked, set_timer-IsOrdered, set_timer-IsLinked, set_timer-Any,
  set_timer-interfaces, set_timer-now, remove_neighbor_entry_timer-Removes,
}
use unified_routing_framewor.Nd.Hello.{Hello}
use unified_routing_framewor.Nd.Interface.{
  find_neighbor, new_entry, refresh_first, store_neighbors, watch, refresh_neighbor, update_info,
}
use unified_routing_framewor.Nd.Interface.Links.{
  IsLink, Learns, new_entry-Learns, refresh_first-Learns,
}

-- A timer that deletes the neighbour `src` of the interface `i` at the given time.
pub record IsWatch (i src deadline : ℕ) (t : NdTimer) : Type 0 where
  pub at : t.timeout ≡ deadline
  pub deletes : t.handler ≡ delete_entry
  pub interface : t.contain ≡ i
  pub neighbor : t.value ≡ src

-- The state `s₁` is `s` after the interface `i`, which is `e`, took in the message.
pub record Updates (i : ℕ) (e : InterfaceEntry) (src : ℕ) (h : Hello) (s s₁ : NdState)
    : Type 0 where
  pub neighbors : List OneHopEntry
  pub learns : Learns e.interface_address src h e.one_hop_neighbor_set neighbors
  pub stored :
      s₁.interfaces ≡ set_elem s.interfaces i (record e { one_hop_neighbor_set = neighbors })
  pub watched : Any (IsWatch i src (add64 s.now h.live_time)) s₁.timer_q
  pub ordered : IsOrdered timeout_of s.timer_q → IsOrdered timeout_of s₁.timer_q
  pub linked : IsLinked s₁
  pub same_now : s₁.now ≡ s.now

-- A state that has the new neighbours, and then gets the timer.
watch-Updates :
    (i : ℕ) (e : InterfaceEntry) (src : ℕ) (h : Hello) (s s₁ : NdState) (l : List OneHopEntry)
    → i < length s.interfaces
    → Learns e.interface_address src h e.one_hop_neighbor_set l
    → s₁.interfaces ≡ set_elem s.interfaces i (record e { one_hop_neighbor_set = l })
    → s₁.now ≡ s.now
    → (IsOrdered timeout_of s.timer_q → IsOrdered timeout_of s₁.timer_q)
    → IsLinked s₁
    → Updates i e src h s (watch i src h.live_time s₁)
unfolding watch
watch-Updates i e src h s s₁ l b learns stored same_now o a = record {
  neighbors = l;
  learns = learns;
  stored = set_timer-interfaces h.live_time delete_entry timer_type_entry src i s₁ ∙ stored;
  watched =
      set_timer-Any (IsWatch i src (add64 s.now h.live_time)) h.live_time delete_entry
        timer_type_entry src i s₁
        (record {
          at = ap (λ now. add64 now h.live_time) same_now;
          deletes = refl;
          interface = refl;
          neighbor = refl;
        });
  ordered = λ p. set_timer-IsOrdered h.live_time delete_entry timer_type_entry src i s₁ (o p);
  linked =
      set_timer-IsLinked h.live_time delete_entry timer_type_entry src i s₁
        (rw (stored, length-set_elem s.interfaces i (record e { one_hop_neighbor_set = l })) b) a;
  same_now = set_timer-now h.live_time delete_entry timer_type_entry src i s₁ ∙ same_now;
}

pub update_info-new :
    (i : ℕ) (e : InterfaceEntry) (src : ℕ) (h : Hello) (s : NdState)
    → find_neighbor src e.one_hop_neighbor_set ≡ none
    → update_info i e src h s
      ≡ done (
          watch i src h.live_time (
            store_neighbors i e
              (e.one_hop_neighbor_set ++ new_entry e.interface_address src h ∷ [])
              s))
unfolding update_info
update_info-new i e src h s f = rw f refl

pub update_info-known :
    (i : ℕ) (e : InterfaceEntry) (src : ℕ) (h : Hello) (s : NdState) (n : OneHopEntry)
    → find_neighbor src e.one_hop_neighbor_set ≡ some n
    → IsLink n
    → update_info i e src h s ≡ refresh_neighbor i e src h s
unfolding update_info
update_info-known i e src h s n f (inl k) = rw (f, k) refl
update_info-known i e src h s n f (inr k) = rw (f, k) refl

pub find-IsLink :
    (src : ℕ) (n : OneHopEntry) (l : List OneHopEntry)
    → find_neighbor src l ≡ some n
    → All IsLink l
    → IsLink n
unfolding find_neighbor
find-IsLink src n [] f a = ground (arith, f)
find-IsLink src n (x ∷ l) f a = ground (arith, find-IsLink src n l)

pub store_neighbors-IsLinked :
    (i : ℕ) (e : InterfaceEntry) (l : List OneHopEntry) (s : NdState)
    → IsLinked s
    → IsLinked (store_neighbors i e l s)
unfolding store_neighbors
store_neighbors-IsLinked i e l s a =
    rw (length-set_elem s.interfaces i (record e { one_hop_neighbor_set = l })) a

refresh_neighbor-Updates :
    (i : ℕ) (e : InterfaceEntry) (src : ℕ) (h : Hello) (s : NdState) (n : OneHopEntry)
    → i < length s.interfaces
    → IsLinked s
    → All IsLink e.one_hop_neighbor_set
    → find_neighbor src e.one_hop_neighbor_set ≡ some n
    → (s₁ : NdState) × (refresh_neighbor i e src h s ≡ done s₁) × Updates i e src h s s₁
unfolding refresh_neighbor store_neighbors
refresh_neighbor-Updates i e src h s n b a links f =
    let l = refresh_first e.interface_address src h e.one_hop_neighbor_set in
    let (s₁, k, r) =
      remove_neighbor_entry_timer-Removes src e.name (store_neighbors i e l s)
        (store_neighbors-IsLinked i e l s a) in
    (
      watch i src h.live_time s₁,
      ap (λ x. x >>= λ s₂. done (watch i src h.live_time s₂)) k,
      watch-Updates i e src h s s₁ l b
          (refresh_first-Learns e.interface_address src h e.one_hop_neighbor_set n f links)
          r.same_interfaces r.same_now r.ordered r.linked,
    )

-- Where the timers' interfaces exist and the statuses of the neighbours are HEARD or SYMMETRIC,
-- `update_info` at an interface of the list returns, for a new neighbour and for a known one. The
-- sender's entry then says what the message says, with the status SYMMETRIC exactly when the message
-- lists the interface's address with another status than NO_ENTRY; no other neighbour and no other
-- interface changed; a timer deletes the entry after the live time; the timers stay ordered.
pub update_info-Updates :
    (i : ℕ) (e : InterfaceEntry) (src : ℕ) (h : Hello) (s : NdState)
    → i < length s.interfaces
    → IsLinked s
    → All IsLink e.one_hop_neighbor_set
    → (s₁ : NdState) × (update_info i e src h s ≡ done s₁) × Updates i e src h s s₁
update_info-Updates i e src h s b a links =
    elim (Option-cases (find_neighbor src e.one_hop_neighbor_set)) [
      | inl f ↦
          let l = e.one_hop_neighbor_set ++ new_entry e.interface_address src h ∷ [] in
          (
            watch i src h.live_time (store_neighbors i e l s),
            update_info-new i e src h s f,
            watch-Updates i e src h s (store_neighbors i e l s) l b
                (new_entry-Learns e.interface_address src h e.one_hop_neighbor_set f links)
                (unfold store_neighbors in refl) (unfold store_neighbors in refl)
                (unfold store_neighbors in λ o. o) (store_neighbors-IsLinked i e l s a),
          )
      | inr (n, f) ↦
          let (s₁, k, u) = refresh_neighbor-Updates i e src h s n b a links f in
          (
            s₁,
            update_info-known i e src h s n f (find-IsLink src n e.one_hop_neighbor_set f links)
                ∙ k,
            u,
          )
    ]
