-- ===== src/Nd/Interface/Watched.antt =====
-- lib/ND/nd_interface.cpp: the timers of a neighbour's entry behind `update_info`.
use unified_routing_framewor.Prelude.{
  ℕ, suc, ◌-◌, ◌≡◌, refl, sym, ap, ◌∙◌, inl, inr, List, [], ◌∷◌, ◌++◌, none, some, true, false,
  ==_self, if◌then◌else◌, arith, All, get_elem?, get_elem?-set_elem, get_elem?-set_elem_ne,
  set_elem, ℕ_discrete, Option-cases, ltb, get_elem?_bound,
}
use unified_routing_framewor.Prelude.Outcome.{done, done-injective, ◌>>=◌}
use unified_routing_framewor.Prelude.Ordered.{insert_by}
use unified_routing_framewor.Nd.{
  OneHopEntry, InterfaceEntry, NdTimer, NdState, delete_entry, timer_type_entry,
}
use unified_routing_framewor.Nd.Timers.{remove_neighbor_entry_timer}
use unified_routing_framewor.Nd.Timers.Laws.{
  timeout_of, IsLinked, new_timer, set_timer-timer_q, remove_neighbor_entry_timer-Removes,
}
use unified_routing_framewor.Nd.Hello.{Hello}
use unified_routing_framewor.Nd.Interface.{
  find_neighbor, new_entry, refresh_first, store_neighbors, watch, refresh_neighbor, update_info,
}
use unified_routing_framewor.Nd.Interface.Links.{IsLink}
use unified_routing_framewor.Nd.Interface.Update.{
  Updates, update_info-new, update_info-known, find-IsLink, update_info-Updates,
  store_neighbors-IsLinked,
}
use unified_routing_framewor.Nd.Timers.Owned.{
  is_timer_of, timers_of, AreDistinct, same_string_self, timers_of-step, remove-timers_of,
}

-- A new timer counts where it belongs to the entry.
timers_of-insert_by :
    (src : ℕ) (name : List ℕ) (l : List InterfaceEntry) (t : NdTimer) (q : List NdTimer)
    → is_timer_of src name l t ≡ true
    → timers_of src name l (insert_by timeout_of t q) ≡ suc (timers_of src name l q)
unfolding insert_by timers_of
timers_of-insert_by src name l t [] h = timers_of-step src name l t [] true h
timers_of-insert_by src name l t (u ∷ q) h =
    elim (ltb u.timeout t.timeout)
      as (λ b.
        timers_of src name l (if b then u ∷ insert_by timeout_of t q else t ∷ u ∷ q)
        ≡ suc (timers_of src name l (u ∷ q))) [
          | false ↦ timers_of-step src name l t (u ∷ q) true h
          | true ↦
              let more = timers_of-insert_by src name l t q h in
              elim (is_timer_of src name l u)
                as (λ b.
                  (if b
                    then suc (timers_of src name l (insert_by timeout_of t q))
                    else timers_of src name l (insert_by timeout_of t q))
                  ≡ suc (if b then suc (timers_of src name l q) else timers_of src name l q)) [
                    | true ↦ ap suc more
                    | false ↦ more
                  ]
        ]

-- What an interface learns does not change whose the timers are.
module _ (src : ℕ) (name : List ℕ) (l : List InterfaceEntry) (i : ℕ) (e : InterfaceEntry)
    (n : List OneHopEntry) (at : get_elem? l i ≡ some e) where
  is_timer_of-stored :
      (t : NdTimer)
      → is_timer_of src name (set_elem l i (record e { one_hop_neighbor_set = n })) t
        ≡ is_timer_of src name l t
  is_timer_of-stored t = elim (ℕ_discrete t.contain i) [
    | yes p ↦ rw (p, at, get_elem?-set_elem l i e (record e { one_hop_neighbor_set = n }) at) refl
    | no z ↦ rw (get_elem?-set_elem_ne l i t.contain (record e { one_hop_neighbor_set = n }) z) refl
  ]

  timers_of-stored :
      (q : List NdTimer)
      → timers_of src name (set_elem l i (record e { one_hop_neighbor_set = n })) q
        ≡ timers_of src name l q
  unfolding timers_of
  timers_of-stored [] = refl
  timers_of-stored (t ∷ q) = rw (is_timer_of-stored t, timers_of-stored q) refl

-- The number of the timers of the entry of `src` at the interface `e`.
abbrev pub entry_timers : ℕ → InterfaceEntry → NdState → ℕ
entry_timers src e s = timers_of src e.name s.interfaces s.timer_q

removes-done :
    (src : ℕ) (name : List ℕ) (s : NdState)
    → IsLinked s
    → (s₁ : NdState) × (remove_neighbor_entry_timer src name s ≡ done s₁)
removes-done src name s a =
    let (s₁, k, r) = remove_neighbor_entry_timer-Removes src name s a in (s₁, k)

-- One timer more, behind the store of the neighbours.
watch-timers :
    (i : ℕ) (e : InterfaceEntry) (src live : ℕ) (n : List OneHopEntry) (s s₁ : NdState)
    → get_elem? s.interfaces i ≡ some e
    → s₁.interfaces ≡ set_elem s.interfaces i (record e { one_hop_neighbor_set = n })
    → timers_of src e.name s.interfaces (watch i src live s₁).timer_q
      ≡ suc (timers_of src e.name s.interfaces s₁.timer_q)
unfolding watch
watch-timers i e src live n s s₁ at stored =
    ap (timers_of src e.name s.interfaces)
      (set_timer-timer_q live delete_entry timer_type_entry src i s₁)
    ∙ timers_of-insert_by src e.name s.interfaces
        (new_timer live delete_entry timer_type_entry src i s₁) s₁.timer_q
        (rw (at, ==_self src, same_string_self e.name) refl)

-- How many timers of the entry there were that a message from a known neighbour replaces: one, if
-- there is one.
abbrev pub replaced : ℕ → InterfaceEntry → ℕ
replaced src e = elim (find_neighbor src e.one_hop_neighbor_set) as (λ o. ℕ) [
  | none ↦ 0
  | some n ↦ 1
]

-- The state after `update_info`.
updated-new :
    (i : ℕ) (e : InterfaceEntry) (src : ℕ) (h : Hello) (s s₁ : NdState)
    → get_elem? s.interfaces i ≡ some e
    → find_neighbor src e.one_hop_neighbor_set ≡ none
    → update_info i e src h s ≡ done s₁
    → timers_of src e.name s.interfaces s₁.timer_q ≡ suc (entry_timers src e s)
unfolding store_neighbors
updated-new i e src h s s₁ at f k =
    let n = e.one_hop_neighbor_set ++ new_entry e.interface_address src h ∷ [] in
    let p = done-injective (sym (update_info-new i e src h s f) ∙ k) in
    ap (λ x. timers_of src e.name s.interfaces x.timer_q) (sym p)
    ∙ watch-timers i e src h.live_time n s (store_neighbors i e n s) at refl

refreshed-timers :
    (i : ℕ) (e : InterfaceEntry) (src : ℕ) (h : Hello) (s s₁ : NdState)
    → get_elem? s.interfaces i ≡ some e
    → IsLinked s
    → AreDistinct s.timer_q
    → refresh_neighbor i e src h s ≡ done s₁
    → timers_of src e.name s.interfaces s₁.timer_q ≡ suc (entry_timers src e s - 1)
unfolding refresh_neighbor store_neighbors
refreshed-timers i e src h s s₁ at a d k =
    let n = refresh_first e.interface_address src h e.one_hop_neighbor_set in
    let s' = store_neighbors i e n s in
    let a' = store_neighbors-IsLinked i e n s a in
    let (o, r) = removes-done src e.name s' a' in
    let (same, fewer) = remove-timers_of src e.name s' o a' d r in
    let p = done-injective (sym (ap (λ x. x >>= λ u. done (watch i src h.live_time u)) r) ∙ k) in
    ap (λ x. timers_of src e.name s.interfaces x.timer_q) (sym p)
    ∙ watch-timers i e src h.live_time n s o at same
    ∙ ap suc (
        sym (timers_of-stored src e.name s.interfaces i e n at o.timer_q)
        ∙ fewer
        ∙ ap (λ x. x - 1) (timers_of-stored src e.name s.interfaces i e n at s.timer_q))

updated-timers :
    (i : ℕ) (e : InterfaceEntry) (src : ℕ) (h : Hello) (s s₁ : NdState)
    → get_elem? s.interfaces i ≡ some e
    → IsLinked s
    → AreDistinct s.timer_q
    → All IsLink e.one_hop_neighbor_set
    → update_info i e src h s ≡ done s₁
    → timers_of src e.name s.interfaces s₁.timer_q ≡ suc (entry_timers src e s - replaced src e)
updated-timers i e src h s s₁ at a d links k =
    elim (Option-cases (find_neighbor src e.one_hop_neighbor_set)) [
      | inl f ↦ rw (f, replaced) (omega (arith, updated-new i e src h s s₁ at f k))
      | inr (n, f) ↦
          let link = find-IsLink src n e.one_hop_neighbor_set f links in
          rw (f, replaced)
            (refreshed-timers i e src h s s₁ at a d
              (sym (update_info-known i e src h s n f link) ∙ k))
    ]

-- Where `e` is the interface `i`, the timers are distinct elements of the list at interfaces that
-- exist, and the statuses of the neighbours are HEARD or SYMMETRIC, `update_info` returns, for a new
-- neighbour and for a known one. The sender's entry then says what the message says, with the status
-- SYMMETRIC exactly when the message lists the interface's address with another status than NO_ENTRY;
-- no other neighbour and no other interface changed; the timers stay ordered; a timer deletes the entry
-- after the live time; and the number of timers of this entry, by the neighbour and the interface's
-- name, grows by one for a new neighbour, and for a known one also loses one of the old, so
-- that where it was one it is one.
pub update_info-replaces :
    (i : ℕ) (e : InterfaceEntry) (src : ℕ) (h : Hello) (s : NdState)
    → get_elem? s.interfaces i ≡ some e
    → IsLinked s
    → AreDistinct s.timer_q
    → All IsLink e.one_hop_neighbor_set
    → (s₁ : NdState) × (update_info i e src h s ≡ done s₁)
      × Updates i e src h s s₁
      × (entry_timers src e s₁ ≡ suc (entry_timers src e s - replaced src e))
update_info-replaces i e src h s at a d links =
    let (s₁, k, u) =
      update_info-Updates i e src h s (get_elem?_bound s.interfaces i e at) a links in
    (
      s₁,
      k,
      u,
      ap (λ l. timers_of src e.name l s₁.timer_q) u.stored
          ∙ timers_of-stored src e.name s.interfaces i e u.neighbors at s₁.timer_q
          ∙ updated-timers i e src h s s₁ at a d links k,
    )
