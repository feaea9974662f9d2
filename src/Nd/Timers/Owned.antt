-- ===== src/Nd/Timers/Owned.antt =====
-- lib/ND/nd_timer_queue.cpp: the timers of one neighbour's entry, and `remove_neighbor_entry_timer`.
use unified_routing_framewor.Prelude.{
  ℕ, suc, ◌-◌, ◌<◌, ◌≡◌, ◌≢◌, refl, sym, ap, ◌∙◌, inl, inr, List, [], ◌∷◌, Option, none, some, Bool,
  true, false, ◌&&◌, ◌==◌, ==_self, ==_no, if◌then◌else◌, arith, length, All, get_elem?,
  get_elem?-some, same_string, Bool-cases,
}
use unified_routing_framewor.Prelude.Outcome.{Outcome, done, done-injective, ◌>>=◌}
use unified_routing_framewor.Nd.{InterfaceEntry, NdTimer, NdState, timer_type_entry}
use unified_routing_framewor.Nd.Timers.{
  erase_at, is_entry_timer, search_entry_timer, remove_found, remove_neighbor_entry_timer,
}
use unified_routing_framewor.Nd.Timers.Laws.{
  IsLinked, remove_found-timer_q, remove_found-interfaces,
}

-- The timer belongs to the entry of the neighbour `src` at an interface of the given name.
abbrev pub is_timer_of : ℕ → List ℕ → List InterfaceEntry → NdTimer → Bool
is_timer_of src name l t =
    t.kind == timer_type_entry && t.value == src && (elim (get_elem? l t.contain) as (λ o. Bool) [
      | none ↦ false
      | some e ↦ same_string e.name name
    ])

-- The number of such timers.
unfoldable pub timers_of : ℕ → List ℕ → List InterfaceEntry → List NdTimer → ℕ
timers_of src name l [] = 0
timers_of src name l (t ∷ q) =
    let rest = timers_of src name l q in if is_timer_of src name l t then suc rest else rest

-- No two elements of the list are the same one.
abbrev pub AreDistinct : List NdTimer → Type 0
AreDistinct [] = Unit {0}
AreDistinct (t ∷ q) = All (λ u. u.node ≢ t.node) q × AreDistinct q

pub same_string_self : (a : List ℕ) → same_string a a ≡ true
same_string_self [] = refl
same_string_self (n ∷ a) = rw (==_self n, same_string_self a) refl

pub timers_of-step :
    (src : ℕ) (name : List ℕ) (l : List InterfaceEntry) (t : NdTimer) (q : List NdTimer) (b : Bool)
    → is_timer_of src name l t ≡ b
    → timers_of src name l (t ∷ q)
      ≡ (if b then suc (timers_of src name l q) else timers_of src name l q)
unfolding timers_of
timers_of-step src name l t q b h =
    ap (λ x. if x then suc (timers_of src name l q) else timers_of src name l q) h

-- What the search for a timer gives.
abbrev Finds : ℕ → List ℕ → List InterfaceEntry → List NdTimer → Option NdTimer → Type 0
Finds src name l q none = timers_of src name l q ≡ 0
Finds src name l q (some u) =
    (suc (timers_of src name l (erase_at u.node q)) ≡ timers_of src name l q)
    × ((n : ℕ) → All (λ t. t.node ≢ n) q → u.node ≢ n)

erase_at-first : (t : NdTimer) (q : List NdTimer) → erase_at t.node (t ∷ q) ≡ q
unfolding erase_at
erase_at-first t q = rw (==_self t.node) refl

erase_at-behind :
    (n : ℕ) (t : NdTimer) (q : List NdTimer) → n ≢ t.node → erase_at n (t ∷ q) ≡ t ∷ erase_at n q
unfolding erase_at
erase_at-behind n t q z = rw (==_no t.node n (λ e. z (sym e))) refl

Finds-first :
    (src : ℕ) (name : List ℕ) (l : List InterfaceEntry) (t : NdTimer) (q : List NdTimer)
    → is_timer_of src name l t ≡ true
    → Finds src name l (t ∷ q) (some t)
Finds-first src name l t q h = (
  ap (λ r. suc (timers_of src name l r)) (erase_at-first t q)
      ∙ sym (timers_of-step src name l t q true h),
  λ n a. a.0,
)

Finds-behind :
    (src : ℕ) (name : List ℕ) (l : List InterfaceEntry) (t : NdTimer) (q : List NdTimer)
    (o : Option NdTimer)
    → is_timer_of src name l t ≡ false
    → All (λ u. u.node ≢ t.node) q
    → Finds src name l q o
    → Finds src name l (t ∷ q) o
Finds-behind src name l t q none h a f = timers_of-step src name l t q false h ∙ f
Finds-behind src name l t q (some u) h a (f, g) = (
  ap (λ r. suc (timers_of src name l r)) (erase_at-behind u.node t q (g t.node a))
      ∙ ap suc (timers_of-step src name l t (erase_at u.node q) false h)
      ∙ f
      ∙ sym (timers_of-step src name l t q false h),
  λ n b. g n b.1,
)

is_entry_timer-eq :
    (src : ℕ) (name : List ℕ) (l : List InterfaceEntry) (t : NdTimer) (e : InterfaceEntry)
    → get_elem? l t.contain ≡ some e
    → is_timer_of src name l t ≡ is_entry_timer src name e.name t
is_entry_timer-eq src name l t e h = rw h (ground arith)

search-Finds :
    (src : ℕ) (name : List ℕ) (l : List InterfaceEntry) (q : List NdTimer)
    → All (λ t. t.contain < length l) q
    → AreDistinct q
    → (o : Option NdTimer) × (search_entry_timer src name l q ≡ done o) × Finds src name l q o
unfolding search_entry_timer timers_of
search-Finds src name l [] a d = (none, refl, refl)
search-Finds src name l (t ∷ q) a d =
    let (e, h) = get_elem?-some l t.contain a.0 in
    let same = is_entry_timer-eq src name l t e h in
    elim (Bool-cases (is_entry_timer src name e.name t)) [
      | inl b ↦ (some t, rw (h, search_entry_timer, b) refl, Finds-first src name l t q (same ∙ b))
      | inr b ↦
          let (o, k, f) = search-Finds src name l q a.1 d.1 in
          (o, rw (h, search_entry_timer, b) k, Finds-behind src name l t q o (same ∙ b) d.0 f)
    ]

-- One timer less, if there is one.
pub remove-timers_of :
    (src : ℕ) (name : List ℕ) (s s₁ : NdState)
    → IsLinked s
    → AreDistinct s.timer_q
    → remove_neighbor_entry_timer src name s ≡ done s₁
    → (s₁.interfaces ≡ s.interfaces)
      × (timers_of src name s.interfaces s₁.timer_q ≡ timers_of src name s.interfaces s.timer_q - 1)
unfolding remove_neighbor_entry_timer
remove-timers_of src name s s₁ a d h =
    let (o, k, f) = search-Finds src name s.interfaces s.timer_q a d in
    let removed : Option NdTimer → Outcome NdState =
      λ x. elim x as (λ y. Outcome NdState) [ none ↦ done s | some t ↦ done (remove_found t s) ] in
    let same : removed o ≡ done s₁ = sym (ap (λ x. x >>= removed) k) ∙ h in
    elim o
        as (λ x.
          removed x ≡ done s₁
          → Finds src name s.interfaces s.timer_q x
          → (s₁.interfaces ≡ s.interfaces)
            × (timers_of src name s.interfaces s₁.timer_q
                ≡ timers_of src name s.interfaces s.timer_q - 1)) [
                  | none ↦ λ e g.
                      let p = done-injective e in
                      (
                        ap (λ x. x.interfaces) (sym p),
                        ap (λ x. timers_of src name s.interfaces x.timer_q) (sym p)
                            ∙ omega (arith, g),
                      )
                  | some t ↦ λ e g.
                      let p = done-injective e in
                      (
                        ap (λ x. x.interfaces) (sym p) ∙ remove_found-interfaces t s,
                        ap (λ x. timers_of src name s.interfaces x.timer_q) (sym p)
                            ∙ ap (timers_of src name s.interfaces) (remove_found-timer_q t s)
                            ∙ omega (arith, g.0),
                      )
                ]
      same f
