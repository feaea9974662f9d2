-- ===== src/Reports/Losses.antt =====
-- Which routes a route error takes away, what the kernel is told, and when the daemon survives it.
use unified_routing_framewor.Prelude.{
  subst, sym, ℕ, ◌≡◌, refl, inl, inr, List, [], ◌∷◌, Option, none, some, Bool, false, not, ◌&&◌,
  ◌||◌, arith, ◌==◌, if◌then◌else◌, Bool-cases, Option-cases,
}
use unified_routing_framewor.Params.{active_route}
use unified_routing_framewor.RouteEntry.{RtableEntry, get_prec_cnt}
use unified_routing_framewor.RouteMap.{find}
use unified_routing_framewor.RouteMap.Laws.{find-dest_ip, find-update}
use unified_routing_framewor.Packets.{UnrchDest}
use unified_routing_framewor.Node.{Node, del_kroute}
use unified_routing_framewor.RoutingTable.Frame.{kernel_route}
use unified_routing_framewor.RoutingTable.Kernel.{KernelAgrees}
use unified_routing_framewor.RoutingTable.Timeouts.{delete_kernel_route}
use unified_routing_framewor.Reports.{is_lost, reported, lose_route, update_valid_entries}

abbrev pub is_lost? : ℕ → Option RtableEntry → Bool
is_lost? prev_hop none = false
is_lost? prev_hop (some e) = is_lost prev_hop e

-- Whether a message names a destination.
abbrev pub names : ℕ → List UnrchDest → Bool
names k [] = false
names k (u ∷ us) = u.dest_ip == k || names k us

module _ (u : UnrchDest) (e : RtableEntry) (s : Node) (h : find e.dest_ip s.rtable ≡ some e) where
  find-lose_route :
      (k : ℕ)
      → find k (lose_route u e s).rtable
        ≡ (if e.dest_ip == k then some (reported s.now u e) else find k s.rtable)
  unfolding lose_route delete_kernel_route del_kroute
  find-lose_route k = ground (arith, find-update k (reported s.now u e) s.rtable)

  kernel-lose_route :
      (k : ℕ)
      → kernel_route k (lose_route u e s).log
        ≡ (if e.routing_flags == active_route && e.dest_ip == k then none else kernel_route k s.log)
  unfolding lose_route delete_kernel_route del_kroute kernel_route
  kernel-lose_route k = ground arith

  lose_route-KernelAgrees : KernelAgrees s → KernelAgrees (lose_route u e s)
  lose_route-KernelAgrees g k = ground (arith, find-lose_route k, kernel-lose_route k, g k)

  is_lost-lose_route :
      (prev_hop k : ℕ)
      → is_lost? prev_hop (find k (lose_route u e s).rtable)
        ≡ (is_lost? prev_hop (find k s.rtable) && not (e.dest_ip == k))
  is_lost-lose_route prev_hop k = ground (arith, find-lose_route k)

-- The step of both loops on the daemon's state.
abbrev pub step : ℕ → UnrchDest → Node → Node
step prev_hop u s = elim (find u.dest_ip s.rtable) [
  | none ↦ s
  | some e ↦ if is_lost prev_hop e then lose_route u e s else s
]

module _ (prev_hop : ℕ) (u : UnrchDest) (s : Node) where
  step-KernelAgrees : KernelAgrees s → KernelAgrees (step prev_hop u s)
  step-KernelAgrees g = elim (Option-cases (find u.dest_ip s.rtable)) [
    | inl x ↦ rw (step, x) g
    | inr (e, x) ↦ elim (Bool-cases (is_lost prev_hop e)) [
      | inl b ↦
          rw (step, x, b)
            (lose_route-KernelAgrees u e s
              (subst (λ q. find q s.rtable ≡ some e) (sym (find-dest_ip u.dest_ip s.rtable e x)) x)
              g)
      | inr b ↦ rw (step, x, b) g
    ]
  ]

  is_lost-step :
      (k : ℕ)
      → is_lost? prev_hop (find k (step prev_hop u s).rtable)
        ≡ (is_lost? prev_hop (find k s.rtable) && not (u.dest_ip == k))
  is_lost-step k = elim (Option-cases (find u.dest_ip s.rtable)) [
    | inl x ↦ ground arith
    | inr (e, x) ↦ ground (
      arith,
      find-dest_ip u.dest_ip s.rtable e x,
      is_lost-lose_route u e s
          (subst (λ q. find q s.rtable ≡ some e) (sym (find-dest_ip u.dest_ip s.rtable e x)) x)
          prev_hop k,
    )
  ]

-- Whether the entry is one that a report from `prev_hop` takes away and that has one precursor.
abbrev pub is_sole_lost : ℕ → Option RtableEntry → Bool
is_sole_lost prev_hop none = false
is_sole_lost prev_hop (some e) = is_lost prev_hop e && get_prec_cnt e == 1

-- No route over `prev_hop` has exactly one precursor.
abbrev pub NoSolePrecursor : ℕ → Node → Type 0
NoSolePrecursor prev_hop s = (k : ℕ) → is_sole_lost prev_hop (find k s.rtable) ≡ false

pub step-NoSolePrecursor :
    (prev_hop : ℕ) (u : UnrchDest) (s : Node)
    → NoSolePrecursor prev_hop s
    → NoSolePrecursor prev_hop (step prev_hop u s)
step-NoSolePrecursor prev_hop u s g k = elim (Option-cases (find u.dest_ip s.rtable)) [
  | inl x ↦ rw (step, x) (g k)
  | inr (e, x) ↦ ground (
    arith,
    g k,
    find-lose_route u e s
        (subst (λ q. find q s.rtable ≡ some e) (sym (find-dest_ip u.dest_ip s.rtable e x)) x) k,
  )
]

update_valid_entries-cons :
    (prev_hop : ℕ) (u : UnrchDest) (us : List UnrchDest) (s : Node)
    → update_valid_entries prev_hop (u ∷ us) s
      ≡ update_valid_entries prev_hop us (step prev_hop u s)
unfolding update_valid_entries
update_valid_entries-cons prev_hop u us s = refl

update_valid_entries-lost :
    (prev_hop : ℕ) (us : List UnrchDest) (s : Node) (k : ℕ)
    → is_lost? prev_hop (find k (update_valid_entries prev_hop us s).rtable)
      ≡ (is_lost? prev_hop (find k s.rtable) && not (names k us))
update_valid_entries-lost prev_hop [] s k = unfold update_valid_entries in ground arith
update_valid_entries-lost prev_hop (u ∷ us) s k = ground (
  arith,
  update_valid_entries-cons prev_hop u us s,
  update_valid_entries-lost prev_hop us (step prev_hop u s) k,
  is_lost-step prev_hop u s k,
)

update_valid_entries-agrees :
    (prev_hop : ℕ) (us : List UnrchDest) (s : Node)
    → KernelAgrees s
    → KernelAgrees (update_valid_entries prev_hop us s)
update_valid_entries-agrees prev_hop [] s g = unfold update_valid_entries in g
update_valid_entries-agrees prev_hop (u ∷ us) s g =
    rw (update_valid_entries-cons prev_hop u us s) (
      update_valid_entries-agrees prev_hop us (step prev_hop u s)
        (step-KernelAgrees prev_hop u s g))

-- Where the requests to the kernel agree with the table, they do after `updateValidEntries`, and
-- the valid routes over the sender of the report are then those of before that the report does not
-- name.
pub update_valid_entries-takes :
    (prev_hop : ℕ) (us : List UnrchDest) (s : Node)
    → KernelAgrees s
    → ((k : ℕ)
        → is_lost? prev_hop (find k (update_valid_entries prev_hop us s).rtable)
          ≡ (is_lost? prev_hop (find k s.rtable) && not (names k us)))
      × KernelAgrees (update_valid_entries prev_hop us s)
update_valid_entries-takes prev_hop us s g =
    (update_valid_entries-lost prev_hop us s, update_valid_entries-agrees prev_hop us s g)
