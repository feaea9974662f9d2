-- ===== src/RoutingTable/Refresh/Behind.antt =====
-- What making a route invalid, with those behind it, does to each entry of the table.
use unified_routing_framewor.Prelude.{
  ℕ, ◌≡◌, refl, ◌∙◌, inl, inr, List, [], ◌∷◌, Option, none, some, Bool, not, ◌&&◌, arith, ◌==◌,
  if◌then◌else◌, Bool-cases,
}
use unified_routing_framewor.Params.{infinity}
use unified_routing_framewor.RouteEntry.{RtableEntry}
use unified_routing_framewor.RouteMap.{find, update, IsSorted}
use unified_routing_framewor.RouteMap.Laws.{find-update, find-Above, update-IsSorted, if_present}
use unified_routing_framewor.Node.{Node, del_kroute}
use unified_routing_framewor.RoutingTable.Refresh.{invalidated, invalidate, invalidate_behind}

-- The test of the loop over the destinations behind `k`.
abbrev pub is_behind : ℕ → RtableEntry → Bool
is_behind k d = not (d.dest_ip == k) && (k == d.next_hop && not (d.hop_cnt == infinity))

module _ (d : RtableEntry) (s : Node) where
  pub rtable-invalidate : (invalidate d s).rtable ≡ update (invalidated s.now d) s.rtable
  unfolding invalidate del_kroute
  rtable-invalidate = ground arith

  pub now-invalidate : (invalidate d s).now ≡ s.now
  unfolding invalidate del_kroute
  now-invalidate = ground arith

pub invalidated-dest_ip : (now : ℕ) (d : RtableEntry) → (invalidated now d).dest_ip ≡ d.dest_ip
invalidated-dest_ip now d = ground arith

pub find-invalidate :
    (j : ℕ) (d : RtableEntry) (s : Node)
    → find j (invalidate d s).rtable ≡ (
        if d.dest_ip == j
        then if_present (find j s.rtable) (invalidated s.now d)
        else find j s.rtable)
find-invalidate j d s = rw (rtable-invalidate d s, find-update, invalidated-dest_ip)

-- The step of the loop.
abbrev pub behind_step : ℕ → RtableEntry → Node → Node
behind_step k d s = if is_behind k d then invalidate d s else s

now-behind_step : (k : ℕ) (d : RtableEntry) (s : Node) → (behind_step k d s).now ≡ s.now
now-behind_step k d s = ground (arith, now-invalidate d s)

find-behind_step :
    (j k : ℕ) (d : RtableEntry) (s : Node)
    → find d.dest_ip s.rtable ≡ some d
    → find j (behind_step k d s).rtable
      ≡ (if d.dest_ip == j && is_behind k d then some (invalidated s.now d) else find j s.rtable)
find-behind_step j k d s h = elim (Bool-cases (is_behind k d)) [
  | inl b ↦ rw (b, find-invalidate j d s) (ground arith)
  | inr b ↦ rw b (ground arith)
]

-- The entries that are still to come stand in the table.
abbrev pub Stands : List RtableEntry → Node → Type 0
Stands m s = (j : ℕ) (d : RtableEntry) → find j m ≡ some d → find j s.rtable ≡ some d

-- What the loop leaves of an entry.
abbrev pub behind : ℕ → ℕ → Option RtableEntry → Option RtableEntry → Option RtableEntry
behind k now none o = o
behind k now (some d) o = if is_behind k d then some (invalidated now d) else o

IsSorted-tail : (d : RtableEntry) (m : List RtableEntry) → IsSorted (d ∷ m) → IsSorted m
IsSorted-tail d [] o = tt
IsSorted-tail d (e ∷ m) o = o.1

module _ (k : ℕ) (d : RtableEntry) (m : List RtableEntry) (s : Node) (o : IsSorted (d ∷ m))
    (st : Stands (d ∷ m) s) where
  first_stands : find d.dest_ip s.rtable ≡ some d
  unfolding find
  first_stands = st d.dest_ip d (ground arith)

  step-Stands : Stands m (behind_step k d s)
  unfolding find
  step-Stands j e h =
      ground (arith, find-behind_step j k d s first_stands, find-Above d.dest_ip j m o, st j e)

pub now-invalidate_behind :
    (k : ℕ) (m : List RtableEntry) (s : Node) → (invalidate_behind k m s).now ≡ s.now
unfolding invalidate_behind
now-invalidate_behind k [] s = refl
now-invalidate_behind k (d ∷ m) s =
    now-invalidate_behind k m (behind_step k d s) ∙ now-behind_step k d s

pub invalidate_behind-IsSorted :
    (k : ℕ) (m : List RtableEntry) (s : Node)
    → IsSorted s.rtable
    → IsSorted (invalidate_behind k m s).rtable
unfolding invalidate_behind
invalidate_behind-IsSorted k [] s o = o
invalidate_behind-IsSorted k (d ∷ m) s o =
    invalidate_behind-IsSorted k m (behind_step k d s) (elim (Bool-cases (is_behind k d)) [
      | inl b ↦ rw (b, rtable-invalidate d s) (update-IsSorted (invalidated s.now d) s.rtable o)
      | inr b ↦ rw b o
    ])

pub find-invalidate_behind :
    (j k : ℕ) (m : List RtableEntry) (s : Node)
    → IsSorted m
    → Stands m s
    → find j (invalidate_behind k m s).rtable ≡ behind k s.now (find j m) (find j s.rtable)
unfolding invalidate_behind find
find-invalidate_behind j k [] s o st = refl
find-invalidate_behind j k (d ∷ m) s o st = ground (
  arith,
  find-invalidate_behind j k m (behind_step k d s) (IsSorted-tail d m o) (step-Stands k d m s o st),
  find-behind_step j k d s (first_stands k d m s o st),
  now-behind_step k d s,
  find-Above d.dest_ip j m o,
)
