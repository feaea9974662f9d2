-- ===== src/RoutingTable/Timeouts/Broken.antt =====
-- What `neighbor_timeout_handler` does to each entry, to the kernel's routes and to the local repair
-- list.
use unified_routing_framewor.Prelude.{
  ℕ, ◌≡◌, refl, List, [], ◌∷◌, Option, none, some, Bool, false, not, ◌&&◌, ◌||◌, arith, ◌==◌,
  if◌then◌else◌,
}
use unified_routing_framewor.Params.{active_route}
use unified_routing_framewor.RouteEntry.{RtableEntry}
use unified_routing_framewor.RouteMap.{find, update, IsSorted}
use unified_routing_framewor.RouteMap.Laws.{find-update, find-Above}
use unified_routing_framewor.LocalRepair.{find_in_list}
use unified_routing_framewor.LocalRepair.Laws.{find_in_list-add_to_list}
use unified_routing_framewor.Node.{Node, del_kroute}
use unified_routing_framewor.RoutingTable.Frame.{kernel_route}
use unified_routing_framewor.RoutingTable.Refresh.Behind.{Stands}
use unified_routing_framewor.RoutingTable.Timeouts.{broken, break_route, break_routes}

-- The test of the handler's loop.
abbrev pub is_over : ℕ → RtableEntry → Bool
is_over dst e = not (e.dest_ip == dst) && (dst == e.next_hop && e.routing_flags == active_route)

module _ (dst : ℕ) (e : RtableEntry) (s : Node) where
  rtable-break_route :
      (break_route dst e s).rtable
      ≡ (if is_over dst e then update (broken s.now e) s.rtable else s.rtable)
  unfolding break_route del_kroute
  rtable-break_route = ground arith

  now-break_route : (break_route dst e s).now ≡ s.now
  unfolding break_route del_kroute
  now-break_route = ground arith

  kernel-break_route :
      (k : ℕ)
      → kernel_route k (break_route dst e s).log
        ≡ (if is_over dst e && e.dest_ip == k then none else kernel_route k s.log)
  unfolding break_route del_kroute kernel_route
  kernel-break_route k = ground arith

  repair-break_route :
      (k : ℕ)
      → find_in_list k (break_route dst e s).local_repair_list
        ≡ (find_in_list k s.local_repair_list || (is_over dst e && e.dest_ip == k))
  unfolding break_route del_kroute
  repair-break_route k = ground (arith, find_in_list-add_to_list k e.dest_ip s.local_repair_list)

  find-break_route :
      find e.dest_ip s.rtable ≡ some e
      → (j : ℕ)
      → find j (break_route dst e s).rtable
        ≡ (if e.dest_ip == j && is_over dst e then some (broken s.now e) else find j s.rtable)
  find-break_route h j =
      rw rtable-break_route (ground (arith, find-update j (broken s.now e) s.rtable))

-- What the loop leaves of an entry, of the kernel's route to it, and of the local repair list.
abbrev pub over : ℕ → ℕ → Option RtableEntry → Option RtableEntry → Option RtableEntry
over dst now none o = o
over dst now (some d) o = if is_over dst d then some (broken now d) else o

abbrev pub is_over? : ℕ → Option RtableEntry → Bool
is_over? dst none = false
is_over? dst (some d) = is_over dst d

IsSorted-tail : (d : RtableEntry) (m : List RtableEntry) → IsSorted (d ∷ m) → IsSorted m
IsSorted-tail d [] o = tt
IsSorted-tail d (e ∷ m) o = o.1

module _ (dst : ℕ) (d : RtableEntry) (m : List RtableEntry) (s : Node) (o : IsSorted (d ∷ m))
    (st : Stands (d ∷ m) s) where
  first_stands : find d.dest_ip s.rtable ≡ some d
  unfolding find
  first_stands = st d.dest_ip d (ground arith)

  step-Stands : Stands m (break_route dst d s)
  unfolding find
  step-Stands j e h =
      ground (arith, find-break_route dst d s first_stands j, find-Above d.dest_ip j m o, st j e)

module _ (dst j : ℕ) where
  pub find-break_routes :
      (m : List RtableEntry) (s : Node)
      → IsSorted m
      → Stands m s
      → find j (break_routes dst m s).rtable ≡ over dst s.now (find j m) (find j s.rtable)
  unfolding break_routes find
  find-break_routes [] s o st = refl
  find-break_routes (d ∷ m) s o st = ground (
    arith,
    find-break_routes m (break_route dst d s) (IsSorted-tail d m o) (step-Stands dst d m s o st),
    find-break_route dst d s (first_stands dst d m s o st) j,
    now-break_route dst d s,
    find-Above d.dest_ip j m o,
  )

  pub kernel-break_routes :
      (m : List RtableEntry) (s : Node)
      → IsSorted m
      → kernel_route j (break_routes dst m s).log
        ≡ (if is_over? dst (find j m) then none else kernel_route j s.log)
  unfolding break_routes find
  kernel-break_routes [] s o = refl
  kernel-break_routes (d ∷ m) s o = ground (
    arith,
    kernel-break_routes m (break_route dst d s) (IsSorted-tail d m o),
    kernel-break_route dst d s j,
    find-Above d.dest_ip j m o,
  )

  pub repair-break_routes :
      (m : List RtableEntry) (s : Node)
      → IsSorted m
      → find_in_list j (break_routes dst m s).local_repair_list
        ≡ (find_in_list j s.local_repair_list || is_over? dst (find j m))
  unfolding break_routes find
  repair-break_routes [] s o = ground arith
  repair-break_routes (d ∷ m) s o = ground (
    arith,
    repair-break_routes m (break_route dst d s) (IsSorted-tail d m o),
    repair-break_route dst d s j,
    find-Above d.dest_ip j m o,
  )
