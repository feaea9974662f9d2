-- ===== src/RoutingTable/Restart.antt =====
-- `addAllValidRoutes`, which a daemon that has finished its reboot calls: the kernel gets the routes.
use unified_routing_framewor.Prelude.{
  ℕ, ◌≡◌, refl, List, [], ◌∷◌, Option, none, some, arith, ◌==◌, if◌then◌else◌,
}
use unified_routing_framewor.Params.{active_route}
use unified_routing_framewor.RouteEntry.{RtableEntry}
use unified_routing_framewor.RouteMap.{find, IsSorted}
use unified_routing_framewor.RouteMap.Laws.{find-Above}
use unified_routing_framewor.Node.{Node, add_kroute, emit}
use unified_routing_framewor.RoutingTable.{add_valid_routes, add_all_valid_routes}
use unified_routing_framewor.RoutingTable.Frame.{kernel_route}

-- The route that a table gives to the kernel, or what the kernel had.
abbrev pub given : Option RtableEntry → Option ℕ → Option ℕ
given none o = o
given (some e) o = if e.routing_flags == active_route then some e.next_hop else o

kernel-add_valid_routes :
    (m : List RtableEntry) (s : Node) (k : ℕ)
    → IsSorted m
    → kernel_route k (add_valid_routes m s).log ≡ given (find k m) (kernel_route k s.log)
unfolding add_valid_routes find add_kroute emit kernel_route
kernel-add_valid_routes [] s k o = refl
kernel-add_valid_routes (e ∷ []) s k o = ground arith
kernel-add_valid_routes (e ∷ d ∷ m) s k o = ground (
  arith,
  kernel-add_valid_routes (d ∷ m) (if e.routing_flags == active_route then add_kroute e s else s) k
      o.1,
  find-Above e.dest_ip k (d ∷ m) o,
)

add_valid_routes-rtable :
    (m : List RtableEntry) (s : Node) → (add_valid_routes m s).rtable ≡ s.rtable
unfolding add_valid_routes add_kroute emit
add_valid_routes-rtable [] s = refl
add_valid_routes-rtable (e ∷ m) s = ground (
  arith,
  add_valid_routes-rtable m (if e.routing_flags == active_route then add_kroute e s else s),
)

-- On a sorted table `addAllValidRoutes` leaves the table as it is and asks the kernel for the next
-- hop of every active entry; about any other destination the kernel's route is the one from before.
pub add_all_valid_routes-gives :
    (s : Node)
    → IsSorted s.rtable
    → ((add_all_valid_routes s).rtable ≡ s.rtable)
      × ((k : ℕ)
          → kernel_route k (add_all_valid_routes s).log
            ≡ given (find k s.rtable) (kernel_route k s.log))
unfolding add_all_valid_routes
add_all_valid_routes-gives s o =
    (add_valid_routes-rtable s.rtable s, λ k. kernel-add_valid_routes s.rtable s k o)
