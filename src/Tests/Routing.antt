-- ===== src/Tests/Routing.antt =====
-- The theorems on the routing table at concrete states of LA_Client_aodv.
use unified_routing_framewor.Prelude.{
  List, ℕ, ◌<◌, ◌≡◌, ◌≢◌, refl, ◌⊎◌, inr, [], ◌∷◌, false, ◌||◌, arith, ◌==◌,
}
use unified_routing_framewor.Prelude.Int.{ℤ}
use unified_routing_framewor.Prelude.Outcome.{done}
use unified_routing_framewor.Params.{broken_route}
use unified_routing_framewor.RouteEntry.{RtableEntry}
use unified_routing_framewor.RouteMap.{find, IsSorted}
use unified_routing_framewor.RouteMap.Laws.{Each}
use unified_routing_framewor.LocalRepair.{find_in_list}
use unified_routing_framewor.Node.{Node}
use unified_routing_framewor.RoutingTable.{add_all_valid_routes}
use unified_routing_framewor.RoutingTable.Updates.{
  forward_route_update, reverse_route_update, neighbor_update,
}
use unified_routing_framewor.RoutingTable.Frame.{kernel_route}
use unified_routing_framewor.RoutingTable.Freshness.{
  Adopts, Sets, forward_route_update-Adopts, reverse_route_update-Adopts,
}
use unified_routing_framewor.RoutingTable.Kernel.{KernelAgrees, route_update-KernelAgrees}
use unified_routing_framewor.RoutingTable.Neighbors.{
  IsNeighbor, neighbor_update-Sets, neighbor_update-KernelAgrees,
}
use unified_routing_framewor.RoutingTable.Restart.{given, add_all_valid_routes-gives}
use unified_routing_framewor.RoutingTable.Timeouts.{neighbor_timeout_handler}
use unified_routing_framewor.RoutingTable.Timeouts.Broken.{is_over?}
use unified_routing_framewor.RoutingTable.Timeouts.Handled.{
  is_active_over, neighbor_timeout_handler-breaks,
}
use unified_routing_framewor.RouteCache.{CacheEntry}
use unified_routing_framewor.RouteCache.Query.{query_route_idle_time, query_route_idle_time-IsInt}
use unified_routing_framewor.RoutingTable.Refresh.{refresh_entries}
use unified_routing_framewor.RoutingTable.Refresh.Total.{NextHopKnown, refresh_entries-total}
use unified_routing_framewor.Tests.{
  near, far, home, home-IsSorted, reply, request, home-KernelAgrees, home-NextHopKnown,
}

-- The kernel's clock is ahead of the daemon's, so that the neighbour's idle time is negative.
abbrev used_ahead : List CacheEntry
used_ahead = record { dst_ip = 2; last_use_time = 21000; valid_flag = 1; node = 1 } ∷ []

abbrev ahead : ℕ → ℕ → ℤ
ahead dest recv_flag = query_route_idle_time 1000 dest recv_flag used_ahead

refresh_entries-total_example :
    (t : Node) × (refresh_entries ahead home ≡ done t)
    × IsSorted t.rtable
    × Each (NextHopKnown t.rtable) t.rtable
    × Each (λ e. 1000 < e.lifetime) t.rtable
refresh_entries-total_example =
    refresh_entries-total ahead home
      (λ dest recv_flag. query_route_idle_time-IsInt 1000 dest recv_flag used_ahead) home-IsSorted
      home-NextHopKnown (omega arith)

forward_route_update-Adopts_example : Adopts 7 6 1 2 far home (forward_route_update 2 reply home)
unfolding find
forward_route_update-Adopts_example = forward_route_update-Adopts 2 reply home far refl refl

route_update-KernelAgrees_example :
    KernelAgrees (forward_route_update 2 reply home)
    × KernelAgrees (reverse_route_update 2 request home)
route_update-KernelAgrees_example =
    route_update-KernelAgrees 2 reply request home home-IsSorted home-KernelAgrees

neighbor_timeout_handler-breaks_example :
    (t : Node) × (neighbor_timeout_handler 2 home ≡ done t)
    × ((k : ℕ) → is_active_over 2 (find k t.rtable) ≡ false)
    × Each (λ d. (d.dest_ip ≢ 2) ⊎ (d.routing_flags ≡ broken_route)) t.rtable
    × ((k : ℕ)
        → find_in_list k t.local_repair_list
          ≡ (find_in_list k [] || 2 == k || is_over? 2 (find k home.rtable)))
unfolding find
neighbor_timeout_handler-breaks_example =
    neighbor_timeout_handler-breaks 2 home near refl home-IsSorted

neighbor_update-Sets_example :
    (e : RtableEntry) × Sets 7 e home (neighbor_update 7 0 0 5000 home) × IsNeighbor 7 0 5000 e
neighbor_update-Sets_example = neighbor_update-Sets 7 0 0 5000 home home-IsSorted

neighbor_update-KernelAgrees_example : KernelAgrees (neighbor_update 2 0 0 5000 home)
unfolding find
neighbor_update-KernelAgrees_example =
    neighbor_update-KernelAgrees 2 0 0 5000 home home-IsSorted home-KernelAgrees
      (λ e h. inr (ground arith))

add_all_valid_routes-gives_example :
    ((add_all_valid_routes home).rtable ≡ home.rtable)
    × ((k : ℕ)
        → kernel_route k (add_all_valid_routes home).log
          ≡ given (find k home.rtable) (kernel_route k home.log))
add_all_valid_routes-gives_example = add_all_valid_routes-gives home home-IsSorted

reverse_route_update-Adopts_example : Adopts 7 8 1 2 far home (reverse_route_update 2 request home)
unfolding find
reverse_route_update-Adopts_example = reverse_route_update-Adopts 2 request home far refl refl
