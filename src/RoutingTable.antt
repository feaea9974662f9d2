-- ===== src/RoutingTable.antt =====
-- LA_Client_aodv/routingTable.cc: reading the table, and its updates from received messages. The
-- handler of the neighbour's timeout stands in `Timeouts` and the periodic pass in `Refresh`.
pub mod Answered
pub mod Updates
pub mod Frame
pub mod Freshness
pub mod Kernel
pub mod Restart
pub mod Sorted
pub mod Neighbors
pub mod Timeouts
pub mod Refresh
use unified_routing_framewor.Prelude.{
  ℕ, ◌+◌, ◌*◌, ◌<◌, List, [], ◌∷◌, Option, none, some, Bool, true, false, not, ◌&&◌, ◌||◌, ltb, leb,
  ◌==◌, if◌then◌else◌, to_u8, add64, sub64,
}
use unified_routing_framewor.Params.{
  infinity, path_traversal_time, node_traversal_time, active_route, lr_timer, active_route_timer,
  allowed_hello_loss, hello_interval,
}
use unified_routing_framewor.RouteEntry.{RtableEntry, create_entry}
use unified_routing_framewor.RouteMap
use unified_routing_framewor.RouteMap.{find, insert, update}
use unified_routing_framewor.Packets.{Rreq, Rrep}
use unified_routing_framewor.LocalRepair
use unified_routing_framewor.TimerQueue.{
  neighbor_timeout, is_active_timer_in_queue, remove_active_route_timer,
}
use unified_routing_framewor.Node.{Node, add_kroute, del_kroute, feedback, ip_found}
use unified_routing_framewor.Node.Timers.{set_timer, remove_rreq_timer}
use unified_routing_framewor.ErrorReports.{generate_rerr}

-- The assignments through an iterator or pointer into the table.
abbrev pub write : RtableEntry → Node → Node
write e s = record s { rtable = update e s.rtable }

-- `addRoute`
unfoldable pub add_route_entry : RtableEntry → Node → Node
add_route_entry e s = record s { rtable = insert e s.rtable }

-- `insertRoute`: the kernel gets the entry that the table holds now.
unfoldable pub insert_route : RtableEntry → Node → Node
unfolding add_route_entry
insert_route e s =
    let added = add_route_entry e s in
    elim (find e.dest_ip added.rtable) [ none ↦ added | some d ↦ add_kroute d added ]

-- The loop of `addAllValidRoutes`.
unfoldable pub add_valid_routes : List RtableEntry → Node → Node
add_valid_routes [] s = s
add_valid_routes (e ∷ m) s =
    add_valid_routes m (if e.routing_flags == active_route then add_kroute e s else s)

-- `addAllValidRoutes`
unfoldable pub add_all_valid_routes : Node → Node
unfolding add_valid_routes
add_all_valid_routes s = add_valid_routes s.rtable s

-- `getDestSeqNum`
unfoldable pub get_dest_seq_num : ℕ → Node → ℕ
get_dest_seq_num dst s = elim (find dst s.rtable) [ none ↦ 0 | some e ↦ e.dest_seq_num ]

-- `isRouteValid`
unfoldable pub is_route_valid : RtableEntry → Node → Bool
is_route_valid e s = not (e.hop_cnt == infinity) && ltb s.now e.lifetime

-- `getTTL`
unfoldable pub get_ttl : ℕ → Node → ℕ
unfolding is_route_valid
get_ttl dst s = elim (find dst s.rtable) [
  | none ↦ 0
  | some e ↦ if is_route_valid e s then e.hop_cnt else e.last_hop_cnt
]

-- `setLifeTime`
unfoldable pub set_life_time : ℕ → ℕ → Node → Node
set_life_time dst lifetime s = elim (find dst s.rtable) [
  | none ↦ s
  | some e ↦ write (record e { lifetime = lifetime }) s
]

-- `findActiveRoute`
unfoldable pub find_active_route : ℕ → Node → Option RtableEntry
find_active_route dest s = elim (find dest s.rtable) [
  | none ↦ none
  | some e ↦ if ltb s.now e.lifetime && e.routing_flags == active_route then some e else none
]

-- `findValidRoute`
unfoldable pub find_valid_route : ℕ → ℕ → Node → Option RtableEntry
find_valid_route dest seq_num s = elim (find dest s.rtable) [
  | none ↦ none
  | some e ↦ if leb seq_num e.dest_seq_num && e.routing_flags == active_route then some e else none
]

-- The test of the four route updates: a newer sequence number, or the same one over fewer hops. The
-- sum is an `int` and does not wrap.
abbrev pub is_better : ℕ → ℕ → RtableEntry → Bool
is_better seq_num hop_cnt e =
    ltb e.dest_seq_num seq_num || (seq_num == e.dest_seq_num && ltb (hop_cnt + 1) e.hop_cnt)

-- `getcurrtime()+PATH_TRAVERSAL_TIME - 2*hopCnt*NODE_TRAVERSAL_TIME`
abbrev pub min_life_time : ℕ → ℕ → ℕ
min_life_time now hop_cnt =
    sub64 (add64 now path_traversal_time) (2 * hop_cnt * node_traversal_time)
