-- ===== src/RoutingTable/Timeouts.antt =====
-- `neighbor_timeout_handler` and `deleteKernelRoute` of LA_Client_aodv/routingTable.cc.
pub mod Broken
pub mod Handled
use unified_routing_framewor.Prelude.{
  ℕ, ◌*◌, List, [], ◌∷◌, Option, none, some, Bool, true, false, not, ◌&&◌, ◌==◌, if◌then◌else◌,
  add32, add64,
}
use unified_routing_framewor.Prelude.Outcome.{Outcome, done, fault, past_end}
use unified_routing_framewor.Params.{infinity, active_route_timeout, active_route, broken_route}
use unified_routing_framewor.RouteEntry.{RtableEntry}
use unified_routing_framewor.RouteMap.{find, update}
use unified_routing_framewor.LocalRepair
use unified_routing_framewor.Node.{Node, del_kroute}

-- The first part of the handler: the entry of the neighbour itself.
unfoldable pub break_neighbor : RtableEntry → Node → Node
break_neighbor e s =
    let flagged = record e {
      routing_flags = broken_route;
      lifetime = add64 s.now (10 * active_route_timeout);
    } in
    if e.hop_cnt == infinity
    then record s { rtable = update (record flagged { hop_cnt = e.last_hop_cnt }) s.rtable }
    else let counted = record flagged {
      last_hop_cnt = e.hop_cnt;
      dest_seq_num = add32 e.dest_seq_num 1;
    } in
      del_kroute counted (record s { rtable = update counted s.rtable })

-- The assignments of the handler's loop.
abbrev pub broken : ℕ → RtableEntry → RtableEntry
broken now e = record e {
  routing_flags = broken_route;
  lifetime = add64 now active_route_timeout;
  last_hop_cnt = e.hop_cnt;
  dest_seq_num = add32 e.dest_seq_num 1;
}

-- The body of the handler's loop at an entry, for the neighbour `dst`.
unfoldable pub break_route : ℕ → RtableEntry → Node → Node
break_route dst e s =
    if not (e.dest_ip == dst) && (dst == e.next_hop && e.routing_flags == active_route)
    then del_kroute (broken s.now e) (record s {
      local_repair_list = LocalRepair.add_to_list e.dest_ip s.local_repair_list;
      rtable = update (broken s.now e) s.rtable;
    })
    else s

-- The loop over the table. Each entry is read and changed at its own visit only.
unfoldable pub break_routes : ℕ → List RtableEntry → Node → Node
break_routes dst [] s = s
break_routes dst (e ∷ m) s = break_routes dst m (break_route dst e s)

-- `neighbor_timeout_handler`. Without an entry of the neighbour the loop reads through `end()` at the
-- first entry that it meets.
unfoldable pub neighbor_timeout_handler : ℕ → Node → Outcome Node
neighbor_timeout_handler dst s =
    let s₁ = record s { local_repair_list = LocalRepair.add_to_list dst s.local_repair_list } in
    elim (find dst s₁.rtable) [
      | none ↦ elim s₁.rtable [ [] ↦ done s₁ | _ ∷ _ ↦ fault past_end ]
      | some e ↦ let s₂ = break_neighbor e s₁ in done (break_routes dst s₂.rtable s₂)
    ]

-- `deleteKernelRoute`
unfoldable pub delete_kernel_route : ℕ → Node → Node
delete_kernel_route dst s = elim (find dst s.rtable) [ none ↦ s | some e ↦ del_kroute e s ]
