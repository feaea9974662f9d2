-- ===== src/RoutingTable/Updates.antt =====
-- LA_Client_aodv/routingTable.cc: the updates of the table from received messages.
use unified_routing_framewor.Prelude.{
  ℕ, ◌+◌, ◌*◌, none, some, false, not, ◌||◌, ltb, ◌==◌, if◌then◌else◌, to_u8, add64,
}
use unified_routing_framewor.Params.{
  active_route, lr_timer, active_route_timer, allowed_hello_loss, hello_interval,
}
use unified_routing_framewor.RouteEntry.{RtableEntry, create_entry}
use unified_routing_framewor.RouteMap.{find}
use unified_routing_framewor.Packets.{Rreq, Rrep}
use unified_routing_framewor.LocalRepair
use unified_routing_framewor.TimerQueue.{
  neighbor_timeout, is_active_timer_in_queue, remove_active_route_timer,
}
use unified_routing_framewor.Node.{Node, add_kroute, del_kroute, feedback, ip_found}
use unified_routing_framewor.Node.Timers.{set_timer, remove_rreq_timer}
use unified_routing_framewor.ErrorReports.{generate_rerr}
use unified_routing_framewor.RoutingTable.{
  write, add_route_entry, insert_route, is_better, min_life_time,
}

-- The end of a local repair: the destination leaves the list, and a route that got longer is
-- reported.
unfoldable pub repaired : ℕ → Node → Node
repaired dst s =
    let t = record s { local_repair_list = LocalRepair.delete_from_list dst s.local_repair_list } in
    elim (find dst t.rtable) [
      | none ↦ t
      | some e ↦ if ltb e.last_hop_cnt e.hop_cnt then generate_rerr dst 1 false t else t
    ]

-- The end of `reverseRouteUpdate` and `forwardRouteUpdate`.
unfoldable pub route_found : ℕ → Node → Node
unfolding remove_rreq_timer repaired
route_found dst s =
    let (ret, t) = remove_rreq_timer dst (feedback dst ip_found s) in
    if ret == lr_timer then repaired dst t else t

-- The entry that `reverseRouteUpdate` leaves for an active route that the request betters.
abbrev pub reverse_better : ℕ → ℕ → Rreq → RtableEntry → RtableEntry
reverse_better now nhop r e =
    let life = min_life_time now (to_u8 (r.hop_cnt + 1)) in
    record e {
      dest_seq_num = r.src_seq_num;
      next_hop = nhop;
      hop_cnt = to_u8 (r.hop_cnt + 1);
      lifetime = if ltb e.lifetime life then life else e.lifetime;
    }

-- The same for a route that is not active.
abbrev pub reverse_revived : ℕ → ℕ → Rreq → RtableEntry → RtableEntry
reverse_revived now nhop r e = record e {
  dest_seq_num = r.src_seq_num;
  next_hop = nhop;
  hop_cnt = to_u8 (r.hop_cnt + 1);
  routing_flags = active_route;
  lifetime = min_life_time now (to_u8 (r.hop_cnt + 1));
}

abbrev pub reverse_created : ℕ → ℕ → Rreq → RtableEntry
reverse_created now nhop r =
    create_entry r.src_ip r.src_seq_num (to_u8 (r.hop_cnt + 1)) nhop
      (min_life_time now (r.hop_cnt + 1)) active_route

-- `rebootReverseRouteUpdate`
unfoldable pub reboot_reverse_route_update : ℕ → Rreq → Node → Node
unfolding add_route_entry
reboot_reverse_route_update nhop r s = elim (find r.src_ip s.rtable) [
  | none ↦ add_route_entry (reverse_created s.now nhop r) s
  | some e ↦
      if e.routing_flags == active_route
      then if is_better r.src_seq_num r.hop_cnt e
        then write (reverse_better s.now nhop r e) s
        else s
      else write (reverse_revived s.now nhop r e) s
]

-- The kernel requests and the assignment of an update of an active route: the old route is taken from
-- the kernel, and the new one given to it, if the route gets shorter or its next hop changes.
unfoldable pub replace_route : RtableEntry → RtableEntry → ℕ → Node → Node
replace_route e e' hop_cnt s =
    if ltb (hop_cnt + 1) e.hop_cnt || not (e.next_hop == e'.next_hop)
    then add_kroute e' (write e' (del_kroute e s))
    else write e' s

-- The table's part of `reverseRouteUpdate`.
unfoldable pub reverse_route_entry : ℕ → Rreq → Node → Node
unfolding replace_route insert_route
reverse_route_entry nhop r s = elim (find r.src_ip s.rtable) [
  | none ↦ insert_route (reverse_created s.now nhop r) s
  | some e ↦
      if e.routing_flags == active_route
      then if is_better r.src_seq_num r.hop_cnt e
        then replace_route e (reverse_better s.now nhop r e) r.hop_cnt s
        else s
      else add_kroute (reverse_revived s.now nhop r e) (write (reverse_revived s.now nhop r e) s)
]

-- `reverseRouteUpdate`
unfoldable pub reverse_route_update : ℕ → Rreq → Node → Node
unfolding reverse_route_entry route_found
reverse_route_update nhop r s = route_found r.src_ip (reverse_route_entry nhop r s)

-- The entry that `forwardRouteUpdate` leaves for a route that was there.
abbrev pub forward_better : ℕ → ℕ → Rrep → RtableEntry → RtableEntry
forward_better now nhop r e = record e {
  next_hop = nhop;
  hop_cnt = to_u8 (r.hop_cnt + 1);
  dest_seq_num = r.dest_seq_num;
  lifetime = add64 now r.lifetime;
}

abbrev pub forward_revived : ℕ → ℕ → Rrep → RtableEntry → RtableEntry
forward_revived now nhop r e = record (forward_better now nhop r e) { routing_flags = active_route }

abbrev pub forward_created : ℕ → ℕ → Rrep → RtableEntry
forward_created now nhop r =
    create_entry r.dest_ip r.dest_seq_num (to_u8 (r.hop_cnt + 1)) nhop (add64 now r.lifetime)
      active_route

-- `rebootForwardRouteUpdate`
unfoldable pub reboot_forward_route_update : ℕ → Rrep → Node → Node
unfolding add_route_entry
reboot_forward_route_update nhop r s = elim (find r.dest_ip s.rtable) [
  | none ↦ add_route_entry (forward_created s.now nhop r) s
  | some e ↦
      if e.routing_flags == active_route
      then if is_better r.dest_seq_num r.hop_cnt e
        then write (forward_better s.now nhop r e) s
        else s
      else write (forward_revived s.now nhop r e) s
]

-- The table's part of `forwardRouteUpdate`.
unfoldable pub forward_route_entry : ℕ → Rrep → Node → Node
unfolding replace_route insert_route
forward_route_entry nhop r s = elim (find r.dest_ip s.rtable) [
  | none ↦ insert_route (forward_created s.now nhop r) s
  | some e ↦
      if e.routing_flags == active_route
      then if is_better r.dest_seq_num r.hop_cnt e
        then replace_route e (forward_better s.now nhop r e) r.hop_cnt s
        else s
      else add_kroute (forward_revived s.now nhop r e) (write (forward_revived s.now nhop r e) s)
]

-- `forwardRouteUpdate`
unfoldable pub forward_route_update : ℕ → Rrep → Node → Node
unfolding forward_route_entry route_found
forward_route_update nhop r s = route_found r.dest_ip (forward_route_entry nhop r s)

-- The assignments of the neighbour updates.
abbrev pub as_neighbor : ℕ → ℕ → ℕ → RtableEntry → RtableEntry
as_neighbor neighbor seq life_time e = record e {
  next_hop = neighbor;
  lifetime = life_time;
  hop_cnt = 1;
  dest_seq_num = seq;
}

-- `rebootNeighborUpdate`
unfoldable pub reboot_neighbor_update : ℕ → ℕ → ℕ → Node → Node
unfolding add_route_entry
reboot_neighbor_update neighbor seq life_time s = elim (find neighbor s.rtable) [
  | none ↦ add_route_entry (create_entry neighbor seq 1 neighbor life_time active_route) s
  | some e ↦
      write (record (as_neighbor neighbor seq life_time e) { routing_flags = active_route }) s
]

-- The table's part of `neighborUpdate`.
unfoldable pub neighbor_entry : ℕ → ℕ → ℕ → Node → Node
unfolding insert_route
neighbor_entry neighbor seq life_time s = elim (find neighbor s.rtable) [
  | none ↦ insert_route (create_entry neighbor seq 1 neighbor life_time active_route) s
  | some e ↦
      let n = as_neighbor neighbor seq life_time e in
      if e.routing_flags == active_route
      then write n s
      else let n' = record n { routing_flags = active_route } in add_kroute n' (write n' s)
]

-- The middle of `neighborUpdate`: the answer to the agent and the end of a route request.
unfoldable pub neighbor_found : ℕ → Node → Node
unfolding remove_rreq_timer
neighbor_found neighbor s =
    let (ret, t) = remove_rreq_timer neighbor (feedback neighbor ip_found s) in
    if ret == lr_timer
    then (record t {
      local_repair_list = LocalRepair.delete_from_list neighbor t.local_repair_list;
    })
    else t

-- The new timer of `neighborUpdate`.
unfoldable pub set_neighbor_timer : ℕ → Node → Node
unfolding set_timer
set_neighbor_timer neighbor s =
    set_timer (allowed_hello_loss * hello_interval) neighbor_timeout
      (record { kind = active_route_timer; value = neighbor }) s

-- The end of `neighborUpdate`: the timer that watches an active route to the neighbour.
unfoldable pub watch_neighbor : ℕ → ℕ → Node → Node
unfolding set_neighbor_timer is_active_timer_in_queue remove_active_route_timer
watch_neighbor neighbor src s =
    if is_active_timer_in_queue neighbor s.timer_q
    then set_neighbor_timer neighbor
        (record s { timer_q = remove_active_route_timer neighbor s.timer_q })
    else if src == 0
    then set_neighbor_timer neighbor s
    else s

-- `neighborUpdate`
unfoldable pub neighbor_update : ℕ → ℕ → ℕ → ℕ → Node → Node
unfolding neighbor_entry neighbor_found watch_neighbor
neighbor_update neighbor src seq life_time s =
    watch_neighbor neighbor src (neighbor_found neighbor (neighbor_entry neighbor seq life_time s))
