-- ===== src/Tests.antt =====
-- The theorems at concrete states: of the daemon (LA_Client_aodv, lib/COMMON) here and in `Routing`
-- and `Messages`, of neighbour discovery in `Links`, of the local agent in `Clients`,
-- of the kernel modules in `Kernel`, with lib/ODS in `Ods`, of lib/FO in `Fo`.
pub mod Routing
pub mod Messages
pub mod Links
pub mod Clients
pub mod Kernel
pub mod Ods
pub mod Fo
pub mod System
use unified_routing_framewor.Prelude.{
  ℕ, zero, suc, ◌+◌, ◌*◌, ◌/◌, ◌%◌, ◌^◌, ◌-◌, ◌<◌, ◌≤◌, ◌≡◌, ◌≢◌, refl, ◌⊎◌, ◌↔◌, inl, inr, List,
  [], ◌∷◌, ◌++◌, Option, none, some, Bool, true, false, not, ◌&&◌, ◌||◌, arith, ltb, leb, ◌==◌,
  if◌then◌else◌, length, All, to_u8, add32, add64, sub64,
}
use unified_routing_framewor.Prelude.Int.{ℤ, negsuc}
use unified_routing_framewor.Prelude.Outcome.{Outcome, done, fault, null_pointer, past_end}
use unified_routing_framewor.Params.{
  active_route, infinity, broken_route, delete_period, active_route_timeout, rreq_retries, gen_rrep,
  fwd_rreq,
}
use unified_routing_framewor.LaMessage
use unified_routing_framewor.LaMessage.{LaMessage, generate_stream, parse_stream}
use unified_routing_framewor.RouteEntry.{RtableEntry, get_prec_cnt}
use unified_routing_framewor.RouteMap.{find, update, IsSorted}
use unified_routing_framewor.RouteMap.Laws.{Each, Each-of}
use unified_routing_framewor.Packets.{Rreq, Rrep, Rerr, UnrchDest}
use unified_routing_framewor.Blacklist
use unified_routing_framewor.Blacklist.{BlacklistEntry}
use unified_routing_framewor.Blacklist.Laws.{in_list-hangs_iff}
use unified_routing_framewor.ForwardedRreqs
use unified_routing_framewor.ForwardedRreqs.{FwRreqEntry}
use unified_routing_framewor.ForwardedRreqs.Laws.{in_list-add_to_list}
use unified_routing_framewor.PendingRreqs
use unified_routing_framewor.PendingRreqs.{RreqListEntry}
use unified_routing_framewor.LocalRepair
use unified_routing_framewor.LocalRepair.{find_in_list}
use unified_routing_framewor.LocalRepair.Laws.{IsDistinct, local_repair_set}
use unified_routing_framewor.TimerQueue.{
  first, insert_timer, search_timer, is_active_timer_in_queue, Timer, TimerData, neighbor_timeout,
  IsOrdered, periodic, hello,
}
use unified_routing_framewor.Node.{
  Node, Effect, add_route, emit, add_kroute, del_kroute, feedback, set_real_timer,
}
use unified_routing_framewor.Node.Timers.{
  timer_add, set_lowest_timer, set_timer, remove_rreq_timer, remove_rrep_ack_timer,
}
use unified_routing_framewor.Node.Timers.Ordered.{timers-IsOrdered}
use unified_routing_framewor.ErrorReports.Wire.{
  copy_into_buf, create_rerr, create_rerr-copy_into_buf,
}
use unified_routing_framewor.RoutingTable.{add_all_valid_routes, find_valid_route}
use unified_routing_framewor.RoutingTable.Updates.{
  forward_route_update, reverse_route_update, neighbor_update, reverse_route_entry, route_found,
  replace_route, neighbor_entry, neighbor_found, watch_neighbor, set_neighbor_timer,
}
use unified_routing_framewor.RoutingTable.Frame.{kernel_route}
use unified_routing_framewor.RoutingTable.Freshness.{
  Adopts, Sets, forward_route_update-Adopts, reverse_route_update-Adopts,
}
use unified_routing_framewor.RoutingTable.Kernel.{KernelAgrees, wanted, route_update-KernelAgrees}
use unified_routing_framewor.RoutingTable.Neighbors.{
  IsNeighbor, neighbor_update-Sets, neighbor_update-KernelAgrees, neighbor_update_stale,
}
use unified_routing_framewor.RoutingTable.Sorted.{updates-IsSorted}
use unified_routing_framewor.RoutingTable.Restart.{given, add_all_valid_routes-gives}
use unified_routing_framewor.RoutingTable.Timeouts.{neighbor_timeout_handler}
use unified_routing_framewor.RoutingTable.Timeouts.Broken.{is_over?}
use unified_routing_framewor.RoutingTable.Timeouts.Handled.{
  is_active_over, neighbor_timeout_handler-breaks,
}
use unified_routing_framewor.RoutingTable.Refresh.{
  route_idle, least_idle, refresh_entry, refresh_entries,
}
use unified_routing_framewor.RoutingTable.Refresh.Total.{NextHopKnown, refresh_entries-total}
use unified_routing_framewor.Requests.{recv_rreq, accept_rreq, answer_rreq}
use unified_routing_framewor.Requests.Once.{noted, recv_rreq-once}
use unified_routing_framewor.Requests.Decided.{recv_rreq-decides}
use unified_routing_framewor.Reports.{is_lost, update_valid_entries, create_new_rerr}
use unified_routing_framewor.Reports.Losses.{
  is_lost?, names, NoSolePrecursor, update_valid_entries-takes,
}
use unified_routing_framewor.Reports.Received.{create_new_rerr-returns}
use unified_routing_framewor.Daemon.Discovery.Progress.{resends, GivesUp, resends-end}

abbrev pub route : ℕ → ℕ → ℕ → ℕ → List ℕ → RtableEntry
route dst hops nhop lifetime precursors = record {
  dest_ip = dst;
  dest_seq_num = 5;
  interface = 0;
  hop_cnt = hops;
  last_hop_cnt = 0;
  next_hop = nhop;
  precursors = precursors;
  lifetime = lifetime;
  routing_flags = active_route;
}

-- A neighbour, and a destination behind it whose route has expired.
abbrev pub near : RtableEntry
near = route 2 1 2 9000 []

abbrev pub far : RtableEntry
far = route 7 3 2 500 (3 ∷ 4 ∷ [])

abbrev pub node : List RtableEntry → List Effect → Node
node m l = record {
  my_ip = 1;
  local_seq_num = 10;
  rreq_id = 4;
  rtable = m;
  rreq_list = [];
  fw_rreq_list = [];
  local_repair_list = [];
  black_list = [];
  timer_q = [];
  next_node = 0;
  hello_send_flag = true;
  expanding_ring_search = true;
  rrep_ack_flag = false;
  during_reboot = false;
  need_to_send_hello = true;
  now = 1000;
  log = l;
}

abbrev pub home : Node
home = node (near ∷ far ∷ []) (add_route 2 2 ∷ add_route 7 2 ∷ [])

abbrev pub home-IsSorted : IsSorted home.rtable
home-IsSorted = (omega arith, tt)

abbrev pub reply : Rrep
reply = record {
  a_flag = 0;
  prefix_size = 0;
  hop_cnt = 1;
  dest_ip = 7;
  dest_seq_num = 6;
  src_ip = 1;
  lifetime = 6000;
}

abbrev pub request : Rreq
request = record {
  g_flag = 0;
  hop_cnt = 1;
  rreq_id = 9;
  dest_ip = 1;
  dest_seq_num = 3;
  src_ip = 7;
  src_seq_num = 8;
}

-- A module route_check that knows no route.
abbrev pub no_idle : ℕ → ℕ → ℤ
no_idle dst is_src = negsuc 0

pub home-KernelAgrees : KernelAgrees home
unfolding kernel_route find
home-KernelAgrees k = ground arith

pub home-NextHopKnown : Each (NextHopKnown home.rtable) home.rtable
unfolding find
home-NextHopKnown =
    Each-of (NextHopKnown home.rtable) home.rtable
      λ k e x. inr (near, ground arith, refl, ground arith)
