-- ===== src/Tests/Messages.antt =====
-- The theorems on messages, lists and timers at concrete states of LA_Client_aodv and lib/COMMON.
use unified_routing_framewor.Daemon.Discovery.{Uninitialised}
use unified_routing_framewor.Prelude.{
  ℕ, ◌%◌, ◌^◌, ◌≤◌, ◌≡◌, ◌≢◌, refl, ◌↔◌, List, [], ◌∷◌, ◌++◌, none, some, Bool, not, ◌&&◌, arith,
  length,
}
use unified_routing_framewor.Prelude.Ordered.{insert_by}
use unified_routing_framewor.Prelude.Outcome.{done}
use unified_routing_framewor.Params.{gen_rrep}
use unified_routing_framewor.RouteEntry.{get_prec_cnt}
use unified_routing_framewor.LaMessage
use unified_routing_framewor.LaMessage.{LaMessage, generate_stream, parse_stream}
use unified_routing_framewor.RouteMap.{find, update}
use unified_routing_framewor.Packets.{Rreq, Rerr}
use unified_routing_framewor.Blacklist
use unified_routing_framewor.Blacklist.{BlacklistEntry}
use unified_routing_framewor.Blacklist.Laws.{in_list-hangs_iff}
use unified_routing_framewor.ForwardedRreqs
use unified_routing_framewor.ForwardedRreqs.{FwRreqEntry}
use unified_routing_framewor.PendingRreqs
use unified_routing_framewor.PendingRreqs.{RreqListEntry}
use unified_routing_framewor.TimerQueue.{
  first, insert_timer, search_timer, is_active_timer_in_queue,
}
use unified_routing_framewor.Node.{Node, emit, add_kroute, del_kroute, feedback, set_real_timer}
use unified_routing_framewor.Node.Timers.{timer_add, set_lowest_timer, set_timer, remove_rreq_timer}
use unified_routing_framewor.ErrorReports.Wire.{
  copy_into_buf, create_rerr, create_rerr-copy_into_buf,
}
use unified_routing_framewor.RoutingTable.Updates.{
  reverse_route_update, neighbor_update, reverse_route_entry, route_found, replace_route,
  neighbor_entry, neighbor_found, watch_neighbor, set_neighbor_timer,
}
use unified_routing_framewor.RoutingTable.Kernel.{KernelAgrees}
use unified_routing_framewor.Requests.{recv_rreq, accept_rreq, answer_rreq}
use unified_routing_framewor.Requests.Once.{recv_rreq-once}
use unified_routing_framewor.Requests.Decided.{Decision, recv_rreq-decides}
use unified_routing_framewor.Reports.{update_valid_entries, create_new_rerr}
use unified_routing_framewor.Reports.Losses.{
  is_lost?, names, NoSolePrecursor, update_valid_entries-takes,
}
use unified_routing_framewor.Reports.Received.{create_new_rerr-returns}
use unified_routing_framewor.Daemon.Discovery.Progress.{resends, GivesUp, resends-end}
use unified_routing_framewor.Tests.{reply, home, request, home-KernelAgrees}

abbrev lost : Rerr
lost = record {
  n_flag = 1;
  dest_cnt = 1;
  unreachable_dest = record { dest_ip = 7; dest_seq_num = 6 } ∷ [];
}

create_rerr-copy_into_buf_example : create_rerr (copy_into_buf lost ++ 250 ∷ []) ≡ some lost
create_rerr-copy_into_buf_example =
    create_rerr-copy_into_buf lost (250 ∷ []) (omega arith) refl ((omega arith, omega arith), tt)

home-NoSolePrecursor : NoSolePrecursor 2 home
unfolding find get_prec_cnt
home-NoSolePrecursor k = ground arith

create_new_rerr-returns_example :
    (send : Bool) × (new : Rerr) × (create_new_rerr lost 2 home
      ≡ done (send, new, update_valid_entries 2 lost.unreachable_dest home))
    × (new.dest_cnt ≡ length new.unreachable_dest % 2 ^ 8)
create_new_rerr-returns_example = create_new_rerr-returns lost 2 home home-NoSolePrecursor

update_valid_entries-takes_example :
    ((k : ℕ)
      → is_lost? 2 (find k (update_valid_entries 2 lost.unreachable_dest home).rtable)
        ≡ (is_lost? 2 (find k home.rtable) && not (names k lost.unreachable_dest)))
    × KernelAgrees (update_valid_entries 2 lost.unreachable_dest home)
update_valid_entries-takes_example =
    update_valid_entries-takes 2 lost.unreachable_dest home home-KernelAgrees

abbrev pending : RreqListEntry
pending = record { rreq_ob = record request { dest_ip = 12; src_ip = 1 }; retries = 0; ttl = 1 }

resends-end_example :
    (n : ℕ) × (n ≤ 10) × GivesUp 12 (resends n 12 (record home { rreq_list = pending ∷ [] }))
unfolding PendingRreqs.in_list
resends-end_example =
    resends-end 12 pending (record home { rreq_list = pending ∷ [] }) refl (omega arith)

abbrev black : List BlacklistEntry
black = record { dest_ip = 3; lifetime = 9000 } ∷ record { dest_ip = 4; lifetime = 9000 } ∷ []

in_list-hangs_iff_example :
    (Blacklist.in_list_loop 8 black 4 ≡ none)
    ↔ ((e : BlacklistEntry) × (r : List BlacklistEntry) × (black ≡ e ∷ r) × (e.dest_ip ≢ 4))
in_list-hangs_iff_example = in_list-hangs_iff 7 black 4

-- What `recvRREQ` gives for the request, behind its two first tests.
abbrev accepted : ℕ × Rreq × Node
accepted = accept_rreq 2 request home

recv_rreq-accepts : recv_rreq 2 request home ≡ done accepted
unfolding recv_rreq Blacklist.in_list Blacklist.in_list_loop
recv_rreq-accepts = refl

accepted-answers : accepted.0 ≡ gen_rrep
unfolding accept_rreq answer_rreq ForwardedRreqs.in_list ForwardedRreqs.add_to_list
    reverse_route_update reverse_route_entry route_found replace_route neighbor_update
    neighbor_entry neighbor_found watch_neighbor set_neighbor_timer set_timer timer_add
    set_lowest_timer set_real_timer first insert_timer insert_by remove_rreq_timer search_timer
    is_active_timer_in_queue find update emit add_kroute del_kroute feedback
accepted-answers = refl

recv_rreq-once_example : (u : Node) × (recv_rreq 3 request accepted.2 ≡ done (0, request, u))
unfolding accept_rreq answer_rreq ForwardedRreqs.in_list ForwardedRreqs.add_to_list
    reverse_route_update reverse_route_entry route_found replace_route neighbor_update
    neighbor_entry neighbor_found watch_neighbor set_neighbor_timer set_timer timer_add
    set_lowest_timer set_real_timer first insert_timer insert_by remove_rreq_timer search_timer
    is_active_timer_in_queue find update emit add_kroute del_kroute feedback Blacklist.in_list
    Blacklist.in_list_loop
recv_rreq-once_example =
    recv_rreq-once 2 3 request accepted.1 home accepted.2 accepted.0 recv_rreq-accepts
      (omega (arith, accepted-answers)) refl

recv_rreq-decides_example : Decision 1 request accepted.0 accepted.1 accepted.2.rtable
recv_rreq-decides_example =
    recv_rreq-decides 2 request accepted.1 home accepted.2 accepted.0 recv_rreq-accepts
      (omega (arith, accepted-answers))

-- What no variable of the daemon has been set to.
abbrev pub unset_memory : Uninitialised
unset_memory = record { rrep_ob = reply; grrep_ob = reply; prec_addr = 77; rflags = 1; ttl = 3 }

abbrev message : LaMessage
message = record { cmd = 2; dst_address = 3232235777; src_address = 1; protocol = 17; result = 1 }

parse_stream-generate_stream_example :
    (buffer : List ℕ) × (generate_stream message 64 ≡ some (17, buffer))
    × (length buffer ≡ 64)
    × (parse_stream buffer ≡ some message)
parse_stream-generate_stream_example =
    LaMessage.parse_stream-generate_stream message 64
      (record {
        cmd_bound = omega arith;
        dst_bound = omega arith;
        src_bound = omega arith;
        protocol_bound = omega arith;
        result_bound = omega arith;
      })
      (omega arith)
