-- ===== src/Tests/System.antt =====
-- The theorems on the daemon, the agent and the kernel module together, and on two neighbours, at
-- concrete states.
use unified_routing_framewor.Prelude.{ℕ, ◌≡◌, refl, inl, List, [], ◌∷◌, some, true, arith}
use unified_routing_framewor.Prelude.Outcome.{done}
use unified_routing_framewor.LaMessage.{generate_stream}
use unified_routing_framewor.Agent.{
  RouteRequest, act, send, ods_feedback_route_reply, first_daemon, la_ods_message_handle,
  la_serv_handle_message,
}
use unified_routing_framewor.PacketQueue.{PacketQueue, nf_accept}
use unified_routing_framewor.PacketQueue.Release.{Releases}
use unified_routing_framewor.Netlink.{NetlinkMessage}
use unified_routing_framewor.KernelModule.{rt_info_of, send_rtinfo, recv_msg}
use unified_routing_framewor.Ods.{ods_get_route_request, ods_feedback_reply}
use unified_routing_framewor.RouteMap.{find}
use unified_routing_framewor.Packets.{Rrep, rreq, rrep}
use unified_routing_framewor.Node.{Node, Effect, send_to, feedback, ip_found}
use unified_routing_framewor.RoutingTable.{find_active_route}
use unified_routing_framewor.RoutingTable.Updates.{forward_route_update}
use unified_routing_framewor.RoutingTable.Answered.{answers}
use unified_routing_framewor.RoutingTable.Answered.Updates.{HasRoute, forward_route_update-answers}
use unified_routing_framewor.Daemon.{process_recv_msg}
use unified_routing_framewor.Daemon.Loop.{feedback_message, recv_la_data}
use unified_routing_framewor.Params.{broadcast_addr}
use unified_routing_framewor.Blacklist
use unified_routing_framewor.ForwardedRreqs
use unified_routing_framewor.Requests.{create_rreq}
use unified_routing_framewor.Daemon.Discovery.{send_rreq}
use unified_routing_framewor.Daemon.Meeting.Source.{IsMet}
use unified_routing_framewor.Daemon.Meeting.Found.{HasMet, neighbors-HasMet}
use unified_routing_framewor.System.{request-Releases}
use unified_routing_framewor.Tests.{home, home-IsSorted, node, route, reply}
use unified_routing_framewor.Tests.Messages.{unset_memory}
use unified_routing_framewor.Tests.Ods.{skb, module_state, local_agent, devices, library}

forward_route_update-answers_example :
    HasRoute reply.dest_ip (forward_route_update 2 reply home)
    × (answers reply.dest_ip (forward_route_update 2 reply home).log
        ≡ ip_found ∷ answers reply.dest_ip home.log)
forward_route_update-answers_example = forward_route_update-answers 2 reply home home-IsSorted

-- A daemon with a route to the destination 20, for which a packet waits.
abbrev routed : Node
routed = node (route 20 3 2 9000 [] ∷ []) []

request-Releases_example :
    (m : NetlinkMessage) × (r : RouteRequest) × (bytes : List ℕ) × (buffer : List ℕ)
    × (n : NetlinkMessage) × (q : PacketQueue) × (send_rtinfo true
          (λ i. 0)
          (rt_info_of [] (0 ∷ 0 ∷ 0 ∷ 0 ∷ 0 ∷ 0 ∷ []) (skb 1 20))
          module_state
        ≡ some (500, m))
    × (ods_get_route_request devices (some m.payload) ≡ done (true, r))
    × (la_ods_message_handle r local_agent ≡ done (act (send 6 bytes) local_agent))
    × (recv_la_data unset_memory (some bytes) routed ≡ done (feedback 20 1 routed))
    × (generate_stream (feedback_message 20 1) 1024 ≡ some (17, buffer))
    × (la_serv_handle_message 6 (some buffer) local_agent
        ≡ done (act (ods_feedback_route_reply 20 1) local_agent))
    × (ods_feedback_reply 20 1 library ≡ record library { sent = (some 3, n) ∷ [] })
    × (recv_msg 3 n module_state ≡ done (record module_state { queue = q }))
    × Releases 20 nf_accept module_state.queue q
request-Releases_example =
    request-Releases unset_memory (skb 1 20) [] (0 ∷ 0 ∷ 0 ∷ 0 ∷ 0 ∷ 0 ∷ []) (λ i. 0) module_state
      devices local_agent (record { sock_fd = 6; kind = 0 }) library routed 1
      (record { dst_bound = omega arith; src_bound = omega arith; protocol_bound = omega arith })
      refl refl (unfold first_daemon in refl) refl
      (inl (refl, route 20 3 2 9000 [], unfold find_active_route find in refl, refl))

-- The node 1 with an empty table, and its neighbour 2.
abbrev lone : Node
lone = node [] []

abbrev neighbor : Node
neighbor = record lone { my_ip = 2 }

neighbor-IsMet : IsMet (create_rreq 2 0 lone).0 neighbor
unfolding create_rreq Blacklist.in_list ForwardedRreqs.in_list
neighbor-IsMet = record {
  awake = refl;
  sorted = tt;
  not_black = refl;
  is_new = refl;
  for_it = refl;
  not_own = ground arith;
  has_source = ground arith;
  clock_bound = omega arith;
}

neighbors-HasMet_example :
    let r = (create_rreq 2 0 lone).0 in
    (p : Rrep) × (t w : Node) × (l l' : List Effect) × ((send_rreq unset_memory 2 0 lone).log
      ≡ send_to broadcast_addr (rreq r) ∷ l)
    × (process_recv_msg unset_memory 1 30 (some (rreq r)) neighbor ≡ done t)
    × (t.log ≡ send_to 1 (rrep p) ∷ l')
    × (process_recv_msg unset_memory 2 30 (some (rrep p)) lone ≡ done w)
    × HasMet 2 lone w
neighbors-HasMet_example =
    neighbors-HasMet unset_memory unset_memory unset_memory 0 30 30 lone neighbor lone
      neighbor-IsMet refl refl tt refl
