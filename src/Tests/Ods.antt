-- ===== src/Tests/Ods.antt =====
-- The theorems on the kernel module and the library ODS at concrete states of kernel_module/ODS_kernel
-- and lib/ODS.
use unified_routing_framewor.Prelude.{
  ℕ, suc, ◌≡◌, ◌≢◌, ◌⊎◌, inl, refl, List, [], ◌∷◌, ◌++◌, some, Bool, true, arith, length, All,
}
use unified_routing_framewor.Prelude.Outcome.{Outcome, done, fault, overrun}
use unified_routing_framewor.LaMessage.{LaMessage, generate_stream, parse_stream}
use unified_routing_framewor.Agent.{
  Agent, RouteRequest, act, send, ods_feedback_route_reply, la_ods_message_handle,
  la_serv_handle_message, first_daemon,
}
use unified_routing_framewor.Netlink.{NetlinkMessage, RtInfo, rt_info_bytes}
use unified_routing_framewor.PacketQueue.{Element, nf_accept, PacketQueue}
use unified_routing_framewor.PacketQueue.Release.{Releases}
use unified_routing_framewor.PacketQueue.Bounds.{IsCounted}
use unified_routing_framewor.PacketQueue.Asks.{Asks}
use unified_routing_framewor.KernelModule.{
  KernelModule, init_mymodule, check_packet, rt_info_of, send_rtinfo, recv_msg, deal_init_msg,
}
use unified_routing_framewor.KernelModule.Steps.{
  packet, message, Run, here, next, IsSilent, Run-Asks, recv_msg-IsCounted,
}
use unified_routing_framewor.Ods.{
  Ods, Devices, mac_address_cmp, request_of, ods_get_route_request, ods_feedback_reply,
}
use unified_routing_framewor.Ods.Answers.{send_rtinfo-parse_stream, generate_stream-recv_msg}
use unified_routing_framewor.Ods.Interfaces.{ods_get_route_request-indev}

abbrev pub skb : ℕ → ℕ → Element
skb n dst = record { skb = n; dst_ip = dst; src_ip = 10; protocol = 17; origin = 0 }

-- The library has said hello, and two packets wait.
abbrev pub module_state : KernelModule
module_state = record {
  queue = record { packets = skb 2 30 ∷ skb 1 20 ∷ []; len = 2; maxlen = 1000; events = [] };
  transmission_flag = true;
  user_pid = 500;
}

abbrev pub local_agent : Agent
local_agent = record {
  la_serv_list = record { sock_fd = 6; kind = 0 } ∷ [];
  command_server_fd = 4;
  ods_fd = some 3;
  fd_list = 3 ∷ 4 ∷ 6 ∷ [];
  rbits_fd = [];
  fd_num = 0;
  acts = [];
}

-- The interface "lo", whose address is 2:1:1:1:1:1, and no tunnel.
abbrev pub devices : Devices
devices = record {
  names = (108 ∷ 111 ∷ []) ∷ [];
  has_socket = true;
  hwaddr = λ name. some (2 ∷ 1 ∷ 1 ∷ 1 ∷ 1 ∷ 1 ∷ []);
  if_nametoindex = λ name. 0;
}

send_rtinfo-parse_stream_example :
    (m : NetlinkMessage) × (r : RouteRequest) × (bytes : List ℕ) × (send_rtinfo true
        (λ i. 0)
        (rt_info_of [] (0 ∷ 0 ∷ 0 ∷ 0 ∷ 0 ∷ 0 ∷ []) (skb 1 20))
        module_state
      ≡ some (500, m))
    × (ods_get_route_request devices (some m.payload) ≡ done (true, r))
    × (la_ods_message_handle r local_agent ≡ done (act (send 6 bytes) local_agent))
    × (length bytes ≡ 17)
    × ((rest : List ℕ)
        → parse_stream (bytes ++ rest)
          ≡ some
              (record { cmd = 0; dst_address = 20; src_address = 10; protocol = 17; result = 0 }))
send_rtinfo-parse_stream_example =
    send_rtinfo-parse_stream (skb 1 20) [] (0 ∷ 0 ∷ 0 ∷ 0 ∷ 0 ∷ 0 ∷ []) (λ i. 0) module_state
      devices local_agent (record { sock_fd = 6; kind = 0 })
      (record { dst_bound = omega arith; src_bound = omega arith; protocol_bound = omega arith })
      refl refl (unfold first_daemon in refl)

-- The daemon has found a route.
abbrev found : LaMessage
found = record { cmd = 1; dst_address = 20; src_address = 10; protocol = 17; result = 1 }

abbrev pub library : Ods
library = record { nlfd = some 3; tunfd = some 5; pid = 500; sent = [] }

generate_stream-recv_msg_example :
    (buffer : List ℕ) × (n : NetlinkMessage) × (q : PacketQueue) × (generate_stream found 1024
      ≡ some (17, buffer))
    × (la_serv_handle_message 6 (some buffer) local_agent
        ≡ done (act (ods_feedback_route_reply 20 1) local_agent))
    × (ods_feedback_reply 20 1 library ≡ record library { sent = (some 3, n) ∷ [] })
    × (recv_msg 3 n module_state ≡ done (record module_state { queue = q }))
    × Releases 20 nf_accept module_state.queue q
generate_stream-recv_msg_example =
    generate_stream-recv_msg 6 1024 3 found local_agent library module_state
      (record {
        cmd_bound = omega arith;
        dst_bound = omega arith;
        src_bound = omega arith;
        protocol_bound = omega arith;
        result_bound = omega arith;
      })
      refl (omega arith) refl (omega arith)

-- A packet that was sent to the interface's address.
abbrev forwarded : RtInfo
forwarded = record {
  dst_ip = 20;
  src_ip = 10;
  protocol = 17;
  packet_source_type = 1;
  mac_dst_addr = 2 ∷ 1 ∷ 1 ∷ 1 ∷ 1 ∷ 1 ∷ [];
}

abbrev indev : List (List ℕ) → Outcome (Bool × RouteRequest)
indev names =
    ods_get_route_request (record devices { names = names })
      (some (rt_info_bytes (λ i. 0) forwarded))

ods_get_route_request-indev_example :
    (indev [] ≡ done (true, request_of forwarded))
    × ((All (λ b. b ≢ 0) forwarded.mac_dst_addr × (indev ((108 ∷ 111 ∷ []) ∷ []) ≡ fault overrun))
        ⊎ ((x rest : List ℕ) × (forwarded.mac_dst_addr ≡ x ++ 0 ∷ rest)
            × (indev ((108 ∷ 111 ∷ []) ∷ [])
                ≡ done (true, record (request_of forwarded) { input_ifindex = 0 }))))
ods_get_route_request-indev_example =
    ods_get_route_request-indev devices (λ i. 0) forwarded [] [] (108 ∷ 111 ∷ [])
      (2 ∷ 1 ∷ 1 ∷ 1 ∷ 1 ∷ 1 ∷ [])
      (record {
        dst_bound = omega arith;
        src_bound = omega arith;
        protocol_bound = omega arith;
        source_bound = omega arith;
        mac_size = refl;
      })
      refl tt refl refl (unfold mac_address_cmp in refl)

-- A packet comes by the tunnel for the destination 20, and then a hello message.
abbrev arrives : KernelModule → KernelModule
arrives s = (check_packet 0 (109 ∷ 121 ∷ 116 ∷ 117 ∷ 110 ∷ []) true true (skb 3 20) s).1

abbrev hello : NetlinkMessage
hello = record { nlmsg_type = 0; nlmsg_pid = 600; payload = 0 ∷ 0 ∷ 0 ∷ 0 ∷ 0 ∷ 0 ∷ 0 ∷ 0 ∷ [] }

run : Run (IsSilent 20) module_state (deal_init_msg hello (arrives module_state))
unfolding recv_msg
run =
    next (next here (packet 0 (109 ∷ 121 ∷ 116 ∷ 117 ∷ 110 ∷ []) true true (skb 3 20) refl))
      (message hello (inl (omega arith)) refl)

Run-Asks_example : Asks 20 module_state.queue (deal_init_msg hello (arrives module_state)).queue
Run-Asks_example = Run-Asks 20 (record { counted = refl; bounded = omega arith }) run

abbrev fresh : KernelModule
fresh = init_mymodule module_state.queue

recv_msg-IsCounted_example :
    (s₁ : KernelModule) × (recv_msg (suc (arrives fresh).queue.len) hello (arrives fresh) ≡ done s₁)
    × IsCounted s₁.queue
recv_msg-IsCounted_example =
    recv_msg-IsCounted module_state.queue (arrives fresh) hello
      (next here (packet 0 (109 ∷ 121 ∷ 116 ∷ 117 ∷ 110 ∷ []) true true (skb 3 20) refl))
      (omega arith)
