-- ===== src/Ods/Answers.antt =====
-- kernel_module/ODS_kernel and lib/ODS with LA together: the way of a request from the kernel's queue to
-- a daemon, and of the daemon's reply back to the packets that wait.
use unified_routing_framewor.Prelude.{
  ◌==◌, if◌then◌else◌, ℕ, ◌%◌, ◌^◌, ◌<◌, ◌≤◌, ◌≡◌, refl, ap, List, ◌∷◌, ◌++◌, some, true, arith,
  length,
}
use unified_routing_framewor.Prelude.Outcome.{done}
use unified_routing_framewor.LaMessage.{
  LaMessage, IsValid, word_of-word_bytes, generate_stream, parse_stream,
}
use unified_routing_framewor.Agent.{
  LaServ, Agent, RouteRequest, act, send, ods_feedback_route_reply, la_ods_reply, first_daemon,
  request_message, la_ods_message_handle, la_serv_handle_message,
}
use unified_routing_framewor.Agent.Relay.{
  la_ods_message_handle-parse_stream, la_serv_handle_message-generate_stream,
}
use unified_routing_framewor.PacketQueue.{nf_accept, nf_drop, Element, PacketQueue}
use unified_routing_framewor.PacketQueue.Release.{Releases, send_packet-Releases}
use unified_routing_framewor.Netlink.{
  NetlinkMessage, RtInfo, RtResult, nlmsg_type_info, packet_from_local, rt_info_bytes,
  rt_result_bytes, read_rt_result,
}
use unified_routing_framewor.KernelModule.Messages.{recv_msg-info}
use unified_routing_framewor.KernelModule.{
  KernelModule, rt_info_of, send_rtinfo, verdict_of, recv_msg,
}
use unified_routing_framewor.Ods.Bytes.{IsInfo, read_rt_info-back}
use unified_routing_framewor.Ods.{
  Ods, Devices, message, request_of, ods_recv_msg, ods_get_route_request, ods_feedback_reply,
  ods_send_info_msg, sendmsg,
}

-- What the fields of a packet's header can hold.
pub record IsHeader (e : Element) : Type 0 where
  pub dst_bound : e.dst_ip < 2 ^ 32
  pub src_bound : e.src_ip < 2 ^ 32
  pub protocol_bound : e.protocol < 2 ^ 8

read_rt_result-message :
    (kind pid : ℕ) (r : RtResult)
    → r.now_ip < 2 ^ 32
    → r.result < 2 ^ 32
    → read_rt_result (message kind pid (rt_result_bytes r)).payload ≡ some r
unfolding message rt_result_bytes read_rt_result
read_rt_result-message kind pid r h k =
    ground (arith, word_of-word_bytes r.now_ip h, word_of-word_bytes r.result k)

ods_get_route_request-local :
    (d : Devices) (received : List ℕ) (i : RtInfo)
    → ods_recv_msg (some received) ≡ i
    → i.packet_source_type ≡ packet_from_local
    → ods_get_route_request d (some received) ≡ done (true, request_of i)
unfolding ods_get_route_request
ods_get_route_request-local d received i e h = rw (e, ods_get_route_request, h) refl

-- Where the destination's request is of a packet of this host, a client of the agent is a daemon
-- and the kernel has memory for the message, the library gets the request from the kernel's message,
-- whatever its memory held before and whatever the interfaces are, and the agent sends the first
-- daemon 17 bytes, which `parse_stream` reads as the request for a route from the packet's source to its
-- destination with its protocol.
pub send_rtinfo-parse_stream :
    (e : Element) (h_dest mac : List ℕ) (memory : ℕ → ℕ) (k : KernelModule) (d : Devices)
    (s : Agent) (c : LaServ)
    → IsHeader e
    → e.origin ≡ packet_from_local
    → length mac ≡ 6
    → first_daemon s.la_serv_list ≡ some c
    → (m : NetlinkMessage) × (r : RouteRequest) × (bytes : List ℕ) × (send_rtinfo true memory
          (rt_info_of h_dest mac e)
          k
        ≡ some (k.user_pid, m))
      × (ods_get_route_request d (some m.payload) ≡ done (true, r))
      × (la_ods_message_handle r s ≡ done (act (send c.sock_fd bytes) s))
      × (length bytes ≡ 17)
      × ((rest : List ℕ)
          → parse_stream (bytes ++ rest)
            ≡ some (record {
              cmd = 0;
              dst_address = e.dst_ip;
              src_address = e.src_ip;
              protocol = e.protocol;
              result = 0;
            }))
unfolding send_rtinfo rt_info_of request_of
send_rtinfo-parse_stream e h_dest mac memory k d s c v o l first =
    let i : RtInfo = rt_info_of h_dest mac e in
    let info : IsInfo i = record {
      dst_bound = v.dst_bound;
      src_bound = v.src_bound;
      protocol_bound = v.protocol_bound;
      source_bound = omega (arith, o);
      mac_size = rw (o) l;
    } in
    let valid : IsValid (request_message (request_of i)) = record {
      cmd_bound = omega arith;
      dst_bound = v.dst_bound;
      src_bound = v.src_bound;
      protocol_bound = v.protocol_bound;
      result_bound = omega arith;
    } in
    let (bytes, sends, size, back) =
      la_ods_message_handle-parse_stream (request_of i) s c first valid in
    (
      record { nlmsg_type = nlmsg_type_info; nlmsg_pid = 0; payload = rt_info_bytes memory i },
      request_of i,
      bytes,
      refl,
      ods_get_route_request-local d (rt_info_bytes memory i) i (read_rt_info-back memory i info) o,
      sends,
      size,
      back,
    )

to_word : (n : ℕ) → n < 2 ^ 32 → n % 2 ^ 32 ≡ n
to_word n h = omega (arith, h)

-- Where the fields of a daemon's reply are in their ranges and the count of the kernel's queue is right, the
-- agent that gets what `generate_stream` makes of the reply, in a buffer of at least 17 bytes, has the
-- library send the kernel module one message. On it, with fuel larger than the count, `recv_msg` returns: it
-- has sent on the packets for the reply's destination where the result is IP_FOUND, and freed
-- them otherwise, in the order in which they came, and left all others and its other variables
-- alone.
pub generate_stream-recv_msg :
    (fd size fuel : ℕ) (m : LaMessage) (a : Agent) (o : Ods) (k : KernelModule)
    → IsValid m
    → m.cmd ≡ la_ods_reply
    → 17 ≤ size
    → k.queue.len ≡ length k.queue.packets
    → k.queue.len < fuel
    → (buffer : List ℕ) × (n : NetlinkMessage) × (q : PacketQueue) × (generate_stream m size
        ≡ some (17, buffer))
      × (la_serv_handle_message fd (some buffer) a
          ≡ done (act (ods_feedback_route_reply m.dst_address m.result) a))
      × (ods_feedback_reply m.dst_address m.result o ≡ record o { sent = (o.nlfd, n) ∷ o.sent })
      × (recv_msg fuel n k ≡ done (record k { queue = q }))
      × Releases m.dst_address (if m.result == 1 then nf_accept else nf_drop) k.queue q
unfolding ods_feedback_reply ods_send_info_msg sendmsg
generate_stream-recv_msg fd size fuel m a o k v c h counted f =
    let (buffer, made, handled) = la_serv_handle_message-generate_stream fd size m a v c h in
    let r : RtResult = record { now_ip = m.dst_address; result = m.result } in
    let (q, sent, releases) =
      send_packet-Releases fuel m.dst_address (verdict_of m.result) k.queue counted f in
    let n = message nlmsg_type_info o.pid (rt_result_bytes r) in
    (
      buffer,
      n,
      q,
      made,
      handled,
      ap
          (λ x. record o {
            sent =
                (
                  o.nlfd,
                  message nlmsg_type_info o.pid
                      (rt_result_bytes (record { now_ip = x; result = m.result })),
                )
                ∷ o.sent;
          })
          (to_word m.dst_address v.dst_bound),
      recv_msg-info fuel n r k q (unfold message in refl)
          (read_rt_result-message nlmsg_type_info o.pid r v.dst_bound v.result_bound) sent,
      releases,
    )
