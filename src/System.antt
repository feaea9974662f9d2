-- ===== src/System.antt =====
-- kernel_module/ODS_kernel, lib/ODS, LA and LA_Client_aodv together: a request that the daemon can answer
-- at once.
use unified_routing_framewor.Prelude.{
  ℕ, suc, ◌-◌, ◌<◌, ◌≡◌, ◌⊎◌, inl, inr, refl, sym, ap, ◌∙◌, List, ◌∷◌, Option, none, some, true,
  false, arith, length, ◌==◌, ==_self, if◌then◌else◌,
}
use unified_routing_framewor.Prelude.Outcome.{done}
use unified_routing_framewor.LaMessage.{LaMessage, IsValid, zeros, generate_stream, parse_stream}
use unified_routing_framewor.Agent.{
  LaServ, Agent, RouteRequest, act, send, ods_feedback_route_reply, first_daemon,
  la_ods_message_handle, la_serv_handle_message,
}
use unified_routing_framewor.PacketQueue.{Element, PacketQueue, nf_accept, nf_drop}
use unified_routing_framewor.PacketQueue.Release.{Releases}
use unified_routing_framewor.Netlink.{NetlinkMessage, packet_from_local}
use unified_routing_framewor.KernelModule.{KernelModule, rt_info_of, send_rtinfo, recv_msg}
use unified_routing_framewor.Ods.{Ods, Devices, ods_get_route_request, ods_feedback_reply}
use unified_routing_framewor.Ods.Answers.{
  IsHeader, send_rtinfo-parse_stream, generate_stream-recv_msg,
}
use unified_routing_framewor.RouteEntry.{RtableEntry}
use unified_routing_framewor.Node.{Node, feedback, ip_found, ip_nofound}
use unified_routing_framewor.Node.Timers.{reset_reboot_timer}
use unified_routing_framewor.ErrorReports.{generate_rerr}
use unified_routing_framewor.RoutingTable.{find_active_route}
use unified_routing_framewor.Daemon.{process_asl, ipproto_tcp, repair_or_report}
use unified_routing_framewor.Daemon.Discovery.{Uninitialised, send_rreq}
use unified_routing_framewor.Daemon.Loop.{feedback_message, la_buffer, recv_la_data}

-- The daemon can answer the request for a packet at once: it has an active route, or it reboots and the
-- packet comes from the daemon's own address.
abbrev pub IsAnswered : Element → Node → ℕ → Type 0
IsAnswered e s v =
    ((s.during_reboot ≡ false)
      × (r : RtableEntry) × (find_active_route e.dst_ip s ≡ some r)
      × (v ≡ ip_found))
    ⊎ ((s.during_reboot ≡ true) × (e.src_ip ≡ s.my_ip) × (v ≡ ip_nofound))

-- While the daemon reboots.
abbrev rebooting : Element → Node → Node
rebooting e s =
    if e.src_ip == s.my_ip
    then feedback e.dst_ip ip_nofound s
    else generate_rerr e.dst_ip 0 true (feedback e.dst_ip ip_nofound (reset_reboot_timer s))

-- Without an active route.
abbrev unrouted : Uninitialised → Element → Node → Node
unrouted raw e s =
    if e.src_ip == s.my_ip
    then send_rreq raw e.dst_ip (if e.protocol == ipproto_tcp then 1 else raw.rflags) s
    else repair_or_report e.dst_ip e.src_ip e.protocol s

abbrev routed : Uninitialised → Element → Node → Option RtableEntry → Node
routed raw e s none = unrouted raw e s
routed raw e s (some r) = feedback e.dst_ip ip_found s

process_asl-cases :
    (raw : Uninitialised) (e : Element) (s : Node)
    → process_asl raw e.dst_ip e.src_ip e.protocol s
      ≡ (if s.during_reboot then rebooting e s else routed raw e s (find_active_route e.dst_ip s))
unfolding process_asl
process_asl-cases raw e s =
    ap (λ x. if s.during_reboot then rebooting e s else x)
      (elim (find_active_route e.dst_ip s)
        as (λ o.
          (elim o as (λ x. Node) [
            | some r ↦ feedback e.dst_ip ip_found s
            | none ↦ unrouted raw e s
          ])
          ≡ routed raw e s o) [ none ↦ refl | some r ↦ refl ])

process_asl-answers :
    (raw : Uninitialised) (e : Element) (s : Node) (v : ℕ)
    → IsAnswered e s v
    → process_asl raw e.dst_ip e.src_ip e.protocol s ≡ feedback e.dst_ip v s
process_asl-answers raw e s v (inl (b, r, f, w)) =
    process_asl-cases raw e s
    ∙ ap (λ x. if x then rebooting e s else routed raw e s (find_active_route e.dst_ip s)) b
    ∙ ap (routed raw e s) f
    ∙ ap (λ x. feedback e.dst_ip x s) (sym w)
process_asl-answers raw e s v (inr (b, m, w)) =
    process_asl-cases raw e s
    ∙ ap (λ x. if x then rebooting e s else routed raw e s (find_active_route e.dst_ip s)) b
    ∙ ap
        (λ x.
          if x
          then feedback e.dst_ip ip_nofound s
          else generate_rerr e.dst_ip 0 true (feedback e.dst_ip ip_nofound (reset_reboot_timer s)))
        (ap (λ x. x == s.my_ip) m ∙ ==_self s.my_ip)
    ∙ ap (λ x. feedback e.dst_ip x s) (sym w)

recv_la_data-process_asl :
    (raw : Uninitialised) (bytes : List ℕ) (m : LaMessage) (s : Node)
    → parse_stream (la_buffer bytes) ≡ some m
    → recv_la_data raw (some bytes) s
      ≡ done (process_asl raw m.dst_address m.src_address m.protocol s)
unfolding recv_la_data
recv_la_data-process_asl raw bytes m s e = rw (e, recv_la_data) refl

answer_word : (e : Element) (s : Node) (v : ℕ) → IsAnswered e s v → v < 2
answer_word e s v (inl (b, r, f, w)) = omega (arith, w)
answer_word e s v (inr (b, m, w)) = omega (arith, w)

-- For a packet that this host sends itself, with its fields in their ranges: where the kernel has memory
-- for its message, the agent has a daemon among its clients and the count of the queue is right, and
-- the daemon has an active route to the packet's destination and does not reboot, or reboots and the
-- packet's source is the daemon's own address, the kernel's message becomes the agent's request, this
-- the daemon's answer, and this a message to the kernel, on which the kernel sends on all packets that wait
-- for the destination if there is a route, and frees them while the daemon reboots; all other packets
-- wait. Packets that the host forwards are left out.
pub request-Releases :
    (raw : Uninitialised) (e : Element) (h_dest mac : List ℕ) (memory : ℕ → ℕ) (k : KernelModule)
    (d : Devices) (a : Agent) (c : LaServ) (o : Ods) (s : Node) (v : ℕ)
    → IsHeader e
    → e.origin ≡ packet_from_local
    → length mac ≡ 6
    → first_daemon a.la_serv_list ≡ some c
    → k.queue.len ≡ length k.queue.packets
    → IsAnswered e s v
    → (m : NetlinkMessage) × (r : RouteRequest) × (bytes : List ℕ) × (buffer : List ℕ)
      × (n : NetlinkMessage) × (q : PacketQueue) × (send_rtinfo true memory
            (rt_info_of h_dest mac e)
            k
          ≡ some (k.user_pid, m))
      × (ods_get_route_request d (some m.payload) ≡ done (true, r))
      × (la_ods_message_handle r a ≡ done (act (send c.sock_fd bytes) a))
      × (recv_la_data raw (some bytes) s ≡ done (feedback e.dst_ip v s))
      × (generate_stream (feedback_message e.dst_ip v) 1024 ≡ some (17, buffer))
      × (la_serv_handle_message c.sock_fd (some buffer) a
          ≡ done (act (ods_feedback_route_reply e.dst_ip v) a))
      × (ods_feedback_reply e.dst_ip v o ≡ record o { sent = (o.nlfd, n) ∷ o.sent })
      × (recv_msg (suc k.queue.len) n k ≡ done (record k { queue = q }))
      × Releases e.dst_ip (if v == 1 then nf_accept else nf_drop) k.queue q
request-Releases raw e h_dest mac memory k d a c o s v head origin size first counted answered =
    let (m, r, bytes, sent, got, handled, length17, parsed) =
      send_rtinfo-parse_stream e h_dest mac memory k d a c head origin size first in
    let word = answer_word e s v answered in
    let valid : IsValid (feedback_message e.dst_ip v) = record {
      cmd_bound = omega arith;
      dst_bound = head.dst_bound;
      src_bound = omega arith;
      protocol_bound = omega arith;
      result_bound = omega (arith, word);
    } in
    let (buffer, n, q, made, replied, fed, received, releases) =
      generate_stream-recv_msg c.sock_fd 1024 (suc k.queue.len) (feedback_message e.dst_ip v) a o k
        valid refl (omega arith) counted (omega arith) in
    (
      m,
      r,
      bytes,
      buffer,
      n,
      q,
      sent,
      got,
      handled,
      recv_la_data-process_asl raw bytes _ s (parsed (zeros (1024 - length bytes)))
          ∙ ap done (process_asl-answers raw e s v answered),
      made,
      replied,
      fed,
      received,
      releases,
    )
