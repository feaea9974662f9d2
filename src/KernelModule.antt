-- ===== src/KernelModule.antt =====
-- kernel_module/ODS_kernel: the module around the queue, which is packet_judgment.c,
-- info_transmission.c and ODS_kernel_module.c, with transmit_rtinfo of packet_queue.c. Sockets, hooks
-- and locks are the kernel's.
pub mod Messages
pub mod Steps
use unified_routing_framewor.Prelude.{
  ℕ, ◌+◌, ◌^◌, ◌-◌, List, [], ◌∷◌, Option, none, some, Bool, true, false, ◌==◌, if◌then◌else◌,
  same_string,
}
use unified_routing_framewor.Prelude.Outcome.{Outcome, done, fault, overrun, ◌>>=◌}
use unified_routing_framewor.Netlink.{
  NetlinkMessage, RtInfo, RtResult, nlmsg_type_init, nlmsg_type_info, nlmsg_type_exit, ip_found,
  packet_from_local, packet_from_other, rt_info_bytes, read_rt_result,
}
use unified_routing_framewor.PacketQueue.{
  Element, Verdict, nf_accept, nf_drop, PacketQueue, init_packet_queue, receive_packet, send_packet,
}

-- "mytun"
abbrev pub tunname : List ℕ
tunname = 109 ∷ 121 ∷ 116 ∷ 117 ∷ 110 ∷ []

-- The static variables of info_transmission.c and packet_queue.c; `user_pid` is an `int`, as its 32
-- bits.
pub record KernelModule : Type 0 where
  pub queue : PacketQueue
  pub transmission_flag : Bool
  pub user_pid : ℕ

-- `NF_ACCEPT` and `NF_STOLEN`
pub data HookResult : Type 0 where
  accepted stolen : HookResult

-- `init_mymodule`, where the calls of the kernel succeed, over the variables' first values.
unfoldable pub init_mymodule : PacketQueue → KernelModule
init_mymodule memory = record {
  queue = init_packet_queue memory;
  transmission_flag = false;
  user_pid = 2 ^ 32 - 1;
}

-- `judgment_packet`, by the name of the device that the packet leaves by.
abbrev pub judgment_packet : List ℕ → Bool
judgment_packet dst_dev = if same_string dst_dev tunname then false else true

-- `check_packet`, the handler of both hooks; `hookindex` is 0 or 1 by the hook, and `sent` and `allocated`
-- say whether `alloc_skb` and `kmalloc` succeed.
unfoldable pub check_packet :
    ℕ → List ℕ → Bool → Bool → Element → KernelModule → HookResult × KernelModule
check_packet hookindex dst_dev sent allocated skb s =
    if judgment_packet dst_dev
    then (accepted, s)
    else if hookindex == packet_from_local
    then (
      stolen,
      record s {
        queue =
            (receive_packet s.transmission_flag sent allocated
              (record skb { origin = packet_from_local }) s.queue).1;
      },
    )
    else if hookindex == packet_from_other
    then (
      stolen,
      record s {
        queue =
            (receive_packet s.transmission_flag sent allocated
              (record skb { origin = packet_from_other }) s.queue).1;
      },
    )
    else (stolen, s)

-- What `transmit_rtinfo` makes of a packet; `h_dest` is the address that its frame was sent to, and
-- `memory` what `mac_dst_addr` holds where it is not set.
unfoldable pub rt_info_of : List ℕ → List ℕ → Element → RtInfo
rt_info_of h_dest memory e = record {
  dst_ip = e.dst_ip;
  src_ip = e.src_ip;
  protocol = e.protocol;
  packet_source_type = e.origin;
  mac_dst_addr = if e.origin == packet_from_other then h_dest else memory;
}

-- `send_rtinfo`: the message with the process that it goes to; `none` where `alloc_skb` fails.
unfoldable pub send_rtinfo : Bool → (ℕ → ℕ) → RtInfo → KernelModule → Option (ℕ × NetlinkMessage)
send_rtinfo allocated memory now_info s =
    if allocated
    then some (
      s.user_pid,
      record {
        nlmsg_type = nlmsg_type_info;
        nlmsg_pid = 0;
        payload = rt_info_bytes memory now_info;
      },
    )
    else none

-- `deal_init_msg`
unfoldable pub deal_init_msg : NetlinkMessage → KernelModule → KernelModule
deal_init_msg m s = record s { user_pid = m.nlmsg_pid; transmission_flag = true }

-- What `deal_info_msg` gives `send_packet`.
abbrev pub verdict_of : ℕ → Verdict
verdict_of result = if result == ip_found then nf_accept else nf_drop

-- `deal_info_msg`. It reads the payload without a look at its length.
unfoldable pub deal_info_msg : ℕ → NetlinkMessage → KernelModule → Outcome KernelModule
deal_info_msg fuel m s = elim (read_rt_result m.payload) [
  | none ↦ fault overrun
  | some r ↦ send_packet fuel r.now_ip (verdict_of r.result) s.queue >>= λ queue₁.
      done (record s { queue = queue₁ })
]

-- `deal_exit_msg`
unfoldable pub deal_exit_msg : NetlinkMessage → KernelModule → KernelModule
deal_exit_msg m s = record s { user_pid = m.nlmsg_pid; transmission_flag = false }

-- `recv_msg`
unfoldable pub recv_msg : ℕ → NetlinkMessage → KernelModule → Outcome KernelModule
recv_msg fuel m s =
    if m.nlmsg_type == nlmsg_type_init
    then done (deal_init_msg m s)
    else if m.nlmsg_type == nlmsg_type_info
    then deal_info_msg fuel m s
    else if m.nlmsg_type == nlmsg_type_exit
    then done (deal_exit_msg m s)
    else done s
