-- ===== src/Ods.antt =====
-- lib/ODS/ods_userspace_netlink.cpp: the library by which the local agent talks to the kernel module.
-- Names and addresses of devices are lists of bytes; what the system answers is an argument.
pub mod Bytes
pub mod Answers
pub mod Interfaces
use unified_routing_framewor.Prelude.{
  ℕ, ◌-◌, ◌^◌, ◌%◌, List, [], ◌∷◌, ◌++◌, Option, none, some, Bool, true, false, ◌==◌, length,
  if◌then◌else◌, same_string,
}
use unified_routing_framewor.Prelude.Outcome.{Outcome, done, fault, overrun}
use unified_routing_framewor.LaMessage.{zeros}
use unified_routing_framewor.Agent.{RouteRequest}
use unified_routing_framewor.Netlink.{
  NetlinkMessage, RtInfo, nlmsg_type_init, nlmsg_type_info, nlmsg_type_exit, max_payload,
  packet_from_other, read_rt_info, rt_result_bytes,
}

-- "mytun"
abbrev pub tun_dev_name : List ℕ
tun_dev_name = 109 ∷ 121 ∷ 116 ∷ 117 ∷ 110 ∷ []

-- "Hello you, my kernel moudle!"
abbrev pub hello_text : List ℕ
hello_text =
    72 ∷ 101 ∷ 108 ∷ 108 ∷ 111 ∷ 32 ∷ 121 ∷ 111 ∷ 117 ∷ 44 ∷ 32 ∷ 109 ∷ 121 ∷ 32 ∷ 107 ∷ 101 ∷ 114
    ∷ 110 ∷ 101 ∷ 108 ∷ 32 ∷ 109 ∷ 111 ∷ 117 ∷ 100 ∷ 108 ∷ 101 ∷ 33 ∷ []

-- "Userspace netlink is going to be exit soon"
abbrev pub exit_text : List ℕ
exit_text =
    85 ∷ 115 ∷ 101 ∷ 114 ∷ 115 ∷ 112 ∷ 97 ∷ 99 ∷ 101 ∷ 32 ∷ 110 ∷ 101 ∷ 116 ∷ 108 ∷ 105 ∷ 110 ∷ 107
    ∷ 32 ∷ 105 ∷ 115 ∷ 32 ∷ 103 ∷ 111 ∷ 105 ∷ 110 ∷ 103 ∷ 32 ∷ 116 ∷ 111 ∷ 32 ∷ 98 ∷ 101 ∷ 32 ∷ 101
    ∷ 120 ∷ 105 ∷ 116 ∷ 32 ∷ 115 ∷ 111 ∷ 111 ∷ 110 ∷ []

-- The static variables, where `none` is -1, and what is sent, newest first, with its socket.
pub record Ods : Type 0 where
  pub nlfd : Option ℕ
  pub tunfd : Option ℕ
  pub pid : ℕ
  pub sent : List (Option ℕ × NetlinkMessage)

-- What the system says of the interfaces: the names that `getifaddrs` gives, whether `get_mac` gets a
-- socket, the address that `ioctl` gives for a name, and `if_nametoindex`.
pub record Devices : Type 0 where
  pub names : List (List ℕ)
  pub has_socket : Bool
  pub hwaddr : List ℕ → Option (List ℕ)
  pub if_nametoindex : List ℕ → ℕ

-- A message whose memory was set to 0 before it was filled.
unfoldable pub message : ℕ → ℕ → List ℕ → NetlinkMessage
message kind pid bytes = record {
  nlmsg_type = kind;
  nlmsg_pid = pid;
  payload = bytes ++ zeros (max_payload - length bytes);
}

unfoldable pub sendmsg : NetlinkMessage → Ods → Ods
sendmsg m s = record s { sent = (s.nlfd, m) ∷ s.sent }

unfoldable pub ods_send_init_msg : Ods → Ods
ods_send_init_msg s = sendmsg (message nlmsg_type_init s.pid hello_text) s

-- `ods_send_info_msg`; the address is an `unsigned long`.
unfoldable pub ods_send_info_msg : ℕ → ℕ → Ods → Ods
ods_send_info_msg dest_ip result s =
    sendmsg
      (message nlmsg_type_info s.pid
        (rt_result_bytes (record { now_ip = dest_ip % 2 ^ 32; result = result })))
      s

unfoldable pub ods_send_exit_msg : Ods → Ods
ods_send_exit_msg s = sendmsg (message nlmsg_type_exit s.pid exit_text) s

-- `ods_recv_msg`, where `none` says that `recvmsg` fails, which leaves the buffer as it was set.
unfoldable pub ods_recv_msg : Option (List ℕ) → RtInfo
ods_recv_msg none = read_rt_info []
ods_recv_msg (some received) = read_rt_info received

-- `get_mac`; `none` is the return value -1.
abbrev pub get_mac : Devices → List ℕ → Option (List ℕ)
get_mac d ifname = if d.has_socket then d.hwaddr ifname else none

-- `mac_address_cmp`
unfoldable pub mac_address_cmp : List ℕ → List ℕ → Bool
mac_address_cmp [] [] = true
mac_address_cmp (a ∷ l) (b ∷ m) = if a == b then mac_address_cmp l m else false
mac_address_cmp _ _ = false

-- `ods_init_user_socket`, with its return value, where the first argument is what `socket` returns.
unfoldable pub ods_init_user_socket : Option ℕ → Ods → Option ℕ × Ods
ods_init_user_socket none s = (some 0, record s { nlfd = none })
ods_init_user_socket (some fd) s = (some fd, record s { nlfd = some fd })

-- `ods_turn_up`, with its return value; the first argument is what `ods_init_tun_dev` returns.
unfoldable pub ods_turn_up : Option ℕ → Option ℕ → Ods → Option ℕ × Ods
ods_turn_up none socket s = (none, s)
ods_turn_up (some tun_fd) socket s =
    let (netlink_ret, s₁) = ods_init_user_socket socket (record s { tunfd = some tun_fd }) in
    elim netlink_ret [ none ↦ (none, s₁) | some ret ↦ (s₁.nlfd, ods_send_init_msg s₁) ]

-- `ods_turn_down`, without the `close` of the socket.
unfoldable pub ods_turn_down : Ods → Ods
ods_turn_down s = ods_send_exit_msg s

-- The string that begins at an array; `none` where the array has no byte 0, and it goes on behind.
unfoldable pub c_string : List ℕ → Option (List ℕ)
c_string [] = none
c_string (a ∷ l) =
    if a == 0 then some [] else elim (c_string l) [ none ↦ none | some x ↦ some (a ∷ x) ]

-- The loop of `ODS_get_route_request` over the interfaces. Its result is false for the return value -1.
unfoldable pub find_indev :
    Devices → List ℕ → List (List ℕ) → RouteRequest → Outcome (Bool × RouteRequest)
find_indev d mac_addr [] r = done (true, r)
find_indev d mac_addr (ifa_name ∷ l) r =
    let rest = find_indev d mac_addr l r in
    if same_string ifa_name tun_dev_name then rest else elim (get_mac d ifa_name) [
      | none ↦ done (false, r)
      | some interface_adress ↦
          if mac_address_cmp mac_addr interface_adress
          then elim (c_string mac_addr) [
            | none ↦ fault overrun
            | some name ↦ done (true, record r { input_ifindex = d.if_nametoindex name })
          ]
          else rest
    ]

-- What `ODS_get_route_request` stores before the loop.
unfoldable pub request_of : RtInfo → RouteRequest
request_of now_info = record {
  dst_ip = now_info.dst_ip;
  src_ip = now_info.src_ip;
  protocol = now_info.protocol;
  input_ifindex = 2 ^ 32 - 1;
}

-- `ODS_get_route_request`, where its arguments are not NULL and `malloc` succeeds.
unfoldable pub ods_get_route_request : Devices → Option (List ℕ) → Outcome (Bool × RouteRequest)
ods_get_route_request d received =
    let now_info = ods_recv_msg received in
    if now_info.packet_source_type == packet_from_other
    then find_indev d now_info.mac_dst_addr d.names (request_of now_info)
    else done (true, request_of now_info)

-- `ODS_feedback_route_reply`
unfoldable pub ods_feedback_reply : ℕ → ℕ → Ods → Ods
ods_feedback_reply now_ip result s = ods_send_info_msg now_ip result s
