-- ===== src/Fo/Routes.antt =====
-- lib/FO/fo.cpp: the routes that are read from the kernel.
use unified_routing_framewor.Prelude.{
  ℕ, suc, ◌*◌, List, [], ◌∷◌, Option, none, some, Bool, true, false, ◌==◌, if◌then◌else◌, get_elem?,
  set_elem,
}
use unified_routing_framewor.Prelude.Outcome.{Outcome, done, fault, overrun, hang, ◌>>=◌}
use unified_routing_framewor.Fo.{
  NlmsgType, rtm_newroute, rtm_delroute, rtm_getroute, nlmsg_done, nlmsg_error, nlmsg_other,
  nlm_f_request, nlm_f_dump, RtAttr, RtReq, RouteInfo, Macros, minus_one, is_negative, size_rtmsg,
  size_route_entry, parse_routes,
}

-- A message of the kernel's answer to RTM_GETROUTE.
pub record RtMsg : Type 0 where
  pub nlmsg_type : NlmsgType
  pub attributes : List RtAttr

-- The memory of the table that is filled, the number of routes, and whether NLMSG_DONE was seen.
pub record RouteDump : Type 0 where
  pub entries : List RouteInfo
  pub entry_number : ℕ
  pub end_flag : Bool

-- An entry that `memset` sets to 0.
abbrev pub zero_entry : RouteInfo
zero_entry = record { dst = 0; gateway = 0; ifindex = 0; metric = 0; src = 0; table = 0 }

-- A route is stored. The offset is counted in entries, since `table` is a pointer to entries.
unfoldable pub store_route : List RtAttr → RouteDump → Outcome RouteDump
store_route attributes s =
    let i = s.entry_number * size_route_entry in
    elim (get_elem? s.entries i) [
      | none ↦ fault overrun
      | some e ↦ done (record s {
        entries = set_elem s.entries i (parse_routes attributes zero_entry);
        entry_number = suc s.entry_number;
      })
    ]

unfoldable pub read_message : RtMsg → RouteDump → Outcome RouteDump
read_message m s = elim m.nlmsg_type [
  | nlmsg_done ↦ done (record s { end_flag = true })
  | rtm_newroute ↦ store_route m.attributes s
  | rtm_delroute ↦ done s
  | rtm_getroute ↦ done s
  | nlmsg_error ↦ done s
  | nlmsg_other n ↦ done s
]

-- The inner loop of `netlink_send_get_request`, over the messages that one `recvmsg` gives.
unfoldable pub read_messages : List RtMsg → RouteDump → Outcome RouteDump
read_messages [] s = done s
read_messages (m ∷ l) s = read_message m s >>= read_messages l

-- The outer loop, over what `recvmsg` gives in turn; `none` is an error, and a list without
-- messages is malformed. Its result is `none` for the return value -1.
unfoldable pub read_answers : List (Option (List RtMsg)) → RouteDump → Outcome (Option RouteDump)
read_answers [] s = if s.end_flag then done (some s) else fault hang
read_answers (x ∷ l) s = if s.end_flag then done (some s) else elim x [
  | none ↦ done none
  | some [] ↦ done none
  | some (m ∷ k) ↦ read_messages (m ∷ k) s >>= read_answers l
]

-- `netlink_send_get_request` over the memory of the table, with the number that it stores.
unfoldable pub netlink_send_get_request :
    Bool → List (Option (List RtMsg)) → List RouteInfo → Outcome (Option (List RouteInfo × ℕ))
netlink_send_get_request is_sent answers table =
    if is_sent
    then (read_answers answers (record { entries = table; entry_number = 0; end_flag = false })
        >>= λ r. done (elim r [ none ↦ none | some s ↦ some (s.entries, s.entry_number) ]))
    else done none

-- `FO_get_routes`: the request, and the result.
unfoldable pub fo_get_routes :
    Macros
    → Bool
    → List (Option (List RtMsg))
    → List RouteInfo
    → RtReq × Outcome (Option (List RouteInfo × ℕ))
fo_get_routes d is_sent answers table = (
  record {
    nlmsg_len = d.nlmsg_length size_rtmsg;
    nlmsg_type = rtm_getroute;
    nlmsg_flags = nlm_f_request ∷ nlm_f_dump ∷ [];
    rtm_dst_len = 0;
    buf = [];
  },
  netlink_send_get_request is_sent answers table,
)

-- `init_fo_socket` with its return value; `fo_socket_fd` is 0 at first, and the first argument is what
-- `socket` returns.
unfoldable pub init_fo_socket : ℕ → ℕ → ℕ × ℕ
init_fo_socket opened fo_socket_fd =
    if fo_socket_fd == 0
    then (if is_negative opened then minus_one else 0, opened)
    else (minus_one, fo_socket_fd)
