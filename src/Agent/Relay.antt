-- ===== src/Agent/Relay.antt =====
-- LA/la_select.cpp, la_serv.cpp and lib/COMMON/la_message.cpp together: the way of a request from the
-- kernel to a daemon, and of its reply back.
use unified_routing_framewor.Prelude.{
  ℕ, ◌%◌, ◌≤◌, ◌≡◌, refl, List, [], ◌∷◌, ◌++◌, none, some, arith, length,
}
use unified_routing_framewor.Prelude.Outcome.{done}
use unified_routing_framewor.LaMessage.{
  LaMessage, IsValid, word_bytes, word_of-word_bytes, generate_stream, parse_stream,
  parse_stream-generate_stream,
}
use unified_routing_framewor.Agent.{
  LaServ, Agent, RouteRequest, act, send, ods_feedback_route_reply, la_ods_reply, first_daemon,
  request_message, take_bytes, la_ods_message_handle, la_serv_handle_message,
}

-- The bytes of a message.
abbrev pub message_bytes : LaMessage → List ℕ
message_bytes m =
    word_bytes m.cmd
    ++ word_bytes m.dst_address
    ++ word_bytes m.src_address
    ++ m.protocol % 256 ∷ []
    ++ word_bytes m.result

pub la_ods_message_handle-sends :
    (r : RouteRequest) (s : Agent) (c : LaServ)
    → first_daemon s.la_serv_list ≡ some c
    → la_ods_message_handle r s ≡ done (act (send c.sock_fd (message_bytes (request_message r))) s)
unfolding la_ods_message_handle generate_stream take_bytes
la_ods_message_handle-sends r s c e = rw (e, la_ods_message_handle) refl

pub la_ods_message_handle-idle :
    (r : RouteRequest) (s : Agent)
    → first_daemon s.la_serv_list ≡ none
    → la_ods_message_handle r s ≡ done s
unfolding la_ods_message_handle
la_ods_message_handle-idle r s e = rw (e, la_ods_message_handle) refl

parse_stream-message_bytes :
    (m : LaMessage) (rest : List ℕ) → IsValid m → parse_stream (message_bytes m ++ rest) ≡ some m
unfolding parse_stream
parse_stream-message_bytes m rest v = ground (
  arith,
  word_of-word_bytes m.cmd v.cmd_bound,
  word_of-word_bytes m.dst_address v.dst_bound,
  word_of-word_bytes m.src_address v.src_bound,
  word_of-word_bytes m.result v.result_bound,
  v.protocol_bound,
)

-- Where a client of the agent is a daemon and the fields of a request of the kernel are in their
-- ranges, `la_ods_message_handle` sends 17 bytes to the first such client and changes nothing else;
-- `parse_stream` reads the request from them, whatever stands behind them.
pub la_ods_message_handle-parse_stream :
    (r : RouteRequest) (s : Agent) (c : LaServ)
    → first_daemon s.la_serv_list ≡ some c
    → IsValid (request_message r)
    → (bytes : List ℕ) × (la_ods_message_handle r s ≡ done (act (send c.sock_fd bytes) s))
      × (length bytes ≡ 17)
      × ((rest : List ℕ) → parse_stream (bytes ++ rest) ≡ some (request_message r))
la_ods_message_handle-parse_stream r s c e v = (
  message_bytes (request_message r),
  la_ods_message_handle-sends r s c e,
  refl,
  λ rest. parse_stream-message_bytes (request_message r) rest v,
)

la_serv_handle_message-replies :
    (fd : ℕ) (buffer : List ℕ) (m : LaMessage) (s : Agent)
    → parse_stream buffer ≡ some m
    → m.cmd ≡ la_ods_reply
    → la_serv_handle_message fd (some buffer) s
      ≡ done (act (ods_feedback_route_reply m.dst_address m.result) s)
unfolding la_serv_handle_message
la_serv_handle_message-replies fd buffer m s e c = rw (e, la_serv_handle_message, c) refl

-- What `generate_stream` makes of a reply, in a buffer of at least 17 bytes and with the fields in
-- their ranges, has the agent give the kernel module the reply's destination and result, and nothing else.
pub la_serv_handle_message-generate_stream :
    (fd size : ℕ) (m : LaMessage) (s : Agent)
    → IsValid m
    → m.cmd ≡ la_ods_reply
    → 17 ≤ size
    → (buffer : List ℕ) × (generate_stream m size ≡ some (17, buffer))
      × (la_serv_handle_message fd (some buffer) s
          ≡ done (act (ods_feedback_route_reply m.dst_address m.result) s))
la_serv_handle_message-generate_stream fd size m s v c h =
    let (buffer, g, l, p) = parse_stream-generate_stream m size v h in
    (buffer, g, la_serv_handle_message-replies fd buffer m s p c)
