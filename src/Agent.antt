-- ===== src/Agent.antt =====
-- LA/la_select.cpp, la_serv.cpp, la_serv.h, common.h and the globals of main.cpp: the local agent,
-- between the kernel's requests for routes and the routing daemons, its clients. A descriptor is a
-- number; `ods_fd` is `none` where it is negative.
pub mod Descriptors
pub mod Loop
pub mod Relay
pub mod Pass
use unified_routing_framewor.Prelude.{
  ℕ, zero, suc, List, [], ◌∷◌, ◌++◌, Option, none, some, Bool, true, false, leb, ◌==◌,
  if◌then◌else◌, get_elem?,
}
use unified_routing_framewor.Prelude.Outcome.{Outcome, done, fault, overrun, hang, ◌>>=◌}
use unified_routing_framewor.LaMessage.{LaMessage, generate_stream, parse_stream}

abbrev pub la_client_daemon : ℕ
la_client_daemon = 0

abbrev pub la_ods_request : ℕ
la_ods_request = 0

abbrev pub la_ods_reply : ℕ
la_ods_reply = 1

-- `class LAServ`, with the members that are used.
pub record LaServ : Type 0 where
  pub sock_fd : ℕ
  pub kind : ℕ

-- The calls that leave the agent: a message to a client, a reply to the kernel module, `close`.
pub data Act : Type 0 where
  send : ℕ → List ℕ → Act
  ods_feedback_route_reply : ℕ → ℕ → Act
  close : ℕ → Act

pub record Agent : Type 0 where
  pub la_serv_list : List LaServ
  pub command_server_fd : ℕ
  pub ods_fd : Option ℕ
  pub fd_list : List ℕ
  pub rbits_fd : List ℕ
  pub fd_num : ℕ
  pub acts : List Act

-- `struct route_request` of the library ODS; `input_ifindex` is an `int`, as its 32 bits.
pub record RouteRequest : Type 0 where
  pub dst_ip : ℕ
  pub src_ip : ℕ
  pub protocol : ℕ
  pub input_ifindex : ℕ

-- What a pass of the main loop gets from outside. `selected` is what `select` left of the set, or
-- `none` for an error other than EINTR; `request` what `ODS_get_route_request` stored; `accepted` a
-- new connection, with what its memory holds as `type`, which the constructor does not set; and
-- `received` the buffer of 1024 bytes that `recv` filled from a client, `none` where it returned no
-- bytes.
pub record Inputs : Type 0 where
  pub selected : Option (ℕ → Bool)
  pub request : RouteRequest
  pub accepted : Option LaServ
  pub received : ℕ → Option (List ℕ)

-- Newest first.
unfoldable pub act : Act → Agent → Agent
act x s = record s { acts = x ∷ s.acts }

-- `la_fdset_init`
unfoldable pub la_fdset_init : Agent → Agent
la_fdset_init s = record s {
  fd_list = elim s.ods_fd [
    | none ↦ s.command_server_fd ∷ []
    | some fd ↦ fd ∷ s.command_server_fd ∷ []
  ];
}

-- The loop of `la_fdset_update` for FD_DEL.
unfoldable pub erase_fd : ℕ → List ℕ → List ℕ
erase_fd fd [] = []
erase_fd fd (x ∷ l) = if x == fd then l else x ∷ erase_fd fd l

-- `la_fdset_update` with FD_ADD and with FD_DEL.
unfoldable pub la_fdset_add : ℕ → Agent → Agent
la_fdset_add fd s = record s { fd_list = s.fd_list ++ fd ∷ [] }

unfoldable pub la_fdset_del : ℕ → Agent → Agent
la_fdset_del fd s = record s { fd_list = erase_fd fd s.fd_list }

-- The loop of `la_fdset_register`.
unfoldable pub fd_bound : ℕ → List ℕ → ℕ
fd_bound n [] = n
fd_bound n (fd ∷ l) = fd_bound (if leb n fd then suc fd else n) l

-- `la_fdset_register`
unfoldable pub la_fdset_register : Agent → Agent
la_fdset_register s = record s { rbits_fd = s.fd_list; fd_num = fd_bound 0 s.fd_list }

-- The search in `la_ods_message_handle`.
unfoldable pub first_daemon : List LaServ → Option LaServ
first_daemon [] = none
first_daemon (c ∷ l) = if c.kind == la_client_daemon then some c else first_daemon l

abbrev pub request_message : RouteRequest → LaMessage
request_message r = record {
  cmd = la_ods_request;
  dst_address = r.dst_ip;
  src_address = r.src_ip;
  protocol = r.protocol;
  result = 0;
}

-- The bytes of a stream that are sent.
unfoldable pub take_bytes : ℕ → List ℕ → List ℕ
take_bytes zero l = []
take_bytes (suc n) [] = []
take_bytes (suc n) (b ∷ l) = b ∷ take_bytes n l

-- `la_ods_message_handle`. A failing `send` is only reported.
unfoldable pub la_ods_message_handle : RouteRequest → Agent → Outcome Agent
la_ods_message_handle r s = elim (first_daemon s.la_serv_list) [
  | none ↦ done s
  | some c ↦ elim (generate_stream (request_message r) 1024) [
    | none ↦ fault overrun
    | some (message_len, buffer) ↦ done (act (send c.sock_fd (take_bytes message_len buffer)) s)
  ]
]

-- `la_command_server_accept`; its result is not used.
unfoldable pub la_command_server_accept : Option LaServ → Agent → Agent
la_command_server_accept none s = s
la_command_server_accept (some now_client) s =
    la_fdset_add now_client.sock_fd (record s { la_serv_list = s.la_serv_list ++ now_client ∷ [] })

unfoldable pub erase_client : ℕ → List LaServ → List LaServ
erase_client fd [] = []
erase_client fd (c ∷ l) = if c.sock_fd == fd then l else c ∷ erase_client fd l

unfoldable pub has_client : ℕ → List LaServ → Bool
has_client fd [] = false
has_client fd (c ∷ l) = if c.sock_fd == fd then true else has_client fd l

-- `la_serv_handle_message` where the connection is closed.
unfoldable pub drop_client : ℕ → Agent → Agent
drop_client fd s = la_fdset_del fd (
    if has_client fd s.la_serv_list
    then act (close fd) (record s { la_serv_list = erase_client fd s.la_serv_list })
    else s)

-- `la_serv_handle_message`
unfoldable pub la_serv_handle_message : ℕ → Option (List ℕ) → Agent → Outcome Agent
la_serv_handle_message fd none s = done (drop_client fd s)
la_serv_handle_message fd (some recvbuf) s = elim (parse_stream recvbuf) [
  | none ↦ fault overrun
  | some m ↦
      if m.cmd == la_ods_reply
      then done (act (ods_feedback_route_reply m.dst_address m.result) s)
      else done s
]

abbrev pub is_ods_fd : ℕ → Option ℕ → Bool
is_ods_fd fd none = false
is_ods_fd fd (some ods) = fd == ods

-- The body of the loop over `fd_list`.
unfoldable pub visit : (ℕ → Bool) → Inputs → ℕ → Agent → Outcome Agent
visit ready io fd s =
    if ready fd
    then if is_ods_fd fd s.ods_fd
      then la_ods_message_handle io.request s
      else if fd == s.command_server_fd
      then done (la_command_server_accept io.accepted s)
      else la_serv_handle_message fd (io.received fd) s
    else done s

-- The loop, by an index into a list that its body changes.
unfoldable pub visit_from : ℕ → (ℕ → Bool) → Inputs → ℕ → Agent → Outcome Agent
visit_from zero ready io i s = fault hang
visit_from (suc fuel) ready io i s = elim (get_elem? s.fd_list i) [
  | none ↦ done s
  | some fd ↦ visit ready io fd s >>= λ s₁. visit_from fuel ready io (suc i) s₁
]

-- A pass of `la_main_loop`; where `select` fails, the function returns instead.
unfoldable pub la_main_loop_pass : ℕ → Inputs → Agent → Outcome Agent
la_main_loop_pass fuel io s =
    let s₁ = la_fdset_register s in
    elim io.selected [ none ↦ done s₁ | some ready ↦ visit_from fuel ready io 0 s₁ ]
