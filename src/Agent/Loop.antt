-- ===== src/Agent/Loop.antt =====
-- LA/la_select.cpp: the main loop, whose body changes the list that it runs over.
use unified_routing_framewor.Prelude.{
  ℕ, ◌+◌, ◌≤◌, ◌≡◌, ◌≢◌, refl, List, [], ◌∷◌, Option, none, some, Bool, true, false, arith, ◌==◌,
  length, length-append, if◌then◌else◌, Bool-cases, Option-cases, inl, inr, ==_no, ==_self,
}
use unified_routing_framewor.Prelude.Outcome.{done}
use unified_routing_framewor.LaMessage.{LaMessage, parse_stream}
use unified_routing_framewor.Agent.{
  LaServ, Agent, Act, RouteRequest, Inputs, act, ods_feedback_route_reply, la_ods_reply,
  first_daemon, request_message, send, la_ods_message_handle, la_fdset_add,
  la_command_server_accept, drop_client, la_serv_handle_message, is_ods_fd, visit,
}
use unified_routing_framewor.Agent.Relay.{
  message_bytes, la_ods_message_handle-sends, la_ods_message_handle-idle,
}
use unified_routing_framewor.Agent.Descriptors.{
  IsOther, Agrees, accept-Agrees, drop_client-Agrees, drop_client-frame, drop_client-length,
}

-- What the agent may count on: `accept` returns a descriptor that is not in use, and a buffer that
-- `recv` filled has its whole size, of which 17 bytes are read.
pub record Fits (ods : Option ℕ) (server : ℕ) (io : Inputs) : Type 0 where
  pub accepted_other :
      (c : LaServ) → io.accepted ≡ some c → (c.sock_fd ≢ server) × (ods ≢ some c.sock_fd)
  pub received_whole :
      (fd : ℕ) (buffer : List ℕ) → io.received fd ≡ some buffer → 17 ≤ length buffer

-- A step of the loop leaves a state in order, the sources as they were, and at most `grow` more
-- descriptors.
pub record Steps (grow : ℕ) (s s₁ : Agent) : Type 0 where
  pub agrees : Agrees s₁
  pub same_ods : s₁.ods_fd ≡ s.ods_fd
  pub same_server : s₁.command_server_fd ≡ s.command_server_fd
  pub size : length s₁.fd_list ≤ grow + length s.fd_list

parse_stream-some : (l : List ℕ) → 17 ≤ length l → (m : LaMessage) × (parse_stream l ≡ some m)
unfolding parse_stream
parse_stream-some [] h = ground (arith, h)
parse_stream-some (c₀ ∷ []) h = ground (arith, h)
parse_stream-some (c₀ ∷ c₁ ∷ []) h = ground (arith, h)
parse_stream-some (c₀ ∷ c₁ ∷ c₂ ∷ []) h = ground (arith, h)
parse_stream-some (c₀ ∷ c₁ ∷ c₂ ∷ c₃ ∷ []) h = ground (arith, h)
parse_stream-some (c₀ ∷ c₁ ∷ c₂ ∷ c₃ ∷ d₀ ∷ []) h = ground (arith, h)
parse_stream-some (c₀ ∷ c₁ ∷ c₂ ∷ c₃ ∷ d₀ ∷ d₁ ∷ []) h = ground (arith, h)
parse_stream-some (c₀ ∷ c₁ ∷ c₂ ∷ c₃ ∷ d₀ ∷ d₁ ∷ d₂ ∷ []) h = ground (arith, h)
parse_stream-some (c₀ ∷ c₁ ∷ c₂ ∷ c₃ ∷ d₀ ∷ d₁ ∷ d₂ ∷ d₃ ∷ []) h = ground (arith, h)
parse_stream-some (c₀ ∷ c₁ ∷ c₂ ∷ c₃ ∷ d₀ ∷ d₁ ∷ d₂ ∷ d₃ ∷ s₀ ∷ []) h = ground (arith, h)
parse_stream-some (c₀ ∷ c₁ ∷ c₂ ∷ c₃ ∷ d₀ ∷ d₁ ∷ d₂ ∷ d₃ ∷ s₀ ∷ s₁ ∷ []) h = ground (arith, h)
parse_stream-some (c₀ ∷ c₁ ∷ c₂ ∷ c₃ ∷ d₀ ∷ d₁ ∷ d₂ ∷ d₃ ∷ s₀ ∷ s₁ ∷ s₂ ∷ []) h = ground (arith, h)
parse_stream-some (c₀ ∷ c₁ ∷ c₂ ∷ c₃ ∷ d₀ ∷ d₁ ∷ d₂ ∷ d₃ ∷ s₀ ∷ s₁ ∷ s₂ ∷ s₃ ∷ []) h =
    ground (arith, h)
parse_stream-some (c₀ ∷ c₁ ∷ c₂ ∷ c₃ ∷ d₀ ∷ d₁ ∷ d₂ ∷ d₃ ∷ s₀ ∷ s₁ ∷ s₂ ∷ s₃ ∷ p ∷ []) h =
    ground (arith, h)
parse_stream-some (c₀ ∷ c₁ ∷ c₂ ∷ c₃ ∷ d₀ ∷ d₁ ∷ d₂ ∷ d₃ ∷ s₀ ∷ s₁ ∷ s₂ ∷ s₃ ∷ p ∷ r₀ ∷ []) h =
    ground (arith, h)
parse_stream-some (c₀ ∷ c₁ ∷ c₂ ∷ c₃ ∷ d₀ ∷ d₁ ∷ d₂ ∷ d₃ ∷ s₀ ∷ s₁ ∷ s₂ ∷ s₃ ∷ p ∷ r₀ ∷ r₁ ∷ []) h =
    ground (arith, h)
parse_stream-some
      (c₀ ∷ c₁ ∷ c₂ ∷ c₃ ∷ d₀ ∷ d₁ ∷ d₂ ∷ d₃ ∷ s₀ ∷ s₁ ∷ s₂ ∷ s₃ ∷ p ∷ r₀ ∷ r₁ ∷ r₂ ∷ []) h =
    ground (arith, h)
parse_stream-some
      (c₀ ∷ c₁ ∷ c₂ ∷ c₃ ∷ d₀ ∷ d₁ ∷ d₂ ∷ d₃ ∷ s₀ ∷ s₁ ∷ s₂ ∷ s₃ ∷ p ∷ r₀ ∷ r₁ ∷ r₂ ∷ r₃ ∷ rest) h =
    (_, refl)

stays : (s : Agent) → Agrees s → Steps 0 s s
stays s a = record { agrees = a; same_ods = refl; same_server = refl; size = omega arith }

act-Steps : (s : Agent) (x : Act) → Agrees s → Steps 0 s (act x s)
unfolding act
act-Steps s x a = record {
  agrees = record { watched = a.watched; others = a.others; two = a.two };
  same_ods = refl;
  same_server = refl;
  size = omega arith;
}

la_ods_message_handle-Steps :
    (r : RouteRequest) (s : Agent)
    → Agrees s
    → (s₁ : Agent) × (la_ods_message_handle r s ≡ done s₁) × Steps 0 s s₁
la_ods_message_handle-Steps r s a = elim (Option-cases (first_daemon s.la_serv_list)) [
  | inl e ↦ (s, la_ods_message_handle-idle r s e, stays s a)
  | inr (c, e) ↦
      let x = send c.sock_fd (message_bytes (request_message r)) in
      (act x s, la_ods_message_handle-sends r s c e, act-Steps s x a)
]

la_serv_handle_message-Steps :
    (fd : ℕ) (received : Option (List ℕ)) (s : Agent)
    → IsOther s fd
    → ((buffer : List ℕ) → received ≡ some buffer → 17 ≤ length buffer)
    → Agrees s
    → (s₁ : Agent) × (la_serv_handle_message fd received s ≡ done s₁) × Steps 0 s s₁
unfolding la_serv_handle_message
la_serv_handle_message-Steps fd none s o w a = (
  drop_client fd s,
  refl,
  record {
    agrees = drop_client-Agrees fd s o a;
    same_ods = (drop_client-frame fd s).1;
    same_server = (drop_client-frame fd s).2;
    size = omega (arith, drop_client-length fd s);
  },
)
la_serv_handle_message-Steps fd (some buffer) s o w a =
    let (m, e) = parse_stream-some buffer (w buffer refl) in
    rw (e, la_serv_handle_message)
      (elim (m.cmd == la_ods_reply)
        as (λ b.
          (s₁ : Agent) × ((if b
              then done (act (ods_feedback_route_reply m.dst_address m.result) s)
              else done s)
            ≡ done s₁)
          × Steps 0 s s₁) [ true ↦ (_, refl, act-Steps s _ a) | false ↦ (s, refl, stays s a) ])

la_command_server_accept-Steps :
    (c : Option LaServ) (s : Agent)
    → ((x : LaServ) → c ≡ some x → IsOther s x.sock_fd)
    → Agrees s
    → Steps 1 s (la_command_server_accept c s)
unfolding la_command_server_accept la_fdset_add
la_command_server_accept-Steps none s h a = record {
  agrees = a;
  same_ods = refl;
  same_server = refl;
  size = omega arith;
}
la_command_server_accept-Steps (some c) s h a = record {
  agrees = accept-Agrees c s (h c refl) a;
  same_ods = refl;
  same_server = refl;
  size = omega (arith, length-append s.fd_list (c.sock_fd ∷ []));
}

is_ods_fd_no : (fd : ℕ) (ods : Option ℕ) → is_ods_fd fd ods ≡ false → ods ≢ some fd
is_ods_fd_no fd none h = ground arith
is_ods_fd_no fd (some ods) h = ground (arith, h)

Fits-accepted :
    (io : Inputs) (s : Agent)
    → Fits s.ods_fd s.command_server_fd io
    → (x : LaServ) → io.accepted ≡ some x
    → IsOther s x.sock_fd
Fits-accepted io s f x e = f.accepted_other x e

-- A visit to another descriptor than the server's.
pub visit-other :
    (ready : ℕ → Bool) (io : Inputs) (fd : ℕ) (s : Agent)
    → fd ≢ s.command_server_fd
    → Fits s.ods_fd s.command_server_fd io
    → Agrees s
    → (s₁ : Agent) × (visit ready io fd s ≡ done s₁) × Steps 0 s s₁
unfolding visit
visit-other ready io fd s h f a = elim (Bool-cases (ready fd)) [
  | inr r ↦ (s, rw r refl, stays s a)
  | inl r ↦ elim (Bool-cases (is_ods_fd fd s.ods_fd)) [
    | inl o ↦ let (s₁, e, t) = la_ods_message_handle-Steps io.request s a in (s₁, rw (r, o) e, t)
    | inr o ↦
        let (s₁, e, t) =
          la_serv_handle_message-Steps fd (io.received fd) s (h, is_ods_fd_no fd s.ods_fd o)
            (f.received_whole fd) a in
        (s₁, rw (r, o, ==_no fd s.command_server_fd h) e, t)
  ]
]

weaken : (s s₁ : Agent) → Steps 0 s s₁ → Steps 1 s s₁
weaken s s₁ t = record {
  agrees = t.agrees;
  same_ods = t.same_ods;
  same_server = t.same_server;
  size = omega (arith, t.size);
}

-- A visit to the server's descriptor.
pub visit-server :
    (ready : ℕ → Bool) (io : Inputs) (s : Agent)
    → Fits s.ods_fd s.command_server_fd io
    → Agrees s
    → (s₁ : Agent) × (visit ready io s.command_server_fd s ≡ done s₁) × Steps 1 s s₁
unfolding visit
visit-server ready io s f a = elim (Bool-cases (ready s.command_server_fd)) [
  | inr r ↦ (s, rw r refl, weaken s s (stays s a))
  | inl r ↦ elim (Bool-cases (is_ods_fd s.command_server_fd s.ods_fd)) [
    | inl o ↦
        let (s₁, e, t) = la_ods_message_handle-Steps io.request s a in
        (s₁, rw (r, o) e, weaken s s₁ t)
    | inr o ↦ (
      la_command_server_accept io.accepted s,
      rw (r, o, ==_self s.command_server_fd) refl,
      la_command_server_accept-Steps io.accepted s (Fits-accepted io s f) a,
    )
  ]
]
