-- ===== src/Daemon/Loop.antt =====
-- LA_Client_aodv/aodv.cc: what the daemon reads from its two sockets, and its main loop.
use unified_routing_framewor.Prelude.{
  ℕ, ◌-◌, List, ◌++◌, Option, none, some, Bool, length, if◌then◌else◌,
}
use unified_routing_framewor.Prelude.Outcome.{Outcome, done, fault, overrun, ◌>>=◌}
use unified_routing_framewor.LaMessage.{LaMessage, parse_stream, zeros}
use unified_routing_framewor.Agent.{la_ods_reply}
use unified_routing_framewor.Packets.{Packet}
use unified_routing_framewor.Node.{Node}
use unified_routing_framewor.Daemon.{process_asl, process_recv_msg}
use unified_routing_framewor.Daemon.Discovery.{Uninitialised}

-- What the aodv socket gives: the sender, the ttl and the message.
pub record Received : Type 0 where
  pub src_ip : ℕ
  pub ttl : ℕ
  pub msg : Option Packet

-- What a pass of the main loop gets: whether `select` succeeds; what the aodv socket gives, if
-- it is ready; and what `recv` gives from the local agent, if that is ready, which is `none` where no byte came.
pub record Arrivals : Type 0 where
  pub selected : Bool
  pub packet : Option Received
  pub request : Option (Option (List ℕ))

-- The message that `process_asl` and the other handlers send to the local agent.
abbrev pub feedback_message : ℕ → ℕ → LaMessage
feedback_message dst_ip result = record {
  cmd = la_ods_reply;
  dst_address = dst_ip;
  src_address = 0;
  protocol = 0;
  result = result;
}

-- The buffer of `recv_la_data`, which is set to 0 before.
abbrev pub la_buffer : List ℕ → List ℕ
la_buffer received = received ++ zeros (1024 - length received)

-- `recv_la_data`
unfoldable pub recv_la_data : Uninitialised → Option (List ℕ) → Node → Outcome Node
recv_la_data raw none s = done s
recv_la_data raw (some received) s = elim (parse_stream (la_buffer received)) [
  | none ↦ fault overrun
  | some m ↦ done (process_asl raw m.dst_address m.src_address m.protocol s)
]

-- `process_aodv`
unfoldable pub process_aodv : Uninitialised → Received → Node → Outcome Node
process_aodv raw x s = process_recv_msg raw x.src_ip x.ttl x.msg s

-- The loop over the handlers in `mainDaemonLoop`, which stand in the order in which `aodv_init`
-- registers them.
unfoldable pub run_handlers : Uninitialised → Arrivals → Node → Outcome Node
run_handlers raw io s = (elim io.packet [ none ↦ done s | some x ↦ process_aodv raw x s ]) >>= λ s₁.
    elim io.request [ none ↦ done s₁ | some received ↦ recv_la_data raw received s₁ ]

-- A pass of `mainDaemonLoop`.
unfoldable pub main_daemon_loop_pass : Uninitialised → Arrivals → Node → Outcome Node
main_daemon_loop_pass raw io s = if io.selected then run_handlers raw io s else done s
