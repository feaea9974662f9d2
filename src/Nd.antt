-- ===== src/Nd.antt =====
-- lib/ND: the state of the neighbour discovery. nd_type.h, nd_timer.h, nd_one_hop_neighbor.h,
-- nd_two_hop_neighbor.h, nd_interface.h and the globals of nd.cpp. A pointer to an interface is its
-- index in `interface_entry_list`, which keeps its length from `init_interface_entry_list` to
-- `nd_turn_down`. Strings are their characters before the NUL.
pub mod Timers
pub mod Hello
pub mod Interface
pub mod Discovery
pub mod Handshake
use unified_routing_framewor.Prelude.{
  ℕ, ◌-◌, ◌*◌, ◌/◌, List, [], ◌∷◌, Bool, true, false, ◌&&◌, ◌==◌,
}

abbrev pub no_entry : ℕ
no_entry = 0

abbrev pub heard : ℕ
heard = 1

abbrev pub symmetric : ℕ
symmetric = 2

abbrev pub timer_type_hello : ℕ
timer_type_hello = 1

abbrev pub timer_type_entry : ℕ
timer_type_entry = 2

abbrev pub message_buffer_size : ℕ
message_buffer_size = 32 * 1024

abbrev pub ipv4_addr_len : ℕ
ipv4_addr_len = 4

-- `LIVE_TIME`, in milliseconds.
abbrev pub hello_live_time : ℕ
hello_live_time = 6000

pub record TwoHopEntry : Type 0 where
  pub ip_address : ℕ
  pub gateway_address : ℕ
  pub status_value : ℕ

pub record OneHopEntry : Type 0 where
  pub ip_address : ℕ
  pub quality : ℕ
  pub local_if_set : List ℕ
  pub two_hop_neighbor_set : List TwoHopEntry
  pub status : ℕ
  pub live_time : ℕ

pub record InterfaceEntry : Type 0 where
  pub name : List ℕ
  pub if_index : ℕ
  pub listen_port : ℕ
  pub interface_address : ℕ
  pub fd : ℕ
  pub hello_interval : ℕ
  pub one_hop_neighbor_set : List OneHopEntry

-- The two functions that are registered with the timers.
pub data NdHandler : Type 0 where
  send_hello delete_entry : NdHandler

-- `class timer` with its `struct timerData` (`type`, `data`, `contain`) and the node of the list
-- that holds it, which tells iterators apart.
pub record NdTimer : Type 0 where
  pub timeout : ℕ
  pub handler : NdHandler
  pub kind : ℕ
  pub value : ℕ
  pub contain : ℕ
  pub node : ℕ

-- The calls that leave the process: `setitimer` in seconds and microseconds, a broadcast with ttl 1
-- through a socket to a port, and `close`.
pub data Call : Type 0 where
  setitimer : ℕ → ℕ → Call
  sendto : ℕ → ℕ → List ℕ → Call
  close : ℕ → Call

-- `now` is what `getcurrtime()` returns: the clock is taken to stand still within a handler.
pub record NdState : Type 0 where
  pub interfaces : List InterfaceEntry
  pub timer_q : List NdTimer
  pub next_node : ℕ
  pub now : ℕ
  pub calls : List Call

-- Newest first.
unfoldable pub call : Call → NdState → NdState
call x s = record s { calls = x ∷ s.calls }
