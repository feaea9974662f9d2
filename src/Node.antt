-- ===== src/Node.antt =====
-- The daemon's global variables (LA_Client_aodv/main.cc, externDec.h) as one state, and the calls
-- that leave the process. `now` is what `getcurrtime()` returns while a handler runs: the clock is
-- taken to stand still within a handler.
pub mod Timers
use unified_routing_framewor.Prelude.{
  ℕ, ◌-◌, ◌*◌, ◌/◌, List, ◌∷◌, Option, none, some, Bool, false, ltb, ◌==◌, if◌then◌else◌,
}
use unified_routing_framewor.Params.{broadcast_addr}
use unified_routing_framewor.RouteEntry.{RtableEntry}
use unified_routing_framewor.Packets.{Packet}
use unified_routing_framewor.Blacklist.{BlacklistEntry}
use unified_routing_framewor.ForwardedRreqs.{FwRreqEntry}
use unified_routing_framewor.PendingRreqs.{RreqListEntry}
use unified_routing_framewor.TimerQueue.{Timer}

-- The `ttl` of a `sendData`, an `int`: the code uses -1 for "leave the socket's setting".
pub data Ttl : Type 0 where
  hops : ℕ → Ttl
  unset : Ttl

-- The requests that leave the daemon: to the kernel's routing table, to the local agent, to the
-- network and to the system's timer.
pub data Effect : Type 0 where
  add_route : ℕ → ℕ → Effect
  del_route : ℕ → ℕ → ℕ → Effect
  ods_reply : ℕ → ℕ → Effect
  set_socket_ttl : ℕ → Effect
  send_to : ℕ → Packet → Effect
  set_itimer : ℕ → ℕ → Effect

pub record Node : Type 0 where
  pub my_ip : ℕ
  pub local_seq_num : ℕ
  pub rreq_id : ℕ
  pub rtable : List RtableEntry
  pub rreq_list : List RreqListEntry
  pub fw_rreq_list : List FwRreqEntry
  pub local_repair_list : List ℕ
  pub black_list : List BlacklistEntry
  pub timer_q : List Timer
  pub next_node : ℕ
  pub hello_send_flag : Bool
  pub expanding_ring_search : Bool
  pub rrep_ack_flag : Bool
  pub during_reboot : Bool
  pub need_to_send_hello : Bool
  pub now : ℕ
  pub log : List Effect

-- Newest first.
unfoldable pub emit : Effect → Node → Node
emit x s = record s { log = x ∷ s.log }

-- `add_kroute`
unfoldable pub add_kroute : RtableEntry → Node → Node
unfolding emit
add_kroute e s = emit (add_route e.dest_ip e.next_hop) s

-- `del_kroute`, with the gateway and the metric that `gen_krtentry` fills in.
unfoldable pub del_kroute : RtableEntry → Node → Node
unfolding emit
del_kroute e s =
    emit (del_route e.dest_ip (if e.hop_cnt == 1 then s.my_ip else e.next_hop) e.hop_cnt) s

-- The `LAMessage` with the command LA_ODS_REPLY that the handlers send to the local agent.
unfoldable pub feedback : ℕ → ℕ → Node → Node
unfolding emit
feedback dst result s = emit (ods_reply dst result) s

abbrev pub ip_found : ℕ
ip_found = 1

abbrev pub ip_nofound : ℕ
ip_nofound = 0

-- `setRealTimer`: seconds and microseconds of a time in milliseconds.
unfoldable pub set_real_timer : ℕ → Node → Node
unfolding emit
set_real_timer timeout s =
    let time_sec = timeout / 1000 in
    emit (set_itimer time_sec ((timeout - time_sec * 1000) * 1000)) s

-- `sendPacket`, with the destination and the ttl of its `sendData`.
unfoldable pub send_packet : ℕ → Ttl → Packet → Node → Node
unfolding emit
send_packet dst (hops ttl) p s =
    if ttl == 0
    then s
    else let t = if dst == broadcast_addr then record s { need_to_send_hello = false } else s in
      emit (send_to dst p) (if ltb ttl 256 then emit (set_socket_ttl ttl) t else t)
send_packet dst unset p s =
    let t = if dst == broadcast_addr then record s { need_to_send_hello = false } else s in
    emit (send_to dst p) t
