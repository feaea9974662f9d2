-- ===== src/Daemon/Sorted/Messages.antt =====
-- No message of the protocol spoils the order of the table: `processRecvMsg`.
use unified_routing_framewor.Prelude.{ℕ, ◌-◌, ◌≡◌, subst, sym, Option, none, some, arith, ◌==◌}
use unified_routing_framewor.Prelude.Outcome.{done}
use unified_routing_framewor.RouteMap.{IsSorted}
use unified_routing_framewor.Packets.{Packet, rreq, rrep, rerr, rrep_ack}
use unified_routing_framewor.Node.{Node, set_real_timer, emit}
use unified_routing_framewor.RoutingTable.Sorted.{TableSorted}
use unified_routing_framewor.Node.Timers.{remove_rrep_ack_timer, remove_found}
use unified_routing_framewor.Daemon.Discovery.{Uninitialised}
use unified_routing_framewor.Daemon.{process_rrep, process_recv_msg}
use unified_routing_framewor.Daemon.Sorted.Received.{Leaves, Leaves-if}
use unified_routing_framewor.Daemon.Sorted.Replies.{process_rreq-Leaves, process_rrep-TableSorted}
use unified_routing_framewor.Daemon.Sorted.Errors.{process_rerr-Leaves}

pub remove_rrep_ack_timer-rtable :
    (dst : ℕ) (s : Node) → (remove_rrep_ack_timer dst s).rtable ≡ s.rtable
unfolding remove_rrep_ack_timer remove_found set_real_timer emit
remove_rrep_ack_timer-rtable dst s = ground arith

pub process_recv_msg-Leaves :
    (raw : Uninitialised) (src_ip ttl : ℕ) (msg : Option Packet) (s : Node)
    → TableSorted s
    → Leaves (λ t. t) (process_recv_msg raw src_ip ttl msg s)
unfolding process_recv_msg
process_recv_msg-Leaves raw src_ip ttl none s o =
    Leaves-if (src_ip == s.my_ip) (λ t. t) (done s) (done s) o o
process_recv_msg-Leaves raw src_ip ttl (some (rreq r)) s o =
    Leaves-if (src_ip == s.my_ip) (λ t. t) (done s) _ o
      (process_rreq-Leaves raw src_ip (ttl - 1) r s o)
process_recv_msg-Leaves raw src_ip ttl (some (rrep r)) s o =
    Leaves-if (src_ip == s.my_ip) (λ t. t) (done s) (done (process_rrep src_ip r s)) o
      (process_rrep-TableSorted src_ip r s o)
process_recv_msg-Leaves raw src_ip ttl (some (rerr r)) s o =
    Leaves-if (src_ip == s.my_ip) (λ t. t) (done s) _ o (process_rerr-Leaves raw src_ip r s o)
process_recv_msg-Leaves raw src_ip ttl (some rrep_ack) s o =
    Leaves-if (src_ip == s.my_ip) (λ t. t) (done s) (done (remove_rrep_ack_timer src_ip s)) o
      (subst IsSorted (sym (remove_rrep_ack_timer-rtable src_ip s)) o)

-- Where the table is sorted, with at most one entry for a destination, and `processRecvMsg` returns,
-- the table is so again, whatever the message, its sender and its ttl, also while the node reboots.
pub process_recv_msg-IsSorted :
    (raw : Uninitialised) (src_ip ttl : ℕ) (msg : Option Packet) (s t : Node)
    → IsSorted s.rtable
    → process_recv_msg raw src_ip ttl msg s ≡ done t
    → IsSorted t.rtable
process_recv_msg-IsSorted raw src_ip ttl msg s t o h =
    subst (Leaves (λ u. u)) h (process_recv_msg-Leaves raw src_ip ttl msg s o)
