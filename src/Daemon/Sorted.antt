-- ===== src/Daemon/Sorted.antt =====
-- What the handlers of the messages share keeps the order of the table.
pub mod Received
pub mod Replies
pub mod Errors
pub mod Messages
pub mod Requests
pub mod Timeouts
pub mod Handlers
pub mod Runs
use unified_routing_framewor.Prelude.{
  ℕ, ◌+◌, ◌*◌, ◌-◌, ◌≡◌, refl, ◌∙◌, subst, sym, inl, inr, List, [], ◌∷◌, Option, none, some, Bool,
  true, false, arith, ltb, ◌==◌, ◌||◌, ◌&&◌, not, if◌then◌else◌, Bool-cases, Option-cases, add64,
  to_u8,
}
use unified_routing_framewor.Prelude.Outcome.{
  Outcome, done, fault, ◌>>=◌, null_pointer, hang, past_end,
}
use unified_routing_framewor.Blacklist
use unified_routing_framewor.Params.{
  active_route, infinity, send_rrep, gen_rrep, fwd_rreq, broadcast_addr,
}
use unified_routing_framewor.RouteEntry.{RtableEntry, get_prec_cnt}
use unified_routing_framewor.RouteMap.{find, update, insert, IsSorted}
use unified_routing_framewor.RouteMap.Laws.{update-IsSorted, insert-IsSorted}
use unified_routing_framewor.Packets.{
  Rreq, Rrep, Rerr, UnrchDest, Packet, rreq, rrep, rerr, rrep_ack,
}
use unified_routing_framewor.Node.{Node, set_real_timer, emit, del_kroute, send_packet, hops, unset}
use unified_routing_framewor.RoutingTable.{is_better, find_active_route, write, add_route_entry}
use unified_routing_framewor.RoutingTable.Updates.{
  neighbor_update, forward_route_update, reverse_route_update, reboot_neighbor_update,
  reboot_reverse_route_update, reboot_forward_route_update, reverse_better, reverse_revived,
  forward_better, forward_revived,
}
use unified_routing_framewor.RoutingTable.Frame.{
  SameRoutes, send_packet-SameRoutes, generate_rerr-SameRoutes,
}
use unified_routing_framewor.RoutingTable.Frame.After.{set_timer-SameRoutes}
use unified_routing_framewor.RoutingTable.Sorted.{
  TableSorted, SameRoutes-TableSorted, updates-IsSorted,
}
use unified_routing_framewor.RoutingTable.Timeouts.{delete_kernel_route}
use unified_routing_framewor.Requests.{
  recv_rreq, accept_rreq, answer_rreq, recv_rrep, note_precursor, create_rrep, create_grrep,
  add_precursor,
}
use unified_routing_framewor.ErrorReports.{generate_rerr}
use unified_routing_framewor.Reports.{
  reported, update_invalid_entries, update_valid_entries, lose_route, create_new_rerr, scan_dests,
  scan_lost, note_precursors, Scan, is_lost,
}
use unified_routing_framewor.Reports.Received.{fresh}
use unified_routing_framewor.Node.Timers.{remove_rrep_ack_timer, remove_found}
use unified_routing_framewor.Daemon.Discovery.{Uninitialised}
use unified_routing_framewor.Daemon.{
  neighbor_life, get_next_hop, unicast_rrep, reply_rreq, reboot_rreq, process_rreq, process_rrep,
  forward_n_rerr, renew_rerr, process_rerr, process_recv_msg,
}

-- The cases of a test and of a search.
pub if-TableSorted :
    (b : Bool) (s t : Node) → TableSorted s → TableSorted t → TableSorted (if b then s else t)
if-TableSorted true s t x y = x
if-TableSorted false s t x y = y

pub elim-TableSorted :
    {A : Type 0} (o : Option A) (t : Node) (f : A → Node)
    → TableSorted t
    → ((a : A) → TableSorted (f a))
    → TableSorted (elim o [ none ↦ t | some a ↦ f a ])
elim-TableSorted none t f x y = x
elim-TableSorted (some a) t f x y = y a

pub get_next_hop-TableSorted :
    (dst : ℕ) (s : Node) → TableSorted s → TableSorted (get_next_hop dst s).1
get_next_hop-TableSorted dst s o =
    unfold get_next_hop in
    elim (find_active_route dst s)
      as (λ x.
        TableSorted
          (elim x as (λ y. ℕ × Node) [
            | none ↦ (0, s)
            | some e ↦ (
              e.next_hop,
              write
                  (record e {
                    lifetime =
                        if ltb (add64 s.now 3000) e.lifetime then e.lifetime else add64 s.now 3000;
                  })
                  s,
            )
          ]).1) [ none ↦ o | some e ↦ update-IsSorted _ s.rtable o ]

pub unicast_rrep-TableSorted :
    (next_hop : ℕ) (r : Rrep) (s : Node) → TableSorted s → TableSorted (unicast_rrep next_hop r s)
unfolding unicast_rrep
unicast_rrep-TableSorted next_hop r s o =
    SameRoutes-TableSorted
      (if-TableSorted (r.a_flag == 1) _ s (SameRoutes-TableSorted o (set_timer-SameRoutes _ _ _ s))
        o)
      (send_packet-SameRoutes next_hop _ (rrep r) _)

pub add_precursor-TableSorted :
    (dest precur : ℕ) (s : Node) → TableSorted s → TableSorted (add_precursor dest precur s)
unfolding add_precursor
add_precursor-TableSorted dest precur s o =
    elim-TableSorted (find_active_route dest s) s _ o (λ e. update-IsSorted _ s.rtable o)

pub note_precursor-TableSorted :
    (r : Rrep) (s : Node) → TableSorted s → TableSorted (note_precursor r s)
unfolding note_precursor
note_precursor-TableSorted r s o =
    elim-TableSorted (find_active_route r.dest_ip s) s _ o (λ d.
      elim-TableSorted (find_active_route r.src_ip s) s _ o (λ e. update-IsSorted _ s.rtable o))
