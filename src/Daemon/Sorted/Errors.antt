-- ===== src/Daemon/Sorted/Errors.antt =====
-- Route errors keep the order of the table: `processRERR` and what it calls.
use unified_routing_framewor.Prelude.{
  ℕ, ◌≡◌, subst, sym, List, [], ◌∷◌, Option, none, some, Bool, false, arith, ltb, ◌==◌,
  if◌then◌else◌,
}
use unified_routing_framewor.Prelude.Outcome.{done, fault, past_end}
use unified_routing_framewor.Params.{infinity}
use unified_routing_framewor.RouteEntry.{RtableEntry, get_prec_cnt}
use unified_routing_framewor.RouteMap.{find, update, IsSorted}
use unified_routing_framewor.RouteMap.Laws.{update-IsSorted}
use unified_routing_framewor.Packets.{Rerr, UnrchDest, rerr}
use unified_routing_framewor.Node.{Node, emit, del_kroute, send_packet, hops}
use unified_routing_framewor.RoutingTable.{find_active_route, write}
use unified_routing_framewor.RoutingTable.Frame.{send_packet-SameRoutes, generate_rerr-SameRoutes}
use unified_routing_framewor.RoutingTable.Sorted.{TableSorted, SameRoutes-TableSorted}
use unified_routing_framewor.RoutingTable.Timeouts.{delete_kernel_route}
use unified_routing_framewor.ErrorReports.{generate_rerr}
use unified_routing_framewor.Reports.{
  reported, update_invalid_entries, update_valid_entries, lose_route, create_new_rerr, scan_dests,
  scan_lost, note_precursors, Scan, is_lost,
}
use unified_routing_framewor.Reports.Received.{fresh}
use unified_routing_framewor.Daemon.Discovery.{Uninitialised}
use unified_routing_framewor.Daemon.{neighbor_life, forward_n_rerr, renew_rerr, process_rerr}
use unified_routing_framewor.Daemon.Sorted.{if-TableSorted, elim-TableSorted}
use unified_routing_framewor.Daemon.Sorted.Received.{
  neighbor_update-TableSorted, no_reply, no_request, Leaves, Leaves-if, Leaves-bind,
}
use unified_routing_framewor.Daemon.Sorted.Replies.{reboot_neighbor_update-TableSorted}

pub update_invalid_entries-TableSorted :
    (us : List UnrchDest) (s : Node) → TableSorted s → TableSorted (update_invalid_entries us s)
unfolding update_invalid_entries
update_invalid_entries-TableSorted [] s o = o
update_invalid_entries-TableSorted (u ∷ us) s o = update_invalid_entries-TableSorted us _ (
    elim-TableSorted (find u.dest_ip s.rtable) s _ o (λ e.
      if-TableSorted (e.hop_cnt == infinity)
        (write
          (record e {
            dest_seq_num =
                if ltb e.dest_seq_num u.dest_seq_num then u.dest_seq_num else e.dest_seq_num;
          })
          s)
        s (update-IsSorted _ s.rtable o) o))

pub lose_route-rtable :
    (u : UnrchDest) (e : RtableEntry) (s : Node)
    → (lose_route u e s).rtable ≡ update (reported s.now u e) s.rtable
unfolding lose_route delete_kernel_route del_kroute emit
lose_route-rtable u e s = ground arith

pub lose_route-TableSorted :
    (u : UnrchDest) (e : RtableEntry) (s : Node) → TableSorted s → TableSorted (lose_route u e s)
lose_route-TableSorted u e s o =
    subst IsSorted (sym (lose_route-rtable u e s)) (update-IsSorted (reported s.now u e) s.rtable o)

pub update_valid_entries-TableSorted :
    (prev_hop : ℕ) (us : List UnrchDest) (s : Node)
    → TableSorted s
    → TableSorted (update_valid_entries prev_hop us s)
unfolding update_valid_entries
update_valid_entries-TableSorted prev_hop [] s o = o
update_valid_entries-TableSorted prev_hop (u ∷ us) s o =
    update_valid_entries-TableSorted prev_hop us _ (
      elim-TableSorted (find u.dest_ip s.rtable) s _ o (λ e.
        if-TableSorted (is_lost prev_hop e) (lose_route u e s) s (lose_route-TableSorted u e s o)
          o))

pub note_precursors-Leaves :
    (e : RtableEntry) (c : Scan) → TableSorted c.node → Leaves (λ d. d.node) (note_precursors e c)
unfolding note_precursors
note_precursors-Leaves e c o = ground arith

pub scan_step-Leaves :
    (prev_hop : ℕ) (u : UnrchDest) (c : Scan) (o : Option RtableEntry)
    → TableSorted c.node
    → Leaves
        (λ d. d.node)
        (elim o [ none ↦ done c | some e ↦ if is_lost prev_hop e then scan_lost u e c else done c ])
unfolding scan_lost
scan_step-Leaves prev_hop u c none p = p
scan_step-Leaves prev_hop u c (some e) p =
    Leaves-if (is_lost prev_hop e) (λ d. d.node) (scan_lost u e c) (done c)
      (note_precursors-Leaves e _ (lose_route-TableSorted u e c.node p)) p

pub scan_dests-Leaves :
    (prev_hop : ℕ) (us : List UnrchDest) (c : Scan)
    → TableSorted c.node
    → Leaves (λ d. d.node) (scan_dests prev_hop us c)
unfolding scan_dests
scan_dests-Leaves prev_hop [] c p = p
scan_dests-Leaves prev_hop (u ∷ us) c p =
    Leaves-bind _ (λ d. d.node) (λ d. d.node) (scan_dests prev_hop us)
      (scan_step-Leaves prev_hop u c (find u.dest_ip c.node.rtable) p)
      (λ d q. scan_dests-Leaves prev_hop us d q)

pub create_new_rerr-Leaves :
    (r : Rerr) (prev_hop : ℕ) (s : Node)
    → TableSorted s
    → Leaves (λ x. x.2) (create_new_rerr r prev_hop s)
unfolding create_new_rerr
create_new_rerr-Leaves r prev_hop s o =
    Leaves-bind {A = Scan} {B = Bool × Rerr × Node}
      (scan_dests prev_hop r.unreachable_dest (fresh r s)) (λ c. c.node) (λ x. x.2)
      (λ c. done (ltb 0 c.prec_cnt, record c.report { dest_cnt = c.cnt }, c.node))
      (scan_dests-Leaves prev_hop r.unreachable_dest (fresh r s) o) (λ c p. p)

pub forward_n_rerr-TableSorted :
    (src_ip : ℕ) (u : UnrchDest) (s : Node)
    → TableSorted s
    → TableSorted (forward_n_rerr src_ip u s)
unfolding forward_n_rerr
forward_n_rerr-TableSorted src_ip u s o =
    elim-TableSorted (find_active_route u.dest_ip s) s _ o (λ e.
      let t = write (record e { dest_seq_num = u.dest_seq_num }) s in
      let a = update-IsSorted (record e { dest_seq_num = u.dest_seq_num }) s.rtable o in
      if-TableSorted (e.next_hop == src_ip)
        (if ltb 0 (get_prec_cnt e) then generate_rerr u.dest_ip 1 false t else t) s
        (if-TableSorted (ltb 0 (get_prec_cnt e)) (generate_rerr u.dest_ip 1 false t) t
          (SameRoutes-TableSorted a (generate_rerr-SameRoutes u.dest_ip 1 false t)) a)
        o)

pub renew_rerr-Leaves :
    (raw : Uninitialised) (src_ip : ℕ) (r : Rerr) (s : Node)
    → TableSorted s
    → Leaves (λ t. t) (renew_rerr raw src_ip r s)
unfolding renew_rerr
renew_rerr-Leaves raw src_ip r s o =
    Leaves-bind (create_new_rerr r src_ip s) (λ x. x.2) (λ t. t) _
      (create_new_rerr-Leaves r src_ip s o)
      (λ x p.
        if-TableSorted x.0 (send_packet raw.prec_addr (hops 1) (rerr x.1) x.2) x.2
          (SameRoutes-TableSorted p (send_packet-SameRoutes raw.prec_addr (hops 1) (rerr x.1) x.2))
          p)

pub first_dest-Leaves :
    (src_ip : ℕ) (us : List UnrchDest) (s : Node)
    → TableSorted s
    → Leaves (λ t. t) (elim us [ [] ↦ fault past_end | u ∷ _ ↦ done (forward_n_rerr src_ip u s) ])
first_dest-Leaves src_ip [] s o = tt
first_dest-Leaves src_ip (u ∷ us) s o = forward_n_rerr-TableSorted src_ip u s o

pub process_rerr-Leaves :
    (raw : Uninitialised) (src_ip : ℕ) (r : Rerr) (s : Node)
    → TableSorted s
    → Leaves (λ t. t) (process_rerr raw src_ip r s)
unfolding process_rerr
process_rerr-Leaves raw src_ip r s o =
    let a =
      update_invalid_entries-TableSorted r.unreachable_dest _
        (neighbor_update-TableSorted src_ip src_ip 0 (neighbor_life s) no_reply no_request s o) in
    Leaves-if s.during_reboot (λ t. t) _ _
      (update_valid_entries-TableSorted src_ip r.unreachable_dest _ (
        update_invalid_entries-TableSorted r.unreachable_dest _
          (reboot_neighbor_update-TableSorted src_ip 0 (neighbor_life s) s o)))
      (Leaves-if (r.n_flag == 1) (λ t. t) _ _
        (Leaves-if (r.dest_cnt == 1) (λ t. t) _ _ (first_dest-Leaves src_ip r.unreachable_dest _ a)
          a)
        (renew_rerr-Leaves raw src_ip r _ a))
