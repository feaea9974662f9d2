-- ===== src/Reports.antt =====
-- LA_Client_aodv/rerr.cc: route error messages and what they do to the routing table.
pub mod Losses
pub mod Received
use unified_routing_framewor.Prelude.{
  ℕ, ◌+◌, List, [], ◌∷◌, ◌++◌, Option, none, some, Bool, true, false, not, ◌&&◌, ltb, ◌==◌,
  if◌then◌else◌, to_u8, add32, add64,
}
use unified_routing_framewor.Prelude.Outcome.{Outcome, done, fault, null_pointer, ◌>>=◌}
use unified_routing_framewor.Params.{
  infinity, delete_period, active_route, broken_route, invalid_route,
}
use unified_routing_framewor.RouteEntry.{RtableEntry, get_prec_cnt, get_prec_addr}
use unified_routing_framewor.RouteMap.{find}
use unified_routing_framewor.Packets.{Rerr, UnrchDest}
use unified_routing_framewor.LocalRepair
use unified_routing_framewor.Node.{Node}
use unified_routing_framewor.RoutingTable.{write}
use unified_routing_framewor.RoutingTable.Timeouts.{delete_kernel_route}
use unified_routing_framewor.ErrorReports.{empty_rerr, set_unrch_dest}

-- The loop of `updateInvalidEntries`.
unfoldable pub update_invalid_entries : List UnrchDest → Node → Node
update_invalid_entries [] s = s
update_invalid_entries (u ∷ us) s = update_invalid_entries us (elim (find u.dest_ip s.rtable) [
  | none ↦ s
  | some e ↦
      if e.hop_cnt == infinity
      then write
          (record e {
            dest_seq_num =
                if ltb e.dest_seq_num u.dest_seq_num then u.dest_seq_num else e.dest_seq_num;
          })
          s
      else s
])

-- The entry that a report makes invalid.
abbrev pub reported : ℕ → UnrchDest → RtableEntry → RtableEntry
reported now u e = record e {
  last_hop_cnt = e.hop_cnt;
  hop_cnt = infinity;
  dest_seq_num = u.dest_seq_num;
  lifetime = add64 now delete_period;
  routing_flags = invalid_route;
}

-- The test of both loops: a valid route over the sender of the report.
abbrev pub is_lost : ℕ → RtableEntry → Bool
is_lost prev_hop e = not (e.hop_cnt == infinity) && e.next_hop == prev_hop

-- The steps that both loops make for such a route.
unfoldable pub lose_route : UnrchDest → RtableEntry → Node → Node
lose_route u e s =
    let s₁ =
      if e.routing_flags == active_route
      then delete_kernel_route e.dest_ip s
      else if e.routing_flags == broken_route
      then (record s {
        local_repair_list = LocalRepair.delete_from_list e.dest_ip s.local_repair_list;
      })
      else s in
    write (reported s₁.now u e) s₁

-- The loop of `updateValidEntries`.
unfoldable pub update_valid_entries : ℕ → List UnrchDest → Node → Node
update_valid_entries prev_hop [] s = s
update_valid_entries prev_hop (u ∷ us) s =
    update_valid_entries prev_hop us (elim (find u.dest_ip s.rtable) [
      | none ↦ s
      | some e ↦ if is_lost prev_hop e then lose_route u e s else s
    ])

-- The variables of the loop of `createNewRERR`: its count, the flag for a broadcast, the number of
-- precursors, the pointer `addr` (`none` for NULL), the new message, and the daemon's state.
pub record Scan : Type 0 where
  pub cnt : ℕ
  pub brd_flag : Bool
  pub prec_cnt : ℕ
  pub addr : Option ℕ
  pub report : Rerr
  pub node : Node

-- The part of the body that looks at the precursors. `getPrecAddr(addr)` writes through `addr`.
unfoldable pub note_precursors : RtableEntry → Scan → Outcome Scan
unfolding get_prec_cnt get_prec_addr
note_precursors e c =
    let t = get_prec_cnt e in
    if ltb 1 t
    then done (record c { brd_flag = true; addr = none; prec_cnt = add32 c.prec_cnt t })
    else if not c.brd_flag && t == 1
    then elim c.addr [
      | none ↦ fault null_pointer
      | some a ↦ elim (get_prec_addr e) [
        | none ↦ done c
        | some b ↦
            if b == a
            then done c
            else done (record c { prec_cnt = add32 c.prec_cnt t; addr = none; brd_flag = true })
      ]
    ]
    else done c

-- The body of the loop at a destination whose route is lost.
unfoldable pub scan_lost : UnrchDest → RtableEntry → Scan → Outcome Scan
scan_lost u e c = note_precursors e (record c {
  cnt = to_u8 (c.cnt + 1);
  report = set_unrch_dest e.dest_ip u.dest_seq_num c.report;
  node = lose_route u e c.node;
})

-- The loop.
unfoldable pub scan_dests : ℕ → List UnrchDest → Scan → Outcome Scan
scan_dests prev_hop [] c = done c
scan_dests prev_hop (u ∷ us) c = do
  c₁ ← (elim (find u.dest_ip c.node.rtable) [
    | none ↦ done c
    | some e ↦ if is_lost prev_hop e then scan_lost u e c else done c
  ])
  scan_dests prev_hop us c₁

-- `createNewRERR`, on a fresh object: whether to transmit, the message and the new state. The
-- parameter `addr` is set to NULL at once, so nothing comes back through it.
unfoldable pub create_new_rerr : Rerr → ℕ → Node → Outcome (Bool × Rerr × Node)
create_new_rerr r prev_hop s = do
  c ← scan_dests prev_hop r.unreachable_dest (record {
    cnt = 0;
    brd_flag = false;
    prec_cnt = 0;
    addr = none;
    report = record empty_rerr { n_flag = r.n_flag };
    node = s;
  })
  done (ltb 0 c.prec_cnt, record c.report { dest_cnt = c.cnt }, c.node)
