-- ===== src/Reports/Received.antt =====
-- LA_Client_aodv/rerr.cc, `createNewRERR`: when it returns, and what is in the new message.
use unified_routing_framewor.Prelude.{
  ap, add32, subst, sym, ℕ, ◌^◌, ◌%◌, ◌≡◌, refl, ◌∙◌, ◌≢◌, inl, inr, List, [], ◌∷◌, none, some,
  Bool, true, false, arith, ltb, if◌then◌else◌, Bool-cases, Option-cases, length, length-append,
}
use unified_routing_framewor.Prelude.Outcome.{Outcome, done}
use unified_routing_framewor.RouteEntry.{RtableEntry, get_prec_cnt}
use unified_routing_framewor.RouteMap.{find}
use unified_routing_framewor.Packets.{Rerr, UnrchDest}
use unified_routing_framewor.Node.{Node}
use unified_routing_framewor.ErrorReports.{empty_rerr, set_unrch_dest}
use unified_routing_framewor.Reports.{
  is_lost, lose_route, update_valid_entries, Scan, note_precursors, scan_lost, scan_dests,
  create_new_rerr,
}
use unified_routing_framewor.Reports.Losses.{step, NoSolePrecursor, step-NoSolePrecursor}

-- The count that the loop keeps is the number of destinations in the message, in a byte.
abbrev Counted : Scan → Type 0
Counted c = c.cnt ≡ length c.report.unreachable_dest % 2 ^ 8

-- What a run of the loop is to give: the state of `updateValidEntries`, and a count that is right.
abbrev Scanned : Node → Outcome Scan → Type 0
Scanned t o = (c : Scan) × (o ≡ done c) × (c.node ≡ t) × Counted c

note_precursors-Scanned :
    (e : RtableEntry) (c : Scan)
    → get_prec_cnt e ≢ 1
    → Counted c
    → Scanned c.node (note_precursors e c)
unfolding note_precursors
note_precursors-Scanned e c n h = elim (Bool-cases (ltb 1 (get_prec_cnt e))) [
  | inl b ↦ (
    record c { brd_flag = true; addr = none; prec_cnt = add32 c.prec_cnt (get_prec_cnt e) },
    ground arith,
    refl,
    h,
  )
  | inr b ↦ (c, ground arith, refl, h)
]

scan_lost-Scanned :
    (u : UnrchDest) (e : RtableEntry) (c : Scan)
    → get_prec_cnt e ≢ 1
    → Counted c
    → Scanned (lose_route u e c.node) (scan_lost u e c)
unfolding scan_lost
scan_lost-Scanned u e c n h = note_precursors-Scanned e _ n (
    unfold set_unrch_dest in
    omega (
      arith,
      h,
      length-append c.report.unreachable_dest
          (record { dest_ip = e.dest_ip; dest_seq_num = u.dest_seq_num } ∷ []),
    ))

-- The step of the loop.
scan_step-Scanned :
    (prev_hop : ℕ) (u : UnrchDest) (c : Scan)
    → NoSolePrecursor prev_hop c.node
    → Counted c
    → Scanned (step prev_hop u c.node) (elim (find u.dest_ip c.node.rtable) [
      | none ↦ done c
      | some e ↦ if is_lost prev_hop e then scan_lost u e c else done c
    ])
scan_step-Scanned prev_hop u c n h = elim (Option-cases (find u.dest_ip c.node.rtable)) [
  | inl x ↦ rw (step, x) (c, refl, refl, h)
  | inr (e, x) ↦ elim (Bool-cases (is_lost prev_hop e)) [
    | inl b ↦ rw (step, x, b) (scan_lost-Scanned u e c (ground (arith, n u.dest_ip)) h)
    | inr b ↦ rw (step, x, b) (c, refl, refl, h)
  ]
]

scan_dests-Scanned :
    (prev_hop : ℕ) (us : List UnrchDest) (c : Scan)
    → NoSolePrecursor prev_hop c.node
    → Counted c
    → Scanned (update_valid_entries prev_hop us c.node) (scan_dests prev_hop us c)
unfolding scan_dests update_valid_entries
scan_dests-Scanned prev_hop [] c n h = (c, refl, refl, h)
scan_dests-Scanned prev_hop (u ∷ us) c n h =
    let (c₁, x, y, z) = scan_step-Scanned prev_hop u c n h in
    let (c₂, x₂, y₂, z₂) =
      scan_dests-Scanned prev_hop us c₁
        (subst (NoSolePrecursor prev_hop) (sym y) (step-NoSolePrecursor prev_hop u c.node n)) z in
    (c₂, rw x x₂, y₂ ∙ ap (update_valid_entries prev_hop us) y, z₂)

-- The variables at the start of the loop.
abbrev pub fresh : Rerr → Node → Scan
fresh r s = record {
  cnt = 0;
  brd_flag = false;
  prec_cnt = 0;
  addr = none;
  report = record empty_rerr { n_flag = r.n_flag };
  node = s;
}

-- Where no route over the sender of a report has exactly one precursor, `createNewRERR` returns. It
-- has then changed the daemon's state as `updateValidEntries` does, and the count of the new message
-- is the number of its destinations modulo 256.
pub create_new_rerr-returns :
    (r : Rerr) (prev_hop : ℕ) (s : Node)
    → NoSolePrecursor prev_hop s
    → (send : Bool) × (new : Rerr) × (create_new_rerr r prev_hop s
        ≡ done (send, new, update_valid_entries prev_hop r.unreachable_dest s))
      × (new.dest_cnt ≡ length new.unreachable_dest % 2 ^ 8)
unfolding create_new_rerr
create_new_rerr-returns r prev_hop s n =
    let (c, x, y, z) = scan_dests-Scanned prev_hop r.unreachable_dest (fresh r s) n refl in
    (ltb 0 c.prec_cnt, record c.report { dest_cnt = c.cnt }, rw (x, y) refl, z)
