-- ===== src/RoutingTable/Freshness.antt =====
-- What `forwardRouteUpdate` and `reverseRouteUpdate` do to each entry of the table.
use unified_routing_framewor.Prelude.{
  ℕ, ◌+◌, ◌≤◌, ◌<◌, ◌^◌, ◌%◌, ◌≡◌, refl, ◌⊎◌, inl, inr, ◌≢◌, none, some, true, false, arith, ◌==◌,
  if◌then◌else◌, Bool-cases,
}
use unified_routing_framewor.Params.{active_route}
use unified_routing_framewor.RouteEntry.{RtableEntry, create_entry}
use unified_routing_framewor.RouteMap.{find, update, IsSorted}
use unified_routing_framewor.RouteMap.Laws.{find-dest_ip, find-update, find-insert}
use unified_routing_framewor.Packets.{Rreq, Rrep}
use unified_routing_framewor.Node.{Node, add_kroute, del_kroute}
use unified_routing_framewor.RoutingTable.{is_better, insert_route}
use unified_routing_framewor.RoutingTable.Updates.{
  replace_route, forward_better, forward_revived, forward_created, forward_route_entry,
  forward_route_update, reverse_better, reverse_revived, reverse_created, reverse_route_entry,
  reverse_route_update,
}
use unified_routing_framewor.RoutingTable.Frame.{SameRoutes}
use unified_routing_framewor.RoutingTable.Frame.After.{route_found-SameRoutes}

-- The order of routes: a later sequence number, or the same one over no more hops.
abbrev pub IsAtLeast : RtableEntry → RtableEntry → Type 0
IsAtLeast e e' =
    (e.dest_seq_num < e'.dest_seq_num)
    ⊎ ((e.dest_seq_num ≡ e'.dest_seq_num) × (e'.hop_cnt ≤ e.hop_cnt))

-- The table after an update for `dst` is the old one but for that entry.
abbrev pub Sets : ℕ → RtableEntry → Node → Node → Type 0
Sets dst e s t = (k : ℕ) → find k t.rtable ≡ (if dst == k then some e else find k s.rtable)

pub write_found :
    (dst : ℕ) (e e' : RtableEntry) (s : Node)
    → find dst s.rtable ≡ some e
    → e'.dest_ip ≡ e.dest_ip
    → (k : ℕ) → find k (update e' s.rtable) ≡ (if dst == k then some e' else find k s.rtable)
write_found dst e e' s h d k =
    ground (arith, find-update k e' s.rtable, find-dest_ip dst s.rtable e)

pub replace_route-Sets :
    (dst : ℕ) (e e' : RtableEntry) (hop_cnt : ℕ) (s : Node)
    → find dst s.rtable ≡ some e
    → e'.dest_ip ≡ e.dest_ip
    → Sets dst e' s (replace_route e e' hop_cnt s)
unfolding replace_route add_kroute del_kroute
replace_route-Sets dst e e' hop_cnt s h d k = ground (arith, write_found dst e e' s h d k)

pub insert_route-Sets :
    (e : RtableEntry) (s : Node)
    → find e.dest_ip s.rtable ≡ none
    → IsSorted s.rtable
    → Sets e.dest_ip e s (insert_route e s)
unfolding insert_route add_kroute
insert_route-Sets e s h o k =
    ground (arith, find-insert k e s.rtable o, find-insert e.dest_ip e s.rtable o)

-- The route to `dst` was active with the entry `e`; now it has `e'`. Either the message was no better
-- and nothing changed, or it was, and the route goes over its sender as the message says. The table's
-- other entries are as they were.
abbrev pub Adopts : ℕ → ℕ → ℕ → ℕ → RtableEntry → Node → Node → Type 0
Adopts dst seq_num hop_cnt nhop e s t =
    (e' : RtableEntry) × Sets dst e' s t
    × (e'.routing_flags ≡ active_route)
    × IsAtLeast e e'
    × (((is_better seq_num hop_cnt e ≡ false) × (e' ≡ e))
        ⊎ ((is_better seq_num hop_cnt e ≡ true)
            × (e'.next_hop ≡ nhop)
            × (e'.dest_seq_num ≡ seq_num)
            × (e'.hop_cnt ≡ (hop_cnt + 1) % 2 ^ 8)))

pub same-Sets : (dst : ℕ) (e : RtableEntry) (s : Node) → find dst s.rtable ≡ some e → Sets dst e s s
same-Sets dst e s h k = ground arith

module _ (nhop : ℕ) (r : Rrep) (s : Node) (e : RtableEntry)
    (h : find r.dest_ip s.rtable ≡ some e) where
  pub forward_active :
      e.routing_flags ≡ active_route
      → forward_route_entry nhop r s ≡ (
          if is_better r.dest_seq_num r.hop_cnt e
          then replace_route e (forward_better s.now nhop r e) r.hop_cnt s
          else s)
  unfolding forward_route_entry
  forward_active a = rw (h, forward_route_entry) (ground arith)

  pub forward_inactive :
      e.routing_flags ≢ active_route
      → forward_route_entry nhop r s
        ≡ add_kroute
            (forward_revived s.now nhop r e)
            (record s { rtable = update (forward_revived s.now nhop r e) s.rtable })
  unfolding forward_route_entry
  forward_inactive a = rw (h, forward_route_entry) (ground arith)

  forward_route_entry-Adopts :
      e.routing_flags ≡ active_route
      → Adopts r.dest_ip r.dest_seq_num r.hop_cnt nhop e s (forward_route_entry nhop r s)
  forward_route_entry-Adopts a = elim (Bool-cases (is_better r.dest_seq_num r.hop_cnt e)) [
    | inl b ↦
        let t = forward_better s.now nhop r e in
        (
          t,
          rw (forward_active a, b) (replace_route-Sets r.dest_ip e t r.hop_cnt s h refl),
          a,
          ground arith,
          inr (b, refl, refl, refl),
        )
    | inr b ↦
        (e, rw (forward_active a, b) (same-Sets r.dest_ip e s h), a, ground arith, inl (b, refl))
  ]

  pub forward_route_entry-revives :
      e.routing_flags ≢ active_route
      → Sets r.dest_ip (forward_revived s.now nhop r e) s (forward_route_entry nhop r s)
  unfolding add_kroute
  forward_route_entry-revives a =
      rw (forward_inactive a) (write_found r.dest_ip e (forward_revived s.now nhop r e) s h refl)

pub forward_none :
    (nhop : ℕ) (r : Rrep) (s : Node)
    → find r.dest_ip s.rtable ≡ none
    → forward_route_entry nhop r s ≡ insert_route (forward_created s.now nhop r) s
unfolding forward_route_entry
forward_none nhop r s h = rw (h, forward_route_entry)

pub forward_route_entry-creates :
    (nhop : ℕ) (r : Rrep) (s : Node)
    → find r.dest_ip s.rtable ≡ none
    → IsSorted s.rtable
    → Sets r.dest_ip (forward_created s.now nhop r) s (forward_route_entry nhop r s)
unfolding create_entry
forward_route_entry-creates nhop r s h o =
    rw (forward_none nhop r s h) (insert_route-Sets (forward_created s.now nhop r) s h o)

module _ (nhop : ℕ) (r : Rreq) (s : Node) (e : RtableEntry)
    (h : find r.src_ip s.rtable ≡ some e) where
  pub reverse_active :
      e.routing_flags ≡ active_route
      → reverse_route_entry nhop r s ≡ (
          if is_better r.src_seq_num r.hop_cnt e
          then replace_route e (reverse_better s.now nhop r e) r.hop_cnt s
          else s)
  unfolding reverse_route_entry
  reverse_active a = rw (h, reverse_route_entry) (ground arith)

  pub reverse_inactive :
      e.routing_flags ≢ active_route
      → reverse_route_entry nhop r s
        ≡ add_kroute
            (reverse_revived s.now nhop r e)
            (record s { rtable = update (reverse_revived s.now nhop r e) s.rtable })
  unfolding reverse_route_entry
  reverse_inactive a = rw (h, reverse_route_entry) (ground arith)

  reverse_route_entry-Adopts :
      e.routing_flags ≡ active_route
      → Adopts r.src_ip r.src_seq_num r.hop_cnt nhop e s (reverse_route_entry nhop r s)
  reverse_route_entry-Adopts a = elim (Bool-cases (is_better r.src_seq_num r.hop_cnt e)) [
    | inl b ↦
        let t = reverse_better s.now nhop r e in
        (
          t,
          rw (reverse_active a, b) (replace_route-Sets r.src_ip e t r.hop_cnt s h refl),
          a,
          ground arith,
          inr (b, refl, refl, refl),
        )
    | inr b ↦
        (e, rw (reverse_active a, b) (same-Sets r.src_ip e s h), a, ground arith, inl (b, refl))
  ]

  pub reverse_route_entry-revives :
      e.routing_flags ≢ active_route
      → Sets r.src_ip (reverse_revived s.now nhop r e) s (reverse_route_entry nhop r s)
  unfolding add_kroute
  reverse_route_entry-revives a =
      rw (reverse_inactive a) (write_found r.src_ip e (reverse_revived s.now nhop r e) s h refl)

pub reverse_none :
    (nhop : ℕ) (r : Rreq) (s : Node)
    → find r.src_ip s.rtable ≡ none
    → reverse_route_entry nhop r s ≡ insert_route (reverse_created s.now nhop r) s
unfolding reverse_route_entry
reverse_none nhop r s h = rw (h, reverse_route_entry)

pub reverse_route_entry-creates :
    (nhop : ℕ) (r : Rreq) (s : Node)
    → find r.src_ip s.rtable ≡ none
    → IsSorted s.rtable
    → Sets r.src_ip (reverse_created s.now nhop r) s (reverse_route_entry nhop r s)
unfolding create_entry
reverse_route_entry-creates nhop r s h o =
    rw (reverse_none nhop r s h) (insert_route-Sets (reverse_created s.now nhop r) s h o)

Sets-then :
    (dst : ℕ) (e : RtableEntry) (s : Node) {t u : Node}
    → Sets dst e s t
    → SameRoutes t u
    → Sets dst e s u
Sets-then dst e s h same k = rw same.table (h k)

Adopts-then :
    (dst seq_num hop_cnt nhop : ℕ) (e : RtableEntry) (s : Node) {t u : Node}
    → Adopts dst seq_num hop_cnt nhop e s t
    → SameRoutes t u
    → Adopts dst seq_num hop_cnt nhop e s u
Adopts-then dst seq_num hop_cnt nhop e s a same =
    (a.0, Sets-then dst (a.0) s a.1 same, a.2, a.3, a.4)

-- If the destination of a reply has an active route, `forwardRouteUpdate` leaves it active and never
-- replaces it by a staler or, at the same sequence number, a longer one. It takes the reply's route
-- over exactly when that is better, and then the route goes over the sender, with the reply's sequence
-- number and one hop more (as a `u_int8_t`). No other destination's entry changes.
pub forward_route_update-Adopts :
    (nhop : ℕ) (r : Rrep) (s : Node) (e : RtableEntry)
    → find r.dest_ip s.rtable ≡ some e
    → e.routing_flags ≡ active_route
    → Adopts r.dest_ip r.dest_seq_num r.hop_cnt nhop e s (forward_route_update nhop r s)
forward_route_update-Adopts nhop r s e h a =
    unfold forward_route_update in
    Adopts-then r.dest_ip r.dest_seq_num r.hop_cnt nhop e s
      (forward_route_entry-Adopts nhop r s e h a) (route_found-SameRoutes r.dest_ip _)

-- If the source of a request has an active route, `reverseRouteUpdate` leaves it active and never
-- replaces it by a staler or, at the same sequence number, a longer one. It takes the request's route
-- over exactly when that is better, and then the route goes over the sender, with the request's
-- sequence number and one hop more (as a `u_int8_t`). No other destination's entry changes.
pub reverse_route_update-Adopts :
    (nhop : ℕ) (r : Rreq) (s : Node) (e : RtableEntry)
    → find r.src_ip s.rtable ≡ some e
    → e.routing_flags ≡ active_route
    → Adopts r.src_ip r.src_seq_num r.hop_cnt nhop e s (reverse_route_update nhop r s)
reverse_route_update-Adopts nhop r s e h a =
    unfold reverse_route_update in
    Adopts-then r.src_ip r.src_seq_num r.hop_cnt nhop e s
      (reverse_route_entry-Adopts nhop r s e h a) (route_found-SameRoutes r.src_ip _)
