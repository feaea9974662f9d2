-- ===== src/RoutingTable/Refresh.antt =====
-- `refreshEntries` of LA_Client_aodv/routingTable.cc. `idle` is `FO_query_route_idle_time`, which
-- reads a file of the kernel module route_check and gives an `int`.
pub mod Behind
pub mod Expired
pub mod Used
pub mod Total
use unified_routing_framewor.Prelude.{
  ℕ, ◌*◌, List, [], ◌∷◌, Option, none, some, Bool, true, false, not, ◌&&◌, ltb, leb, ◌==◌, map,
  if◌then◌else◌, add32, add64, sub64,
}
use unified_routing_framewor.Prelude.Int.{ℤ, pos, ltb_ℤ, is_minus_one, u64_of_int}
use unified_routing_framewor.Prelude.Outcome.{Outcome, done, fault, null_pointer, ◌>>=◌}
use unified_routing_framewor.Params.{
  infinity, active_route_timeout, delete_period, active_route, invalid_route,
}
use unified_routing_framewor.RouteEntry.{RtableEntry}
use unified_routing_framewor.RouteMap.{find, update, erase}
use unified_routing_framewor.Node.{Node, del_kroute}

module _ (idle : ℕ → ℕ → ℤ) where
  -- The loop that asks for the nodes behind a neighbour.
  unfoldable pub least_idle : ℕ → List RtableEntry → ℤ → ℤ
  least_idle k [] time_idle = time_idle
  least_idle k (d ∷ m) time_idle = least_idle k m (
      if not (d.dest_ip == k) && k == d.next_hop
      then (let temp_time_idle = idle d.dest_ip 0 in
          if not (is_minus_one temp_time_idle) && ltb_ℤ temp_time_idle time_idle
          then temp_time_idle
          else time_idle)
      else time_idle)

  -- `time_idle` of an entry.
  unfoldable pub route_idle : RtableEntry → List RtableEntry → ℤ
  unfolding least_idle
  route_idle e m =
      let answer = idle e.dest_ip 1 in
      let own : ℤ = if ltb_ℤ answer (pos 0) then pos (2 * active_route_timeout) else answer in
      if e.hop_cnt == 1 then least_idle e.dest_ip m own else own

-- An entry made invalid; the count and the sequence number move only for an active route. The local
-- repair list stays as it is: the code tests for a broken route after it has set the flags.
abbrev pub invalidated : ℕ → RtableEntry → RtableEntry
invalidated now e =
    let counted =
      if e.routing_flags == active_route
      then record e { dest_seq_num = add32 e.dest_seq_num 1; last_hop_cnt = e.hop_cnt }
      else e in
    record counted {
      hop_cnt = infinity;
      lifetime = add64 now delete_period;
      routing_flags = invalid_route;
    }

unfoldable pub invalidate : RtableEntry → Node → Node
invalidate e s =
    let s₁ = if e.routing_flags == active_route then del_kroute e s else s in
    record s₁ { rtable = update (invalidated s.now e) s₁.rtable }

-- The loop over the destinations behind a neighbour that was made invalid. Each entry is read and
-- changed at its own visit only.
unfoldable pub invalidate_behind : ℕ → List RtableEntry → Node → Node
invalidate_behind k [] s = s
invalidate_behind k (d ∷ m) s = invalidate_behind k m (
    if not (d.dest_ip == k) && (k == d.next_hop && not (d.hop_cnt == infinity))
    then invalidate d s
    else s)

-- A route that was used lately: it and its next hop live on. The pointer to the next hop's entry is
-- not tested.
unfoldable pub prolong : ℤ → RtableEntry → Node → Outcome Node
prolong time_idle e s =
    let life = add64 (sub64 s.now (u64_of_int time_idle)) active_route_timeout in
    let m = update (record e { lifetime = life }) s.rtable in
    elim (find e.next_hop m) [
      | none ↦ fault null_pointer
      | some n ↦ done (record s { rtable = update (record n { lifetime = life }) m })
    ]

-- A route that was not: it goes, with those behind it if it was a neighbour.
unfoldable pub expire : RtableEntry → Node → Node
expire e s =
    let s₁ = invalidate e s in
    if e.hop_cnt == 1 then invalidate_behind e.dest_ip s₁.rtable s₁ else s₁

module _ (idle : ℕ → ℕ → ℤ) where
  -- The body of the loop at the entry with the key `k`.
  unfoldable pub refresh_entry : ℕ → Node → Outcome Node
  refresh_entry k s = elim (find k s.rtable) [
    | none ↦ done s
    | some e ↦
        if leb e.lifetime s.now
        then if e.hop_cnt == infinity
          then done (record s { rtable = erase k s.rtable })
          else if ltb_ℤ (route_idle idle e s.rtable) (pos active_route_timeout)
          then prolong (route_idle idle e s.rtable) e s
          else done (expire e s)
        else done s
  ]

  -- The loop. No visit adds an entry or removes another one, so the keys of the table at the start
  -- are those that the iterator comes to.
  unfoldable pub refresh_keys : List ℕ → Node → Outcome Node
  refresh_keys [] s = done s
  refresh_keys (k ∷ ks) s = do s₁ ← refresh_entry k s; refresh_keys ks s₁

  -- `refreshEntries`
  unfoldable pub refresh_entries : Node → Outcome Node
  refresh_entries s = refresh_keys (map (λ e. e.dest_ip) s.rtable) s
