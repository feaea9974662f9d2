-- ===== src/RoutingTable/Refresh/Used.antt =====
-- A visit of `refreshEntries` that deletes an entry, or lets a route that was used live on.
use unified_routing_framewor.Prelude.{
  ℕ, ◌+◌, ◌<◌, ◌≤◌, true, ltb→lt, ◌^◌, ◌≡◌, refl, ◌≢◌, List, some, arith, ◌==◌, if◌then◌else◌,
  ℕ_discrete, add64, sub64,
}
use unified_routing_framewor.Prelude.Int.{ℤ, pos, negsuc, neg_part, ltb_ℤ, u64_of_int}
use unified_routing_framewor.Prelude.Outcome.{done}
use unified_routing_framewor.Params.{infinity, active_route_timeout}
use unified_routing_framewor.RouteEntry.{RtableEntry}
use unified_routing_framewor.RouteMap.{find, update, erase, IsSorted}
use unified_routing_framewor.RouteMap.Laws.{
  find-dest_ip, find-update, find-erase, update-IsSorted, erase-IsSorted,
}
use unified_routing_framewor.Node.{Node}
use unified_routing_framewor.RoutingTable.Refresh.{prolong}
use unified_routing_framewor.RoutingTable.Refresh.Expired.{HopsKnown, Refreshed}

-- An entry with another lifetime.
abbrev with_life : ℕ → RtableEntry → RtableEntry
with_life l d = record d { lifetime = l }

module _ (m : List RtableEntry) (g : HopsKnown m) (d : RtableEntry) (l : ℕ)
    (h : find d.dest_ip m ≡ some d) where
  find-with_life :
      (j : ℕ)
      → find j (update (with_life l d) m)
        ≡ (if d.dest_ip == j then some (with_life l d) else find j m)
  find-with_life j = ground (arith, find-update j (with_life l d) m)

  -- A neighbour stays one.
  still_known :
      (k : ℕ) (n : RtableEntry)
      → find k m ≡ some n
      → n.hop_cnt ≡ 1
      → n.next_hop ≡ k
      → (n' : RtableEntry) × (find k (update (with_life l d) m) ≡ some n')
        × (n'.hop_cnt ≡ 1)
        × (n'.next_hop ≡ k)
  still_known k n x one self = elim (ℕ_discrete d.dest_ip k) [
    | yes p ↦ (with_life l d, ground (arith, find-with_life k), ground arith, ground arith)
    | no p ↦ (n, ground (arith, find-with_life k), one, self)
  ]

  with_life-HopsKnown : HopsKnown (update (with_life l d) m)
  with_life-HopsKnown j e x live = elim (ℕ_discrete d.dest_ip j) [
    | yes p ↦
        let hop : d.hop_cnt ≢ infinity = λ i. live (ground (arith, find-with_life j)) in
        let (n, y, one, self) = g d.dest_ip d h hop in
        let next : e.next_hop ≡ d.next_hop = ground (arith, find-with_life j) in
        rw next (still_known d.next_hop n y one self)
    | no p ↦
        let (n, y, one, self) = g j e (ground (arith, find-with_life j)) live in
        still_known e.next_hop n y one self
  ]

-- The lifetime that a route gets for its use.
used_life :
    (now : ℕ) (t : ℤ)
    → now + 2 ^ 32 < 2 ^ 64
    → neg_part t ≤ 2 ^ 31
    → ltb_ℤ t (pos active_route_timeout) ≡ true
    → now < add64 (sub64 now (u64_of_int t)) active_route_timeout
used_life now (pos n) w b h = omega (arith, w, ltb→lt _ _ h)
used_life now (negsuc n) w b h = omega (arith, w, b)

module _ (s : Node) (o : IsSorted s.rtable) (g : HopsKnown s.rtable)
    (w : s.now + 2 ^ 32 < 2 ^ 64) where
  erase-HopsKnown :
      (e : RtableEntry)
      → find e.dest_ip s.rtable ≡ some e
      → e.hop_cnt ≡ infinity
      → HopsKnown (erase e.dest_ip s.rtable)
  erase-HopsKnown e h i j d x live =
      let (n, y, one, self) = g j d (ground (arith, find-erase j e.dest_ip s.rtable o)) live in
      (n, ground (arith, find-erase d.next_hop e.dest_ip s.rtable o), one, self)

  pub erase-Refreshed :
      (e : RtableEntry)
      → find e.dest_ip s.rtable ≡ some e
      → e.hop_cnt ≡ infinity
      → Refreshed e.dest_ip s (record s { rtable = erase e.dest_ip s.rtable })
  erase-Refreshed e h i = record {
    clock = refl;
    sorted = erase-IsSorted e.dest_ip s.rtable o;
    known = erase-HopsKnown e h i;
    settled = λ j d x. ground (arith, find-erase j e.dest_ip s.rtable o);
  }

  pub prolong-Refreshed :
      (t : ℤ) (e : RtableEntry)
      → find e.dest_ip s.rtable ≡ some e
      → e.hop_cnt ≢ infinity
      → neg_part t ≤ 2 ^ 31
      → ltb_ℤ t (pos active_route_timeout) ≡ true
      → (s' : Node) × (prolong t e s ≡ done s') × Refreshed e.dest_ip s s'
  prolong-Refreshed t e h i low lt =
      let life = add64 (sub64 s.now (u64_of_int t)) active_route_timeout in
      let (n, y, one, self) = g e.dest_ip e h i in
      let (n₁, y₁, _, _) = still_known s.rtable g e life h e.next_hop n y one self in
      let m = update (with_life life e) s.rtable in
      let d : n₁.dest_ip ≡ e.next_hop = find-dest_ip e.next_hop m n₁ y₁ in
      let y₂ : find n₁.dest_ip m ≡ some n₁ = rw d y₁ in
      let g₁ = with_life-HopsKnown s.rtable g e life h in
      (
        record s { rtable = update (with_life life n₁) m },
        unfold prolong in rw (y₁, prolong),
        record {
          clock = refl;
          sorted =
              update-IsSorted (with_life life n₁) m (update-IsSorted (with_life life e) s.rtable o);
          known = with_life-HopsKnown m g₁ n₁ life y₂;
          settled = λ j c x. ground (
            arith,
            find-with_life m g₁ n₁ life y₂ j,
            find-with_life s.rtable g e life h j,
            used_life s.now t w low lt,
          );
        },
      )
