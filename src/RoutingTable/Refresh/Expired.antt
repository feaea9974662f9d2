-- ===== src/RoutingTable/Refresh/Expired.antt =====
-- A visit of `refreshEntries` that makes routes invalid.
use unified_routing_framewor.Prelude.{
  ℕ, ◌+◌, ◌<◌, ◌^◌, ◌≡◌, ◌∙◌, ◌≢◌, ◌⊎◌, inl, inr, List, Option, some, false, ◌&&◌, arith, ◌==◌,
  if◌then◌else◌, Bool-cases, Option-cases, add64,
}
use unified_routing_framewor.Params.{infinity, delete_period}
use unified_routing_framewor.RouteEntry.{RtableEntry}
use unified_routing_framewor.RouteMap.{find, IsSorted}
use unified_routing_framewor.RouteMap.Laws.{find-dest_ip, update-IsSorted}
use unified_routing_framewor.Node.{Node}
use unified_routing_framewor.RoutingTable.Refresh.{invalidated, invalidate, expire}
use unified_routing_framewor.RoutingTable.Refresh.Behind.{
  is_behind, behind, rtable-invalidate, now-invalidate, invalidated-dest_ip, find-invalidate,
  now-invalidate_behind, invalidate_behind-IsSorted, find-invalidate_behind,
}

-- Each route that is not invalid has an entry of its next hop, a neighbour.
abbrev pub HopsKnown : List RtableEntry → Type 0
HopsKnown m =
    (k : ℕ) (e : RtableEntry)
    → find k m ≡ some e
    → e.hop_cnt ≢ infinity
    → (n : RtableEntry) × (find e.next_hop m ≡ some n) × (n.hop_cnt ≡ 1) × (n.next_hop ≡ e.next_hop)

module _ (e : RtableEntry) (s : Node) (h : find e.dest_ip s.rtable ≡ some e)
    (o : IsSorted s.rtable) where
  find-first :
      (j : ℕ)
      → find j (invalidate e s).rtable
        ≡ (if e.dest_ip == j then some (invalidated s.now e) else find j s.rtable)
  find-first j = rw (find-invalidate j e s) (ground arith)

  first-IsSorted : IsSorted (invalidate e s).rtable
  first-IsSorted = rw (rtable-invalidate e s) (update-IsSorted (invalidated s.now e) s.rtable o)

  -- The first entry is not behind itself.
  behind_self : (o : Option RtableEntry) → behind e.dest_ip s.now (some (invalidated s.now e)) o ≡ o
  behind_self o = ground (arith, invalidated-dest_ip s.now e)

  find-expire :
      (j : ℕ)
      → find j (expire e s).rtable ≡ (
          if e.dest_ip == j
          then some (invalidated s.now e)
          else if e.hop_cnt == 1
          then behind e.dest_ip s.now (find j s.rtable) (find j s.rtable)
          else find j s.rtable)
  unfolding expire
  find-expire j = elim (Bool-cases (e.hop_cnt == 1)) [
    | inl b ↦
        rw (b, expire)
          (find-invalidate_behind j e.dest_ip (invalidate e s).rtable (invalidate e s)
              first-IsSorted (λ i d x. x)
            ∙ rw (find-first j, now-invalidate e s)
                (elim (Bool-cases (e.dest_ip == j)) [
                  | inl c ↦ rw c (behind_self _)
                  | inr c ↦ rw c
                ]))
    | inr b ↦ rw (b, expire) (find-first j)
  ]

  now-expire : (expire e s).now ≡ s.now
  unfolding expire
  now-expire = ground (
    arith,
    now-invalidate e s,
    now-invalidate_behind e.dest_ip (invalidate e s).rtable (invalidate e s),
  )

  expire-IsSorted : IsSorted (expire e s).rtable
  unfolding expire
  expire-IsSorted = elim (Bool-cases (e.hop_cnt == 1)) [
    | inl b ↦
        rw (b, expire)
          (invalidate_behind-IsSorted e.dest_ip (invalidate e s).rtable (invalidate e s)
            first-IsSorted)
    | inr b ↦ rw (b, expire) first-IsSorted
  ]

-- A visit at `k` is done: what it leaves has not expired, but for entries that it has not looked at.
pub record Refreshed (k : ℕ) (s t : Node) : Type 0 where
  pub clock : t.now ≡ s.now
  pub sorted : IsSorted t.rtable
  pub known : HopsKnown t.rtable
  pub settled :
      (j : ℕ) (e : RtableEntry)
      → find j t.rtable ≡ some e
      → (s.now < e.lifetime) ⊎ ((j ≢ k) × (find j s.rtable ≡ some e))

invalidated-lifetime :
    (now : ℕ) (e : RtableEntry) → (invalidated now e).lifetime ≡ add64 now delete_period
invalidated-lifetime now e = ground arith

invalidated-hop_cnt : (now : ℕ) (e : RtableEntry) → (invalidated now e).hop_cnt ≡ infinity
invalidated-hop_cnt now e = ground arith

module _ (s : Node) (o : IsSorted s.rtable) (g : HopsKnown s.rtable)
    (w : s.now + delete_period < 2 ^ 64) where
  module _ (e : RtableEntry) (h : find e.dest_ip s.rtable ≡ some e) where
    -- An entry after `expire` was made invalid by it, or is as it was.
    expire_cases :
        (j : ℕ) (d : RtableEntry)
        → find j (expire e s).rtable ≡ some d
        → ((d.hop_cnt ≡ infinity) × (s.now < d.lifetime))
          ⊎ ((j ≢ e.dest_ip)
              × (find j s.rtable ≡ some d)
              × ((e.hop_cnt == 1 && is_behind e.dest_ip d) ≡ false))
    expire_cases j d x = elim (Option-cases (find j s.rtable)) [
      | inl y ↦
          ground (
            arith,
            find-expire e s h o j,
            invalidated-lifetime s.now e,
            invalidated-hop_cnt s.now e,
          )
      | inr (c, y) ↦ ground (
        arith,
        find-expire e s h o j,
        invalidated-lifetime s.now e,
        invalidated-hop_cnt s.now e,
        invalidated-lifetime s.now c,
        invalidated-hop_cnt s.now c,
      )
    ]

    expire-HopsKnown : HopsKnown (expire e s).rtable
    expire-HopsKnown j d x live = elim (expire_cases j d x) [
      | inl (i, _) ↦ absurd (live i)
      | inr (other, y, kept) ↦
          let (n, z, one, self) = g j d y live in
          (
            n,
            ground (
              arith,
              find-expire e s h o d.next_hop,
              find-dest_ip j s.rtable d y,
              find-dest_ip d.next_hop s.rtable n z,
            ),
            one,
            self,
          )
    ]

    pub expire-Refreshed : Refreshed e.dest_ip s (expire e s)
    expire-Refreshed = record {
      clock = now-expire e s h o;
      sorted = expire-IsSorted e s h o;
      known = expire-HopsKnown;
      settled =
          λ j d x. elim (expire_cases j d x) [ inl (_, l) ↦ inl l | inr (n, y, _) ↦ inr (n, y) ];
    }
