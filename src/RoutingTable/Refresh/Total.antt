-- ===== src/RoutingTable/Refresh/Total.antt =====
-- `refreshEntries` returns, and what it leaves of the table.
use unified_routing_framewor.Prelude.{
  ℕ, ◌+◌, ◌<◌, ◌^◌, ◌≡◌, refl, sym, ◌∙◌, ◌⊎◌, inl, inr, subst, ◌||◌, List, [], ◌∷◌, map, some, Bool,
  true, false, not, ◌&&◌, ◌*◌, if◌then◌else◌, arith, leb, ◌==◌, Bool-cases, Option-cases,
  ℕ_discrete,
}
use unified_routing_framewor.Prelude.Int.{ℤ, pos, IsInt, is_minus_one, ltb_ℤ}
use unified_routing_framewor.Prelude.Outcome.{done}
use unified_routing_framewor.Params.{infinity, active_route_timeout}
use unified_routing_framewor.RouteEntry.{RtableEntry}
use unified_routing_framewor.RouteMap.{find, erase, IsSorted}
use unified_routing_framewor.RouteMap.Laws.{Each, Each-at, Each-of, find-dest_ip}
use unified_routing_framewor.Node.{Node}
use unified_routing_framewor.RoutingTable.Refresh.{
  least_idle, route_idle, expire, refresh_entry, refresh_keys, refresh_entries,
}
use unified_routing_framewor.RoutingTable.Refresh.Expired.{HopsKnown, Refreshed, expire-Refreshed}
use unified_routing_framewor.RoutingTable.Refresh.Used.{erase-Refreshed, prolong-Refreshed}

IsInt-if : (b : Bool) (x y : ℤ) → IsInt x → IsInt y → IsInt (if b then x else y)
IsInt-if true x y i j = i
IsInt-if false x y i j = j

-- What the queries answer are `int`s.
abbrev pub AreInts : (ℕ → ℕ → ℤ) → Type 0
AreInts idle = (dest recv_flag : ℕ) → IsInt (idle dest recv_flag)

module _ (idle : ℕ → ℕ → ℤ) (ints : AreInts idle) where
  least_idle-IsInt :
      (k : ℕ) (m : List RtableEntry) (t : ℤ) → IsInt t → IsInt (least_idle idle k m t)
  unfolding least_idle
  least_idle-IsInt k [] t i = i
  least_idle-IsInt k (d ∷ m) t i = least_idle-IsInt k m _ (
      IsInt-if (not (d.dest_ip == k) && k == d.next_hop) _ t
        (IsInt-if (not (is_minus_one (idle d.dest_ip 0)) && ltb_ℤ (idle d.dest_ip 0) t) _ t
          (ints d.dest_ip 0) i)
        i)

  route_idle-IsInt : (e : RtableEntry) (m : List RtableEntry) → IsInt (route_idle idle e m)
  unfolding route_idle
  route_idle-IsInt e m =
      let own =
        IsInt-if (ltb_ℤ (idle e.dest_ip 1) (pos 0)) (pos (2 * active_route_timeout)) _
          (omega arith, omega arith) (ints e.dest_ip 1) in
      IsInt-if (e.hop_cnt == 1) _ _ (least_idle-IsInt e.dest_ip m _ own) own

  refresh_entry-Refreshed :
      (k : ℕ) (s : Node)
      → IsSorted s.rtable
      → HopsKnown s.rtable
      → s.now + 2 ^ 32 < 2 ^ 64
      → (s' : Node) × (refresh_entry idle k s ≡ done s') × Refreshed k s s'
  unfolding refresh_entry
  refresh_entry-Refreshed k s o g w = elim (Option-cases (find k s.rtable)) [
    | inl h ↦ (
      s,
      rw (h, refresh_entry),
      record { clock = refl; sorted = o; known = g; settled = λ j d x. ground arith },
    )
    | inr (e, h) ↦
        let d : e.dest_ip ≡ k = find-dest_ip k s.rtable e h in
        let h' : find e.dest_ip s.rtable ≡ some e =
          subst (λ q. find q s.rtable ≡ some e) (sym d) h in
        elim (Bool-cases (leb e.lifetime s.now)) [
          | inr b ↦ (
            s,
            rw (h, refresh_entry) (rw b),
            record { clock = refl; sorted = o; known = g; settled = λ j c x. ground arith },
          )
          | inl b ↦ elim (ℕ_discrete e.hop_cnt infinity) [
            | yes i ↦ (
              record s { rtable = erase k s.rtable },
              rw (h, refresh_entry) (ground arith),
              subst (λ q. Refreshed q s (record s { rtable = erase q s.rtable })) d
                  (erase-Refreshed s o g w e h' i),
            )
            | no i ↦
                elim (Bool-cases (ltb_ℤ (route_idle idle e s.rtable) (pos active_route_timeout))) [
                  | inl u ↦
                      let (s', p, r) =
                        prolong-Refreshed s o g w (route_idle idle e s.rtable) e h' i
                          (route_idle-IsInt e s.rtable).1 u in
                      (s', rw (h, refresh_entry) (ground arith), subst (λ q. Refreshed q s s') d r)
                  | inr u ↦ (
                    expire e s,
                    rw (h, refresh_entry) (ground arith),
                    subst (λ q. Refreshed q s (expire e s)) d
                        (expire-Refreshed s o g (omega (arith, w)) e h'),
                  )
                ]
          ]
        ]
  ]

-- Whether a key is still to be visited.
abbrev is_ahead : ℕ → List ℕ → Bool
is_ahead k [] = false
is_ahead k (j ∷ ks) = j == k || is_ahead k ks

-- What the loop leaves when all is visited.
pub record AllLive (s t : Node) : Type 0 where
  pub clock : t.now ≡ s.now
  pub sorted : IsSorted t.rtable
  pub known : HopsKnown t.rtable
  pub live : (j : ℕ) (e : RtableEntry) → find j t.rtable ≡ some e → s.now < e.lifetime

module _ (idle : ℕ → ℕ → ℤ) (ints : AreInts idle) where
  refresh_keys-AllLive :
      (ks : List ℕ) (s : Node)
      → IsSorted s.rtable
      → HopsKnown s.rtable
      → s.now + 2 ^ 32 < 2 ^ 64
      → ((j : ℕ) (e : RtableEntry)
          → find j s.rtable ≡ some e
          → (s.now < e.lifetime) ⊎ (is_ahead j ks ≡ true))
      → (s' : Node) × (refresh_keys idle ks s ≡ done s') × AllLive s s'
  unfolding refresh_keys
  refresh_keys-AllLive [] s o g w a = (
    s,
    refl,
    record { clock = refl; sorted = o; known = g; live = λ j e x. ground (arith, a j e) },
  )
  refresh_keys-AllLive (k ∷ ks) s o g w a =
      let (s₁, p, r) = refresh_entry-Refreshed idle ints k s o g w in
      let (s', q, l) =
        refresh_keys-AllLive ks s₁ r.sorted r.known (rw r.clock w)
          (λ j e x. rw r.clock (ground (arith, a j e, r.settled j e))) in
      (
        s',
        rw p q,
        record {
          clock = l.clock ∙ r.clock;
          sorted = l.sorted;
          known = l.known;
          live = λ j e x. rw (sym r.clock) (l.live j e x);
        },
      )

  find-ahead :
      (j : ℕ) (m : List RtableEntry) (e : RtableEntry)
      → find j m ≡ some e
      → is_ahead j (map (λ d. d.dest_ip) m) ≡ true
  unfolding find
  find-ahead j [] e h = cc
  find-ahead j (d ∷ m) e h = ground (arith, find-ahead j m e)

-- The next hop of a route is a neighbour with an entry of its own, or the route is invalid.
abbrev pub NextHopKnown : List RtableEntry → RtableEntry → Type 0
NextHopKnown m e =
    (e.hop_cnt ≡ infinity)
    ⊎ ((n : RtableEntry) × (find e.next_hop m ≡ some n)
        × (n.hop_cnt ≡ 1)
        × (n.next_hop ≡ e.next_hop))

HopsKnown-of : (m : List RtableEntry) → Each (NextHopKnown m) m → HopsKnown m
HopsKnown-of m g k e x live = elim (Each-at (NextHopKnown m) m g k e x) [
  | inl i ↦ absurd (live i)
  | inr n ↦ n
]

HopsKnown-Each : (m : List RtableEntry) → HopsKnown m → Each (NextHopKnown m) m
HopsKnown-Each m g =
    Each-of (NextHopKnown m) m
      λ k e x. elim (ℕ_discrete e.hop_cnt infinity) [ yes i ↦ inl i | no live ↦ inr (g k e x live) ]

-- Where the table is sorted, the next hop of each route that is not invalid is a known neighbour, and
-- the clock is more than 2^32 milliseconds from its last value, `refreshEntries` returns without a
-- fault, whatever `int`s, negative ones too, the query gives for the routes' idle times. Then no entry of the table has expired, the
-- table is sorted, and the next hop of each route that is not invalid is a known neighbour.
pub refresh_entries-total :
    (idle : ℕ → ℕ → ℤ) (s : Node)
    → AreInts idle
    → IsSorted s.rtable
    → Each (NextHopKnown s.rtable) s.rtable
    → s.now + 2 ^ 32 < 2 ^ 64
    → (t : Node) × (refresh_entries idle s ≡ done t)
      × IsSorted t.rtable
      × Each (NextHopKnown t.rtable) t.rtable
      × Each (λ e. s.now < e.lifetime) t.rtable
unfolding refresh_entries
refresh_entries-total idle s ints o g w =
    let (t, p, l) =
      refresh_keys-AllLive idle ints (map (λ e. e.dest_ip) s.rtable) s o (HopsKnown-of s.rtable g) w
        (λ j e x. inr (find-ahead idle ints j s.rtable e x)) in
    (
      t,
      p,
      l.sorted,
      HopsKnown-Each t.rtable l.known,
      Each-of (λ e. s.now < e.lifetime) t.rtable l.live,
    )
