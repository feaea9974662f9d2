-- ===== src/RouteCache/Idle.antt =====
-- kernel_module/route_check/module_main.c with lib/FO/fo.cpp: the idle times that are read behind a
-- packet.
use unified_routing_framewor.Prelude.{
  ℕ, ◌+◌, ◌^◌, ◌≤◌, ◌<◌, ◌≡◌, ◌≢◌, refl, sym, ap, subst, ◌∙◌, ◌⊎◌, inl, inr, List, [], ◌∷◌, Option,
  none, some, true, false, if◌then◌else◌, arith, ◌*◌, ◌/◌, Option-cases, Bool-cases, ==_self,
}
use unified_routing_framewor.Prelude.Int.{sub_ℕ}
use unified_routing_framewor.RouteCache.{
  CacheEntry, find_route_cache_entry, insert_route_cache_entry, touch, note_use, input_handler,
}
use unified_routing_framewor.RouteCache.Query.{
  kernel_getcurrtime, getcurrtime, query_route_idle_time, IsUnique, fits, find-fits_not, idle_of,
  query-find,
}

-- What a use leaves of the cache: the entry has the time, no other key's entry changed.
record Notes (ip flag time : ℕ) (l l' : List CacheEntry) : Type 0 where
  entry : CacheEntry
  found : find_route_cache_entry ip flag l' ≡ some entry
  noted : entry.last_use_time ≡ time
  others :
      (b g : ℕ)
      → (b ≢ ip) ⊎ (g ≢ flag)
      → find_route_cache_entry b g l' ≡ find_route_cache_entry b g l
  unique : IsUnique l → IsUnique l'

find-touch :
    (ip flag time : ℕ) (e : CacheEntry) (l : List CacheEntry)
    → find_route_cache_entry ip flag l ≡ some e
    → (x : CacheEntry) × (find_route_cache_entry ip flag (touch ip flag time l) ≡ some x)
      × (x.last_use_time ≡ time)
unfolding find_route_cache_entry touch
find-touch ip flag time e [] h = ground (arith, h)
find-touch ip flag time e (x ∷ l) h = elim (Bool-cases (fits ip flag x)) [
  | inl b ↦ rw b (record x { last_use_time = time }, rw b refl, refl)
  | inr b ↦
      let (y, k, t) = find-touch ip flag time e l (sym (find-fits_not ip flag x l b) ∙ h) in
      rw b (y, rw b k, t)
]

find-touch_ne :
    (ip flag time b g : ℕ) (l : List CacheEntry)
    → (b ≢ ip) ⊎ (g ≢ flag)
    → find_route_cache_entry b g (touch ip flag time l) ≡ find_route_cache_entry b g l
unfolding find_route_cache_entry touch
find-touch_ne ip flag time b g [] ne = refl
find-touch_ne ip flag time b g (x ∷ l) ne = ground (arith, ne, find-touch_ne ip flag time b g l ne)

find-touch-none :
    (ip flag time b g : ℕ) (l : List CacheEntry)
    → find_route_cache_entry b g l ≡ none
    → find_route_cache_entry b g (touch ip flag time l) ≡ none
unfolding find_route_cache_entry touch
find-touch-none ip flag time b g [] h = h
find-touch-none ip flag time b g (x ∷ l) h = ground (arith, h, find-touch-none ip flag time b g l)

touch-IsUnique :
    (ip flag time : ℕ) (l : List CacheEntry) → IsUnique l → IsUnique (touch ip flag time l)
unfolding touch
touch-IsUnique ip flag time [] u = tt
touch-IsUnique ip flag time (x ∷ l) u =
    elim (fits ip flag x)
      as (λ b.
        IsUnique (if b then record x { last_use_time = time } ∷ l else x ∷ touch ip flag time l)) [
          | true ↦ u
          | false ↦ (
            find-touch-none ip flag time x.dst_ip x.valid_flag l u.0,
            touch-IsUnique ip flag time l u.1,
          )
        ]

find-new :
    (ip flag time n : ℕ) (l : List CacheEntry)
    → find_route_cache_entry ip flag
        (record { dst_ip = ip; last_use_time = time; valid_flag = flag; node = n } ∷ l)
      ≡ some (record { dst_ip = ip; last_use_time = time; valid_flag = flag; node = n })
unfolding find_route_cache_entry
find-new ip flag time n l = rw (==_self ip, ==_self flag) refl

find-new_ne :
    (ip flag time n b g : ℕ) (l : List CacheEntry)
    → (b ≢ ip) ⊎ (g ≢ flag)
    → find_route_cache_entry b g
        (record { dst_ip = ip; last_use_time = time; valid_flag = flag; node = n } ∷ l)
      ≡ find_route_cache_entry b g l
unfolding find_route_cache_entry
find-new_ne ip flag time n b g l ne = ground (arith, ne)

note_use-new :
    (ip flag time n : ℕ) (l : List CacheEntry)
    → find_route_cache_entry ip flag l ≡ none
    → note_use ip flag time (some n) l
      ≡ record { dst_ip = ip; last_use_time = time; valid_flag = flag; node = n } ∷ l
unfolding note_use insert_route_cache_entry
note_use-new ip flag time n l h = rw (h, note_use) refl

note_use-touch :
    (ip flag time : ℕ) (allocated : Option ℕ) (l : List CacheEntry) (e : CacheEntry)
    → find_route_cache_entry ip flag l ≡ some e
    → note_use ip flag time allocated l ≡ touch ip flag time l
unfolding note_use
note_use-touch ip flag time allocated l e h = rw (h, note_use) refl

note_use-Notes :
    (ip flag time n : ℕ) (l : List CacheEntry)
    → Notes ip flag time l (note_use ip flag time (some n) l)
note_use-Notes ip flag time n l = elim (Option-cases (find_route_cache_entry ip flag l)) [
  | inl h ↦ subst (Notes ip flag time l) (sym (note_use-new ip flag time n l h)) (record {
    entry = record { dst_ip = ip; last_use_time = time; valid_flag = flag; node = n };
    found = find-new ip flag time n l;
    noted = refl;
    others = λ b g ne. find-new_ne ip flag time n b g l ne;
    unique = λ u. (h, u);
  })
  | inr (e, h) ↦
      let (x, k, t) = find-touch ip flag time e l h in
      subst (Notes ip flag time l) (sym (note_use-touch ip flag time (some n) l e h)) (record {
        entry = x;
        found = k;
        noted = t;
        others = λ b g ne. find-touch_ne ip flag time b g l ne;
        unique = λ u. touch-IsUnique ip flag time l u;
      })
]

one_not : ◌≢◌ {A = ℕ} 1 0
one_not = omega arith

idle_time :
    (time now : ℕ) (e : CacheEntry)
    → e.last_use_time ≡ time
    → time < 2 ^ 64
    → now < 2 ^ 64
    → now < time + 2 ^ 31
    → time ≤ now + 2 ^ 31
    → idle_of now (some e) ≡ sub_ℕ now time
idle_time time now e t b c h k = ground (arith, t, b, c, h, k)

-- The clocks give `time` and `now`.
query-after :
    (time now dst src n m : ℕ) (l : List CacheEntry)
    → IsUnique l
    → time < 2 ^ 64
    → now < 2 ^ 64
    → now < time + 2 ^ 31
    → time ≤ now + 2 ^ 31
    → (let l₁ = input_handler true time dst src (some n) (some m) l in
        IsUnique l₁
        × (query_route_idle_time now dst 1 l₁ ≡ sub_ℕ now time)
        × (query_route_idle_time now src 0 l₁ ≡ sub_ℕ now time)
        × ((b : ℕ) → b ≢ dst → query_route_idle_time now b 1 l₁ ≡ query_route_idle_time now b 1 l))
unfolding input_handler
query-after time now dst src n m l u b₁ b₂ h k =
    let a = note_use-Notes dst 1 time n l in
    let l₁ = note_use dst 1 time (some n) l in
    let b = note_use-Notes src 0 time m l₁ in
    let l₂ = note_use src 0 time (some m) l₁ in
    let unique = b.unique (a.unique u) in
    (
      unique,
      query-find now dst 1 l₂ unique
          ∙ ap (idle_of now) (b.others dst 1 (inr one_not) ∙ a.found)
          ∙ idle_time time now a.entry a.noted b₁ b₂ h k,
      query-find now src 0 l₂ unique
          ∙ ap (idle_of now) b.found
          ∙ idle_time time now b.entry b.noted b₁ b₂ h k,
      λ x ne.
          query-find now x 1 l₂ unique
          ∙ ap (idle_of now) (b.others x 1 (inr one_not) ∙ a.others x 1 (inl ne))
          ∙ sym (query-find now x 1 l u),
    )

-- Where no two entries of the cache have the same address and flag, the allocations succeed, a packet
-- has been handled at the seconds `sec` and nanoseconds `nsec`, and `FO_query_route_idle_time` runs at
-- the seconds `sec'` and microseconds `usec'`, the cache is still so. The query gives, for the packet's
-- destination with the flag 1 and for its source with the flag 0, the signed number
-- 1000 sec' + usec' / 1000 - (1000 sec + nsec / 1000): the microseconds of the packet's second count
-- as milliseconds, so that it may be negative. With the flag 1 it gives for any other
-- address what it would have given before the packet. The number lies in an `int`, and the
-- two clocks do not overflow.
pub query-input_handler :
    (sec nsec sec' usec' dst src n m : ℕ) (l : List CacheEntry)
    → IsUnique l
    → sec * 1000 + nsec / 1000 < 2 ^ 64
    → sec' * 1000 + usec' / 1000 < 2 ^ 64
    → sec' * 1000 + usec' / 1000 < sec * 1000 + nsec / 1000 + 2 ^ 31
    → sec * 1000 + nsec / 1000 ≤ sec' * 1000 + usec' / 1000 + 2 ^ 31
    → (let l₁ = input_handler true (kernel_getcurrtime sec nsec) dst src (some n) (some m) l in
        let now = getcurrtime sec' usec' in
        let idle = sub_ℕ (sec' * 1000 + usec' / 1000) (sec * 1000 + nsec / 1000) in
        IsUnique l₁
        × (query_route_idle_time now dst 1 l₁ ≡ idle)
        × (query_route_idle_time now src 0 l₁ ≡ idle)
        × ((b : ℕ) → b ≢ dst → query_route_idle_time now b 1 l₁ ≡ query_route_idle_time now b 1 l))
unfolding input_handler kernel_getcurrtime getcurrtime
query-input_handler sec nsec sec' usec' dst src n m l u b₁ b₂ h k =
    let time = sec * 1000 + nsec / 1000 in
    let now = sec' * 1000 + usec' / 1000 in
    let exact₁ : kernel_getcurrtime sec nsec ≡ time = omega (arith, b₁) in
    let exact₂ : getcurrtime sec' usec' ≡ now = omega (arith, b₂) in
    rw (exact₁, exact₂) (query-after time now dst src n m l u b₁ b₂ h k)
