-- ===== src/RouteCache/Query.antt =====
-- lib/FO/fo.cpp, `FO_query_route_idle_time`, on the cache of kernel_module/route_check: its lines in
-- /proc are taken to be the entries in their order, with each address in dots and back unchanged.
use unified_routing_framewor.Prelude.{
  ℕ, ◌≡◌, refl, sym, ap, ◌∙◌, inl, inr, List, [], ◌∷◌, Option, none, some, Bool, true, false, ◌&&◌,
  ◌==◌, if◌then◌else◌, arith, sub64, add64, ◌*◌, ◌/◌, Bool-cases,
}
use unified_routing_framewor.Prelude.Int.{ℤ, negsuc, IsInt, int_of_u64}
use unified_routing_framewor.RouteCache.{CacheEntry, find_route_cache_entry}

-- `getcurrtime` of kernel_module/route_check/utils.c, by the seconds and nanoseconds that
-- `ktime_get_real_ts64` gives. It divides the nanoseconds by 1000 only.
unfoldable pub kernel_getcurrtime : ℕ → ℕ → ℕ
kernel_getcurrtime tv_sec tv_nsec = add64 (tv_sec * 1000) (tv_nsec / 1000)

-- `getcurrtime` of lib/FO/fo.cpp, by what `gettimeofday` gives.
unfoldable pub getcurrtime : ℕ → ℕ → ℕ
getcurrtime tv_sec tv_usec = add64 (tv_sec * 1000) (tv_usec / 1000)

-- The loop over the lines: the last line that fits sets the result, an `int`.
unfoldable pub idle_from : ℕ → ℕ → ℕ → ℤ → List CacheEntry → ℤ
idle_from now dest recv_flag idle_time [] = idle_time
idle_from now dest recv_flag idle_time (e ∷ l) =
    idle_from now dest recv_flag
      (if dest == e.dst_ip && recv_flag == e.valid_flag
        then int_of_u64 (sub64 now e.last_use_time)
        else idle_time)
      l

-- `FO_query_route_idle_time`, where the file opens and `getcurrtime()` gives `now`; `negsuc 0` is -1.
unfoldable pub query_route_idle_time : ℕ → ℕ → ℕ → List CacheEntry → ℤ
query_route_idle_time now dest recv_flag lines = idle_from now dest recv_flag (negsuc 0) lines

-- What it gives is an `int`.
int_of_u64-IsInt : (n : ℕ) → IsInt (int_of_u64 n)
int_of_u64-IsInt n = ground arith

idle_from-IsInt :
    (now dest flag : ℕ) (l : List CacheEntry) (z : ℤ)
    → IsInt z
    → IsInt (idle_from now dest flag z l)
unfolding idle_from
idle_from-IsInt now dest flag [] z i = i
idle_from-IsInt now dest flag (e ∷ l) z i =
    idle_from-IsInt now dest flag l _
      (elim (dest == e.dst_ip && flag == e.valid_flag)
        as (λ b. IsInt (if b then int_of_u64 (sub64 now e.last_use_time) else z)) [
          | true ↦ int_of_u64-IsInt (sub64 now e.last_use_time)
          | false ↦ i
        ])

pub query_route_idle_time-IsInt :
    (now dest flag : ℕ) (l : List CacheEntry) → IsInt (query_route_idle_time now dest flag l)
unfolding query_route_idle_time
query_route_idle_time-IsInt now dest flag l =
    idle_from-IsInt now dest flag l (negsuc 0) (omega arith, omega arith)

-- No two entries have the same address and flag.
abbrev pub IsUnique : List CacheEntry → Type 0
IsUnique [] = Unit {0}
IsUnique (e ∷ l) = (find_route_cache_entry e.dst_ip e.valid_flag l ≡ none) × IsUnique l

abbrev pub fits : ℕ → ℕ → CacheEntry → Bool
fits dst flag e = dst == e.dst_ip && flag == e.valid_flag

find-fits :
    (dst flag : ℕ) (e : CacheEntry) (l : List CacheEntry)
    → fits dst flag e ≡ true
    → find_route_cache_entry dst flag (e ∷ l) ≡ some e
unfolding find_route_cache_entry
find-fits dst flag e l h = rw h refl

pub find-fits_not :
    (dst flag : ℕ) (e : CacheEntry) (l : List CacheEntry)
    → fits dst flag e ≡ false
    → find_route_cache_entry dst flag (e ∷ l) ≡ find_route_cache_entry dst flag l
unfolding find_route_cache_entry
find-fits_not dst flag e l h = rw h refl

fits-eq :
    (dst flag : ℕ) (e : CacheEntry)
    → fits dst flag e ≡ true
    → (dst ≡ e.dst_ip) × (flag ≡ e.valid_flag)
fits-eq dst flag e h = ground (arith, h)

-- The idle time of an entry, if there is one.
abbrev pub idle_of : ℕ → Option CacheEntry → ℤ
idle_of now none = negsuc 0
idle_of now (some e) = int_of_u64 (sub64 now e.last_use_time)

idle_from-none :
    (now dest flag : ℕ) (idle : ℤ) (l : List CacheEntry)
    → find_route_cache_entry dest flag l ≡ none
    → idle_from now dest flag idle l ≡ idle
unfolding idle_from
idle_from-none now dest flag idle [] h = refl
idle_from-none now dest flag idle (e ∷ l) h = elim (Bool-cases (fits dest flag e)) [
  | inl b ↦ ground (arith, sym (find-fits dest flag e l b) ∙ h)
  | inr b ↦ rw b (idle_from-none now dest flag idle l (sym (find-fits_not dest flag e l b) ∙ h))
]

-- In a cache without repetitions the entry that the kernel finds is the one that the query uses.
pub query-find :
    (now dest flag : ℕ) (l : List CacheEntry)
    → IsUnique l
    → query_route_idle_time now dest flag l ≡ idle_of now (find_route_cache_entry dest flag l)
unfolding query_route_idle_time idle_from find_route_cache_entry
query-find now dest flag [] u = refl
query-find now dest flag (x ∷ l) u = elim (Bool-cases (fits dest flag x)) [
  | inl b ↦
      let none_behind =
        ap (λ d. find_route_cache_entry d flag l) (fits-eq dest flag x b).0
        ∙ ap (λ f. find_route_cache_entry x.dst_ip f l) (fits-eq dest flag x b).1
        ∙ u.0 in
      rw b (idle_from-none now dest flag (int_of_u64 (sub64 now x.last_use_time)) l none_behind)
  | inr b ↦ rw b (query-find now dest flag l u.1)
]
