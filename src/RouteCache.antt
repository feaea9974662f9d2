-- ===== src/RouteCache.antt =====
-- kernel_module/route_check/route_cache.c: the cache of the destinations that packets go to, with the
-- times of their last use. The cache is the chain of entries that `route_cache` leads to, and an
-- entry's `node` stands for its address.
pub mod Idle
pub mod Laws
pub mod Query
use unified_routing_framewor.Prelude.{
  ℕ, ◌≡◌, refl, sym, ap, ◌∙◌, inl, inr, List, [], ◌∷◌, ◌++◌, Option, none, some, Bool, true, false,
  not, ◌&&◌, ltb, ◌==◌, add64, if◌then◌else◌, arith, Bool-cases,
}

-- EXPIRE_TIME of module_main.h.
abbrev pub expire_time : ℕ
expire_time = 30

-- `struct route_cache_entry`; `prev` is not used.
pub record CacheEntry : Type 0 where
  pub dst_ip : ℕ
  pub last_use_time : ℕ
  pub valid_flag : ℕ
  pub node : ℕ

-- `find_route_cache_entry`
unfoldable pub find_route_cache_entry : ℕ → ℕ → List CacheEntry → Option CacheEntry
find_route_cache_entry dst_ip v_flag [] = none
find_route_cache_entry dst_ip v_flag (e ∷ l) =
    if dst_ip == e.dst_ip && v_flag == e.valid_flag
    then some e
    else find_route_cache_entry dst_ip v_flag l

-- `insert_route_cache_entry` with its return value; `none` is a `kmalloc` that fails, and otherwise
-- the number is the new entry's address.
unfoldable pub insert_route_cache_entry :
    ℕ → ℕ → ℕ → Option ℕ → List CacheEntry → ℕ × List CacheEntry
insert_route_cache_entry dst_ip last_use_time v_flag none cache = (1, cache)
insert_route_cache_entry dst_ip last_use_time v_flag (some n) cache = (
  0,
  record { dst_ip = dst_ip; last_use_time = last_use_time; valid_flag = v_flag; node = n } ∷ cache,
)

-- The condition of `delete_old_route_cache_entries`.
unfoldable pub has_expired : ℕ → CacheEntry → Bool
has_expired curr_time e = ltb (add64 e.last_use_time expire_time) curr_time

-- The loop of `delete_old_route_cache_entries`, with the entries from the first one that stayed to
-- `prev_entry`, and whether `route_cache` was set to NULL; the entries are then no longer reached.
unfoldable pub delete_old_from : ℕ → Bool → List CacheEntry → List CacheEntry → List CacheEntry
delete_old_from curr_time lost kept [] = if lost then [] else kept
delete_old_from curr_time lost kept (e ∷ l) =
    if has_expired curr_time e
    then delete_old_from curr_time (elim kept [ [] ↦ true | x ∷ k ↦ lost ]) kept l
    else delete_old_from curr_time lost (kept ++ e ∷ []) l

-- `delete_old_route_cache_entries`
unfoldable pub delete_old_route_cache_entries : ℕ → List CacheEntry → List CacheEntry
delete_old_route_cache_entries curr_time cache = delete_old_from curr_time false [] cache

-- `delete_route_cache_entry` with its return value. Its loop never sets `prev_entry`, so that the
-- entry that it finds is taken for the first one.
unfoldable pub delete_from : ℕ → List CacheEntry → List CacheEntry → ℕ × List CacheEntry
delete_from dead cache [] = (1, cache)
delete_from dead cache (e ∷ l) = if e.node == dead then (0, []) else delete_from dead cache l

unfoldable pub delete_route_cache_entry : ℕ → List CacheEntry → ℕ × List CacheEntry
delete_route_cache_entry dead cache = delete_from dead cache cache

-- `tmp_entry->last_use_time = last_use_time` at the entry that `find_route_cache_entry` gave.
unfoldable pub touch : ℕ → ℕ → ℕ → List CacheEntry → List CacheEntry
touch dst_ip v_flag time [] = []
touch dst_ip v_flag time (e ∷ l) =
    if dst_ip == e.dst_ip && v_flag == e.valid_flag
    then record e { last_use_time = time } ∷ l
    else e ∷ touch dst_ip v_flag time l

-- The two passages of `input_handler` in module_main.c, for one address.
unfoldable pub note_use : ℕ → ℕ → ℕ → Option ℕ → List CacheEntry → List CacheEntry
note_use ip v_flag time allocated cache = elim (find_route_cache_entry ip v_flag cache) [
  | none ↦ (insert_route_cache_entry ip time v_flag allocated cache).1
  | some e ↦ touch ip v_flag time cache
]

-- `input_handler` on a packet from `src_ip` to `dst_ip`; the first argument says whether
-- `udp_hdr(skb)` is not NULL.
unfoldable pub input_handler :
    Bool → ℕ → ℕ → ℕ → Option ℕ → Option ℕ → List CacheEntry → List CacheEntry
input_handler is_udp time dst_ip src_ip allocated₁ allocated₂ cache =
    if is_udp
    then note_use src_ip 0 time allocated₂ (note_use dst_ip 1 time allocated₁ cache)
    else cache
