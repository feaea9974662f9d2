-- ===== src/RouteCache/Laws.antt =====
-- kernel_module/route_check/route_cache.c: what the deletions leave of the cache.
use mathlib.Core.List.{append_assoc, append-nil}
use unified_routing_framewor.Prelude.{
  ℕ, ◌≡◌, refl, sym, ap, ◌∙◌, inl, inr, List, [], ◌∷◌, ◌++◌, Bool, true, false, ◌==◌, ==_self,
  if◌then◌else◌, Bool-cases,
}
use unified_routing_framewor.RouteCache.{
  CacheEntry, has_expired, delete_old_from, delete_old_route_cache_entries, delete_from,
  delete_route_cache_entry,
}

-- The entries that have not expired.
unfoldable pub unexpired : ℕ → List CacheEntry → List CacheEntry
unexpired curr_time [] = []
unexpired curr_time (e ∷ l) =
    if has_expired curr_time e then unexpired curr_time l else e ∷ unexpired curr_time l

lost_stays :
    (kept : List CacheEntry) → (elim kept as (λ y. Bool) [ [] ↦ true | x ∷ k ↦ true ]) ≡ true
lost_stays [] = refl
lost_stays (x ∷ k) = refl

delete_old_from-lost :
    (curr_time : ℕ) (kept l : List CacheEntry) → delete_old_from curr_time true kept l ≡ []
unfolding delete_old_from
delete_old_from-lost t kept [] = refl
delete_old_from-lost t kept (e ∷ l) = elim (Bool-cases (has_expired t e)) [
  | inl h ↦
      rw h (ap (λ b. delete_old_from t b kept l) (lost_stays kept) ∙ delete_old_from-lost t kept l)
  | inr h ↦ rw h (delete_old_from-lost t (kept ++ e ∷ []) l)
]

delete_old_from-kept :
    (curr_time : ℕ) (k : CacheEntry) (kept l : List CacheEntry)
    → delete_old_from curr_time false (k ∷ kept) l ≡ (k ∷ kept) ++ unexpired curr_time l
unfolding delete_old_from unexpired
delete_old_from-kept t k kept [] = ap (λ y. k ∷ y) (sym (append-nil kept))
delete_old_from-kept t k kept (e ∷ l) = elim (Bool-cases (has_expired t e)) [
  | inl h ↦ rw h (delete_old_from-kept t k kept l)
  | inr h ↦ rw h (
      delete_old_from-kept t k (kept ++ e ∷ []) l
      ∙ append_assoc (k ∷ kept) (e ∷ []) (unexpired t l))
]

delete_from-found :
    (e : CacheEntry) (cache before l : List CacheEntry)
    → delete_from e.node cache (before ++ e ∷ l) ≡ (0, [])
unfolding delete_from
delete_from-found e cache [] l = rw (==_self e.node) refl
delete_from-found e cache (x ∷ before) l = elim (Bool-cases (x.node == e.node)) [
  | inl h ↦ rw h refl
  | inr h ↦ rw h (delete_from-found e cache before l)
]

-- Where the first entry of the cache has expired, `delete_old_route_cache_entries` leaves an empty
-- cache, though other entries may not have expired; otherwise it leaves just the entries that have
-- not. `delete_route_cache_entry` of any entry of a cache leaves an empty cache, and returns 0.
pub deletions-lose :
    (curr_time : ℕ) (before : List CacheEntry) (e : CacheEntry) (l : List CacheEntry)
    → (delete_old_route_cache_entries curr_time (e ∷ l)
        ≡ (if has_expired curr_time e then [] else unexpired curr_time (e ∷ l)))
      × (delete_route_cache_entry e.node (before ++ e ∷ l) ≡ (0, []))
unfolding delete_old_route_cache_entries delete_old_from unexpired delete_route_cache_entry
deletions-lose t before e l = (
  elim (Bool-cases (has_expired t e)) [
    | inl h ↦ rw h (delete_old_from-lost t [] l)
    | inr h ↦ rw h (delete_old_from-kept t e [] l)
  ],
  delete_from-found e (before ++ e ∷ l) before l,
)
