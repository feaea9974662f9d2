-- ===== src/Blacklist/Laws.antt =====
-- When `inList` of the blacklist returns, and what it answers.
use unified_routing_framewor.Prelude.{
  ℕ, zero, suc, ◌<◌, ◌≡◌, refl, ◌≢◌, ◌↔◌, List, [], ◌∷◌, none, arith, All,
}
use unified_routing_framewor.Blacklist.{BlacklistEntry, in_list_loop, in_list, update_entries}

-- More fuel than one round changes nothing.
pub in_list_loop-fuel :
    (fuel : ℕ) (l : List BlacklistEntry) (dst : ℕ) → in_list_loop (suc fuel) l dst ≡ in_list l dst
unfolding in_list in_list_loop
in_list_loop-fuel zero [] dst = refl
in_list_loop-fuel zero (e ∷ l) dst = refl
in_list_loop-fuel (suc fuel) [] dst = refl
in_list_loop-fuel (suc fuel) (e ∷ l) dst = ground (arith, in_list_loop-fuel fuel (e ∷ l) dst)

-- Whatever the fuel, `inList` does not return exactly when the list has a first entry and that entry
-- is for another node; the further entries play no part.
pub in_list-hangs_iff :
    (fuel : ℕ) (l : List BlacklistEntry) (dst : ℕ)
    → (in_list_loop (suc fuel) l dst ≡ none)
      ↔ ((e : BlacklistEntry) × (r : List BlacklistEntry) × (l ≡ e ∷ r) × (e.dest_ip ≢ dst))
unfolding in_list in_list_loop
in_list-hangs_iff fuel [] dst = (λ h. ground arith, λ h. ground arith)
in_list-hangs_iff fuel (e ∷ l) dst = (
  λ h. (e, l, refl, ground (arith, in_list_loop-fuel fuel (e ∷ l) dst)),
  λ h. ground (arith, in_list_loop-fuel fuel (e ∷ l) dst),
)

-- After `updateEntries` no entry has expired.
pub update_entries-live :
    (now : ℕ) (l : List BlacklistEntry) → All (λ e. now < e.lifetime) (update_entries now l)
unfolding update_entries
update_entries-live now [] = tt
update_entries-live now (e ∷ l) = ground (arith, update_entries-live now l)
