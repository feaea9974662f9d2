-- ===== src/Blacklist.antt =====
-- LA_Client_aodv/blacklist.h and blacklist.cc: neighbours that did not acknowledge a reply.
pub mod Laws
use unified_routing_framewor.Prelude.{
  ℕ, zero, suc, List, [], ◌∷◌, ◌++◌, Option, none, some, Bool, true, false, ◌==◌, leb, add64,
  if◌then◌else◌,
}

pub record BlacklistEntry : Type 0 where
  pub dest_ip : ℕ
  pub lifetime : ℕ

-- The loop of `inList` on fuel. Its body does not advance `iter`, so a round that does not return
-- leaves the same entry; `none` means that the fuel ran out.
unfoldable pub in_list_loop : ℕ → List BlacklistEntry → ℕ → Option Bool
in_list_loop zero iter dst = none
in_list_loop (suc fuel) [] dst = some false
in_list_loop (suc fuel) (e ∷ iter) dst =
    let again = in_list_loop fuel (e ∷ iter) dst in if e.dest_ip == dst then some true else again

-- `inList`; one round decides it, and `none` says that it never returns.
unfoldable pub in_list : List BlacklistEntry → ℕ → Option Bool
unfolding in_list_loop
in_list l dst = in_list_loop 1 l dst

-- `addToList` at the time `now`.
unfoldable pub add_to_list : ℕ → ℕ → ℕ → List BlacklistEntry → Option (List BlacklistEntry)
add_to_list now dst l_time l = elim (in_list l dst) [
  | none ↦ none
  | some true ↦ some l
  | some false ↦ some (l ++ record { dest_ip = dst; lifetime = add64 now l_time } ∷ [])
]

-- `updateEntries` at the time `now`.
unfoldable pub update_entries : ℕ → List BlacklistEntry → List BlacklistEntry
update_entries now [] = []
update_entries now (e ∷ l) =
    if leb e.lifetime now then update_entries now l else e ∷ update_entries now l
