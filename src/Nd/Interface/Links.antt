-- ===== src/Nd/Interface/Links.antt =====
-- lib/ND/nd_interface.cpp: what `update_info` makes of the neighbours of an interface.
use unified_routing_framewor.Prelude.{
  ℕ, suc, ◌≤◌, ◌<◌, ◌^◌, ◌≡◌, ◌≢◌, refl, ◌⊎◌, inl, inr, List, [], ◌∷◌, ◌++◌, none, some, true,
  false, ◌==◌, arith, length, All, if◌then◌else◌, All-append, length-append, ℕ_discrete,
}
use unified_routing_framewor.Nd.{OneHopEntry, heard, symmetric}
use unified_routing_framewor.Nd.Hello.{Hello}
use unified_routing_framewor.Nd.Interface.{
  find_neighbor, host_status, two_hop_set, link_status, new_entry, refreshed, refresh_first,
}

abbrev pub IsLink : OneHopEntry → Type 0
IsLink e = (e.status ≡ heard) ⊎ (e.status ≡ symmetric)

abbrev pub IsAddressed : OneHopEntry → Type 0
IsAddressed e = e.ip_address < 2 ^ 32

-- An entry is what the message from `src` says to the interface with the address `host`.
pub record Tells (host src : ℕ) (h : Hello) (e : OneHopEntry) : Type 0 where
  pub address : e.ip_address ≡ src
  pub two_hop : e.two_hop_neighbor_set ≡ two_hop_set host src h.neighbor_set
  pub ifs : e.local_if_set ≡ h.local_if_set
  pub live : e.live_time ≡ h.live_time
  pub not_listed : host_status host h.neighbor_set ≡ 0 → e.status ≡ heard
  pub is_listed : host_status host h.neighbor_set ≢ 0 → e.status ≡ symmetric

-- The neighbours `l'` are `l` with what the message says.
pub record Learns (host src : ℕ) (h : Hello) (l l' : List OneHopEntry) : Type 0 where
  pub entry : OneHopEntry
  pub found : find_neighbor src l' ≡ some entry
  pub tells : Tells host src h entry
  pub others : (b : ℕ) → b ≢ src → find_neighbor b l' ≡ find_neighbor b l
  pub links : All IsLink l'
  pub words : src < 2 ^ 32 → All IsAddressed l → All IsAddressed l'
  pub size : length l' ≤ suc (length l)

new_entry-Tells : (host src : ℕ) (h : Hello) → Tells host src h (new_entry host src h)
unfolding new_entry link_status
new_entry-Tells host src h = record {
  address = refl;
  two_hop = refl;
  ifs = refl;
  live = refl;
  not_listed = λ z. ground (arith, z);
  is_listed = λ z. ground (arith, z);
}

refreshed-Tells :
    (host src : ℕ) (h : Hello) (e : OneHopEntry)
    → e.ip_address ≡ src
    → Tells host src h (refreshed host src h e)
unfolding refreshed link_status
refreshed-Tells host src h e a = record {
  address = a;
  two_hop = refl;
  ifs = refl;
  live = refl;
  not_listed = λ z. ground (arith, z);
  is_listed = λ z. ground (arith, z);
}

Tells-IsLink : (host src : ℕ) (h : Hello) (e : OneHopEntry) → Tells host src h e → IsLink e
Tells-IsLink host src h e t = elim (ℕ_discrete (host_status host h.neighbor_set) 0) [
  | yes z ↦ inl (t.not_listed z)
  | no z ↦ inr (t.is_listed z)
]

find-append :
    (src : ℕ) (e : OneHopEntry) (l : List OneHopEntry)
    → e.ip_address ≡ src
    → find_neighbor src l ≡ none
    → find_neighbor src (l ++ e ∷ []) ≡ some e
unfolding find_neighbor
find-append src e [] a h = ground (arith, a)
find-append src e (x ∷ l) a h = ground (arith, find-append src e l a)

find-append_ne :
    (b : ℕ) (e : OneHopEntry) (l : List OneHopEntry)
    → b ≢ e.ip_address
    → find_neighbor b (l ++ e ∷ []) ≡ find_neighbor b l
unfolding find_neighbor
find-append_ne b e [] a = ground (arith, a)
find-append_ne b e (x ∷ l) a = ground (arith, find-append_ne b e l a)

pub new_entry-Learns :
    (host src : ℕ) (h : Hello) (l : List OneHopEntry)
    → find_neighbor src l ≡ none
    → All IsLink l
    → Learns host src h l (l ++ new_entry host src h ∷ [])
new_entry-Learns host src h l f a =
    let t = new_entry-Tells host src h in
    record {
      entry = new_entry host src h;
      found = find-append src (new_entry host src h) l t.address f;
      tells = t;
      others = λ b ne. find-append_ne b (new_entry host src h) l (rw t.address ne);
      links = All-append IsLink (new_entry host src h) l (Tells-IsLink host src h _ t) a;
      words = λ w a. All-append IsAddressed (new_entry host src h) l (rw t.address w) a;
      size = omega (arith, length-append l (new_entry host src h ∷ []));
    }

find-refresh_first :
    (host src : ℕ) (h : Hello) (n : OneHopEntry) (l : List OneHopEntry)
    → find_neighbor src l ≡ some n
    → (n.ip_address ≡ src)
      × (find_neighbor src (refresh_first host src h l) ≡ some (refreshed host src h n))
unfolding find_neighbor refresh_first refreshed
find-refresh_first host src h n [] f = ground (arith, f)
find-refresh_first host src h n (x ∷ l) f = ground (arith, find-refresh_first host src h n l)

find-refresh_first_ne :
    (host src : ℕ) (h : Hello) (b : ℕ) (l : List OneHopEntry)
    → b ≢ src
    → find_neighbor b (refresh_first host src h l) ≡ find_neighbor b l
unfolding find_neighbor refresh_first refreshed
find-refresh_first_ne host src h b [] ne = refl
find-refresh_first_ne host src h b (x ∷ l) ne =
    ground (arith, ne, find-refresh_first_ne host src h b l ne)

refreshed-IsLink : (host src : ℕ) (h : Hello) (e : OneHopEntry) → IsLink (refreshed host src h e)
unfolding refreshed link_status
refreshed-IsLink host src h e =
    elim (host_status host h.neighbor_set == 0)
      as (λ b.
        ((if b then heard else symmetric) ≡ heard)
        ⊎ ((if b then heard else symmetric) ≡ symmetric)) [ true ↦ inl refl | false ↦ inr refl ]

links-refresh_first :
    (host src : ℕ) (h : Hello) (l : List OneHopEntry)
    → All IsLink l
    → All IsLink (refresh_first host src h l)
unfolding refresh_first
links-refresh_first host src h [] a = tt
links-refresh_first host src h (x ∷ l) a =
    elim (src == x.ip_address)
      as (λ b.
        All IsLink (if b then refreshed host src h x ∷ l else x ∷ refresh_first host src h l)) [
          | true ↦ (refreshed-IsLink host src h x, a.1)
          | false ↦ (a.0, links-refresh_first host src h l a.1)
        ]

words-refresh_first :
    (host src : ℕ) (h : Hello) (l : List OneHopEntry)
    → All IsAddressed l
    → All IsAddressed (refresh_first host src h l)
unfolding refresh_first refreshed
words-refresh_first host src h [] a = tt
words-refresh_first host src h (x ∷ l) a = ground (arith, words-refresh_first host src h l a.1)

length-refresh_first :
    (host src : ℕ) (h : Hello) (l : List OneHopEntry)
    → length (refresh_first host src h l) ≡ length l
unfolding refresh_first
length-refresh_first host src h [] = refl
length-refresh_first host src h (x ∷ l) = ground (arith, length-refresh_first host src h l)

pub refresh_first-Learns :
    (host src : ℕ) (h : Hello) (l : List OneHopEntry) (n : OneHopEntry)
    → find_neighbor src l ≡ some n
    → All IsLink l
    → Learns host src h l (refresh_first host src h l)
refresh_first-Learns host src h l n f a =
    let (address, found) = find-refresh_first host src h n l f in
    record {
      entry = refreshed host src h n;
      found = found;
      tells = refreshed-Tells host src h n address;
      others = λ b ne. find-refresh_first_ne host src h b l ne;
      links = links-refresh_first host src h l a;
      words = λ w a. words-refresh_first host src h l a;
      size = omega (arith, length-refresh_first host src h l);
    }
