-- ===== src/Nd/Discovery/Names.antt =====
-- lib/ND/nd.cpp: the functions of the library at an interface's name.
use unified_routing_framewor.Prelude.{
  same_string, ℕ, suc, ◌≡◌, refl, List, [], ◌∷◌, none, false, All,
}
use unified_routing_framewor.Prelude.Outcome.{done}
use unified_routing_framewor.Nd.{InterfaceEntry, NdState}
use unified_routing_framewor.Nd.Discovery.{
  find_interface, nd_set_hello_interval, nd_send_hello_now, nd_get_one_hop_neighbor_information,
}

find_interface-none :
    (name : List ℕ) (i : ℕ) (l : List InterfaceEntry)
    → All (λ e. same_string e.name name ≡ false) l
    → find_interface name i l ≡ none
unfolding find_interface
find_interface-none name i [] a = refl
find_interface-none name i (e ∷ l) a = rw a.0 (find_interface-none name (suc i) l a.1)

-- At a name that no interface has, `nd_set_hello_interval` and `nd_send_hello_now` return -1 and
-- change nothing, and `nd_get_one_hop_neighbor_information` leaves the caller's list as it was.
pub unknown_name :
    (name : List ℕ) (interval : ℕ) (neighbor_list : List (ℕ × ℕ)) (s : NdState)
    → All (λ e. same_string e.name name ≡ false) s.interfaces
    → (nd_set_hello_interval name interval s ≡ done (none, s))
      × (nd_send_hello_now name s ≡ done (none, s))
      × (nd_get_one_hop_neighbor_information name neighbor_list s ≡ done neighbor_list)
unfolding nd_set_hello_interval nd_send_hello_now nd_get_one_hop_neighbor_information
unknown_name name interval neighbor_list s a =
    let h = find_interface-none name 0 s.interfaces a in
    (
      rw (h, nd_set_hello_interval) refl,
      rw (h, nd_send_hello_now) refl,
      rw (h, nd_get_one_hop_neighbor_information) refl,
    )
