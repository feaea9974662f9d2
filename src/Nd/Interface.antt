-- ===== src/Nd/Interface.antt =====
-- lib/ND/nd_interface.cpp: the methods of an interface. `none` for a datagram stands for a
-- `read_from_sock` that returns no bytes; otherwise the datagram is its source address with the
-- contents of the buffer of MESSAGE_BUFFER_SIZE bytes. `malloc` is taken to succeed.
pub mod Links
pub mod Update
pub mod Watched
pub mod Size
use unified_routing_framewor.Prelude.{
  ℕ, List, [], ◌∷◌, ◌++◌, Option, none, some, Bool, true, false, ◌||◌, ltb, ◌==◌, if◌then◌else◌,
  length, map, get_elem?, set_elem,
}
use unified_routing_framewor.Prelude.Outcome.{Outcome, done, fault, overrun, ◌>>=◌}
use unified_routing_framewor.Nd.{
  TwoHopEntry, OneHopEntry, InterfaceEntry, NdState, delete_entry, sendto, call, no_entry, heard,
  symmetric, timer_type_entry, message_buffer_size,
}
use unified_routing_framewor.Nd.Timers.{set_timer, remove_neighbor_entry_timer}
use unified_routing_framewor.Nd.Hello.{Hello, hello_bytes, read_hello}

-- `interface_entry_list[i]`
unfoldable pub interface_at : ℕ → NdState → Outcome InterfaceEntry
interface_at i s = elim (get_elem? s.interfaces i) [ none ↦ fault overrun | some e ↦ done e ]

-- The bytes that an interface sends.
unfoldable pub hello_of : InterfaceEntry → NdState → List ℕ
hello_of e s =
    hello_bytes (map (λ entry. entry.interface_address) s.interfaces) e.one_hop_neighbor_set

-- `generate_and_send_hello_message`, with its return value. A message that is longer than the buffer
-- is written behind it. A failing `sendto` is only reported.
unfoldable pub generate_and_send_hello_message : ℕ → NdState → Outcome (ℕ × NdState)
generate_and_send_hello_message i s = interface_at i s >>= λ e.
    let bytes = hello_of e s in
    if ltb message_buffer_size (length bytes)
    then fault overrun
    else done (length bytes, call (sendto e.fd e.listen_port bytes) s)

-- The first loop of `update_info`.
unfoldable pub find_neighbor : ℕ → List OneHopEntry → Option OneHopEntry
find_neighbor a [] = none
find_neighbor a (e ∷ l) = if a == e.ip_address then some e else find_neighbor a l

-- The second loop: `host_status_in_message`.
unfoldable pub host_status : ℕ → List (ℕ × ℕ) → ℕ
host_status a [] = no_entry
host_status a ((b, status) ∷ l) = if a == b then status else host_status a l

-- The loop that builds `temp_two_hop_set`.
unfoldable pub two_hop_set : ℕ → ℕ → List (ℕ × ℕ) → List TwoHopEntry
two_hop_set host src [] = []
two_hop_set host src ((a, status) ∷ l) =
    let rest = two_hop_set host src l in
    if a == host
    then rest
    else record { ip_address = a; gateway_address = src; status_value = status } ∷ rest

-- The status that both branches give the neighbour.
unfoldable pub link_status : ℕ → Hello → ℕ
link_status host h = if host_status host h.neighbor_set == no_entry then heard else symmetric

-- The entry for a neighbour that has none.
unfoldable pub new_entry : ℕ → ℕ → Hello → OneHopEntry
new_entry host src h = record {
  ip_address = src;
  quality = 0;
  local_if_set = h.local_if_set;
  two_hop_neighbor_set = two_hop_set host src h.neighbor_set;
  status = link_status host h;
  live_time = h.live_time;
}

-- The stores into an entry that there is, `one_hop_neighbor_set[index]`.
unfoldable pub refreshed : ℕ → ℕ → Hello → OneHopEntry → OneHopEntry
refreshed host src h e = record e {
  two_hop_neighbor_set = two_hop_set host src h.neighbor_set;
  local_if_set = h.local_if_set;
  live_time = h.live_time;
  status = link_status host h;
}

unfoldable pub refresh_first : ℕ → ℕ → Hello → List OneHopEntry → List OneHopEntry
refresh_first host src h [] = []
refresh_first host src h (e ∷ l) =
    if src == e.ip_address then refreshed host src h e ∷ l else e ∷ refresh_first host src h l

-- `one_hop_neighbor_set` of an interface gets a new value.
unfoldable pub store_neighbors : ℕ → InterfaceEntry → List OneHopEntry → NdState → NdState
store_neighbors i e l s = record s {
  interfaces = set_elem s.interfaces i (record e { one_hop_neighbor_set = l });
}

-- The timer by which the entry is deleted.
unfoldable pub watch : ℕ → ℕ → ℕ → NdState → NdState
watch i src live_time s = set_timer live_time delete_entry timer_type_entry src i s

-- `update_info` at a neighbour that has an entry.
unfoldable pub refresh_neighbor : ℕ → InterfaceEntry → ℕ → Hello → NdState → Outcome NdState
refresh_neighbor i e src h s =
    remove_neighbor_entry_timer src e.name
      (store_neighbors i e (refresh_first e.interface_address src h e.one_hop_neighbor_set) s)
    >>= λ s₁. done (watch i src h.live_time s₁)

-- `update_info` of the interface `i`, which is `e`.
unfoldable pub update_info : ℕ → InterfaceEntry → ℕ → Hello → NdState → Outcome NdState
update_info i e src h s =
    let host = e.interface_address in
    let known = find_neighbor src e.one_hop_neighbor_set in
    let neighbor_status = elim known as (λ x. ℕ) [ none ↦ no_entry | some n ↦ n.status ] in
    if neighbor_status == no_entry
    then done (
        watch i src h.live_time
          (store_neighbors i e (e.one_hop_neighbor_set ++ new_entry host src h ∷ []) s))
    else if neighbor_status == heard || neighbor_status == symmetric
    then refresh_neighbor i e src h s
    else done s

-- `handle_hello_message`
unfoldable pub handle_hello_message : ℕ → Option (ℕ × List ℕ) → NdState → Outcome NdState
handle_hello_message i none s = done s
handle_hello_message i (some (src, buffer)) s = interface_at i s >>= λ e.
    if src == e.interface_address
    then done s
    else read_hello buffer >>= λ h. update_info i e src h s
