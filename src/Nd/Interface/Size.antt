-- ===== src/Nd/Interface/Size.antt =====
-- lib/ND/nd_interface.cpp: the size of a hello message, and the buffer that it is written to.
use unified_routing_framewor.Prelude.{
  ℕ, suc, ◌+◌, ◌*◌, ◌≡◌, refl, ap, List, [], ◌∷◌, map, some, arith, leb, length, get_elem?,
  if◌then◌else◌,
}
use unified_routing_framewor.Prelude.Outcome.{done, fault, overrun}
use unified_routing_framewor.Nd.{InterfaceEntry, NdState, sendto, call}
use unified_routing_framewor.Nd.Hello.Read.{length-hello_bytes}
use unified_routing_framewor.Nd.Interface.{interface_at, hello_of, generate_and_send_hello_message}

pub length-addresses :
    (l : List InterfaceEntry) → length (map (λ x. x.interface_address) l) ≡ length l
length-addresses [] = refl
length-addresses (x ∷ l) = ap suc (length-addresses l)

pub interface_at-some :
    (i : ℕ) (e : InterfaceEntry) (s : NdState)
    → get_elem? s.interfaces i ≡ some e
    → interface_at i s ≡ done e
unfolding interface_at
interface_at-some i e s h = rw (h, interface_at) refl

-- The bytes of a message: 8, 4 for each interface, and 5 for each neighbour.
abbrev pub hello_size : InterfaceEntry → NdState → ℕ
hello_size e s = 8 + 4 * length s.interfaces + 5 * length e.one_hop_neighbor_set

pub length-hello_of : (e : InterfaceEntry) (s : NdState) → length (hello_of e s) ≡ hello_size e s
unfolding hello_of
length-hello_of e s = omega (
  arith,
  length-hello_bytes (map (λ x. x.interface_address) s.interfaces) e.one_hop_neighbor_set,
  length-addresses s.interfaces,
)

-- At the interface `e`, `generate_and_send_hello_message` returns the message's size, which is 8
-- bytes, 4 for each interface and 5 for each neighbour, and sends that message, exactly when the
-- size is at most 32 KB; otherwise it writes behind its buffer.
pub generate_and_send_hello_message-hello_size :
    (i : ℕ) (e : InterfaceEntry) (s : NdState)
    → get_elem? s.interfaces i ≡ some e
    → generate_and_send_hello_message i s ≡ (
        if leb (8 + 4 * length s.interfaces + 5 * length e.one_hop_neighbor_set) 32768
        then done (
          8 + 4 * length s.interfaces + 5 * length e.one_hop_neighbor_set,
          call (sendto e.fd e.listen_port (hello_of e s)) s,
        )
        else fault overrun)
unfolding generate_and_send_hello_message
generate_and_send_hello_message-hello_size i e s h =
    rw (interface_at-some i e s h, length-hello_of e s) (ground arith)
