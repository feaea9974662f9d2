-- ===== src/Nd/Hello.antt =====
-- lib/ND/nd_interface.cpp: the bytes of a hello message, as `generate_and_send_hello_message` writes
-- them and `handle_hello_message` reads them. A `uint32_t` is stored with the low byte first.
pub mod Read
use unified_routing_framewor.Prelude.{
  ℕ, zero, suc, List, [], ◌∷◌, ◌++◌, true, false, ◌==◌, length, to_u8,
}
use unified_routing_framewor.Prelude.Outcome.{Outcome, done, fault, overrun, ◌>>=◌}
use unified_routing_framewor.LaMessage.{word_bytes, word_of}
use unified_routing_framewor.Nd.{OneHopEntry, ipv4_addr_len, hello_live_time}

-- What a hello message says: the interfaces of its sender, the neighbours of the sending interface
-- with their statuses, and how long it holds. The vectors `neighbor_set` and `status_set`, which the
-- reader fills to the same length, are one list of pairs.
pub record Hello : Type 0 where
  pub local_if_set : List ℕ
  pub neighbor_set : List (ℕ × ℕ)
  pub live_time : ℕ

-- The loops that write addresses.
unfoldable pub address_bytes : List ℕ → List ℕ
address_bytes [] = []
address_bytes (a ∷ l) = word_bytes a ++ address_bytes l

unfoldable pub neighbor_bytes : List OneHopEntry → List ℕ
neighbor_bytes [] = []
neighbor_bytes (e ∷ l) = word_bytes e.ip_address ++ neighbor_bytes l

unfoldable pub status_bytes : List OneHopEntry → List ℕ
status_bytes [] = []
status_bytes (e ∷ l) = to_u8 e.status ∷ status_bytes l

-- The message of an interface with the given neighbours; the first list holds the addresses of all
-- the interfaces. The two counts are stored in a byte each, the lists in full.
unfoldable pub hello_bytes : List ℕ → List OneHopEntry → List ℕ
hello_bytes addresses neighbors =
    to_u8 ipv4_addr_len
      ∷ to_u8 (length addresses)
      ∷ to_u8 (length neighbors)
      ∷ 1
      ∷ address_bytes addresses
    ++ neighbor_bytes neighbors
    ++ status_bytes neighbors
    ++ word_bytes hello_live_time

-- `memcpy` of four bytes into a `uint32_t`, with what stands behind them.
unfoldable pub read_word : List ℕ → Outcome (ℕ × List ℕ)
read_word (a ∷ b ∷ c ∷ d ∷ rest) = done (word_of a b c d, rest)
read_word _ = fault overrun

-- The loops that read addresses of `addr_len` bytes, a number from the message, into a `uint32_t`:
-- other than four bytes leave a part of it unwritten or write behind it.
unfoldable pub read_addresses : ℕ → ℕ → List ℕ → Outcome (List ℕ × List ℕ)
read_addresses addr_len zero bytes = done ([], bytes)
read_addresses addr_len (suc n) bytes = elim (addr_len == ipv4_addr_len) [
  | false ↦ fault overrun
  | true ↦ read_word bytes >>= λ word.
      read_addresses addr_len n word.1 >>= λ read. done (word.0 ∷ read.0, read.1)
]

-- The loop that reads the statuses, here beside the addresses that it counts.
unfoldable pub read_statuses : List ℕ → List ℕ → Outcome (List (ℕ × ℕ) × List ℕ)
read_statuses [] bytes = done ([], bytes)
read_statuses (a ∷ l) [] = fault overrun
read_statuses (a ∷ l) (status ∷ bytes) =
    read_statuses l bytes >>= λ read. done ((a, status) ∷ read.0, read.1)

-- The reader on the buffer, of which the message is the beginning.
unfoldable pub read_hello : List ℕ → Outcome Hello
read_hello (addr_len ∷ local_if_number ∷ neighbor_number ∷ check ∷ bytes) =
    read_addresses addr_len local_if_number bytes >>= λ ifs.
    read_addresses addr_len neighbor_number ifs.1 >>= λ neighbors.
    read_statuses neighbors.0 neighbors.1 >>= λ statuses. read_word statuses.1 >>= λ live.
    done (record { local_if_set = ifs.0; neighbor_set = statuses.0; live_time = live.0 })
read_hello _ = fault overrun
