-- ===== src/Nd/Hello/Read.antt =====
-- What `handle_hello_message` reads is what `generate_and_send_hello_message` wrote (lib/ND).
use unified_routing_framewor.Prelude.{
  ℕ, suc, ◌+◌, ◌*◌, ◌^◌, ◌<◌, ◌≤◌, ◌≡◌, refl, ap, ◌∙◌, List, [], ◌∷◌, ◌++◌, map, length, All, to_u8,
  arith, length-append,
}
use unified_routing_framewor.Prelude.Outcome.{done}
use unified_routing_framewor.LaMessage.{word_bytes, word_of-word_bytes}
use unified_routing_framewor.Nd.{OneHopEntry, hello_live_time}
use unified_routing_framewor.Nd.Hello.{
  address_bytes, neighbor_bytes, status_bytes, hello_bytes, read_word, read_addresses,
  read_statuses, read_hello,
}
use mathlib.Core.List.{append_assoc}

abbrev pub IsWord : ℕ → Type 0
IsWord a = a < 2 ^ 32

-- The fields that go into a message are in their C++ ranges.
abbrev pub IsSent : OneHopEntry → Type 0
IsSent e = IsWord e.ip_address × (e.status < 2 ^ 8)

abbrev pub listed : OneHopEntry → ℕ × ℕ
listed e = (e.ip_address, e.status)

read_word-word_bytes :
    (a : ℕ) (rest : List ℕ) → IsWord a → read_word (word_bytes a ++ rest) ≡ done (a, rest)
unfolding read_word
read_word-word_bytes a rest h = ap (λ b. done (b, rest)) (word_of-word_bytes a h)

read_addresses-suc :
    (n : ℕ) (bytes : List ℕ) (a : ℕ) (rest : List ℕ) (l end : List ℕ)
    → read_word bytes ≡ done (a, rest)
    → read_addresses 4 n rest ≡ done (l, end)
    → read_addresses 4 (suc n) bytes ≡ done (a ∷ l, end)
unfolding read_addresses
read_addresses-suc n bytes a rest l end h k = rw (h, k) refl

read_addresses-address_bytes :
    (l rest : List ℕ)
    → All IsWord l
    → read_addresses 4 (length l) (address_bytes l ++ rest) ≡ done (l, rest)
unfolding read_addresses address_bytes
read_addresses-address_bytes [] rest w = refl
read_addresses-address_bytes (a ∷ l) rest w =
    read_addresses-suc (length l) (word_bytes a ++ address_bytes l ++ rest) a
      (address_bytes l ++ rest) l rest (read_word-word_bytes a (address_bytes l ++ rest) w.0)
      (read_addresses-address_bytes l rest w.1)

read_addresses-neighbor_bytes :
    (l : List OneHopEntry) (rest : List ℕ)
    → All IsSent l
    → read_addresses 4 (length l) (neighbor_bytes l ++ rest)
      ≡ done (map (λ e. e.ip_address) l, rest)
unfolding read_addresses neighbor_bytes
read_addresses-neighbor_bytes [] rest w = refl
read_addresses-neighbor_bytes (e ∷ l) rest w =
    read_addresses-suc (length l) (word_bytes e.ip_address ++ neighbor_bytes l ++ rest) e.ip_address
      (neighbor_bytes l ++ rest) (map (λ n. n.ip_address) l) rest
      (read_word-word_bytes e.ip_address (neighbor_bytes l ++ rest) w.0.0)
      (read_addresses-neighbor_bytes l rest w.1)

read_statuses-status_bytes :
    (l : List OneHopEntry) (rest : List ℕ)
    → All IsSent l
    → read_statuses (map (λ e. e.ip_address) l) (status_bytes l ++ rest) ≡ done (map listed l, rest)
unfolding read_statuses status_bytes
read_statuses-status_bytes [] rest w = refl
read_statuses-status_bytes (e ∷ l) rest w =
    rw (read_statuses-status_bytes l rest w.1)
      (ap (λ b. done ((e.ip_address, b) ∷ map listed l, rest)) (omega (arith, w.0.1)))

-- The steps of the reader, put together.
read_hello-steps :
    (n m check : ℕ) (b₀ b₁ b₂ b₃ b₄ : List ℕ) (ifs addresses : List ℕ) (l : List (ℕ × ℕ)) (live : ℕ)
    → read_addresses 4 n b₀ ≡ done (ifs, b₁)
    → read_addresses 4 m b₁ ≡ done (addresses, b₂)
    → read_statuses addresses b₂ ≡ done (l, b₃)
    → read_word b₃ ≡ done (live, b₄)
    → read_hello (4 ∷ n ∷ m ∷ check ∷ b₀)
      ≡ done (record { local_if_set = ifs; neighbor_set = l; live_time = live })
unfolding read_hello
read_hello-steps n m check b₀ b₁ b₂ b₃ b₄ ifs addresses l live h₀ h₁ h₂ h₃ =
    rw (h₀, h₁, h₂, h₃) refl

-- The body of a message, with what stands behind it, as the reader goes through it.
abbrev pub body : List ℕ → List OneHopEntry → List ℕ → List ℕ
body addresses neighbors rest =
    address_bytes addresses
    ++ (neighbor_bytes neighbors
        ++ (status_bytes neighbors ++ (word_bytes hello_live_time ++ rest)))

hello_bytes-body :
    (addresses : List ℕ) (neighbors : List OneHopEntry) (rest : List ℕ)
    → length addresses ≤ 255
    → length neighbors ≤ 255
    → hello_bytes addresses neighbors ++ rest
      ≡ 4 ∷ length addresses ∷ length neighbors ∷ 1 ∷ body addresses neighbors rest
unfolding hello_bytes
hello_bytes-body addresses neighbors rest h k =
    ap
      (λ n.
        4
        ∷ n
        ∷ to_u8 (length neighbors)
        ∷ 1
        ∷ (address_bytes addresses
            ++ neighbor_bytes neighbors
            ++ status_bytes neighbors
            ++ word_bytes hello_live_time
            ++ rest))
      (omega arith)
    ∙ ap
        (λ m.
          4
          ∷ length addresses
          ∷ m
          ∷ 1
          ∷ (address_bytes addresses
              ++ neighbor_bytes neighbors
              ++ status_bytes neighbors
              ++ word_bytes hello_live_time
              ++ rest))
        (omega arith)
    ∙ ap (λ l. 4 ∷ length addresses ∷ length neighbors ∷ 1 ∷ l) (simp (append_assoc))

-- With at most 255 interfaces and at most 255 neighbours, and fields in their ranges, the reader of
-- hello messages gets from the bytes of one the addresses of the interfaces, the neighbours with
-- their statuses and the live time, whatever the buffer holds behind them.
pub read_hello-hello_bytes :
    (addresses : List ℕ) (neighbors : List OneHopEntry) (rest : List ℕ)
    → length addresses ≤ 255
    → length neighbors ≤ 255
    → All IsWord addresses
    → All IsSent neighbors
    → read_hello (hello_bytes addresses neighbors ++ rest)
      ≡ done (record {
        local_if_set = addresses;
        neighbor_set = map listed neighbors;
        live_time = hello_live_time;
      })
read_hello-hello_bytes addresses neighbors rest h k w v =
    rw (hello_bytes-body addresses neighbors rest h k) (
      read_hello-steps (length addresses) (length neighbors) 1 _ _ _ _ _ addresses _ _ _
        (read_addresses-address_bytes addresses _ w) (read_addresses-neighbor_bytes neighbors _ v)
        (read_statuses-status_bytes neighbors _ v)
        (read_word-word_bytes hello_live_time rest (omega arith)))

length-address_bytes : (l : List ℕ) → length (address_bytes l) ≡ 4 * length l
unfolding address_bytes
length-address_bytes [] = refl
length-address_bytes (a ∷ l) = omega (arith, length-address_bytes l)

length-neighbor_bytes : (l : List OneHopEntry) → length (neighbor_bytes l) ≡ 4 * length l
unfolding neighbor_bytes
length-neighbor_bytes [] = refl
length-neighbor_bytes (e ∷ l) = omega (arith, length-neighbor_bytes l)

length-status_bytes : (l : List OneHopEntry) → length (status_bytes l) ≡ length l
unfolding status_bytes
length-status_bytes [] = refl
length-status_bytes (e ∷ l) = ap suc (length-status_bytes l)

-- A hello message has 8 bytes, 4 for each interface and 5 for each neighbour.
pub length-hello_bytes :
    (addresses : List ℕ) (neighbors : List OneHopEntry)
    → length (hello_bytes addresses neighbors) ≡ 8 + 4 * length addresses + 5 * length neighbors
unfolding hello_bytes
length-hello_bytes addresses neighbors = omega (
  arith,
  length-append (address_bytes addresses) (neighbor_bytes neighbors),
  length-append (address_bytes addresses ++ neighbor_bytes neighbors) (status_bytes neighbors),
  length-append (address_bytes addresses ++ neighbor_bytes neighbors ++ status_bytes neighbors)
      (word_bytes hello_live_time),
  length-address_bytes addresses,
  length-neighbor_bytes neighbors,
  length-status_bytes neighbors,
)
