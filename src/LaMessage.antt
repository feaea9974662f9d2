-- ===== src/LaMessage.antt =====
-- lib/COMMON/la_message.h and la_message.cpp: the messages between the daemon and the local agent,
-- and their bytes. `int` and `uint32_t` are 32-bit patterns, stored with the low byte first.
use unified_routing_framewor.Prelude.{
  ℕ, zero, suc, ◌+◌, ◌*◌, ◌/◌, ◌%◌, ◌^◌, ◌-◌, ◌<◌, ◌≤◌, ◌≡◌, refl, List, [], ◌∷◌, ◌++◌, Option,
  none, some, arith, length, ltb, if◌then◌else◌, ap,
}

pub record LaMessage : Type 0 where
  pub cmd : ℕ
  pub dst_address : ℕ
  pub src_address : ℕ
  pub protocol : ℕ
  pub result : ℕ

-- The four bytes of a word.
abbrev pub word_bytes : ℕ → List ℕ
word_bytes n = n % 256 ∷ n / 256 % 256 ∷ n / 65536 % 256 ∷ n / 16777216 % 256 ∷ []

abbrev pub word_of : ℕ → ℕ → ℕ → ℕ → ℕ
word_of a b c d = a + 256 * b + 65536 * c + 16777216 * d

-- The rest of the buffer, from `memset`.
unfoldable pub zeros : ℕ → List ℕ
zeros zero = []
zeros (suc n) = 0 ∷ zeros n

-- `generate_stream` on a buffer of `size` bytes: its return value and what the buffer then holds;
-- `none` where the fields do not fit, and `memcpy` writes behind the buffer.
unfoldable pub generate_stream : LaMessage → ℕ → Option (ℕ × List ℕ)
generate_stream m size =
    if ltb size 17
    then none
    else some (
      17,
      word_bytes m.cmd
          ++ word_bytes m.dst_address
          ++ word_bytes m.src_address
          ++ m.protocol % 256 ∷ []
          ++ word_bytes m.result
          ++ zeros (size - 17),
    )

-- `parse_stream`; `none` where it reads behind the buffer.
unfoldable pub parse_stream : List ℕ → Option LaMessage
parse_stream
      (c₀ ∷ c₁ ∷ c₂ ∷ c₃ ∷ d₀ ∷ d₁ ∷ d₂ ∷ d₃ ∷ s₀ ∷ s₁ ∷ s₂ ∷ s₃ ∷ p ∷ r₀ ∷ r₁ ∷ r₂ ∷ r₃ ∷ rest) =
    some (record {
      cmd = word_of c₀ c₁ c₂ c₃;
      dst_address = word_of d₀ d₁ d₂ d₃;
      src_address = word_of s₀ s₁ s₂ s₃;
      protocol = p;
      result = word_of r₀ r₁ r₂ r₃;
    })
parse_stream _ = none

-- What the fields of the source can hold.
pub record IsValid (m : LaMessage) : Type 0 where
  pub cmd_bound : m.cmd < 2 ^ 32
  pub dst_bound : m.dst_address < 2 ^ 32
  pub src_bound : m.src_address < 2 ^ 32
  pub protocol_bound : m.protocol < 2 ^ 8
  pub result_bound : m.result < 2 ^ 32

pub word_of-word_bytes :
    (n : ℕ)
    → n < 2 ^ 32
    → word_of (n % 256) (n / 256 % 256) (n / 65536 % 256) (n / 16777216 % 256) ≡ n
word_of-word_bytes n h = omega arith

length-zeros : (n : ℕ) → length (zeros n) ≡ n
unfolding zeros
length-zeros zero = refl
length-zeros (suc n) = ap suc (length-zeros n)

-- In a buffer of at least 17 bytes `generate_stream` fits and returns 17, the buffer keeps its
-- size, and `parse_stream` reads the message back from it, whatever the buffer's size.
pub parse_stream-generate_stream :
    (m : LaMessage) (size : ℕ)
    → IsValid m
    → 17 ≤ size
    → (buffer : List ℕ) × (generate_stream m size ≡ some (17, buffer))
      × (length buffer ≡ size)
      × (parse_stream buffer ≡ some m)
unfolding generate_stream parse_stream
parse_stream-generate_stream m size v h = (
  word_bytes m.cmd
      ++ word_bytes m.dst_address
      ++ word_bytes m.src_address
      ++ m.protocol % 256 ∷ []
      ++ word_bytes m.result
      ++ zeros (size - 17),
  ground arith,
  omega (arith, length-zeros (size - 17)),
  ground (
    arith,
    word_of-word_bytes m.cmd v.cmd_bound,
    word_of-word_bytes m.dst_address v.dst_bound,
    word_of-word_bytes m.src_address v.src_bound,
    word_of-word_bytes m.result v.result_bound,
    v.protocol_bound,
  ),
)
