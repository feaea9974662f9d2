-- ===== src/Prelude/Words.antt =====
-- Unsigned machine arithmetic with its wrap-around written out: `u_int8_t`, `u_int32_t` and
-- `u_int64_t` are native numbers below the modulus.
use Prim.Native.Nat.{ℕ, ◌+◌, ◌-◌, ◌%◌, ◌^◌}

-- A store of a number into a `u_int8_t`.
abbrev pub to_u8 : ℕ → ℕ
to_u8 a = a % 2 ^ 8

abbrev pub add32 : ℕ → ℕ → ℕ
add32 a b = (a + b) % 2 ^ 32

abbrev pub add64 : ℕ → ℕ → ℕ
add64 a b = (a + b) % 2 ^ 64

-- a - b for b below the modulus.
abbrev pub sub64 : ℕ → ℕ → ℕ
sub64 a b = (a + 2 ^ 64 - b) % 2 ^ 64
