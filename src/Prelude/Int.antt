-- ===== src/Prelude/Int.antt =====
-- Signed integers over the native numbers: an `int` of the code, with its bounds and conversions.
use unified_routing_framewor.Prelude.{
  ℕ, suc, ◌+◌, ◌-◌, ◌%◌, ◌^◌, ◌<◌, ◌≤◌, Bool, false, ◌==◌, ltb, leb, if◌then◌else◌,
}

-- `negsuc n` is -(n + 1).
pub data ℤ : Type 0 where
  pos : ℕ → ℤ
  negsuc : ℕ → ℤ

abbrev pub pos_part : ℤ → ℕ
pos_part (pos n) = n
pos_part (negsuc n) = 0

abbrev pub neg_part : ℤ → ℕ
neg_part (pos n) = 0
neg_part (negsuc n) = suc n

-- a - b, as an integer.
abbrev pub sub_ℕ : ℕ → ℕ → ℤ
sub_ℕ a b = if leb b a then pos (a - b) else negsuc (b - a - 1)

abbrev pub ltb_ℤ : ℤ → ℤ → Bool
ltb_ℤ a b = ltb (pos_part a + neg_part b) (pos_part b + neg_part a)

abbrev pub is_minus_one : ℤ → Bool
is_minus_one (pos n) = false
is_minus_one (negsuc n) = n == 0

-- The values of an `int` of 32 bits.
abbrev pub IsInt : ℤ → Type 0
IsInt z = (pos_part z < 2 ^ 31) × (neg_part z ≤ 2 ^ 31)

-- A `u_int64_t` stored into an `int`.
abbrev pub int_of_u64 : ℕ → ℤ
int_of_u64 n =
    if ltb (n % 2 ^ 32) (2 ^ 31) then pos (n % 2 ^ 32) else negsuc (2 ^ 32 - 1 - n % 2 ^ 32)

-- An `int` in arithmetic with a `u_int64_t`.
abbrev pub u64_of_int : ℤ → ℕ
u64_of_int (pos n) = n % 2 ^ 64
u64_of_int (negsuc n) = 2 ^ 64 - 1 - n % 2 ^ 64
