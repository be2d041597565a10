-- ===== src/Word.antt =====
-- Machine integers as bit patterns: an `i32` and an `i64` are the numbers below 2^32 and 2^64 of
-- their two's complement form.
use proxec.Base.{ℕ, ◌-◌, ◌%◌, ◌^◌, Bool, leb, nat_eq, bit_and}

-- `x as i32` of a 64-bit value.
abbrev pub as_i32 : ℕ → ℕ
as_i32 x = x % 2 ^ 32

-- `x < 0` for an `i32`.
abbrev pub is_negative : ℕ → Bool
is_negative x = leb (2 ^ 31) x

-- `-(x as i64) as u64`.
abbrev pub neg64 : ℕ → ℕ
neg64 x = (2 ^ 64 - x) % 2 ^ 64

-- `x & flag != 0` for a flag of one bit or more.
abbrev pub has_flag : ℕ → ℕ → Bool
has_flag x flag = elim (nat_eq (bit_and x flag) 0) [
  | Bool.true ↦ Bool.false
  | Bool.false ↦ Bool.true
]
