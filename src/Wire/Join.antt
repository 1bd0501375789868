-- ===== src/Wire/Join.antt =====
-- Reading a word back from its bytes.
use Prim.Native.Nat.{bit_and}
use okmx8mm.Base.{ℕ, ◌+◌, ◌*◌, ◌/◌, ◌%◌, ◌^◌, ◌≡◌, arith, All}
use okmx8mm.Base.{u8, ◌>>>◌, IsByte, IsU16, IsU32}
use okmx8mm.Base.Bits.{and_of_mask, or_of_low_field}
use okmx8mm.Wire.{put_u16_le, put_u32_le, join_u16, join_u32}

pub join_u16_lem : (low high : ℕ) → IsByte low → IsByte high → join_u16 low high ≡ high * 256 + low
unfolding join_u16
join_u16_lem low high hl hh = ground (arith, or_of_low_field 8 high low)

pub join_u32_lem :
    (b0 b1 b2 b3 : ℕ)
    → IsByte b0
    → IsByte b1
    → IsByte b2
    → IsByte b3
    → join_u32 b0 b1 b2 b3 ≡ b3 * 2 ^ 24 + b2 * 2 ^ 16 + b1 * 2 ^ 8 + b0
unfolding join_u32
join_u32_lem b0 b1 b2 b3 h0 h1 h2 h3 = ground (
  arith,
  or_of_low_field 8 b1 b0,
  or_of_low_field 16 b2 (b1 * 2 ^ 8 + b0),
  or_of_low_field 24 b3 (b2 * 2 ^ 16 + b1 * 2 ^ 8 + b0),
)

-- The low byte as the code takes it.
pub low_byte : (v : ℕ) → u8 (bit_and v 0xFF) ≡ v % 2 ^ 8
low_byte v = omega (arith, and_of_mask 8 v)

pub join-put_u16 : (v : ℕ) → IsU16 v → join_u16 (u8 (bit_and v 0xFF)) (u8 (v >>> 8)) ≡ v
join-put_u16 v h = omega (
  arith,
  low_byte v,
  join_u16_lem (u8 (bit_and v 0xFF)) (u8 (v >>> 8)) (omega arith) (omega arith),
)

-- A word taken apart into four bytes and joined again.
abbrev pub rejoin_u32 : ℕ → ℕ
rejoin_u32 v =
    join_u32 (u8 (bit_and v 0xFF)) (u8 (bit_and (v >>> 8) 0xFF)) (u8 (bit_and (v >>> 16) 0xFF))
      (u8 (v >>> 24))

pub join-put_u32 : (v : ℕ) → IsU32 v → rejoin_u32 v ≡ v
join-put_u32 v h = omega (
  arith,
  low_byte v,
  low_byte (v / 2 ^ 8),
  low_byte (v / 2 ^ 16),
  join_u32_lem (u8 (bit_and v 0xFF)) (u8 (bit_and (v >>> 8) 0xFF)) (u8 (bit_and (v >>> 16) 0xFF))
      (u8 (v >>> 24)) (omega arith) (omega arith) (omega arith) (omega arith),
)

pub put_u16_le-IsByte : (v : ℕ) → All IsByte (put_u16_le v)
unfolding put_u16_le
put_u16_le-IsByte v = omega arith

pub put_u32_le-IsByte : (v : ℕ) → All IsByte (put_u32_le v)
unfolding put_u32_le
put_u32_le-IsByte v = omega arith
