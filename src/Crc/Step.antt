-- ===== src/Crc/Step.antt =====
-- One bit and one byte of the CRC as arithmetic, and their bounds.
use Prim.Native.Nat.{bit_xor}
use okmx8mm.Base.{ℕ, zero, suc, ◌*◌, ◌/◌, ◌%◌, ◌<◌, ◌^◌, ◌≡◌, refl, ◌⊎◌, arith}
use okmx8mm.Base.{List, [], ◌∷◌, take, IsByte, IsU16, u16}
use okmx8mm.Base.Bits.{and_of_mask, xor_bound, xor-zero}
use okmx8mm.Crc.{crc_bit, crc_bits, crc_byte, crc_loop}

pub parity : (x : ℕ) → (x % 2 ≡ 0) ⊎ (x % 2 ≡ 1)
parity x = ground arith

-- The branch on the low bit is a multiplication by it.
pub crc_bit_lem : (x : ℕ) → IsU16 x → crc_bit x ≡ bit_xor (x / 2) (x % 2 * 0xA001)
unfolding crc_bit
crc_bit_lem x h = ground (
  arith,
  parity x,
  and_of_mask 1 x,
  xor_bound 16 (x / 2) 0xA001 (omega arith) (omega arith),
  xor-zero (x / 2),
)

pub crc_bit-lt : (x : ℕ) → IsU16 (crc_bit x)
unfolding crc_bit
crc_bit-lt x = ground arith

pub crc_bits-lt : (n x : ℕ) → IsU16 x → IsU16 (crc_bits n x)
unfolding crc_bits
crc_bits-lt zero x h = h
crc_bits-lt (suc n) x h = crc_bits-lt n (crc_bit x) (crc_bit-lt x)

pub crc_byte-lt : (crc b : ℕ) → IsU16 (crc_byte crc b)
unfolding crc_byte
crc_byte-lt crc b = crc_bits-lt 8 (u16 (bit_xor crc b)) (omega arith)

pub crc_byte_lem : (crc b : ℕ) → IsU16 crc → IsByte b → crc_byte crc b ≡ crc_bits 8 (bit_xor crc b)
unfolding crc_byte
crc_byte_lem crc b hc hb =
    let fits : bit_xor crc b < 2 ^ 16 = xor_bound 16 crc b hc (omega arith) in
    let same : bit_xor crc b % 2 ^ 16 ≡ bit_xor crc b = omega arith in rw same

-- The CRC of a whole list of bytes, from a start value.
abbrev pub crc_over : ℕ → List ℕ → ℕ
crc_over crc [] = crc
crc_over crc (b ∷ bs) = crc_over (crc_byte crc b) bs

pub crc_loop_lem : (n : ℕ) (bs : List ℕ) (crc : ℕ) → crc_loop n bs crc ≡ crc_over crc (take n bs)
unfolding crc_loop
crc_loop_lem zero bs crc = refl
crc_loop_lem (suc n) [] crc = refl
crc_loop_lem (suc n) (b ∷ bs) crc = crc_loop_lem n bs (crc_byte crc b)

pub crc_over-lt : (crc : ℕ) (bs : List ℕ) → IsU16 crc → IsU16 (crc_over crc bs)
crc_over-lt crc [] h = h
crc_over-lt crc (b ∷ bs) h = crc_over-lt (crc_byte crc b) bs (crc_byte-lt crc b)
