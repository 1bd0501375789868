-- ===== src/Crc/Linear.antt =====
-- The CRC register is linear over exclusive or, and its rounds lose nothing.
use Prim.Native.Nat.{bit_xor}
use native.Mathlib.Nat.{pow-suc}
use okmx8mm.Base.{ℕ, zero, suc, ◌*◌, ◌/◌, ◌%◌, ◌^◌, ◌≡◌, refl, ap, ◌∙◌, sym, arith}
use okmx8mm.Base.{IsByte, IsU16}
use okmx8mm.Base.Bits.{xor_bound, xor-zero, zero-xor, xor-div, xor-mod, xor_self, xor_cancel}
use okmx8mm.Base.Bits.{xor_cancel_pair, xor_regroup, xor_assoc}
use okmx8mm.Crc.{crc_bit, crc_bits, crc_byte}
use okmx8mm.Crc.Step.{parity, crc_bit_lem, crc_bit-lt, crc_byte_lem, crc_byte-lt}

crc_bit-xor :
    (a b : ℕ) → IsU16 a → IsU16 b → crc_bit (bit_xor a b) ≡ bit_xor (crc_bit a) (crc_bit b)
crc_bit-xor a b ha hb = ground (
  arith,
  crc_bit_lem a ha,
  crc_bit_lem b hb,
  crc_bit_lem (bit_xor a b) (xor_bound 16 a b ha hb),
  parity a,
  parity b,
  xor-div a b,
  xor-mod a b,
  xor-zero (a / 2),
  xor-zero (b / 2),
  xor-zero (bit_xor (a / 2) (b / 2)),
  xor_cancel_pair (a / 2) (b / 2) 0xA001,
  xor_regroup (a / 2) (b / 2) 0xA001,
  xor_assoc (a / 2) (b / 2) 0xA001,
)

pub crc_bits-xor :
    (n a b : ℕ)
    → IsU16 a
    → IsU16 b
    → crc_bits n (bit_xor a b) ≡ bit_xor (crc_bits n a) (crc_bits n b)
unfolding crc_bits
crc_bits-xor zero a b ha hb = refl
crc_bits-xor (suc n) a b ha hb =
    rw (crc_bit-xor a b ha hb)
      (crc_bits-xor n (crc_bit a) (crc_bit b) (crc_bit-lt a) (crc_bit-lt b))

-- Zero bits on the right are only shifted out.
pub crc_bits_shift : (n y : ℕ) → IsU16 (y * 2 ^ n) → crc_bits n (y * 2 ^ n) ≡ y
unfolding crc_bits
crc_bits_shift zero y h = omega arith
crc_bits_shift (suc n) y h =
    let double : y * 2 ^ suc n ≡ 2 * (y * 2 ^ n) =
      omega (arith, ap (λ (t : ℕ). y * t) (pow-suc 2 n)) in
    let step : crc_bit (y * 2 ^ suc n) ≡ y * 2 ^ n =
      ground (arith, double, crc_bit_lem (y * 2 ^ suc n) h, xor-zero (y * 2 ^ n)) in
    rw step (crc_bits_shift n y (omega (arith, double)))

eq_of_xor_zero : (a b : ℕ) → bit_xor a b ≡ 0 → a ≡ b
eq_of_xor_zero a b h = sym (xor_cancel a b) ∙ ap (λ (t : ℕ). bit_xor t b) h ∙ zero-xor b

-- The polynomial has its top bit set, so no register but 0 is sent to 0.
crc_bit-eq_zero : (x : ℕ) → IsU16 x → crc_bit x ≡ 0 → x ≡ 0
crc_bit-eq_zero x h e =
    ground (arith, crc_bit_lem x h, parity x, eq_of_xor_zero (x / 2) (x % 2 * 0xA001))

crc_bits-eq_zero : (n x : ℕ) → IsU16 x → crc_bits n x ≡ 0 → x ≡ 0
unfolding crc_bits
crc_bits-eq_zero zero x h e = e
crc_bits-eq_zero (suc n) x h e =
    crc_bit-eq_zero x h (crc_bits-eq_zero n (crc_bit x) (crc_bit-lt x) e)

pub crc_bits_injective : (n a b : ℕ) → IsU16 a → IsU16 b → crc_bits n a ≡ crc_bits n b → a ≡ b
crc_bits_injective n a b ha hb e = eq_of_xor_zero a b (
    crc_bits-eq_zero n (bit_xor a b) (xor_bound 16 a b ha hb) (
      crc_bits-xor n a b ha hb
      ∙ ap (λ (t : ℕ). bit_xor t (crc_bits n b)) e
      ∙ xor_self (crc_bits n b)))

pub crc_byte_injective :
    (a b byte : ℕ) → IsU16 a → IsU16 b → IsByte byte → crc_byte a byte ≡ crc_byte b byte → a ≡ b
crc_byte_injective a b byte ha hb hy e =
    let same : bit_xor a byte ≡ bit_xor b byte =
      crc_bits_injective 8 (bit_xor a byte) (bit_xor b byte) (xor_bound 16 a byte ha (omega arith))
        (xor_bound 16 b byte hb (omega arith))
        (sym (crc_byte_lem a byte ha hy) ∙ e ∙ crc_byte_lem b byte hb hy) in
    sym (xor_cancel a byte) ∙ ap (λ (t : ℕ). bit_xor t byte) same ∙ xor_cancel b byte

-- Two bytes are taken in as one 16-bit word, the first in its low half.
pub crc_byte_pair :
    (crc low high : ℕ)
    → IsU16 crc
    → IsByte low
    → IsByte high
    → crc_byte (crc_byte crc low) high
      ≡ crc_bits 8 (crc_bits 8 (bit_xor (bit_xor crc low) (high * 2 ^ 8)))
crc_byte_pair crc low high hc hl hh = rw (
  crc_byte_lem (crc_byte crc low) high (crc_byte-lt crc low) hh,
  crc_byte_lem crc low hc hl,
  crc_bits-xor 8 (bit_xor crc low) (high * 2 ^ 8) (xor_bound 16 crc low hc (omega arith))
      (omega arith),
  crc_bits_shift 8 high (omega arith),
)
