-- ===== src/Crc/Detect.antt =====
-- What the CRC of a frame finds out.
use Prim.Native.Nat.{bit_xor}
use okmx8mm.Base.{ℕ, ◌+◌, ◌*◌, ◌/◌, ◌%◌, ◌^◌, ◌≡◌, refl, ap, ◌∙◌, sym, arith}
use okmx8mm.Base.{List, [], ◌∷◌, ◌++◌, some, length, take, take-append, All}
use okmx8mm.Base.{IsByte, IsU16}
use okmx8mm.Base.Bits.{
  xor_bound, xor_cancel, xor_self, xor_low_field, zero-xor, xor_assoc, xor_comm,
}
use okmx8mm.Crc.{crc_bit, crc_bits, crc_byte, crc16_modbus}
use okmx8mm.Crc.Step.{crc_over, crc_over-lt, crc_byte-lt, crc_bits-lt, crc_loop_lem}
use okmx8mm.Crc.Linear.{crc_bits_injective, crc_byte_injective, crc_byte_pair}

take_all : (xs : List ℕ) → take (length xs) xs ≡ xs
take_all [] = refl
take_all (x ∷ xs) = ap (λ t. x ∷ t) (take_all xs)

-- The CRC of a whole array.
pub crc16_whole : (xs : List ℕ) → crc16_modbus (some xs) (length xs) ≡ crc_over 0xFFFF xs
unfolding crc16_modbus
crc16_whole xs = crc_loop_lem (length xs) xs 0xFFFF ∙ ap (crc_over 0xFFFF) (take_all xs)

-- The CRC of the front part of an array.
pub crc16_front :
    (xs ys : List ℕ) (n : ℕ) → length xs ≡ n → crc16_modbus (some (xs ++ ys)) n ≡ crc_over 0xFFFF xs
unfolding crc16_modbus
crc16_front xs ys n h =
    crc_loop_lem n (xs ++ ys) 0xFFFF ∙ ap (crc_over 0xFFFF) (take-append xs ys n h)

-- The CRC reads no byte from `length` on.
pub crc16_prefix :
    (xs ys : List ℕ) (n : ℕ)
    → length xs ≡ n
    → crc16_modbus (some (xs ++ ys)) n ≡ crc16_modbus (some xs) n
crc16_prefix xs ys n h =
    crc16_front xs ys n h ∙ sym (crc16_whole xs) ∙ ap (crc16_modbus (some xs)) h

pub crc16-lt : (xs : List ℕ) (n : ℕ) → IsU16 (crc16_modbus (some xs) n)
unfolding crc16_modbus
crc16-lt xs n = rw (crc_loop_lem n xs 0xFFFF) (crc_over-lt 0xFFFF (take n xs) (omega arith))

crc_over-append : (c : ℕ) (xs ys : List ℕ) → crc_over c (xs ++ ys) ≡ crc_over (crc_over c xs) ys
crc_over-append c [] ys = refl
crc_over-append c (x ∷ xs) ys = crc_over-append (crc_byte c x) xs ys

crc_over_injective :
    (a b : ℕ) (xs : List ℕ)
    → IsU16 a
    → IsU16 b
    → All IsByte xs
    → crc_over a xs ≡ crc_over b xs
    → a ≡ b
crc_over_injective a b [] ha hb h e = e
crc_over_injective a b (x ∷ xs) ha hb h e =
    crc_byte_injective a b x ha hb h.0 (
      crc_over_injective (crc_byte a x) (crc_byte b x) xs (crc_byte-lt a x) (crc_byte-lt b x) h.1 e)

-- The two bytes as the word that the register takes in.
pair_as_word :
    (crc low high : ℕ)
    → IsU16 crc
    → IsByte low
    → IsByte high
    → bit_xor (bit_xor crc low) (high * 2 ^ 8) ≡ bit_xor crc (high * 2 ^ 8 + low)
pair_as_word crc low high hc hl hh =
    let joined : bit_xor low (high * 2 ^ 8) ≡ high * 2 ^ 8 + low =
      xor_comm low (high * 2 ^ 8)
      ∙ ap (λ (t : ℕ). bit_xor t low) (omega arith)
      ∙ xor_low_field 8 high 0 low (omega arith) hl
      ∙ ap (λ (t : ℕ). high * 2 ^ 8 + t) (zero-xor low) in
    xor_assoc crc low (high * 2 ^ 8) ∙ ap (λ (t : ℕ). bit_xor crc t) joined

crc_pair_injective :
    (crc a b c d : ℕ)
    → IsU16 crc
    → IsByte a
    → IsByte b
    → IsByte c
    → IsByte d
    → crc_byte (crc_byte crc a) b ≡ crc_byte (crc_byte crc c) d
    → (a ≡ c) × (b ≡ d)
crc_pair_injective crc a b c d h ha hb hc hd e =
    let word = λ (low high : ℕ). bit_xor crc (high * 2 ^ 8 + low) in
    let small = λ (low high : ℕ) (hl : IsByte low) (hh : IsByte high).
      xor_bound 16 crc (high * 2 ^ 8 + low) h (omega arith) in
    let as_word = λ (low high : ℕ) (hl : IsByte low) (hh : IsByte high).
      crc_byte_pair crc low high h hl hh
      ∙ ap (λ (t : ℕ). crc_bits 8 (crc_bits 8 t)) (pair_as_word crc low high h hl hh) in
    let same : word a b ≡ word c d =
      crc_bits_injective 8 (word a b) (word c d) (small a b ha hb) (small c d hc hd) (
        crc_bits_injective 8 (crc_bits 8 (word a b)) (crc_bits 8 (word c d))
          (crc_bits-lt 8 (word a b) (small a b ha hb)) (crc_bits-lt 8 (word c d) (small c d hc hd))
          (sym (as_word a b ha hb) ∙ e ∙ as_word c d hc hd)) in
    let sums : b * 2 ^ 8 + a ≡ d * 2 ^ 8 + c =
      sym (xor_cancel (b * 2 ^ 8 + a) crc)
      ∙ ap (λ (t : ℕ). bit_xor t crc)
          (xor_comm (b * 2 ^ 8 + a) crc ∙ same ∙ xor_comm crc (d * 2 ^ 8 + c))
      ∙ xor_cancel (d * 2 ^ 8 + c) crc in
    omega arith

-- Two frames of bytes that differ in at most two neighbouring bytes, wherever these stand, and
-- have one CRC are equal: the CRC finds every error burst within two bytes.
pub crc16_burst :
    (before after : List ℕ) (a b c d : ℕ)
    → All IsByte after
    → IsByte a
    → IsByte b
    → IsByte c
    → IsByte d
    → let frame = λ (x y : ℕ). before ++ (x ∷ y ∷ after) in
      crc16_modbus (some (frame a b)) (length (frame a b))
        ≡ crc16_modbus (some (frame c d)) (length (frame c d))
      → (a ≡ c) × (b ≡ d)
crc16_burst before after a b c d hs ha hb hc hd e =
    let start = crc_over 0xFFFF before in
    let bound : IsU16 start = crc_over-lt 0xFFFF before (omega arith) in
    let of_frame = λ (x y : ℕ).
      crc16_whole (before ++ (x ∷ y ∷ after)) ∙ crc_over-append 0xFFFF before (x ∷ y ∷ after) in
    crc_pair_injective start a b c d bound ha hb hc hd (
      crc_over_injective (crc_byte (crc_byte start a) b) (crc_byte (crc_byte start c) d) after
        (crc_byte-lt (crc_byte start a) b) (crc_byte-lt (crc_byte start c) d) hs
        (sym (of_frame a b) ∙ e ∙ of_frame c d))

crc_bits-zero : crc_bits 8 0 ≡ 0
unfolding crc_bits crc_bit
crc_bits-zero = refl

crc_over_own : (crc : ℕ) → IsU16 crc → crc_over crc (crc % 2 ^ 8 ∷ crc / 2 ^ 8 ∷ []) ≡ 0
crc_over_own crc h =
    rw
      (
        crc_byte_pair crc (crc % 2 ^ 8) (crc / 2 ^ 8) h (omega arith) (omega arith),
        pair_as_word crc (crc % 2 ^ 8) (crc / 2 ^ 8) h (omega arith) (omega arith),
        own,
        xor_self crc,
        crc_bits-zero,
      )
      (crc_bits-zero)
  where
    own : crc / 2 ^ 8 * 2 ^ 8 + crc % 2 ^ 8 ≡ crc
    own = omega arith

-- A frame followed by its CRC, low byte first as all the frames here carry it, has CRC 0.
pub crc16_residue :
    (bytes : List ℕ)
    → let crc = crc16_modbus (some bytes) (length bytes) in
      let frame = bytes ++ (crc % 2 ^ 8 ∷ crc / 2 ^ 8 ∷ []) in
      crc16_modbus (some frame) (length frame) ≡ 0
crc16_residue bytes =
    let crc = crc_over 0xFFFF bytes in
    rw
      (
        crc16_whole bytes,
        crc16_whole (bytes ++ (crc % 2 ^ 8 ∷ crc / 2 ^ 8 ∷ [])),
        crc_over-append 0xFFFF bytes (crc % 2 ^ 8 ∷ crc / 2 ^ 8 ∷ []),
      )
      (crc_over_own crc (crc_over-lt 0xFFFF bytes (omega arith)))
