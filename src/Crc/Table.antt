-- ===== src/Crc/Table.antt =====
-- The table-driven CRC: `crc16_digest` in
-- OKMX8MM-Demo3/data-collector-demo3/src/crc/crc-16.c. The index is a plain `char`, whose sign
-- is the platform's choice: `signed` says that it has one.
use Prim.Native.Nat.{bit_xor}
use okmx8mm.Base.{ℕ, ◌+◌, ◌*◌, ◌/◌, ◌%◌, ◌<◌, ◌^◌, ◌≡◌, refl, ap, ◌∙◌, sym, arith}
use okmx8mm.Base.{Bool, true, false, ◌&&◌, leb, ◌==◌, ==_iff, if◌then◌else◌}
use okmx8mm.Base.{all_below, all_below_sound}
use okmx8mm.Base.{Option, none, some, List, [], ◌∷◌, length, get_or, All}
use okmx8mm.Base.{u8, u16, ◌>>>◌, IsByte, IsU16}
use okmx8mm.Base.Bits.{xor_comm, xor_low_field, zero-xor, xor_bound}
use okmx8mm.Crc.{crc_bit, crc_bits, crc_byte, crc_loop, crc16_modbus}
use okmx8mm.Crc.Step.{crc_byte_lem, crc_byte-lt}
use okmx8mm.Crc.Linear.{crc_bits-xor, crc_bits_shift}

-- The bit patterns of the `short` entries.
abbrev table : List ℕ
table =
    0x0000 ∷ 0xC0C1 ∷ 0xC181 ∷ 0x0140 ∷ 0xC301 ∷ 0x03C0 ∷ 0x0280 ∷ 0xC241 ∷ 0xC601 ∷ 0x06C0 ∷ 0x0780
    ∷ 0xC741 ∷ 0x0500 ∷ 0xC5C1 ∷ 0xC481 ∷ 0x0440 ∷ 0xCC01 ∷ 0x0CC0 ∷ 0x0D80 ∷ 0xCD41 ∷ 0x0F00
    ∷ 0xCFC1 ∷ 0xCE81 ∷ 0x0E40 ∷ 0x0A00 ∷ 0xCAC1 ∷ 0xCB81 ∷ 0x0B40 ∷ 0xC901 ∷ 0x09C0 ∷ 0x0880
    ∷ 0xC841 ∷ 0xD801 ∷ 0x18C0 ∷ 0x1980 ∷ 0xD941 ∷ 0x1B00 ∷ 0xDBC1 ∷ 0xDA81 ∷ 0x1A40 ∷ 0x1E00
    ∷ 0xDEC1 ∷ 0xDF81 ∷ 0x1F40 ∷ 0xDD01 ∷ 0x1DC0 ∷ 0x1C80 ∷ 0xDC41 ∷ 0x1400 ∷ 0xD4C1 ∷ 0xD581
    ∷ 0x1540 ∷ 0xD701 ∷ 0x17C0 ∷ 0x1680 ∷ 0xD641 ∷ 0xD201 ∷ 0x12C0 ∷ 0x1380 ∷ 0xD341 ∷ 0x1100
    ∷ 0xD1C1 ∷ 0xD081 ∷ 0x1040 ∷ 0xF001 ∷ 0x30C0 ∷ 0x3180 ∷ 0xF141 ∷ 0x3300 ∷ 0xF3C1 ∷ 0xF281
    ∷ 0x3240 ∷ 0x3600 ∷ 0xF6C1 ∷ 0xF781 ∷ 0x3740 ∷ 0xF501 ∷ 0x35C0 ∷ 0x3480 ∷ 0xF441 ∷ 0x3C00
    ∷ 0xFCC1 ∷ 0xFD81 ∷ 0x3D40 ∷ 0xFF01 ∷ 0x3FC0 ∷ 0x3E80 ∷ 0xFE41 ∷ 0xFA01 ∷ 0x3AC0 ∷ 0x3B80
    ∷ 0xFB41 ∷ 0x3900 ∷ 0xF9C1 ∷ 0xF881 ∷ 0x3840 ∷ 0x2800 ∷ 0xE8C1 ∷ 0xE981 ∷ 0x2940 ∷ 0xEB01
    ∷ 0x2BC0 ∷ 0x2A80 ∷ 0xEA41 ∷ 0xEE01 ∷ 0x2EC0 ∷ 0x2F80 ∷ 0xEF41 ∷ 0x2D00 ∷ 0xEDC1 ∷ 0xEC81
    ∷ 0x2C40 ∷ 0xE401 ∷ 0x24C0 ∷ 0x2580 ∷ 0xE541 ∷ 0x2700 ∷ 0xE7C1 ∷ 0xE681 ∷ 0x2640 ∷ 0x2200
    ∷ 0xE2C1 ∷ 0xE381 ∷ 0x2340 ∷ 0xE101 ∷ 0x21C0 ∷ 0x2080 ∷ 0xE041 ∷ 0xA001 ∷ 0x60C0 ∷ 0x6180
    ∷ 0xA141 ∷ 0x6300 ∷ 0xA3C1 ∷ 0xA281 ∷ 0x6240 ∷ 0x6600 ∷ 0xA6C1 ∷ 0xA781 ∷ 0x6740 ∷ 0xA501
    ∷ 0x65C0 ∷ 0x6480 ∷ 0xA441 ∷ 0x6C00 ∷ 0xACC1 ∷ 0xAD81 ∷ 0x6D40 ∷ 0xAF01 ∷ 0x6FC0 ∷ 0x6E80
    ∷ 0xAE41 ∷ 0xAA01 ∷ 0x6AC0 ∷ 0x6B80 ∷ 0xAB41 ∷ 0x6900 ∷ 0xA9C1 ∷ 0xA881 ∷ 0x6840 ∷ 0x7800
    ∷ 0xB8C1 ∷ 0xB981 ∷ 0x7940 ∷ 0xBB01 ∷ 0x7BC0 ∷ 0x7A80 ∷ 0xBA41 ∷ 0xBE01 ∷ 0x7EC0 ∷ 0x7F80
    ∷ 0xBF41 ∷ 0x7D00 ∷ 0xBDC1 ∷ 0xBC81 ∷ 0x7C40 ∷ 0xB401 ∷ 0x74C0 ∷ 0x7580 ∷ 0xB541 ∷ 0x7700
    ∷ 0xB7C1 ∷ 0xB681 ∷ 0x7640 ∷ 0x7200 ∷ 0xB2C1 ∷ 0xB381 ∷ 0x7340 ∷ 0xB101 ∷ 0x71C0 ∷ 0x7080
    ∷ 0xB041 ∷ 0x5000 ∷ 0x90C1 ∷ 0x9181 ∷ 0x5140 ∷ 0x9301 ∷ 0x53C0 ∷ 0x5280 ∷ 0x9241 ∷ 0x9601
    ∷ 0x56C0 ∷ 0x5780 ∷ 0x9741 ∷ 0x5500 ∷ 0x95C1 ∷ 0x9481 ∷ 0x5440 ∷ 0x9C01 ∷ 0x5CC0 ∷ 0x5D80
    ∷ 0x9D41 ∷ 0x5F00 ∷ 0x9FC1 ∷ 0x9E81 ∷ 0x5E40 ∷ 0x5A00 ∷ 0x9AC1 ∷ 0x9B81 ∷ 0x5B40 ∷ 0x9901
    ∷ 0x59C0 ∷ 0x5880 ∷ 0x9841 ∷ 0x8801 ∷ 0x48C0 ∷ 0x4980 ∷ 0x8941 ∷ 0x4B00 ∷ 0x8BC1 ∷ 0x8A81
    ∷ 0x4A40 ∷ 0x4E00 ∷ 0x8EC1 ∷ 0x8F81 ∷ 0x4F40 ∷ 0x8D01 ∷ 0x4DC0 ∷ 0x4C80 ∷ 0x8C41 ∷ 0x4400
    ∷ 0x84C1 ∷ 0x8581 ∷ 0x4540 ∷ 0x8701 ∷ 0x47C0 ∷ 0x4680 ∷ 0x8641 ∷ 0x8201 ∷ 0x42C0 ∷ 0x4380
    ∷ 0x8341 ∷ 0x4100 ∷ 0x81C1 ∷ 0x8081 ∷ 0x4040 ∷ []

-- The body of the loop. A negative index reads in front of the table.
pub digest_step : Bool → ℕ → ℕ → Option ℕ
digest_step signed crc byte =
    let index = u8 (bit_xor byte crc) in
    if signed && leb 128 index
    then none
    else some (u16 (bit_xor (crc >>> 8) (get_or table index 0)))

digest_loop : Bool → ℕ → List ℕ → Option ℕ
digest_loop signed crc [] = some crc
digest_loop signed crc (byte ∷ bytes) = elim (digest_step signed crc byte) [
  | none ↦ none
  | some next ↦ digest_loop signed next bytes
]

pub crc16_digest : Bool → List ℕ → Option ℕ
crc16_digest signed bytes = digest_loop signed 0xFFFF bytes

entry_of_byte : all_below 256 (λ i. get_or table i 0 == crc_bits 8 i) ≡ true
unfolding crc_bits crc_bit
entry_of_byte = refl

table_lem : (i : ℕ) → i < 256 → get_or table i 0 ≡ crc_bits 8 i
table_lem i h =
    (==_iff (get_or table i 0) (crc_bits 8 i)).0
      (all_below_sound 256 (λ i. get_or table i 0 == crc_bits 8 i) i entry_of_byte h)

-- The register after a byte: the high byte comes down, and the table gives the rest.
crc_byte_by_table :
    (high low byte : ℕ)
    → IsByte high
    → IsByte low
    → IsByte byte
    → crc_byte (high * 2 ^ 8 + low) byte ≡ bit_xor high (get_or table (bit_xor low byte) 0)
crc_byte_by_table high low byte hh hl hb =
    let small : bit_xor low byte < 2 ^ 8 = xor_bound 8 low byte hl hb in
    let split : bit_xor (high * 2 ^ 8 + low) byte ≡ bit_xor (high * 2 ^ 8) (bit_xor low byte) =
      xor_low_field 8 high low byte hl hb
      ∙ sym (ap (λ (t : ℕ). high * 2 ^ 8 + t) (zero-xor (bit_xor low byte)))
      ∙ sym (xor_low_field 8 high 0 (bit_xor low byte) (omega arith) small)
      ∙ ap (λ (t : ℕ). bit_xor t (bit_xor low byte)) (omega arith) in
    rw (
      crc_byte_lem (high * 2 ^ 8 + low) byte (omega arith) hb,
      split,
      crc_bits-xor 8 (high * 2 ^ 8) (bit_xor low byte) (omega arith) (omega arith),
      crc_bits_shift 8 high (omega arith),
      table_lem (bit_xor low byte) small,
    )

digest_step_lem :
    (crc byte : ℕ) → IsU16 crc → IsByte byte → digest_step false crc byte ≡ some (crc_byte crc byte)
unfolding digest_step
digest_step_lem crc byte hc hb =
    let index : bit_xor byte crc % 256 ≡ bit_xor (crc % 256) byte = omega (
      arith,
      xor_comm byte crc,
      ap (λ (t : ℕ). bit_xor t byte) (halves crc),
      xor_low_field 8 (crc / 2 ^ 8) (crc % 2 ^ 8) byte (omega arith) hb,
      xor_bound 8 (crc % 2 ^ 8) byte (omega arith) hb,
    ) in
    let whole : crc_byte crc byte
        ≡ bit_xor (crc / 2 ^ 8) (get_or table (bit_xor (crc % 2 ^ 8) byte) 0) =
      ap (λ (t : ℕ). crc_byte t byte) (halves crc)
      ∙ crc_byte_by_table (crc / 2 ^ 8) (crc % 2 ^ 8) byte (omega arith) (omega arith) hb in
    rw (index, ← whole) (ap some (omega (arith, crc_byte-lt crc byte)))
  where
    halves : (x : ℕ) → x ≡ x / 2 ^ 8 * 2 ^ 8 + x % 2 ^ 8
    halves x = omega arith

digest_loop_lem :
    (crc : ℕ) (bytes : List ℕ)
    → IsU16 crc
    → All IsByte bytes
    → digest_loop false crc bytes ≡ some (crc_loop (length bytes) bytes crc)
unfolding digest_loop crc_loop
digest_loop_lem crc [] hc h = refl
digest_loop_lem crc (byte ∷ bytes) hc h =
    rw (digest_step_lem crc byte hc h.0, digest_loop)
      (digest_loop_lem (crc_byte crc byte) bytes (crc_byte-lt crc byte) h.1)

-- Where `char` has no sign, the table-driven CRC of any array of bytes is the CRC that
-- `demo3_crc16_modbus` computes bit by bit.
pub digest-eq-crc16 :
    (bytes : List ℕ)
    → All IsByte bytes
    → crc16_digest false bytes ≡ some (crc16_modbus (some bytes) (length bytes))
unfolding crc16_digest crc16_modbus
digest-eq-crc16 bytes h = digest_loop_lem 0xFFFF bytes (omega arith) h

first_index : all_below 128 (λ b. leb 128 (u8 (bit_xor b 0xFFFF))) ≡ true
first_index = refl

first_step : (byte : ℕ) → byte < 128 → digest_step true 0xFFFF byte ≡ none
unfolding digest_step
first_step byte h =
    let late : leb 128 (u8 (bit_xor byte 0xFFFF)) ≡ true =
      all_below_sound 128 (λ b. leb 128 (u8 (bit_xor b 0xFFFF))) byte first_index h in
    rw (late, if◌then◌else◌)

-- Where `char` is signed, every array that begins with a byte below 128, as each Modbus frame
-- from a slave with such an address does, makes the first lookup read in front of the table.
pub digest_signed_faults :
    (byte : ℕ) (bytes : List ℕ) → byte < 128 → crc16_digest true (byte ∷ bytes) ≡ none
unfolding crc16_digest digest_loop
digest_signed_faults byte bytes h = rw (first_step byte h, digest_loop)
