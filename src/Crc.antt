-- ===== src/Crc.antt =====
-- The CRC of the Modbus and RPMsg frames: `demo3_crc16_modbus` in
-- OKMX8MM-Demo3/common/protocol/demo3_protocol.c, bit by bit with the reflected polynomial.
mod Step
mod Linear
pub mod Detect
pub mod Table
use Prim.Native.Nat.{bit_and, bit_xor}
use okmx8mm.Base.{ℕ, zero, suc, Option, none, some, List, [], ◌∷◌}
use okmx8mm.Base.{◌/=◌, if◌then◌else◌, u16, ◌>>>◌}

-- One round of the inner loop.
pub crc_bit : ℕ → ℕ
crc_bit crc = if bit_and crc 0x0001 /= 0 then u16 (bit_xor (crc >>> 1) 0xA001) else u16 (crc >>> 1)

-- The inner loop, with the rounds left.
pub crc_bits : ℕ → ℕ → ℕ
crc_bits zero crc = crc
crc_bits (suc left) crc = crc_bits left (crc_bit crc)

-- The body of the outer loop.
pub crc_byte : ℕ → ℕ → ℕ
crc_byte crc byte = crc_bits 8 (u16 (bit_xor crc byte))

-- The outer loop, with the bytes left. An array shorter than `length` is outside the contract.
pub crc_loop : ℕ → List ℕ → ℕ → ℕ
crc_loop zero bytes crc = crc
crc_loop (suc left) [] crc = crc
crc_loop (suc left) (byte ∷ bytes) crc = crc_loop left bytes (crc_byte crc byte)

-- `none` is the null pointer.
unfoldable pub crc16_modbus : Option (List ℕ) → ℕ → ℕ
crc16_modbus none length = 0
crc16_modbus (some bytes) length = crc_loop length bytes 0xFFFF
