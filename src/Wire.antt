-- ===== src/Wire.antt =====
-- Bytes of 16-bit and 32-bit words: the `put_u16_le`, `put_u32_le` of
-- OKMX8MM-Demo3/okmx8mm-m4/src/rpmsg/demo3_m4_rpmsg.c (repeated in the two demo3_can.c files),
-- the `read_u16_le`, `read_u32_le` of
-- OKMX8MM-Demo3/data-collector-demo3/src/bridge/demo3_m4_rpmsg.c, and the `put_u16_be` of
-- OKMX8MM-Demo3/stm32f407/applications/rs485/demo3_modbus_codec.c.
-- A function that writes at `out` gives the bytes that it writes, in order.
pub mod Join
pub mod Residue
use Prim.Native.Nat.{bit_and, bit_or}
use okmx8mm.Base.{ℕ, ◌+◌, List, [], ◌∷◌, get_or, u8, u16, u32, ◌<<<◌, ◌>>>◌}

unfoldable pub put_u16_le : ℕ → List ℕ
put_u16_le value = u8 (bit_and value 0xFF) ∷ u8 (value >>> 8) ∷ []

unfoldable pub put_u32_le : ℕ → List ℕ
put_u32_le value =
    u8 (bit_and value 0xFF)
    ∷ u8 (bit_and (value >>> 8) 0xFF)
    ∷ u8 (bit_and (value >>> 16) 0xFF)
    ∷ u8 (value >>> 24)
    ∷ []

unfoldable pub put_u16_be : ℕ → List ℕ
put_u16_be value = u8 (value >>> 8) ∷ u8 (bit_and value 0xFF) ∷ []

-- The words that the bytes `low`, `high`, or `b0` to `b3` from the lowest, stand for.
unfoldable pub join_u16 : ℕ → ℕ → ℕ
join_u16 low high = bit_or low (u16 (high <<< 8))

unfoldable pub join_u32 : ℕ → ℕ → ℕ → ℕ → ℕ
join_u32 b0 b1 b2 b3 =
    bit_or (bit_or (bit_or b0 (u32 (b1 <<< 8))) (u32 (b2 <<< 16))) (u32 (b3 <<< 24))

-- The reads at `bytes + offset`.
unfoldable pub read_u16_le : List ℕ → ℕ → ℕ
read_u16_le bytes offset = join_u16 (get_or bytes offset 0) (get_or bytes (offset + 1) 0)

unfoldable pub read_u32_le : List ℕ → ℕ → ℕ
read_u32_le bytes offset =
    join_u32 (get_or bytes offset 0) (get_or bytes (offset + 1) 0) (get_or bytes (offset + 2) 0)
      (get_or bytes (offset + 3) 0)
