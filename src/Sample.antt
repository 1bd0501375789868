-- ===== src/Sample.antt =====
-- `demo3_sample_t` and its registers:
-- OKMX8MM-Demo3/common/protocol/demo3_protocol.h and demo3_protocol.c.
-- An `int32_t` is its bit pattern, so the casts between `int32_t` and `uint32_t` do nothing.
pub mod Registers
use okmx8mm.Base.{ℕ, List, ◌≡◌, length, All, IsU16, IsU32}

pub record Sample : Type 0 where
  pub sequence : ℕ
  pub timestamp_ms : ℕ
  pub analog : List ℕ
  pub digital_bits : ℕ
  pub speed_rpm : ℕ
  pub flags : ℕ

abbrev pub analog_channel_count : ℕ
analog_channel_count = 10

abbrev pub protocol_version : ℕ
protocol_version = 1

abbrev pub modbus_register_count : ℕ
modbus_register_count = 26

-- The values that the C type can hold.
pub record IsSample (s : Sample) : Type 0 where
  pub sequence_fits : IsU32 s.sequence
  pub timestamp_fits : IsU32 s.timestamp_ms
  pub channels : length s.analog ≡ analog_channel_count
  pub analog_fits : All IsU32 s.analog
  pub digital_fits : IsU16 s.digital_bits
  pub speed_fits : IsU32 s.speed_rpm
  pub flags_fit : IsU16 s.flags
