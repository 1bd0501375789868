-- ===== src/Demo1/Modbus.antt =====
-- The Modbus master of the demo: OKMX8MM-Demo2/m4/demo1/src/demo1_modbus.c. The registers that a
-- response carries are the list that the code writes, whose length is `out_count`.
pub mod Response
use Prim.Native.Nat.{bit_and, bit_or}
use okmx8mm.Base.{
  ℕ, zero, suc, ◌+◌, ◌-◌, ◌*◌, ◌/◌, ◌%◌, ◌^◌, List, [], ◌∷◌, ◌++◌, Bool, true, false, ◌||◌,
}
use okmx8mm.Base.{
  Option, none, some, length, get_or, replicate, ltb, ◌==◌, ◌/=◌, if◌then◌else◌, u8, u16,
}
use okmx8mm.Base.{◌<<<◌, ◌>>>◌, Result, ok, err}
use okmx8mm.Crc.{crc_loop}
use okmx8mm.Demo1.{TickSample, channel_count}
use okmx8mm.Demo1.Engine.{copy_channels}

-- `demo1_modbus_crc16`: its loops are those of `demo3_crc16_modbus`, and a null pointer gives 0
-- only if the length is not 0.
unfoldable pub modbus_crc16 : Option (List ℕ) → ℕ → ℕ
modbus_crc16 none zero = 0xFFFF
modbus_crc16 none (suc n) = 0
modbus_crc16 (some bytes) n = crc_loop n bytes 0xFFFF

unfoldable pub request_head : ℕ → ℕ → ℕ → List ℕ
request_head slave_id start_register register_count =
    slave_id
    ∷ 0x03
    ∷ u8 (start_register >>> 8)
    ∷ u8 (bit_and start_register 0xFF)
    ∷ u8 (register_count >>> 8)
    ∷ u8 (bit_and register_count 0xFF)
    ∷ []

-- `demo1_modbus_build_read_request`, whose code 8 is the length of the frame. `given` says that
-- the frame's pointer is not null.
unfoldable pub build_read_request : ℕ → ℕ → ℕ → Bool → ℕ → Result (List ℕ)
unfolding request_head
build_read_request slave_id start_register register_count given capacity =
    if slave_id == 0 || register_count == 0 || ltb 125 register_count
    then err 1
    else if given
    then (if ltb capacity 8
        then err 1
        else let head = request_head slave_id start_register register_count in
          let crc = modbus_crc16 (some head) 6 in
          ok (head ++ (u8 (bit_and crc 0xFF) ∷ u8 (crc >>> 8) ∷ [])))
    else err 1

-- The loop over the registers, with the rounds left.
unfoldable pub read_registers : ℕ → ℕ → List ℕ → List ℕ
read_registers zero index frame = []
read_registers (suc left) index frame =
    bit_or (u16 (get_or frame (3 + index * 2) 0 <<< 8)) (get_or frame (3 + index * 2 + 1) 0)
    ∷ read_registers left (index + 1) frame

-- The CRC at the end of the frame is not that of the bytes in front of it.
unfoldable pub bad_crc : List ℕ → Bool
bad_crc frame =
    modbus_crc16 (some frame) (length frame - 2)
    /= bit_or (get_or frame (length frame - 2) 0) (u16 (get_or frame (length frame - 1) 0 <<< 8))

-- `demo1_modbus_parse_read_response`. `given` says that no pointer to an output is null.
unfoldable pub parse_read_response : ℕ → Option (List ℕ) → Bool → ℕ → Result (List ℕ)
parse_read_response slave_id none given max_registers = err 1
parse_read_response slave_id (some frame) false max_registers = err 1
parse_read_response slave_id (some frame) true max_registers =
    if slave_id == 0 || ltb (length frame) 5
    then err 1
    else if bad_crc frame
    then err 3
    else if get_or frame 0 0 /= slave_id || get_or frame 1 0 /= 0x03
    then err 4
    else if get_or frame 2 0 % 2 /= 0 || length frame /= get_or frame 2 0 + 5
    then err 2
    else if ltb max_registers (u16 (get_or frame 2 0 / 2))
    then err 6
    else ok (read_registers (u16 (get_or frame 2 0 / 2)) 0 frame)

-- A sample of zeros.
abbrev pub no_sample : TickSample
no_sample = record {
  analog_channel_count = 0;
  valid_mask = 0;
  analog = replicate channel_count 0;
  digital_bits = 0;
  hall_pulse_delta = (0, 0);
  hall_period_us = (0, 0);
  oil_raw = (0, 0);
  oil_status = (0, 0);
  oil_age_ms = (0, 0);
}

-- `demo1_modbus_registers_to_tick_sample`.
unfoldable pub registers_to_tick_sample : Option (List ℕ) → ℕ → Bool → Result TickSample
registers_to_tick_sample none register_count given = err 1
registers_to_tick_sample (some registers) register_count false = err 1
registers_to_tick_sample (some registers) register_count true =
    if ltb channel_count register_count
    then err 1
    else if register_count == 0
    then ok no_sample
    else ok (record no_sample {
      analog_channel_count = u8 register_count;
      valid_mask = u16 ((1 <<< register_count) - 1);
      analog = copy_channels register_count 0 registers (replicate channel_count 0);
    })
