-- ===== src/Rpmsg.antt =====
-- The RPMsg frame of one sample, from the M4 core to the A53 cores: `demo3_m4_rpmsg_publish` in
-- OKMX8MM-Demo3/okmx8mm-m4/src/rpmsg/demo3_m4_rpmsg.c, `demo3_m4_rpmsg_decode` in
-- OKMX8MM-Demo3/data-collector-demo3/src/bridge/demo3_m4_rpmsg.c, and the bridge and reader
-- beside it. The frame is a local array that the code fills from front to back, here the list of
-- the bytes written.
pub mod RoundTrip
pub mod Corruption
pub mod Bridge
use okmx8mm.Base.{ℕ, zero, suc, ◌+◌, ◌-◌, ◌*◌, List, [], ◌∷◌, ◌++◌, Bool, true, false, ◌||◌}
use okmx8mm.Base.{Option, none, some, length, get_or, ◌==◌, ◌/=◌, if◌then◌else◌}
use okmx8mm.Base.{Result, ok, err, ℤ, pos, minus}
use okmx8mm.Crc.{crc16_modbus}
use okmx8mm.Wire.{put_u16_le, put_u32_le, read_u16_le, read_u32_le}
use okmx8mm.Sample.{Sample, analog_channel_count, protocol_version}

abbrev pub magic : ℕ
magic = 0xD3

abbrev pub sample_type : ℕ
sample_type = 0x01

abbrev pub payload_length : ℕ
payload_length = 56

abbrev pub frame_length : ℕ
frame_length = 63

-- The loop over the channels, with the rounds left.
put_channels : ℕ → ℕ → List ℕ → List ℕ
put_channels zero channel analog = []
put_channels (suc left) channel analog =
    put_u32_le (get_or analog channel 0) ++ put_channels left (channel + 1) analog

-- The frame up to its CRC.
unfoldable pub frame_body : Sample → List ℕ
unfolding put_channels put_u16_le put_u32_le
frame_body s =
    (magic ∷ protocol_version ∷ sample_type ∷ put_u16_le payload_length)
    ++ put_u32_le s.sequence
    ++ put_u32_le s.timestamp_ms
    ++ put_channels analog_channel_count 0 s.analog
    ++ put_u16_le s.digital_bits
    ++ put_u32_le s.speed_rpm
    ++ put_u16_le s.flags

unfoldable pub encode : Sample → List ℕ
encode s = frame_body s ++ put_u16_le (crc16_modbus (some (frame_body s)) 61)

-- `demo3_m4_rpmsg_publish`. `given` says that neither the endpoint nor the sample is a null
-- pointer; the endpoint's `send` may be one.
unfoldable pub publish : {C : Type 0} → Bool → Option (C → List ℕ → ℤ × C) → C → Sample → ℤ × C
publish false send context s = (minus 1, context)
publish true none context s = (minus 1, context)
publish true (some send) context s = send context (encode s)

-- The loop over the channels of `demo3_m4_rpmsg_decode`.
read_channels : ℕ → List ℕ → ℕ → List ℕ
read_channels zero frame offset = []
read_channels (suc left) frame offset =
    read_u32_le frame offset ∷ read_channels left frame (offset + 4)

-- The fields, once the frame is accepted.
unfoldable pub decode_fields : List ℕ → Sample
unfolding read_channels read_u16_le read_u32_le
decode_fields frame = record {
  sequence = read_u32_le frame 5;
  timestamp_ms = read_u32_le frame 9;
  analog = read_channels analog_channel_count frame 13;
  digital_bits = read_u16_le frame 53;
  speed_rpm = read_u32_le frame 55;
  flags = read_u16_le frame 59;
}

-- The condition under which the frame is refused with -2.
unfoldable pub bad_header : List ℕ → Bool
bad_header frame =
    length frame /= frame_length
    || get_or frame 0 0 /= magic
    || get_or frame 1 0 /= protocol_version
    || get_or frame 2 0 /= sample_type
    || read_u16_le frame 3 /= payload_length

-- `demo3_m4_rpmsg_decode`. The frame's length is `frame_length`, `none` is a null pointer, and
-- `given` says that `sample` is not one.
unfoldable pub decode : Option (List ℕ) → Bool → Result Sample
decode none given = err 1
decode (some frame) false = err 1
decode (some frame) true =
    if bad_header frame
    then err 2
    else if crc16_modbus (some frame) (frame_length - 2) /= read_u16_le frame (frame_length - 2)
    then err 3
    else ok (decode_fields frame)
