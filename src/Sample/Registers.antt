-- ===== src/Sample/Registers.antt =====
-- The 26 Modbus registers of a sample: `demo3_sample_to_registers` and
-- `demo3_sample_from_registers` in OKMX8MM-Demo3/common/protocol/demo3_protocol.c.
-- An array of registers is a list, and its `register_count` is the list's length.
-- `given` says that neither pointer is null.
pub mod RoundTrip
use Prim.Native.Nat.{bit_and, bit_or}
use okmx8mm.Base.{ℕ, zero, suc, ◌+◌, ◌*◌, List, [], ◌∷◌, Bool, true, false, ltb, if◌then◌else◌}
use okmx8mm.Base.{length, get_or, set, u16, u32, ◌<<<◌, ◌>>>◌, Result, ok, err}
use okmx8mm.Sample.{Sample, analog_channel_count, modbus_register_count}

-- `join_signed32` and `join_unsigned32`, which agree on bit patterns.
unfoldable pub join32 : ℕ → ℕ → ℕ
join32 high low = bit_or (u32 (high <<< 16)) low

-- `split_signed32` and `split_unsigned32`: the two words that they write.
abbrev pub high_word : ℕ → ℕ
high_word value = u16 (value >>> 16)

abbrev pub low_word : ℕ → ℕ
low_word value = u16 (bit_and value 0xFFFF)

-- The split into `registers[index]` and `registers[index + 1]`.
abbrev pub split32 : ℕ → ℕ → List ℕ → List ℕ
split32 value index registers =
    set (set registers index (high_word value)) (index + 1) (low_word value)

-- The loop of `demo3_sample_from_registers`, with the rounds left.
join_channels : ℕ → ℕ → List ℕ → List ℕ
join_channels zero channel registers = []
join_channels (suc left) channel registers =
    join32 (get_or registers (channel * 2) 0) (get_or registers (channel * 2 + 1) 0)
    ∷ join_channels left (channel + 1) registers

-- The fields; the timestamp keeps the 0 of `memset`.
unfoldable pub read_sample : List ℕ → Sample
unfolding join_channels
read_sample registers = record {
  sequence = join32 (get_or registers 24 0) (get_or registers 25 0);
  timestamp_ms = 0;
  analog = join_channels analog_channel_count 0 registers;
  digital_bits = get_or registers 20 0;
  speed_rpm = join32 (get_or registers 21 0) (get_or registers 22 0);
  flags = get_or registers 23 0;
}

unfoldable pub sample_from_registers : Bool → List ℕ → Result Sample
sample_from_registers false registers = err 1
sample_from_registers true registers =
    if ltb (length registers) modbus_register_count then err 2 else ok (read_sample registers)

-- The loop of `demo3_sample_to_registers`.
split_channels : ℕ → ℕ → List ℕ → List ℕ → List ℕ
split_channels zero channel analog registers = registers
split_channels (suc left) channel analog registers =
    split_channels left (channel + 1) analog
      (split32 (get_or analog channel 0) (channel * 2) registers)

-- The writes, in the order of the code.
unfoldable pub write_sample : Sample → List ℕ → List ℕ
unfolding split_channels
write_sample s registers =
    let channels = split_channels analog_channel_count 0 s.analog registers in
    let digital = set channels 20 s.digital_bits in
    let speed = split32 s.speed_rpm 21 digital in
    let flags = set speed 23 s.flags in split32 s.sequence 24 flags

unfoldable pub sample_to_registers : Bool → Sample → List ℕ → Result (List ℕ)
sample_to_registers false s registers = err 1
sample_to_registers true s registers =
    if ltb (length registers) modbus_register_count then err 2 else ok (write_sample s registers)
