-- ===== src/Demo1/Sources/Exchange.antt =====
-- The Modbus sources over a transport that brings the slave's response.
use okmx8mm.Base.{ℕ, ◌+◌, ◌-◌, ◌^◌, ◌%◌, ◌≤◌, ◌<◌, ◌≡◌, ◌≢◌, refl, ap, ◌∙◌, arith}
use okmx8mm.Base.{List, [], ◌∷◌, ◌++◌, some, true, false, length, get_or, take, replicate, ok, pos}
use okmx8mm.Base.{subst, all_below_sound, ==_iff, u8, u16, All, IsU16, ◌<<<◌, ltb, ◌==◌, ◌/=◌}
use Prim.Native.Nat.{bit_and}
use okmx8mm.Base.Bits.{and_of_mask}
use okmx8mm.Demo1.{TickSample}
use okmx8mm.Demo1.Engine.{copy_channels}
use okmx8mm.Demo1.Engine.Rows.{copy_channels_loop}
use okmx8mm.Demo1.Modbus.{build_read_request, registers_to_tick_sample, no_sample}
use okmx8mm.Demo1.Modbus.Response.{response_of, parse-response_of}
use okmx8mm.Demo1.Sources.{
  Transport, read_over, modbus_source_read_tick, wheel_registers_to_sample, wheel_read_tick,
}

-- The first channels of a sample, and zeros behind them.
copied :
    (n : ℕ) (registers : List ℕ)
    → n ≤ length registers
    → n ≤ 14
    → copy_channels n 0 registers (replicate 14 0) ≡ take n registers ++ replicate (14 - n) 0
copied n registers enough fits =
    ap (λ k. copy_channels n 0 registers (replicate k 0)) whole
    ∙ copy_channels_loop n 0 (14 - n) registers (omega arith)
    ∙ ap (λ k. take k registers ++ replicate (14 - n) 0) none_before
  where
    whole : 14 ≡ n + (14 - n)
    whole = omega arith

    none_before : 0 + n ≡ n
    none_before = omega arith

take_all : (xs : List ℕ) → take (length xs) xs ≡ xs
take_all [] = refl
take_all (x ∷ xs) = ap (λ t. x ∷ t) (take_all xs)

-- The sample of up to fourteen registers.
abbrev pub sample_of : List ℕ → TickSample
sample_of registers = record no_sample {
  analog_channel_count = length registers;
  valid_mask = 2 ^ length registers - 1;
  analog = registers ++ replicate (14 - length registers) 0;
}

mask_fits : (n : ℕ) → n ≤ 14 → u16 ((1 <<< n) - 1) ≡ 2 ^ n - 1
mask_fits n h =
    (==_iff (u16 ((1 <<< n) - 1)) (2 ^ n - 1)).0
      (all_below_sound 15 (λ k. u16 ((1 <<< k) - 1) == 2 ^ k - 1) n refl (omega arith))

to_sample_lem :
    (registers : List ℕ)
    → 0 < length registers
    → length registers ≤ 14
    → registers_to_tick_sample (some registers) (length registers) true ≡ ok (sample_of registers)
unfolding registers_to_tick_sample
to_sample_lem registers some_register fits =
    rw (within, present)
      (λ i. ok (record no_sample {
        analog_channel_count = count i;
        valid_mask = mask_fits (length registers) fits i;
        analog = analog_e i;
      }))
  where
    within : ltb 14 (length registers) ≡ false
    within = ground arith

    present : (length registers == 0) ≡ false
    present = ground arith

    count : u8 (length registers) ≡ length registers
    count = omega arith

    analog_e :
        copy_channels (length registers) 0 registers (replicate 14 0)
        ≡ registers ++ replicate (14 - length registers) 0
    analog_e =
        copied (length registers) registers (omega arith) fits
        ∙ ap (λ t. t ++ replicate (14 - length registers) 0) (take_all registers)

-- The sample of the wheel board's ten registers.
abbrev pub wheel_sample_of : List ℕ → TickSample
wheel_sample_of registers = record no_sample {
  analog_channel_count = 8;
  valid_mask = 255;
  analog = take 8 registers ++ replicate 6 0;
  digital_bits = get_or registers 8 0 % 4;
  hall_pulse_delta = (get_or registers 9 0, 0);
}

wheel_to_sample_lem :
    (registers : List ℕ)
    → length registers ≡ 10
    → wheel_registers_to_sample registers (length registers) ≡ ok (wheel_sample_of registers)
unfolding wheel_registers_to_sample
wheel_to_sample_lem registers ten = rw ten (λ i. ok (record (wheel_sample_of registers) {
  analog = copied 8 registers (omega arith) (omega arith) i;
  digital_bits = digital i;
}))
  where
    digital : u8 (bit_and (get_or registers 8 0) 3) ≡ get_or registers 8 0 % 4
    digital = ap u8 (and_of_mask 2 (get_or registers 8 0)) ∙ omega arith

module _ {C : Type 0} (transport : Transport C) (c sent received : C) (slave_id start : ℕ)
    (registers request : List ℕ) where
  read_over_lem :
      slave_id ≢ 0
      → 0 < length registers
      → length registers ≤ 14
      → All IsU16 registers
      → build_read_request slave_id start (length registers) true 8 ≡ ok request
      → transport.write c request ≡ (pos 0, sent)
      → transport.read sent 64 ≡ (pos 0, response_of slave_id registers, received)
      → read_over transport
          (record {
            slave_id = slave_id;
            start_register = start;
            register_count = length registers;
          })
          c
        ≡ (ok registers, received)
  unfolding read_over
  read_over_lem some_slave some_register fits all asked written answered =
      rw
        (
          asked,
          written,
          answered,
          parse-response_of slave_id (length registers) registers some_slave (omega arith)
              (omega arith) all,
          read_over,
          written,
          answered,
        )
        refl

  -- For a slave whose number is not 0 and a transport that takes the request and brings the
  -- response: the Modbus source turns the response of its slave, which holds one to fourteen registers,
  -- into the tick's sample: the registers are the first channels, and the mask has their bits.
  pub modbus_source-sample_of :
      slave_id ≢ 0
      → 0 < length registers
      → length registers ≤ 14
      → All IsU16 registers
      → build_read_request slave_id start (length registers) true 8 ≡ ok request
      → transport.write c request ≡ (pos 0, sent)
      → transport.read sent 64 ≡ (pos 0, response_of slave_id registers, received)
      → modbus_source_read_tick transport
          (record {
            slave_id = slave_id;
            start_register = start;
            register_count = length registers;
          })
          c
        ≡ (ok (sample_of registers), received)
  unfolding modbus_source_read_tick
  modbus_source-sample_of some_slave some_register fits all asked written answered =
      let over = read_over_lem some_slave some_register fits all asked written answered in
      rw
        (
          modbus_source_read_tick,
          read_over_lem some_slave some_register fits all asked written answered,
          modbus_source_read_tick,
          same,
          to_sample_lem registers some_register fits,
          over,
        )
        refl
    where
      same : (length registers /= length registers) ≡ false
      same = ground arith

  -- For a slave whose number is not 0 and a transport that takes the request and brings the
  -- response: the wheel board's source takes eight channels, two digital bits and the speed out of the
  -- response of its slave, which holds ten registers.
  pub wheel-registers :
      slave_id ≢ 0
      → length registers ≡ 10
      → All IsU16 registers
      → build_read_request slave_id start (length registers) true 8 ≡ ok request
      → transport.write c request ≡ (pos 0, sent)
      → transport.read sent 64 ≡ (pos 0, response_of slave_id registers, received)
      → wheel_read_tick transport (record { slave_id = slave_id; start_register = start }) c
        ≡ (ok (wheel_sample_of registers), received)
  unfolding wheel_read_tick
  wheel-registers some_slave ten all asked written answered =
      let over = read_over_lem some_slave (omega arith) (omega arith) all asked written answered in
      let same_source =
        subst
          (λ n.
            read_over transport
              (record { slave_id = slave_id; start_register = start; register_count = n }) c
            ≡ (ok registers, received))
          ten over in
      rw
        (
          wheel_read_tick,
          same_source,
          wheel_read_tick,
          wheel_to_sample_lem registers ten,
          same_source,
        )
        refl
