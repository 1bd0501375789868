-- ===== src/Demo1/Sources.antt =====
-- Where the ticks come from: demo1_mock_source.c, demo1_modbus_source.c and
-- demo1_wheel_board_source.c in OKMX8MM-Demo2/m4/demo1/src/. The Modbus sources work over a
-- transport, `Transport`, with the state `C`.
pub mod Mock
pub mod Exchange
use Prim.Native.Nat.{bit_and, bit_or}
use okmx8mm.Base.{ℕ, zero, suc, ◌+◌, ◌-◌, ◌*◌, ◌%◌, ◌^◌, List, [], ◌∷◌, Bool, true, false, ◌||◌}
use okmx8mm.Base.{
  Option, some, length, get_or, replicate, ltb, leb, ◌==◌, ◌/=◌, if◌then◌else◌, u8, u16, u32,
}
use okmx8mm.Base.{◌<<<◌, Result, ok, err, ℤ, pos, minus, failed}
use okmx8mm.Demo1.{TickSample, channel_count}
use okmx8mm.Demo1.Engine.{copy_channels}
use okmx8mm.Demo1.Modbus.{
  build_read_request, parse_read_response, registers_to_tick_sample, no_sample,
}

abbrev pub analog_bases : List ℕ
analog_bases =
    100 ∷ 200 ∷ 300 ∷ 400 ∷ 500 ∷ 600 ∷ 1000 ∷ 1100 ∷ 1200 ∷ 1300 ∷ 1400 ∷ 1500 ∷ 1600 ∷ 1700 ∷ []

pub record MockSource : Type 0 where
  pub seed : ℕ
  pub tick_count : ℕ
  pub initialized : Bool

-- `demo1_mock_source_init`, for a source that is given.
unfoldable pub mock_init : ℕ → MockSource
mock_init seed = record { seed = seed; tick_count = 0; initialized = true }

-- A channel of the mock source: its base and an offset between -5 and 5, on 16 bits.
unfoldable pub mock_channel : ℕ → ℕ → ℕ → ℕ
mock_channel seed_mod tick channel =
    let offset = u16 (u32 (u32 (u32 (seed_mod + u32 (tick * 2)) + channel) % 11 + (2 ^ 32 - 5))) in
    u16 (get_or analog_bases channel 0 + offset)

-- The loop over the channels, with the rounds left.
unfoldable pub mock_channels : ℕ → ℕ → ℕ → ℕ → List ℕ
mock_channels zero seed_mod tick channel = []
mock_channels (suc left) seed_mod tick channel =
    mock_channel seed_mod tick channel ∷ mock_channels left seed_mod tick (channel + 1)

-- The digital bits of a tick.
unfoldable pub mock_digital : ℕ → ℕ
mock_digital tick =
    let first = if leb 4 tick then bit_or 0 0x01 else 0 in
    if leb 7 tick then bit_or first 0x02 else first

-- `demo1_mock_source_read_tick`: the code, the sample, and the source.
unfoldable pub mock_read_tick : MockSource → ℕ → ℤ × TickSample × MockSource
unfolding mock_channels
mock_read_tick source timestamp_us =
    if source.initialized
    then (let tick = source.tick_count in
        (
          pos 0,
          record {
            analog_channel_count = channel_count;
            valid_mask = 0x3FFF;
            analog = mock_channels channel_count (source.seed % 11) tick 0;
            digital_bits = mock_digital tick;
            hall_pulse_delta = (u16 (4 + tick), u16 (7 + tick));
            hall_period_us = (u32 (2500 + u32 (tick * 10)), u32 (3200 + u32 (tick * 10)));
            oil_raw = (u32 (5000 + u32 (tick * 20)), u32 (5030 + u32 (tick * 20)));
            oil_status = (0, 0);
            oil_age_ms = (0, 0);
          },
          record source { tick_count = u32 (tick + 1) },
        ))
    else (minus 1, no_sample, source)

-- `demo1_modbus_transport_write_fn` and `demo1_modbus_transport_read_fn`. The read is given a
-- capacity and returns the bytes that it reports.
pub record Transport (C : Type 0) : Type 0 where
  pub write : C → List ℕ → ℤ × C
  pub read : C → ℕ → ℤ × List ℕ × C

-- `demo1_modbus_source_t`, without its callbacks.
pub record ModbusSource : Type 0 where
  pub slave_id : ℕ
  pub start_register : ℕ
  pub register_count : ℕ

-- `demo1_modbus_source_init`. `given` says that no pointer is null.
unfoldable pub modbus_source_init : Bool → ℕ → ℕ → ℕ → Result ModbusSource
modbus_source_init false slave_id start_register register_count = err 1
modbus_source_init true slave_id start_register register_count =
    if slave_id == 0 || register_count == 0 || ltb channel_count register_count
    then err 1
    else ok (record {
      slave_id = slave_id;
      start_register = start_register;
      register_count = register_count;
    })

module _ {C : Type 0} (transport : Transport C) where
  -- The exchange that both sources begin with: the registers, or -1 to -4.
  unfoldable pub read_over : ModbusSource → C → Result (List ℕ) × C
  read_over source c =
      elim (build_read_request source.slave_id source.start_register source.register_count true 8) [
        | err n ↦ (err 1, c)
        | ok request ↦
            let (code, sent) = transport.write c request in
            if failed code
            then (err 2, sent)
            else let (code', response, received) = transport.read sent 64 in
              if failed code'
              then (err 3, received)
              else elim (parse_read_response source.slave_id (some response) true
                  source.register_count) [
                    | err n ↦ (err 4, received)
                    | ok registers ↦ (ok registers, received)
                  ]
      ]

  -- `demo1_modbus_source_read_tick`.
  unfoldable pub modbus_source_read_tick : ModbusSource → C → Result TickSample × C
  modbus_source_read_tick source c =
      let (result, received) = read_over source c in
      elim result [
        | err n ↦ (err n, received)
        | ok registers ↦
            if length registers /= source.register_count
            then (err 4, received)
            else elim (registers_to_tick_sample (some registers) (length registers) true) [
              | err n ↦ (err 4, received)
              | ok s ↦ (ok s, received)
            ]
      ]

-- `wheel_registers_to_sample`: eight analog channels, two digital ones, and the speed.
unfoldable pub wheel_registers_to_sample : List ℕ → ℕ → Result TickSample
wheel_registers_to_sample registers register_count =
    if register_count /= 10
    then err 1
    else ok (record no_sample {
      analog_channel_count = 8;
      valid_mask = u16 ((1 <<< 8) - 1);
      analog = copy_channels 8 0 registers (replicate channel_count 0);
      digital_bits = u8 (bit_and (get_or registers 8 0) ((1 <<< 2) - 1));
      hall_pulse_delta = (get_or registers 9 0, 0);
    })

-- `demo1_wheel_board_source_t`, without its callbacks.
pub record WheelSource : Type 0 where
  pub slave_id : ℕ
  pub start_register : ℕ

-- `demo1_wheel_board_source_init`. `given` says that no pointer is null.
unfoldable pub wheel_source_init : Bool → ℕ → ℕ → Result WheelSource
wheel_source_init false slave_id start_register = err 1
wheel_source_init true slave_id start_register =
    if slave_id == 0
    then err 1
    else ok (record { slave_id = slave_id; start_register = start_register })

module _ {C : Type 0} (transport : Transport C) where
  -- `demo1_wheel_board_source_read_tick`.
  unfoldable pub wheel_read_tick : WheelSource → C → Result TickSample × C
  wheel_read_tick source c =
      let (result, received) =
        read_over transport
          (record {
            slave_id = source.slave_id;
            start_register = source.start_register;
            register_count = 10;
          })
          c in
      elim result [
        | err n ↦ (err n, received)
        | ok registers ↦ elim (wheel_registers_to_sample registers (length registers)) [
          | err n ↦ (err 4, received)
          | ok s ↦ (ok s, received)
        ]
      ]
