-- ===== src/Acquisition.antt =====
-- The acquisition of the STM32F407:
-- OKMX8MM-Demo3/stm32f407/applications/acquisition/demo3_acquisition.c and the readers of
-- OKMX8MM-Demo3/stm32f407/Bsp/demo3_stm32f407_board.c. The vendor's HAL is the state `H`.
pub mod Speed
pub mod Read
use Prim.Native.Nat.{bit_or}
use okmx8mm.Base.{ℕ, zero, suc, ◌+◌, ◌-◌, ◌*◌, ◌/◌, ◌%◌, ◌^◌, List, [], ◌∷◌, Bool, true, false}
use okmx8mm.Base.{
  ◌||◌, not, replicate, set, ltb, leb, ◌==◌, if◌then◌else◌, u16, u32, ℤ, pos, minus, failed,
}
use okmx8mm.Sample.{Sample, analog_channel_count}

-- The calls of the HAL: the milliseconds, the converter (`true` is HAL_OK), the two inputs and
-- the counter of the speed.
pub record Hal (H : Type 0) : Type 0 where
  pub get_tick : H → ℕ × H
  pub adc_start : H → Bool × H
  pub adc_poll : H → Bool × H
  pub adc_value : H → ℕ × H
  pub adc_stop : H → Bool × H
  pub read_pin : H → ℕ → Bool × H
  pub counter : H → ℕ × H

-- The static variables.
pub record Board : Type 0 where
  pub sequence : ℕ
  pub previous_tick : ℕ
  pub previous_counter : ℕ

-- `demo3_stm32f407_read_speed` for a pointer that is given: the speed, from the milliseconds and
-- the counter. `int16_t delta` is its bit pattern.
unfoldable pub speed_of : ℕ → ℕ → Board → ℕ
speed_of now count board =
    let elapsed = (now + 2 ^ 32 - board.previous_tick) % 2 ^ 32 in
    let delta = (count + 2 ^ 16 - board.previous_counter) % 2 ^ 16 in
    let pulses = if leb (2 ^ 15) delta then 2 ^ 16 - delta else delta in
    if board.previous_tick == 0 || elapsed == 0 then 0 else u32 (pulses * 60000) / u32 (elapsed * 1)

module _ {H : Type 0} (hal : Hal H) where
  unfoldable pub read_speed : Board → H → ℕ × Board × H
  read_speed board h =
      let now = hal.get_tick h in
      let count = hal.counter now.1 in
      let counter = u16 count.0 in
      (
        speed_of now.0 counter board,
        record board { previous_tick = now.0; previous_counter = counter },
        count.1,
      )

  -- `demo3_stm32f407_read_digital` for a pointer that is given.
  unfoldable pub read_digital : H → ℕ × H
  read_digital h =
      let first = hal.read_pin h 0 in
      let second = hal.read_pin first.1 1 in
      let bits = if first.0 then bit_or 0 1 else 0 in
      (if second.0 then bit_or bits 2 else bits, second.1)

  -- The loop over the channels, with the rounds left: whether all conversions came, and the
  -- values.
  unfoldable pub read_channels : ℕ → ℕ → List ℕ → H → Bool × List ℕ × H
  read_channels zero channel analog h = (true, analog, h)
  read_channels (suc left) channel analog h =
      let polled = hal.adc_poll h in
      let value = hal.adc_value polled.1 in
      let rest = read_channels left (channel + 1) (set analog channel (u32 value.0)) value.1 in
      if polled.0 then rest else (false, analog, polled.1)

  -- The conversion: the result, whether the flag of the analog error is set, and the values.
  unfoldable pub read_analog : H → (ℤ × Bool) × List ℕ × H
  read_analog h =
      let started = hal.adc_start h in
      let zeros = replicate analog_channel_count 0 in
      let (converted, analog, h1) = read_channels analog_channel_count 0 zeros started.1 in
      let stopped = hal.adc_stop h1 in
      if not started.0
      then ((minus 2, true), zeros, started.1)
      else if not stopped.0
      then ((minus 4, true), analog, stopped.1)
      else if converted
      then ((pos 0, false), analog, stopped.1)
      else ((minus 3, true), analog, stopped.1)

  -- `demo3_acquisition_read` for a pointer that is given: the code, the sample and the state. The
  -- readers of the inputs and of the speed are given pointers, and then never fail.
  unfoldable pub acquisition_read : Board → H → (ℤ × Sample) × Board × H
  acquisition_read board h =
      let now = hal.get_tick h in
      let ((result, analog_error), analog, h1) = read_analog now.1 in
      let digital = read_digital h1 in
      let (speed, board', h2) =
        read_speed (record board { sequence = u32 (board.sequence + 1) }) digital.1 in
      (
        (
          result,
          record {
            sequence = board.sequence;
            timestamp_ms = now.0;
            analog = analog;
            digital_bits = digital.0;
            speed_rpm = speed;
            flags = if analog_error then bit_or 1 2 else 1;
          },
        ),
        board',
        h2,
      )

-- The five initialisations, each after the one before it was right, as `hal_init` joins them.
unfoldable pub hal_init : List ℤ → ℤ
hal_init [] = pos 0
hal_init (code ∷ codes) = let rest = hal_init codes in if failed code then minus 1 else rest

-- `demo3_acquisition_init`.
unfoldable pub acquisition_init : List ℤ → Board → ℤ × Board
acquisition_init codes board = (hal_init codes, record board { sequence = 0 })

-- One round of the endless loop of main: the sample is renewed and sent each second, and the
-- slave is polled with it. `send` and `poll` are the CAN sender and the Modbus slave.
module _ {H : Type 0} (hal : Hal H) (send : Sample → H → H) (poll : Sample → H → H) where
  unfoldable pub main_round : (Sample × ℕ) × Board × H → (Sample × ℕ) × Board × H
  main_round ((sample, last_sample_tick), board, h) =
      let now = hal.get_tick h in
      let ((result, fresh), board', h1) = acquisition_read hal board now.1 in
      let after = hal.get_tick (send fresh h1) in
      if leb 1000 ((now.0 + 2 ^ 32 - last_sample_tick) % 2 ^ 32)
      then ((fresh, after.0), board', poll fresh after.1)
      else ((sample, last_sample_tick), board, poll sample now.1)
