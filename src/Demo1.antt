-- ===== src/Demo1.antt =====
-- The first M4 demo, OKMX8MM-Demo2/m4/demo1/: ticks of a source become batches of ten. Its data
-- types, `demo1_tick_sample_t` and `demo1_batch_t` in include/demo1_types.h. An `int16_t` is kept
-- as its 16-bit pattern, an array of two as a pair.
pub mod Engine
pub mod Modbus
pub mod Transport
pub mod Sources
use okmx8mm.Base.{ℕ, List}

abbrev pub channel_count : ℕ
channel_count = 14

abbrev pub batch_sample_count : ℕ
batch_sample_count = 10

abbrev pub sample_rate_hz : ℕ
sample_rate_hz = 2000

pub record TickSample : Type 0 where
  pub analog_channel_count : ℕ
  pub valid_mask : ℕ
  pub analog : List ℕ
  pub digital_bits : ℕ
  pub hall_pulse_delta : ℕ × ℕ
  pub hall_period_us : ℕ × ℕ
  pub oil_raw : ℕ × ℕ
  pub oil_status : ℕ × ℕ
  pub oil_age_ms : ℕ × ℕ

pub record Batch : Type 0 where
  pub sequence : ℕ
  pub start_timestamp_us : ℕ
  pub sample_rate : ℕ
  pub sample_count : ℕ
  pub analog_channel_count : ℕ
  pub aggregate_valid_mask : ℕ
  pub analog_samples : List (List ℕ)
  pub digital_states : List ℕ
  pub latest_hall_pulse_delta : ℕ × ℕ
  pub latest_hall_period_us : ℕ × ℕ
  pub latest_oil_raw : ℕ × ℕ
  pub latest_oil_status : ℕ × ℕ
  pub latest_oil_age_ms : ℕ × ℕ
