-- ===== src/Demo1/Engine.antt =====
-- The engine, OKMX8MM-Demo2/m4/demo1/src/demo1_engine.c, over a source with the state `S`.
pub mod Rows
pub mod Batches
pub mod Ticks
pub mod Ten
use Prim.Native.Nat.{bit_or}
use okmx8mm.Base.{ℕ, zero, suc, ◌+◌, List, [], ◌∷◌, Bool, true, false, ◌||◌, get_or, set, replicate}
use okmx8mm.Base.{ltb, ◌==◌, if◌then◌else◌, u8, u16, u32, Result, ok, err, ℤ, failed}
use okmx8mm.Demo1.{TickSample, Batch, channel_count, batch_sample_count, sample_rate_hz}

-- `demo1_sample_read_fn`: the return code, the sample written, and the source after the call.
abbrev pub ReadTick : Type 0 → Type 0
ReadTick S = S → ℕ → ℤ × TickSample × S

pub record Engine (S : Type 0) : Type 0 where
  pub source : S
  pub current_batch : Batch
  pub ready_batch : Batch
  pub sample_index : ℕ
  pub next_sequence : ℕ
  pub batch_ready : Bool

-- `demo1_reset_batch`.
abbrev pub empty_batch : Batch
empty_batch = record {
  sequence = 0;
  start_timestamp_us = 0;
  sample_rate = sample_rate_hz;
  sample_count = batch_sample_count;
  analog_channel_count = channel_count;
  aggregate_valid_mask = 0;
  analog_samples = replicate batch_sample_count (replicate channel_count 0);
  digital_states = replicate batch_sample_count 0;
  latest_hall_pulse_delta = (0, 0);
  latest_hall_period_us = (0, 0);
  latest_oil_raw = (0, 0);
  latest_oil_status = (0, 0);
  latest_oil_age_ms = (0, 0);
}

-- `demo1_engine_init_with_source`. `given` says that no pointer is null.
unfoldable pub init_with_source : {S : Type 0} → Bool → S → Result (Engine S)
init_with_source false source = err 1
init_with_source true source = ok (record {
  source = source;
  current_batch = empty_batch;
  ready_batch = empty_batch;
  sample_index = 0;
  next_sequence = 0;
  batch_ready = false;
})

-- The loop over the channels, with the rounds left.
unfoldable pub copy_channels : ℕ → ℕ → List ℕ → List ℕ → List ℕ
copy_channels zero channel analog row = row
copy_channels (suc left) channel analog row =
    copy_channels left (channel + 1) analog (set row channel (get_or analog channel 0))

-- The batch that the sample with this index goes to: a new one for the first.
unfoldable pub opened : Batch → ℕ → ℕ → ℕ → ℕ → Batch
opened batch index count sequence timestamp_us =
    if index == 0
    then record empty_batch {
      sequence = sequence;
      start_timestamp_us = timestamp_us;
      analog_channel_count = count;
    }
    else batch

-- The sample at its index of the batch.
unfoldable pub put_sample : Batch → ℕ → TickSample → Batch
put_sample batch index s = record batch {
  aggregate_valid_mask = u16 (bit_or batch.aggregate_valid_mask s.valid_mask);
  digital_states = set batch.digital_states index s.digital_bits;
  analog_samples =
      set batch.analog_samples index
        (copy_channels s.analog_channel_count 0 s.analog (get_or batch.analog_samples index []));
  latest_hall_pulse_delta = s.hall_pulse_delta;
  latest_hall_period_us = s.hall_period_us;
  latest_oil_raw = s.oil_raw;
  latest_oil_status = s.oil_status;
  latest_oil_age_ms = s.oil_age_ms;
}

-- A tick with a sample that was read.
unfoldable pub accept : {S : Type 0} → Engine S → ℕ → TickSample → Bool × Engine S
accept engine timestamp_us s =
    let batch =
      put_sample
        (opened engine.current_batch engine.sample_index s.analog_channel_count engine.next_sequence
          timestamp_us)
        engine.sample_index s in
    let index = u8 (engine.sample_index + 1) in
    if ltb index batch_sample_count
    then (false, record engine { current_batch = batch; sample_index = index })
    else (
      true,
      record engine {
        current_batch = batch;
        ready_batch = batch;
        batch_ready = true;
        sample_index = 0;
        next_sequence = u32 (engine.next_sequence + 1);
      },
    )

-- `demo1_engine_tick`: whether a batch is ready, and the engine. `given` says that no pointer is
-- null.
unfoldable pub tick : {S : Type 0} → ReadTick S → Bool → Engine S → ℕ → Bool × Engine S
tick read false engine timestamp_us = (false, engine)
tick read true engine timestamp_us =
    let (code, s, source) = read engine.source timestamp_us in
    let moved = record engine { source = source } in
    if failed code
    then (false, moved)
    else if s.analog_channel_count == 0 || ltb channel_count s.analog_channel_count
    then (false, moved)
    else accept moved timestamp_us s

-- `demo1_engine_consume_batch`.
unfoldable pub consume_batch : {S : Type 0} → Bool → Engine S → Result Batch × Engine S
consume_batch false engine = (err 1, engine)
consume_batch true engine =
    if engine.batch_ready
    then (ok engine.ready_batch, record engine { batch_ready = false })
    else (err 2, engine)
