-- ===== src/Demo1/Engine/Batches.antt =====
-- What a batch holds.
use Prim.Native.Nat.{bit_or}
use okmx8mm.Base.{ℕ, suc, ◌<◌, ◌≡◌, refl, sym, ap, ◌∙◌}
use okmx8mm.Base.{List, [], ◌∷◌, ◌++◌, map, length, get_or, set, replicate}
use okmx8mm.Base.{u16}
use okmx8mm.Base.{length-map, map-append}
use okmx8mm.Demo1.Engine.Rows.{IsTick, row_of, padded, set-padded, get_or-padded, copy_channels_lem}
use okmx8mm.Demo1.{TickSample, Batch}
use okmx8mm.Demo1.Engine.{copy_channels, opened, put_sample}

-- The masks of the samples, by `|=`.
abbrev pub masks : ℕ → List TickSample → ℕ
masks mask [] = mask
masks mask (s ∷ ss) = masks (u16 (bit_or mask s.valid_mask)) ss

abbrev pub last_of : TickSample → List TickSample → TickSample
last_of s [] = s
last_of s (t ∷ ts) = last_of t ts

-- The batch of up to ten samples, the first of them at `timestamp_us`: the description.
abbrev pub batch_of : ℕ → ℕ → TickSample → List TickSample → Batch
batch_of sequence timestamp_us s ss = record {
  sequence = sequence;
  start_timestamp_us = timestamp_us;
  sample_rate = 2000;
  sample_count = 10;
  analog_channel_count = s.analog_channel_count;
  aggregate_valid_mask = masks 0 (s ∷ ss);
  analog_samples = padded (map row_of (s ∷ ss)) (replicate 14 0);
  digital_states = padded (map (λ t. t.digital_bits) (s ∷ ss)) 0;
  latest_hall_pulse_delta = (last_of s ss).hall_pulse_delta;
  latest_hall_period_us = (last_of s ss).hall_period_us;
  latest_oil_raw = (last_of s ss).oil_raw;
  latest_oil_status = (last_of s ss).oil_status;
  latest_oil_age_ms = (last_of s ss).oil_age_ms;
}

masks-append :
    (mask : ℕ) (ss : List TickSample) (t : TickSample)
    → masks mask (ss ++ (t ∷ [])) ≡ u16 (bit_or (masks mask ss) t.valid_mask)
masks-append mask [] t = refl
masks-append mask (s ∷ ss) t = masks-append (u16 (bit_or mask s.valid_mask)) ss t

last_of-append :
    (s : TickSample) (ss : List TickSample) (t : TickSample) → last_of s (ss ++ (t ∷ [])) ≡ t
last_of-append s [] t = refl
last_of-append s (u ∷ ss) t = last_of-append u ss t

-- The first sample goes to a new batch.
pub put-opened :
    (batch : Batch) (sequence timestamp_us : ℕ) (s : TickSample)
    → IsTick s
    → put_sample (opened batch 0 s.analog_channel_count sequence timestamp_us) 0 s
      ≡ batch_of sequence timestamp_us s []
unfolding put_sample opened
put-opened batch sequence timestamp_us s good = λ i. record (batch_of sequence timestamp_us s []) {
  analog_samples = copy_channels_lem s good i ∷ replicate 9 (replicate 14 0);
}

-- A further sample goes behind those of the batch.
pub put-batch_of :
    (sequence timestamp_us index : ℕ) (s : TickSample) (ss : List TickSample) (t : TickSample)
    → IsTick t
    → index ≡ suc (length ss)
    → index < 10
    → put_sample (batch_of sequence timestamp_us s ss) index t
      ≡ batch_of sequence timestamp_us s (ss ++ (t ∷ []))
unfolding put_sample
put-batch_of sequence timestamp_us index s ss t good at_index below = λ i. record {
  sequence = sequence;
  start_timestamp_us = timestamp_us;
  sample_rate = 2000;
  sample_count = 10;
  analog_channel_count = s.analog_channel_count;
  aggregate_valid_mask = masks_e i;
  analog_samples = rows_e i;
  digital_states = digital_e i;
  latest_hall_pulse_delta = (last_e i).hall_pulse_delta;
  latest_hall_period_us = (last_e i).hall_period_us;
  latest_oil_raw = (last_e i).oil_raw;
  latest_oil_status = (last_e i).oil_status;
  latest_oil_age_ms = (last_e i).oil_age_ms;
}
  where
    digital : TickSample → ℕ
    digital u = u.digital_bits

    masks_e : u16 (bit_or (masks 0 (s ∷ ss)) t.valid_mask) ≡ masks 0 (s ∷ (ss ++ (t ∷ [])))
    masks_e = sym (masks-append 0 (s ∷ ss) t)

    last_e : t ≡ last_of s (ss ++ (t ∷ []))
    last_e = sym (last_of-append s ss t)

    digital_e :
        set (padded (map digital (s ∷ ss)) 0) index t.digital_bits
        ≡ padded (map digital (s ∷ (ss ++ (t ∷ [])))) 0
    digital_e =
        set-padded (map digital (s ∷ ss)) 0 t.digital_bits index
          (length-map digital (s ∷ ss) ∙ sym at_index) below
        ∙ ap (λ xs. padded xs 0) (sym (map-append digital (s ∷ ss) (t ∷ [])))

    rows : List (List ℕ)
    rows = map row_of (s ∷ ss)

    rows_length : length rows ≡ index
    rows_length = length-map row_of (s ∷ ss) ∙ sym at_index

    row_e :
        copy_channels t.analog_channel_count 0 t.analog
          (get_or (padded rows (replicate 14 0)) index [])
        ≡ row_of t
    row_e =
        ap (copy_channels t.analog_channel_count 0 t.analog)
          (get_or-padded rows (replicate 14 0) [] index rows_length below)
        ∙ copy_channels_lem t good

    rows_e :
        set (padded rows (replicate 14 0)) index (
          copy_channels t.analog_channel_count 0 t.analog
            (get_or (padded rows (replicate 14 0)) index []))
        ≡ padded (map row_of (s ∷ (ss ++ (t ∷ [])))) (replicate 14 0)
    rows_e =
        ap (set (padded rows (replicate 14 0)) index) row_e
        ∙ set-padded rows (replicate 14 0) (row_of t) index rows_length below
        ∙ ap (λ xs. padded xs (replicate 14 0)) (sym (map-append row_of (s ∷ ss) (t ∷ [])))
