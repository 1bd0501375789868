-- ===== src/A53/Source.antt =====
-- The sources of batches: m4_replay_source.c and m4_file_source.c in OKMX8MM-Demo2/a53/src/. Pointers
-- are not null here.
use okmx8mm.Base.{ℕ, zero, suc, ◌+◌, ◌-◌, ◌*◌, ◌%◌, ◌^◌, List, [], ◌∷◌, tabulate, get_or}
use okmx8mm.Base.{Bool, true, false, ◌||◌, Option, none, some, ltb, ◌==◌, if◌then◌else◌, replicate}
use okmx8mm.Base.{ℤ, pos, negsuc, u16, u32}
use okmx8mm.Config.{strtol}
use okmx8mm.Config.Reading.{fgets_lines}
use okmx8mm.A53.{Batch}

-- `a53_m4_source_t`: the replay with its next sequence number, or an open file with the lines that
-- `fgets` still delivers.
pub data Source : Type 0 where
  replay : ℕ → Source
  csv : List (List ℕ) → Source

-- `a53_m4_replay_open`.
unfoldable pub replay_open : Source
replay_open = replay 0

-- `a53_m4_file_open`, over the contents of the file if it can be opened; `none` is also a null path.
-- The buffer for a line has 256 bytes.
unfoldable pub file_open : Option (List ℕ) → Option Source
file_open none = none
file_open (some contents) = some (csv (fgets_lines 254 contents))

-- An `int16_t` from its bit pattern.
unfoldable pub to_int16 : ℕ → ℤ
to_int16 pattern = if ltb pattern 0x8000 then pos pattern else negsuc (0xFFFF - pattern)

-- The sample of the replay. The sum does not leave `int` for sequence numbers below 20,000,000.
unfoldable pub replay_sample : ℕ → ℕ → ℕ → ℤ
unfolding to_int16
replay_sample sequence sample channel =
    to_int16 (u16 (1000 + sequence * 100 + sample * 10 + channel))

-- The batch that `a53_m4_source_read` makes up.
unfoldable pub replay_batch : ℕ → Batch
unfolding replay_sample
replay_batch sequence = record {
  sequence = sequence;
  start_timestamp_us = sequence * 5000;
  sample_rate_hz = 2000;
  sample_count = 10;
  analog_channel_count = 10;
  aggregate_valid_mask = 0x03FF;
  analog_samples =
      tabulate 10 (λ sample. tabulate 10 (λ channel. replay_sample sequence sample channel));
  digital_states = tabulate 10 (λ sample. if sample % 2 == 0 then 1 else 0);
  speed_pulse_delta = u16 (11 + sequence);
  speed_period_us = 50000;
}

abbrev pub is_delimiter : ℕ → Bool
is_delimiter c = c == 44 || (c == 13 || c == 10)

abbrev pub cons_token : ℕ → List (List ℕ) → List (List ℕ)
cons_token c [] = (c ∷ []) ∷ []
cons_token c (token ∷ rest) = (c ∷ token) ∷ rest

-- The tokens that `strtok` gives one after the other: what stands between delimiters, where it is
-- not empty. `inside` says whether the byte in front belongs to the first token.
unfoldable pub tokens : List ℕ → Bool × List (List ℕ)
tokens [] = (false, [])
tokens (c ∷ cs) =
    let (joins, rest) = tokens cs in
    if is_delimiter c
    then (false, rest)
    else (true, if joins then cons_token c rest else (c ∷ []) ∷ rest)

-- `strtol` to base 10: the sign and the value, held at the ends of `long`.
unfoldable pub long_of : List ℕ → Bool × ℕ
long_of token =
    let ((negative, value), rest, converted) = strtol token in
    let limit = if negative then 2 ^ 63 else 2 ^ 63 - 1 in
    (negative, if ltb limit value then limit else value)

-- The cast of a `long` to an unsigned type with so many values.
unfoldable pub cast : ℕ → Bool × ℕ → ℕ
cast modulus (negative, value) =
    if negative then (modulus - value % modulus) % modulus else value % modulus

-- The fourteen values, or nothing if a token is missing.
unfoldable pub read_values : ℕ → List (List ℕ) → Option (List (Bool × ℕ))
read_values zero rest = some []
read_values (suc left) [] = none
read_values (suc left) (token ∷ rest) = elim (read_values left rest) [
  | none ↦ none
  | some values ↦ some (long_of token ∷ values)
]

abbrev pub value_at : List (Bool × ℕ) → ℕ → Bool × ℕ
value_at values index = get_or values index (false, 0)

-- The batch of the fourteen values.
unfoldable pub file_batch : List (Bool × ℕ) → Batch
unfolding to_int16 cast
file_batch values = record {
  sequence = cast (2 ^ 32) (value_at values 0);
  start_timestamp_us = cast (2 ^ 32) (value_at values 0) * 5000;
  sample_rate_hz = 2000;
  sample_count = 10;
  analog_channel_count = 10;
  aggregate_valid_mask = 0x03FF;
  analog_samples =
      replicate 10
        (tabulate 10 (λ channel. to_int16 (cast (2 ^ 16) (value_at values (channel + 1)))));
  digital_states = replicate 10 (cast (2 ^ 8) (value_at values 11));
  speed_pulse_delta = cast (2 ^ 16) (value_at values 12);
  speed_period_us = cast (2 ^ 32) (value_at values 13);
}

-- `a53_m4_file_read_next`, over the lines that are left.
unfoldable pub file_read_next : List (List ℕ) → Option Batch × List (List ℕ)
file_read_next [] = (none, [])
file_read_next (line ∷ lines) = elim (read_values 14 (tokens line).1) [
  | none ↦ (none, lines)
  | some values ↦ (some (file_batch values), lines)
]

-- `a53_m4_source_read`.
unfoldable pub source_read : Source → Option Batch × Source
source_read (replay sequence) = (some (replay_batch sequence), replay (u32 (sequence + 1)))
source_read (csv lines) = let (batch, rest) = file_read_next lines in (batch, csv rest)
