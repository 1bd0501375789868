-- ===== src/Tests/A53.antt =====
-- Tests of the offline demo.
use okmx8mm.Base.{ℕ, ◌+◌, ◌-◌, ◌==◌, ◌^◌, ◌<◌, ◌≤◌, ◌≡◌, ◌≢◌, refl, ap, arith, List, ◌++◌, codes}
use okmx8mm.Base.{true, false, none, some, length, pos, minus}
use okmx8mm.A53.{Batch, Disk, ensure_parent_directories, make_parents}
use okmx8mm.A53.Append.{Calls, held, append_line, line_of, append_batch, header_text}
use okmx8mm.A53.Check.{validate_cursor, recover_tail}
use okmx8mm.A53.Cursor.{base_name, after_last}
use okmx8mm.A53.Fits.{line_of-fits}
use okmx8mm.A53.Lines.{line_of-parts}
use okmx8mm.A53.Outputs.{OutputCalls}
use okmx8mm.A53.Pipeline.{PipelineConfig, CycleCalls, finished, run_cycles, started, pipeline_run}
use okmx8mm.A53.Pipeline.Order.{run_cycles-Lines}
use okmx8mm.A53.Pipeline.Outputs.{Consecutive, Reads, Lines}
use okmx8mm.A53.Pipeline.Replay.{
  OutputSucceeds, CycleSucceeds, IsReplay, replays, run_replay, pipeline_run-replay,
}
use okmx8mm.A53.Recovery.{append_batch-recovered}
use okmx8mm.A53.Source.{replay, replay_batch}
use okmx8mm.A53.Stored.{AllSucceed, append_batch-validated}
use okmx8mm.A53.Written.{IsStorage}

abbrev storage : List ℕ
storage = codes "data/s.jsonl"

abbrev good_calls : Calls
good_calls = record {
  mkdir = λ path. true;
  works = λ n. true;
  missing = 0;
  reach = 0;
  cursor_reach = 0;
}

good_calls-AllSucceed : AllSucceed good_calls
good_calls-AllSucceed = record { made = λ path. refl; done = λ n. refl; taken = refl }

-- `fwrite` takes all bytes but one, and five of them reach the file.
abbrev short_calls : Calls
short_calls = record good_calls { missing = 1; reach = 5 }

abbrev empty_disk : Disk
empty_disk path = none

ten_channels : (sequence : ℕ) → (replay_batch sequence).analog_channel_count ≤ 10
unfolding replay_batch
ten_channels sequence = omega arith

line_of-fits_example : (line : List ℕ) × (line_of (replay_batch 7) ≡ some line)
line_of-fits_example = line_of-fits (replay_batch 7) (ten_channels 7)

line_at : ℕ → List ℕ
line_at sequence = (line_of-fits (replay_batch sequence) (ten_channels sequence)).0

line_at-line_of : (sequence : ℕ) → line_of (replay_batch sequence) ≡ some (line_at sequence)
unfolding line_at
line_at-line_of sequence = (line_of-fits (replay_batch sequence) (ten_channels sequence)).1

storage-IsStorage : IsStorage storage
unfolding base_name after_last
storage-IsStorage = record {
  fits = omega arith;
  named = omega arith;
  short = omega arith;
  one_line = (refl, (refl, (refl, (refl, (refl, (refl, (refl, tt)))))));
  no_zero = (refl, (refl, (refl, (refl, (refl, (refl, (refl, tt)))))));
}

line_at_short :
    (sequence : ℕ) → length (held (empty_disk storage)) + length (line_at sequence) < 2 ^ 63
line_at_short sequence =
    let (rest, start, room) =
      line_of-parts (replay_batch sequence) (line_at sequence) (line_at-line_of sequence) in
    omega (arith, room)

abbrev stored_disk : Disk
stored_disk = (append_batch good_calls storage (replay_batch 7) empty_disk).1

append_batch-validated_example :
    ((append_batch good_calls storage (replay_batch 7) empty_disk).0 ≡ pos 0)
    × (stored_disk storage ≡ some (held (empty_disk storage) ++ line_at 7))
    × (validate_cursor good_calls.works storage stored_disk ≡ pos 0)
unfolding replay_batch
append_batch-validated_example =
    append_batch-validated good_calls.works good_calls storage (line_at 7) (replay_batch 7)
      empty_disk (λ n. refl) good_calls-AllSucceed storage-IsStorage (line_at-line_of 7)
      (omega arith) (line_at_short 7)

line_at_some : (sequence : ℕ) → 0 < length (line_at sequence)
unfolding header_text
line_at_some sequence =
    let (rest, start, room) =
      line_of-parts (replay_batch sequence) (line_at sequence) (line_at-line_of sequence) in
    rw start (omega arith)

short_fails : (append_line short_calls storage (line_of (replay_batch 8)) stored_disk).0 ≡ false
unfolding append_line ensure_parent_directories make_parents
short_fails =
    let differs : (length (line_at 8) - 1 == length (line_at 8)) ≡ false =
      ground (arith, line_at_some 8) in
    rw (line_at-line_of 8, differs) refl

stored :
    (stored_disk storage ≡ some (line_at 7))
    × (validate_cursor good_calls.works storage stored_disk ≡ pos 0)
unfolding replay_batch
stored =
    let (code, held_line, valid) =
      append_batch-validated good_calls.works good_calls storage (line_at 7) (replay_batch 7)
        empty_disk (λ n. refl) good_calls-AllSucceed storage-IsStorage (line_at-line_of 7)
        (omega arith) (line_at_short 7) in
    (held_line, valid)

append_batch-recovered_example :
    let torn = append_batch short_calls storage (replay_batch 8) stored_disk in
    (torn.0 ≡ minus 1)
    × ((recover_tail good_calls.works storage torn.1).0 ≡ pos 0)
    × ((recover_tail good_calls.works storage torn.1).1 storage ≡ some (line_at 7))
append_batch-recovered_example =
    append_batch-recovered good_calls.works short_calls storage (line_at 7) (replay_batch 8)
      stored_disk (λ n. refl) stored.0 stored.1 short_fails

abbrev good_output : OutputCalls
good_output = record { mkdir = λ path. true; opens = true; closes = true; reach = 0 }

abbrev good_cycle : ℕ → CycleCalls
good_cycle n = record {
  storage = good_calls;
  mqtt = good_output;
  can = good_output;
  heartbeat = good_output;
}

abbrev config : PipelineConfig
config = record {
  from_file = false;
  source_path = none;
  storage_path = some storage;
  mqtt_outbox_path = some (codes "data/mqtt.jsonl");
  can_trace_path = some (codes "data/trace");
  status_path = some (codes "status");
  heartbeat_path = none;
  mqtt_topic = some (codes "mine/truck");
  can_id = 0x321;
  cycles = 3;
}

good_output-OutputSucceeds : OutputSucceeds good_output
good_output-OutputSucceeds = record { made = λ path. refl; opened = refl; closed = refl }

good_cycle-CycleSucceeds : (n : ℕ) → CycleSucceeds (good_cycle n)
good_cycle-CycleSucceeds n = record {
  storage = good_calls-AllSucceed;
  mqtt = good_output-OutputSucceeds;
  can = good_output-OutputSucceeds;
  heartbeat = good_output-OutputSucceeds;
}

apart_by_length : (xs ys : List ℕ) → length xs ≢ length ys → xs ≢ ys
apart_by_length xs ys h e = h (ap length e)

config-IsReplay : IsReplay config storage
config-IsReplay = record {
  replayed = refl;
  stored = refl;
  outbox = refl;
  trace = refl;
  topic = refl;
  short = omega arith;
  outbox_short = omega arith;
  trace_short = omega arith;
  heartbeat_short = tt;
  outbox_apart = apart_by_length storage (codes "data/mqtt.jsonl") (omega arith);
  trace_apart = apart_by_length storage (codes "data/trace") (omega arith);
  heartbeat_apart = tt;
  status_short = omega arith;
  status_apart = apart_by_length storage (codes "status") (omega arith);
}

pipeline_run-replay_example :
    (text : List ℕ) × ((pipeline_run config good_cycle good_output true empty_disk).0 ≡ pos 0)
    × Lines (replays 3 0) text
    × (held ((pipeline_run config good_cycle good_output true empty_disk).1 storage)
        ≡ held (empty_disk storage) ++ text)
pipeline_run-replay_example =
    pipeline_run-replay config storage config-IsReplay good_cycle good_output true empty_disk
      good_cycle-CycleSucceeds good_output-OutputSucceeds

-- A run of two cycles from sequence number 40 on.
two_cycles :
    (processed : ℕ) × (last : ℕ) × ((run_cycles config storage 2 good_cycle
        (replay 40)
        started
        empty_disk).0
      ≡ finished processed last)
two_cycles =
    let (processed, last, text, done, lines, kept) =
      run_replay config storage config-IsReplay 2 40 good_cycle started empty_disk
        good_cycle-CycleSucceeds refl in
    (processed, last, done)

run_cycles-Lines_example :
    (batches : List Batch) × (text : List ℕ) × (length batches ≡ 2)
    × Reads (replay 40) batches
    × Consecutive none batches
    × Lines batches text
    × (held ((run_cycles config storage 2 good_cycle (replay 40) started empty_disk).1 storage)
        ≡ held (empty_disk storage) ++ text)
run_cycles-Lines_example =
    run_cycles-Lines config storage config-IsReplay.outbox_apart config-IsReplay.trace_apart
      config-IsReplay.heartbeat_apart 2 good_cycle (replay 40) started empty_disk two_cycles.0
      two_cycles.1 two_cycles.2
