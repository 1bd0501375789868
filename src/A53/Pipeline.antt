-- ===== src/A53/Pipeline.antt =====
-- The run of the demo: OKMX8MM-Demo2/a53/src/pipeline.c. Batches are read, their sequence numbers
-- are compared, and they are stored and put out.
pub mod Outputs
pub mod Order
pub mod Replay
use okmx8mm.Base.{ℕ, zero, suc, ◌+◌, List, [], ◌∷◌, ◌++◌, Bool, true, false, not, ◌&&◌, ◌||◌}
use okmx8mm.Base.{
  Option, none, some, take, ◌==◌, if◌then◌else◌, u32, codes, decimal, ℤ, pos, minus, failed,
}
use okmx8mm.A53.{Batch, Disk, put, ensure_parent_directories}
use okmx8mm.A53.Append.{Calls, append_batch}
use okmx8mm.A53.Outputs.{OutputCalls, mqtt_outbox_append, can_trace_append, heartbeat_append}
use okmx8mm.A53.Source.{Source, source_read, file_open, replay_open}

-- `a53_pipeline_config_t`; `none` is a null pointer.
pub record PipelineConfig : Type 0 where
  pub from_file : Bool
  pub source_path : Option (List ℕ)
  pub storage_path : Option (List ℕ)
  pub mqtt_outbox_path : Option (List ℕ)
  pub can_trace_path : Option (List ℕ)
  pub status_path : Option (List ℕ)
  pub heartbeat_path : Option (List ℕ)
  pub mqtt_topic : Option (List ℕ)
  pub can_id : ℕ
  pub cycles : ℕ

-- How the calls of one cycle turn out.
pub record CycleCalls : Type 0 where
  pub storage : Calls
  pub mqtt : OutputCalls
  pub can : OutputCalls
  pub heartbeat : OutputCalls

-- What is written to the status file.
pub data Outcome : Type 0 where
  finished : (processed last_sequence : ℕ) → Outcome
  stopped :
      (processed last_sequence : ℕ) (error : List ℕ) (expected_sequence actual_sequence : ℕ)
      → Outcome

-- The variables of the loop.
pub record Progress : Type 0 where
  pub expected : Option ℕ
  pub processed : ℕ
  pub last_sequence : ℕ

abbrev pub expected_or_zero : Progress → ℕ
expected_or_zero progress = elim progress.expected [ none ↦ 0 | some n ↦ n ]

abbrev pub is_gap : Option ℕ → ℕ → Bool
is_gap none sequence = false
is_gap (some expected) sequence = not (sequence == expected)

-- The four outputs of a cycle, up to the first that fails: whether none did.
unfoldable pub write_outputs : CycleCalls → PipelineConfig → List ℕ → Batch → ℕ → Disk → Bool × Disk
write_outputs calls config storage_path batch processed disk =
    let (stored, disk1) = append_batch calls.storage storage_path batch disk in
    let (sent, disk2) =
      mqtt_outbox_append calls.mqtt config.mqtt_outbox_path config.mqtt_topic batch disk1 in
    let (traced, disk3) =
      can_trace_append calls.can config.can_trace_path config.can_id batch disk2 in
    let (beaten, disk4) =
      heartbeat_append calls.heartbeat config.heartbeat_path batch processed disk3 in
    if failed stored
    then (false, disk1)
    else if failed sent
    then (false, disk2)
    else if failed traced
    then (false, disk3)
    else (not (failed beaten), disk4)

abbrev pub stop : Progress → List ℕ → ℕ → Outcome
stop progress error actual =
    stopped progress.processed progress.last_sequence error (expected_or_zero progress) actual

-- The variables after the comparison of the sequence number, and after the outputs.
abbrev pub expecting : Progress → Batch → Progress
expecting progress batch = record progress { expected = some (u32 (batch.sequence + 1)) }

abbrev pub counted : Progress → Batch → Progress
counted progress batch = record {
  expected = some (u32 (batch.sequence + 1));
  processed = u32 (progress.processed + 1);
  last_sequence = batch.sequence;
}

-- The loop, with the cycles left. Each cycle has calls of its own.
unfoldable pub run_cycles :
    PipelineConfig → List ℕ → ℕ → (ℕ → CycleCalls) → Source → Progress → Disk → Outcome × Disk
run_cycles config storage_path zero calls source progress disk =
    (finished progress.processed progress.last_sequence, disk)
run_cycles config storage_path (suc left) calls source progress disk =
    let (read, rest) = source_read source in
    elim read [
      | none ↦ (stop progress (codes "source_read") 0, disk)
      | some batch ↦
          let (written, after) =
            write_outputs (calls left) config storage_path batch (u32 (progress.processed + 1))
              disk in
          let further =
            run_cycles config storage_path left calls rest (counted progress batch) after in
          if is_gap progress.expected batch.sequence
          then (stop progress (codes "sequence_gap") batch.sequence, disk)
          else if written
          then further
          else (stop (expecting progress batch) (codes "output_write") batch.sequence, after)
    ]

-- The text of the status file.
unfoldable pub status_text : Outcome → List ℕ
status_text (finished processed last_sequence) =
    codes "{\"ok\":true,\"processed_batches\":"
    ++ (decimal 10 processed
        ++ (codes ",\"last_sequence\":" ++ (decimal 10 last_sequence ++ codes "}\n")))
status_text (stopped processed last_sequence error expected actual) =
    codes "{\"ok\":false,\"processed_batches\":"
    ++ (decimal 10 processed
        ++ (codes ",\"last_sequence\":"
            ++ (decimal 10 last_sequence
                ++ (codes ",\"error\":\""
                    ++ (error
                        ++ (codes "\",\"expected_sequence\":"
                            ++ (decimal 10 expected
                                ++ (codes ",\"actual_sequence\":"
                                    ++ (decimal 10 actual ++ codes "}\n")))))))))

-- `write_status`.
unfoldable pub write_status : OutputCalls → Option (List ℕ) → Outcome → Disk → ℤ × Disk
write_status calls none outcome disk = (pos 0, disk)
write_status calls (some path) outcome disk =
    if not (ensure_parent_directories calls.mkdir path && calls.opens)
    then (minus 1, disk)
    else if calls.closes
    then (pos 0, put disk path (status_text outcome))
    else (minus 1, put disk path (take calls.reach (status_text outcome)))

-- The result of `a53_pipeline_run` for an outcome of the loop.
unfoldable pub report : OutputCalls → Option (List ℕ) → Outcome × Disk → ℤ × Disk
report calls path (finished processed last, disk) =
    write_status calls path (finished processed last) disk
report calls path (stopped processed last error expected actual, disk) =
    (minus 1, (write_status calls path (stopped processed last error expected actual) disk).1)

abbrev pub is_null : Option (List ℕ) → Bool
is_null none = true
is_null (some path) = false

-- The source that the configuration asks for. `opens` says whether `fopen` succeeds.
unfoldable pub open_source : PipelineConfig → Bool → Disk → Option Source
open_source config opens disk =
    if not config.from_file then some replay_open else elim config.source_path [
      | none ↦ none
      | some path ↦ if opens then file_open (disk path) else none
    ]

abbrev pub started : Progress
started = record { expected = none; processed = 0; last_sequence = 0 }

-- The run over an opened source.
unfoldable pub run_source :
    PipelineConfig → List ℕ → (ℕ → CycleCalls) → Option Source → Disk → Outcome × Disk
run_source config storage_path calls none disk = (stopped 0 0 (codes "source_open") 0 0, disk)
run_source config storage_path calls (some source) disk =
    run_cycles config storage_path config.cycles calls source started disk

-- `a53_pipeline_run` for a configuration that is not null.
unfoldable pub pipeline_run :
    PipelineConfig → (ℕ → CycleCalls) → OutputCalls → Bool → Disk → ℤ × Disk
pipeline_run config calls status_calls opens disk = elim config.storage_path [
  | none ↦ (minus 1, disk)
  | some storage_path ↦
      if is_null config.mqtt_outbox_path
        || is_null config.can_trace_path
        || is_null config.mqtt_topic
      then (minus 1, disk)
      else report status_calls config.status_path
          (run_source config storage_path calls (open_source config opens disk) disk)
]
