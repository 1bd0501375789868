-- ===== src/A53/Pipeline/Replay.antt =====
-- A run over the replay, where no call fails.
use okmx8mm.Base.{ℕ, zero, suc, ◌+◌, ◌≡◌, ◌<◌, ◌≤◌, refl, sym, ap, ◌∙◌, arith, List, [], ◌∷◌, ◌++◌}
use okmx8mm.Base.{Bool, true, false, Option, none, some, length}
use okmx8mm.Base.{u32, pos, append-nil, append_assoc}
use okmx8mm.A53.{Batch, Disk}
use okmx8mm.A53.Append.{held, append_batch}
use okmx8mm.A53.Fits.{line_of-fits}
use okmx8mm.A53.Outputs.{OutputCalls, append_output, mqtt_outbox_append, can_trace_append}
use okmx8mm.A53.Outputs.{heartbeat_append}
use okmx8mm.A53.Pipeline.{
  PipelineConfig, CycleCalls, Outcome, finished, stopped, Progress, is_gap, counted, write_outputs,
}
use okmx8mm.A53.Pipeline.{
  run_cycles, write_status, report, open_source, run_source, started, pipeline_run, is_null,
}
use okmx8mm.A53.Paths.{put_ne}
use okmx8mm.A53.Pipeline.{status_text}
use okmx8mm.A53.Pipeline.Order.{write_outputs-stored}
use okmx8mm.A53.Pipeline.Outputs.{Apart, Lines, run_cycles-step}
use okmx8mm.A53.Source.{replay, replay_batch, replay_open, source_read}
use okmx8mm.A53.Stored.{AllSucceed, append_batch-whole}
use okmx8mm.A53.Written.{parents_made}

-- The batches of the replay from a sequence number on.
abbrev pub replays : ℕ → ℕ → List Batch
replays zero sequence = []
replays (suc left) sequence = replay_batch sequence ∷ replays left (u32 (sequence + 1))

pub record OutputSucceeds (calls : OutputCalls) : Type 0 where
  pub made : (path : List ℕ) → calls.mkdir path ≡ true
  pub opened : calls.opens ≡ true
  pub closed : calls.closes ≡ true

pub record CycleSucceeds (calls : CycleCalls) : Type 0 where
  pub storage : AllSucceed calls.storage
  pub mqtt : OutputSucceeds calls.mqtt
  pub can : OutputSucceeds calls.can
  pub heartbeat : OutputSucceeds calls.heartbeat

append_output-whole :
    (calls : OutputCalls) (path text : List ℕ) (disk : Disk)
    → OutputSucceeds calls
    → length path < 512
    → (append_output calls path text disk).0 ≡ pos 0
unfolding append_output
append_output-whole calls path text disk ok short =
    rw (parents_made calls.mkdir path ok.made short, ok.opened, ok.closed) refl

-- A path that can be opened, if there is one.
abbrev pub IsShort : Option (List ℕ) → Type 0
IsShort none = Unit
IsShort (some path) = length path < 512

mqtt-whole :
    (calls : OutputCalls) (path topic : Option (List ℕ)) (batch : Batch) (disk : Disk)
    → OutputSucceeds calls
    → IsShort path
    → is_null path ≡ false
    → is_null topic ≡ false
    → (mqtt_outbox_append calls path topic batch disk).0 ≡ pos 0
unfolding mqtt_outbox_append
mqtt-whole calls none topic batch disk ok short given named = absurd (ground (arith, given))
mqtt-whole calls (some path) none batch disk ok short given named = absurd (ground (arith, named))
mqtt-whole calls (some path) (some topic) batch disk ok short given named =
    append_output-whole calls path _ disk ok short

can-whole :
    (calls : OutputCalls) (path : Option (List ℕ)) (id : ℕ) (batch : Batch) (disk : Disk)
    → OutputSucceeds calls
    → IsShort path
    → is_null path ≡ false
    → (can_trace_append calls path id batch disk).0 ≡ pos 0
unfolding can_trace_append
can-whole calls none id batch disk ok short given = absurd (ground (arith, given))
can-whole calls (some path) id batch disk ok short given =
    append_output-whole calls path _ disk ok short

heartbeat-whole :
    (calls : OutputCalls) (path : Option (List ℕ)) (batch : Batch) (n : ℕ) (disk : Disk)
    → OutputSucceeds calls
    → IsShort path
    → (heartbeat_append calls path batch n disk).0 ≡ pos 0
unfolding heartbeat_append
heartbeat-whole calls none batch n disk ok short = refl
heartbeat-whole calls (some path) batch n disk ok short =
    append_output-whole calls path _ disk ok short

write_status-whole :
    (calls : OutputCalls) (path : Option (List ℕ)) (outcome : Outcome) (other : List ℕ)
    (disk : Disk)
    → OutputSucceeds calls
    → IsShort path
    → Apart path other
    → ((write_status calls path outcome disk).0 ≡ pos 0)
      × ((write_status calls path outcome disk).1 other ≡ disk other)
unfolding write_status
write_status-whole calls none outcome other disk ok short apart = (refl, refl)
write_status-whole calls (some path) outcome other disk ok short apart =
    rw (parents_made calls.mkdir path ok.made short, ok.opened, ok.closed)
      (refl, put_ne disk path (status_text outcome) other apart)

-- A configuration for the replay whose paths are given, can be opened and are apart.
pub record IsReplay (config : PipelineConfig) (path : List ℕ) : Type 0 where
  pub replayed : config.from_file ≡ false
  pub stored : config.storage_path ≡ some path
  pub outbox : is_null config.mqtt_outbox_path ≡ false
  pub trace : is_null config.can_trace_path ≡ false
  pub topic : is_null config.mqtt_topic ≡ false
  pub short : length path + 7 < 512
  pub outbox_short : IsShort config.mqtt_outbox_path
  pub trace_short : IsShort config.can_trace_path
  pub heartbeat_short : IsShort config.heartbeat_path
  pub outbox_apart : Apart config.mqtt_outbox_path path
  pub trace_apart : Apart config.can_trace_path path
  pub heartbeat_apart : Apart config.heartbeat_path path
  pub status_short : IsShort config.status_path
  pub status_apart : Apart config.status_path path

module _ (config : PipelineConfig) (path : List ℕ) (h : IsReplay config path) where
  write_outputs-whole :
      (calls : CycleCalls) (batch : Batch) (n : ℕ) (disk : Disk)
      → CycleSucceeds calls
      → batch.analog_channel_count ≤ 10
      → (write_outputs calls config path batch n disk).0 ≡ true
  unfolding write_outputs
  write_outputs-whole calls batch n disk ok channels =
      let (line, fits) = line_of-fits batch channels in
      let stored = append_batch calls.storage path batch disk in
      let sent =
        mqtt_outbox_append calls.mqtt config.mqtt_outbox_path config.mqtt_topic batch stored.1 in
      let traced = can_trace_append calls.can config.can_trace_path config.can_id batch sent.1 in
      let good : stored.0 ≡ pos 0 =
        ap (λ r. r.0)
          (append_batch-whole calls.storage path line batch disk ok.storage h.short fits) in
      let out =
        mqtt-whole calls.mqtt config.mqtt_outbox_path config.mqtt_topic batch stored.1 ok.mqtt
          h.outbox_short h.outbox h.topic in
      let seen =
        can-whole calls.can config.can_trace_path config.can_id batch sent.1 ok.can h.trace_short
          h.trace in
      let beaten =
        heartbeat-whole calls.heartbeat config.heartbeat_path batch n traced.1 ok.heartbeat
          h.heartbeat_short in
      rw (good, out, seen, beaten) refl

  pub run_replay :
      (cycles sequence : ℕ) (calls : ℕ → CycleCalls) (progress : Progress) (disk : Disk)
      → ((n : ℕ) → CycleSucceeds (calls n))
      → is_gap progress.expected sequence ≡ false
      → (processed : ℕ) × (last : ℕ) × (text : List ℕ) × ((run_cycles config path cycles calls
            (replay sequence)
            progress
            disk).0
          ≡ finished processed last)
        × Lines (replays cycles sequence) text
        × (held ((run_cycles config path cycles calls (replay sequence) progress disk).1 path)
            ≡ held (disk path) ++ text)
  unfolding run_cycles replay_batch source_read
  run_replay zero sequence calls progress disk ok next = (
    progress.processed,
    progress.last_sequence,
    [],
    refl,
    refl,
    sym (append-nil (held (disk path))),
  )
  run_replay (suc left) sequence calls progress disk ok next =
      let batch = replay_batch sequence in
      let n = u32 (progress.processed + 1) in
      let written = write_outputs-whole (calls left) batch n disk (ok left) (omega arith) in
      let cycle = write_outputs (calls left) config path batch n disk in
      let step =
        run_cycles-step config path left calls (replay sequence) progress disk batch refl next
          written in
      let (line, fits, stored) =
        write_outputs-stored config path h.outbox_apart h.trace_apart h.heartbeat_apart (calls left)
          batch n disk written in
      let (processed, last, text, done, lines, kept) =
        run_replay left (u32 (sequence + 1)) calls (counted progress batch) cycle.1 ok
          (ground arith) in
      (
        processed,
        last,
        line ++ text,
        ap (λ r. r.0) step ∙ done,
        (line, text, fits, refl, lines),
        ap (λ r. held (r.1 path)) step
            ∙ kept
            ∙ ap (λ o. held o ++ text) stored
            ∙ append_assoc (held (disk path)) line text,
      )

  report-whole :
      (calls : OutputCalls) (run : Outcome × Disk) (processed last : ℕ)
      → OutputSucceeds calls
      → run.0 ≡ finished processed last
      → ((report calls config.status_path run).0 ≡ pos 0)
        × ((report calls config.status_path run).1 path ≡ run.1 path)
  unfolding report
  report-whole calls (finished n m, disk) processed last ok done =
      write_status-whole calls config.status_path (finished n m) path disk ok h.status_short
        h.status_apart
  report-whole calls (stopped n m error expected actual, disk) processed last ok done =
      absurd (ground (arith, done))

  open_source-replay :
      (opens : Bool) (disk : Disk) → open_source config opens disk ≡ some (replay 0)
  unfolding open_source replay_open
  open_source-replay opens disk = rw h.replayed refl

  pipeline_run-report :
      (calls : ℕ → CycleCalls) (status_calls : OutputCalls) (opens : Bool) (disk : Disk)
      → pipeline_run config calls status_calls opens disk
        ≡ report status_calls config.status_path
            (run_cycles config path config.cycles calls (replay 0) started disk)
  unfolding pipeline_run run_source run_cycles write_outputs
  pipeline_run-report calls status_calls opens disk =
      rw (h.stored, pipeline_run, h.outbox, h.trace, h.topic, open_source-replay opens disk) refl

  -- If the configuration asks for the replay, its paths can be opened and are apart from the
  -- storage, and no call of the C library fails, the run returns 0, and the storage holds the lines
  -- of the replay's batches from sequence number 0 on, as many as there are cycles and in order,
  -- after what it held.
  pub pipeline_run-replay :
      (calls : ℕ → CycleCalls) (status_calls : OutputCalls) (opens : Bool) (disk : Disk)
      → ((n : ℕ) → CycleSucceeds (calls n))
      → OutputSucceeds status_calls
      → (text : List ℕ) × ((pipeline_run config calls status_calls opens disk).0 ≡ pos 0)
        × Lines (replays config.cycles 0) text
        × (held ((pipeline_run config calls status_calls opens disk).1 path)
            ≡ held (disk path) ++ text)
  pipeline_run-replay calls status_calls opens disk ok status_ok =
      let (processed, last, text, done, lines, kept) =
        run_replay config.cycles 0 calls started disk ok refl in
      let (code, same) =
        report-whole status_calls
          (run_cycles config path config.cycles calls (replay 0) started disk) processed last
          status_ok done in
      let run = pipeline_run-report calls status_calls opens disk in
      (text, ap (λ r. r.0) run ∙ code, lines, ap (λ r. held (r.1 path)) run ∙ ap held same ∙ kept)
