-- ===== src/A53/Pipeline/Order.antt =====
-- What a run that finishes has stored.
use okmx8mm.Base.{ℕ, zero, suc, ◌+◌, ◌≡◌, refl, sym, ap, ◌∙◌, arith, List, [], ◌∷◌, ◌++◌}
use okmx8mm.Base.{true, Bool-cases, some, Option-cases, inl, inr}
use okmx8mm.Base.{length, u32, failed, append-nil, append_assoc}
use okmx8mm.A53.{Batch, Disk}
use okmx8mm.A53.Append.{held, line_of, append_batch}
use okmx8mm.A53.Cursor.{}
use okmx8mm.A53.Outputs.{mqtt_outbox_append, can_trace_append}
use okmx8mm.A53.Pipeline.{
  PipelineConfig, CycleCalls, finished, Progress, is_gap, counted, write_outputs,
}
use okmx8mm.A53.Pipeline.{run_cycles}
use okmx8mm.A53.Source.{Source, source_read}
use okmx8mm.A53.Pipeline.Outputs.{
  Lines, Reads, Consecutive, Apart, mqtt-others, can-others, heartbeat-others, append_batch-stored,
  run_cycles-step,
}

module _ (config : PipelineConfig) (path : List ℕ) (apart_mqtt : Apart config.mqtt_outbox_path path)
    (apart_can : Apart config.can_trace_path path)
    (apart_heartbeat : Apart config.heartbeat_path path) where
  -- A cycle whose outputs all succeed adds the line of its batch to the storage.
  pub write_outputs-stored :
      (calls : CycleCalls) (batch : Batch) (processed : ℕ) (disk : Disk)
      → (write_outputs calls config path batch processed disk).0 ≡ true
      → (text : List ℕ) × (line_of batch ≡ some text)
        × ((write_outputs calls config path batch processed disk).1 path
            ≡ some (held (disk path) ++ text))
  unfolding write_outputs
  write_outputs-stored calls batch processed disk all_written =
      let stored = append_batch calls.storage path batch disk in
      let sent =
        mqtt_outbox_append calls.mqtt config.mqtt_outbox_path config.mqtt_topic batch stored.1 in
      let traced = can_trace_append calls.can config.can_trace_path config.can_id batch sent.1 in
      elim (Bool-cases (failed stored.0)) [
        | inl bad ↦ absurd (ground (arith, bad, all_written))
        | inr good ↦ elim (Bool-cases (failed sent.0)) [
          | inl bad ↦ absurd (ground (arith, good, bad, all_written))
          | inr out ↦ elim (Bool-cases (failed traced.0)) [
            | inl bad ↦ absurd (ground (arith, good, out, bad, all_written))
            | inr seen ↦
                let (text, fits, line) = append_batch-stored calls.storage path batch disk good in
                (
                  text,
                  fits,
                  rw (good, out, seen)
                      (heartbeat-others calls.heartbeat config.heartbeat_path batch processed path
                          traced.1 apart_heartbeat
                        ∙ can-others calls.can config.can_trace_path config.can_id batch path sent.1
                            apart_can
                        ∙ mqtt-others calls.mqtt config.mqtt_outbox_path config.mqtt_topic batch
                            path stored.1 apart_mqtt
                        ∙ line),
                )
          ]
        ]
      ]

  -- A run of cycles that finishes, with outputs apart from the storage: the source gives as many
  -- batches as there were cycles, with consecutive sequence numbers, and the storage holds the lines
  -- of just these batches, in order, after what it held.
  pub run_cycles-Lines :
      (cycles : ℕ) (calls : ℕ → CycleCalls) (source : Source) (progress : Progress) (disk : Disk)
      (processed last : ℕ)
      → (run_cycles config path cycles calls source progress disk).0 ≡ finished processed last
      → (batches : List Batch) × (text : List ℕ) × (length batches ≡ cycles)
        × Reads source batches
        × Consecutive progress.expected batches
        × Lines batches text
        × (held ((run_cycles config path cycles calls source progress disk).1 path)
            ≡ held (disk path) ++ text)
  unfolding run_cycles
  run_cycles-Lines zero calls source progress disk processed last done =
      ([], [], refl, tt, tt, refl, sym (append-nil (held (disk path))))
  run_cycles-Lines (suc left) calls source progress disk processed last done =
      elim (Option-cases (source_read source).0) [
        | inr ended ↦ absurd (ground (arith, ended, done))
        | inl (batch, read) ↦
            let number = u32 (progress.processed + 1) in
            let cycle = write_outputs (calls left) config path batch number disk in
            elim (Bool-cases (is_gap progress.expected batch.sequence)) [
              | inl gap ↦ absurd (ground (arith, read, gap, done))
              | inr next ↦ elim (Bool-cases cycle.0) [
                | inr lost ↦ absurd (ground (arith, read, next, lost, done))
                | inl written ↦
                    let (line, fits, stored) =
                      write_outputs-stored (calls left) batch number disk written in
                    let step =
                      run_cycles-step config path left calls source progress disk batch read next
                        written in
                    let (batches, text, count, given, order, lines, kept) =
                      run_cycles-Lines left calls (source_read source).1 (counted progress batch)
                        cycle.1 processed last (sym (ap (λ r. r.0) step) ∙ done) in
                    (
                      batch ∷ batches,
                      line ++ text,
                      ap suc count,
                      (read, given),
                      (next, order),
                      (line, text, fits, refl, lines),
                      ap (λ r. held (r.1 path)) step
                          ∙ kept
                          ∙ ap (λ o. held o ++ text) stored
                          ∙ append_assoc (held (disk path)) line text,
                    )
              ]
            ]
      ]
