-- ===== src/A53/Pipeline/Outputs.antt =====
-- What the outputs of a cycle do to the storage.
use okmx8mm.Base.{ℕ, suc, ◌+◌, ◌≡◌, ◌≢◌, refl, sym, ap, ◌∙◌, arith, List, [], ◌∷◌, ◌++◌}
use okmx8mm.Base.{Bool, true, false, not, ◌&&◌, Bool-cases, Option, none, some, inl, inr}
use okmx8mm.Base.{length, take, leb, u32, failed}
use okmx8mm.A53.{Batch, Disk, ensure_parent_directories}
use okmx8mm.A53.Append.{Calls, held, append_line, line_of, cursor_of, append_batch}
use okmx8mm.A53.Cursor.{
  cursor_path_of, cursor_text, build_cursor_path, write_storage_cursor, Cursor,
}
use okmx8mm.A53.Outputs.{
  OutputCalls, append_output, outbox_text, mqtt_outbox_append, trace_text, can_trace_append,
}
use okmx8mm.A53.Outputs.{heartbeat_text, heartbeat_append}
use okmx8mm.A53.Outcomes.{append_line-Appended}
use okmx8mm.A53.Paths.{put_self, put_ne, cursor_path-ne}
use okmx8mm.A53.Pipeline.{PipelineConfig, CycleCalls, Progress, is_gap, counted, write_outputs}
use okmx8mm.A53.Pipeline.{run_cycles}
use okmx8mm.A53.Source.{Source, source_read}

-- The text is the lines of the batches, one after the other.
abbrev pub Lines : List Batch → List ℕ → Type 0
Lines [] text = text ≡ []
Lines (batch ∷ rest) text =
    (line : List ℕ) × (more : List ℕ) × (line_of batch ≡ some line)
    × (text ≡ line ++ more)
    × Lines rest more

-- The source gives these batches, one after the other.
abbrev pub Reads : Source → List Batch → Type 0
Reads source [] = Unit
Reads source (batch ∷ rest) =
    ((source_read source).0 ≡ some batch) × Reads (source_read source).1 rest

-- Each sequence number is one more than the one in front of it, modulo 2 ^ 32.
abbrev pub Consecutive : Option ℕ → List Batch → Type 0
Consecutive expected [] = Unit
Consecutive expected (batch ∷ rest) =
    (is_gap expected batch.sequence ≡ false) × Consecutive (some (u32 (batch.sequence + 1))) rest

-- Other outputs than the storage leave it alone.
append_output-others :
    (calls : OutputCalls) (path text other : List ℕ) (disk : Disk)
    → other ≢ path
    → (append_output calls path text disk).1 other ≡ disk other
unfolding append_output
append_output-others calls path text other disk ne =
    elim (Bool-cases (not (ensure_parent_directories calls.mkdir path && calls.opens))) [
      | inl closed ↦ rw closed refl
      | inr opened ↦ elim (Bool-cases calls.closes) [
        | inl done ↦ rw (opened, done) (put_ne disk path (held (disk path) ++ text) other ne)
        | inr lost ↦
            rw (opened, lost)
              (put_ne disk path (held (disk path) ++ take calls.reach text) other ne)
      ]
    ]

-- The path is not that of an output.
abbrev pub Apart : Option (List ℕ) → List ℕ → Type 0
Apart none other = Unit
Apart (some path) other = other ≢ path

pub mqtt-others :
    (calls : OutputCalls) (path topic : Option (List ℕ)) (batch : Batch) (other : List ℕ)
    (disk : Disk)
    → Apart path other
    → (mqtt_outbox_append calls path topic batch disk).1 other ≡ disk other
unfolding mqtt_outbox_append
mqtt-others calls none topic batch other disk apart = refl
mqtt-others calls (some path) none batch other disk apart = refl
mqtt-others calls (some path) (some topic) batch other disk apart =
    append_output-others calls path (outbox_text topic batch) other disk apart

pub can-others :
    (calls : OutputCalls) (path : Option (List ℕ)) (id : ℕ) (batch : Batch) (other : List ℕ)
    (disk : Disk)
    → Apart path other
    → (can_trace_append calls path id batch disk).1 other ≡ disk other
unfolding can_trace_append
can-others calls none id batch other disk apart = refl
can-others calls (some path) id batch other disk apart =
    append_output-others calls path (trace_text id batch) other disk apart

pub heartbeat-others :
    (calls : OutputCalls) (path : Option (List ℕ)) (batch : Batch) (n : ℕ) (other : List ℕ)
    (disk : Disk)
    → Apart path other
    → (heartbeat_append calls path batch n disk).1 other ≡ disk other
unfolding heartbeat_append
heartbeat-others calls none batch n other disk apart = refl
heartbeat-others calls (some path) batch n other disk apart =
    append_output-others calls path (heartbeat_text batch n) other disk apart

-- A line that is written stands at the end of the storage.
append_line-stored :
    (calls : Calls) (path : List ℕ) (line : Option (List ℕ)) (disk : Disk)
    → (append_line calls path line disk).0 ≡ true
    → (text : List ℕ) × (line ≡ some text)
      × ((append_line calls path line disk).1 path ≡ some (held (disk path) ++ text))
append_line-stored calls path line disk whole = elim (append_line-Appended calls path line disk) [
  | inl (inl e) ↦ absurd (ground (arith, e, whole))
  | inl (inr e) ↦ absurd (ground (arith, e, whole))
  | inr (text, fits, inr e) ↦ absurd (ground (arith, e, whole))
  | inr (text, fits, inl e) ↦
      (text, fits, ap (λ r. r.1 path) e ∙ put_self disk path (held (disk path) ++ text))
]

cursor-others :
    (mkdir : List ℕ → Bool) (works : ℕ → Bool) (reach : ℕ) (path : List ℕ) (cursor : Cursor)
    (disk : Disk)
    → (write_storage_cursor mkdir works reach path cursor disk).1 path ≡ disk path
unfolding write_storage_cursor build_cursor_path
cursor-others mkdir works reach path cursor disk =
    let apart : path ≢ cursor_path_of path = λ e. cursor_path-ne path (sym e) in
    elim (Bool-cases (leb 512 (length path + 7))) [
      | inl long ↦ rw (long, write_storage_cursor) refl
      | inr fits ↦
          elim (Bool-cases
            (not (ensure_parent_directories mkdir (cursor_path_of path) && works 6))) [
              | inl closed ↦ rw (fits, write_storage_cursor, closed) refl
              | inr opened ↦ elim (Bool-cases (works 7)) [
                | inl done ↦
                    rw (fits, write_storage_cursor, opened, done)
                      (put_ne disk (cursor_path_of path) (cursor_text cursor) path apart)
                | inr lost ↦
                    rw (fits, write_storage_cursor, opened, lost)
                      (put_ne disk (cursor_path_of path) (take reach (cursor_text cursor)) path
                        apart)
              ]
            ]
    ]

append_batch-step :
    (calls : Calls) (path text : List ℕ) (batch : Batch) (disk after : Disk)
    → append_line calls path (line_of batch) disk ≡ (true, after)
    → line_of batch ≡ some text
    → append_batch calls path batch disk
      ≡ write_storage_cursor calls.mkdir calls.works calls.cursor_reach path
          (cursor_of path batch (held (disk path)) text)
          after
unfolding append_batch
append_batch-step calls path text batch disk after wrote fits = rw (wrote, fits, wrote) refl

-- An append that returns 0 has stored the line of the batch.
pub append_batch-stored :
    (calls : Calls) (path : List ℕ) (batch : Batch) (disk : Disk)
    → failed (append_batch calls path batch disk).0 ≡ false
    → (text : List ℕ) × (line_of batch ≡ some text)
      × ((append_batch calls path batch disk).1 path ≡ some (held (disk path) ++ text))
unfolding append_batch
append_batch-stored calls path batch disk success =
    let line = append_line calls path (line_of batch) disk in
    elim (Bool-cases line.0) [
      | inr torn ↦ absurd (ground (arith, torn, success))
      | inl whole ↦
          let (text, fits, stored) = append_line-stored calls path (line_of batch) disk whole in
          let cursor = cursor_of path batch (held (disk path)) text in
          let kept = cursor-others calls.mkdir calls.works calls.cursor_reach path cursor line.1 in
          let run =
            append_batch-step calls path text batch disk line.1 (ap (λ b. (b, line.1)) whole)
              fits in
          (text, fits, ap (λ r. r.1 path) run ∙ kept ∙ stored)
    ]

pub run_cycles-step :
    (config : PipelineConfig) (path : List ℕ) (left : ℕ) (calls : ℕ → CycleCalls) (source : Source)
    (progress : Progress) (disk : Disk) (batch : Batch)
    → (source_read source).0 ≡ some batch
    → is_gap progress.expected batch.sequence ≡ false
    → (write_outputs (calls left) config path batch (u32 (progress.processed + 1)) disk).0 ≡ true
    → run_cycles config path (suc left) calls source progress disk
      ≡ run_cycles config path left calls
          (source_read source).1
          (counted progress batch)
          (write_outputs (calls left) config path batch (u32 (progress.processed + 1)) disk).1
unfolding run_cycles
run_cycles-step config path left calls source progress disk batch read next written =
    rw (read, run_cycles, next, written) refl
