-- ===== src/A53/Append.antt =====
-- A batch is appended to the storage: `a53_storage_append_batch` in
-- OKMX8MM-Demo2/a53/src/storage_writer.c. The path and the batch are not null here.
use okmx8mm.Base.{ℕ, zero, suc, ◌+◌, ◌-◌, List, [], ◌∷◌, ◌++◌, Bool, true, false, not, ◌&&◌}
use okmx8mm.Base.{Option, none, some, length, take, get_or, ltb, leb, ◌==◌, if◌then◌else◌}
use okmx8mm.Base.{ℤ, pos, minus, codes, decimal}
use okmx8mm.A53.{Batch, Disk, put, Works, ensure_parent_directories, print_int}
use okmx8mm.A53.Cursor.{Cursor, base_name, checksum_fnv1a, write_storage_cursor}

abbrev pub line_capacity : ℕ
line_capacity = 1024

-- The text of the first `snprintf`.
unfoldable pub header_text : Batch → List ℕ
header_text batch =
    codes "{\"sequence\":"
    ++ (decimal 10 batch.sequence
        ++ (codes ",\"source\":\"m4-replay\",\"sample_rate_hz\":"
            ++ (decimal 10 batch.sample_rate_hz
                ++ (codes ",\"samples\":"
                    ++ (decimal 3 batch.sample_count
                        ++ (codes ",\"di_bits\":"
                            ++ (decimal 3 (get_or batch.digital_states 0 0)
                                ++ (codes ",\"speed_pulse_delta\":"
                                    ++ (decimal 5 batch.speed_pulse_delta
                                        ++ (codes ",\"speed_period_us\":"
                                            ++ (decimal 10 batch.speed_period_us
                                                ++ codes ",\"first_sample\":{")))))))))))

unfoldable pub channel_text : ℕ → ℤ → List ℕ
channel_text channel value = codes "\"ai" ++ (decimal 3 channel ++ (codes "\":" ++ print_int value))

-- What `snprintf` appends, where it fits with its terminating zero.
unfoldable pub append_text : List ℕ → List ℕ → Option (List ℕ)
append_text line text =
    if leb (line_capacity - length line) (length text) then none else some (line ++ text)

-- The comma after a channel that is not the last.
unfoldable pub append_comma : Bool → List ℕ → Option (List ℕ)
append_comma false line = some line
append_comma true line =
    if leb line_capacity (length line + 1) then none else some (line ++ (44 ∷ []))

-- The loop over the channels, with the rounds left. The samples of the first tick are ten, and
-- so are the channels of both sources.
unfoldable pub append_channels : ℕ → ℕ → ℕ → List ℤ → List ℕ → Option (List ℕ)
append_channels zero channel count samples line = some line
append_channels (suc left) channel count samples line =
    elim (append_text line (channel_text channel (get_or samples channel (pos 0)))) [
      | none ↦ none
      | some longer ↦ elim (append_comma (ltb (channel + 1) count) longer) [
        | none ↦ none
        | some next ↦ append_channels left (channel + 1) count samples next
      ]
    ]

-- The line, if it fits into its buffer.
unfoldable pub line_of : Batch → Option (List ℕ)
line_of batch =
    let channels =
      append_channels batch.analog_channel_count 0 batch.analog_channel_count
        (get_or batch.analog_samples 0 []) (header_text batch) in
    if leb line_capacity (length (header_text batch))
    then none
    else elim channels [ none ↦ none | some line ↦ append_text line (codes "}}\n") ]

-- What the file held when it was opened; opening creates it.
abbrev pub held : Option (List ℕ) → List ℕ
held none = []
held (some bytes) = bytes

-- How the calls of the C library turn out: those that only succeed or fail by their number, the
-- bytes that `fwrite` does not take, how much of the line reaches the file when the function fails, and
-- how much of the cursor.
pub record Calls : Type 0 where
  pub mkdir : List ℕ → Bool
  pub works : Works
  pub missing : ℕ
  pub reach : ℕ
  pub cursor_reach : ℕ

-- The part of the function up to the `fclose` of the storage: whether it succeeds.
unfoldable pub append_line : Calls → List ℕ → Option (List ℕ) → Disk → Bool × Disk
append_line calls path line disk =
    let old = held (disk path) in
    if not (ensure_parent_directories calls.mkdir path && calls.works 0)
    then (false, disk)
    else if not (calls.works 1 && calls.works 2)
    then (false, put disk path old)
    else elim line [
      | none ↦ (false, put disk path old)
      | some text ↦
          if length text - calls.missing == length text && (calls.works 3 && calls.works 4)
          then (true, put disk path (old ++ text))
          else (false, put disk path (old ++ take calls.reach text))
    ]

unfoldable pub cursor_of : List ℕ → Batch → List ℕ → List ℕ → Cursor
cursor_of path batch old line = record {
  file_name = base_name path;
  sequence = batch.sequence;
  byte_offset = length old + length line;
  line_bytes = length line;
  line_checksum = checksum_fnv1a line;
}

-- `a53_storage_append_batch`.
unfoldable pub append_batch : Calls → List ℕ → Batch → Disk → ℤ × Disk
append_batch calls path batch disk =
    let (whole, after) = append_line calls path (line_of batch) disk in
    if not whole then (minus 1, after) else elim (line_of batch) [
      | none ↦ (minus 1, after)
      | some line ↦
          write_storage_cursor calls.mkdir calls.works calls.cursor_reach path
            (cursor_of path batch (held (disk path)) line) after
    ]
