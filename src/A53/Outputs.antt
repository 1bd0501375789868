-- ===== src/A53/Outputs.antt =====
-- The text outputs of the demo: mqtt_outbox.c, can_trace.c, heartbeat_writer.c and the status file of
-- pipeline.c in OKMX8MM-Demo2/a53/src/. `none` is a null path; a batch is never null here.
use okmx8mm.Base.{ℕ, zero, suc, ◌-◌, ◌/◌, ◌%◌, ◌^◌, List, [], ◌∷◌, ◌++◌, Bool, not, ◌&&◌}
use okmx8mm.Base.{
  Option, none, some, take, get_or, ltb, ◌==◌, if◌then◌else◌, u8, u16, codes, decimal,
}
use okmx8mm.Base.{ℤ, pos, negsuc, minus}
use okmx8mm.A53.{Batch, Disk, put, ensure_parent_directories, print_int}
use okmx8mm.A53.Append.{held}
use okmx8mm.A53.Cursor.{hex_digit}

-- How the calls for one output turn out; `reach` is how much of the text reaches the file where
-- `fclose` fails.
pub record OutputCalls : Type 0 where
  pub mkdir : List ℕ → Bool
  pub opens : Bool
  pub closes : Bool
  pub reach : ℕ

-- A text is written after what the file holds; the result of `fprintf` is not looked at.
unfoldable pub append_output : OutputCalls → List ℕ → List ℕ → Disk → ℤ × Disk
append_output calls path text disk =
    let old = held (disk path) in
    if not (ensure_parent_directories calls.mkdir path && calls.opens)
    then (minus 1, disk)
    else if calls.closes
    then (pos 0, put disk path (old ++ text))
    else (minus 1, put disk path (old ++ take calls.reach text))

abbrev pub first_sample : Batch → ℤ
first_sample batch = get_or (get_or batch.analog_samples 0 []) 0 (pos 0)

abbrev pub first_bits : Batch → ℕ
first_bits batch = get_or batch.digital_states 0 0

unfoldable pub outbox_text : List ℕ → Batch → List ℕ
outbox_text topic batch =
    codes "{\"sequence\":"
    ++ (decimal 10 batch.sequence
        ++ (codes ",\"qos\":1,\"topic\":\""
            ++ (topic
                ++ (codes "\",\"payload\":{\"ai0\":"
                    ++ (print_int (first_sample batch)
                        ++ (codes ",\"di_bits\":"
                            ++ (decimal 3 (first_bits batch)
                                ++ (codes ",\"speed_pulse_delta\":"
                                    ++ (decimal 5 batch.speed_pulse_delta ++ codes "}}\n")))))))))

-- `a53_mqtt_outbox_append`.
unfoldable pub mqtt_outbox_append :
    OutputCalls → Option (List ℕ) → Option (List ℕ) → Batch → Disk → ℤ × Disk
mqtt_outbox_append calls none topic batch disk = (minus 1, disk)
mqtt_outbox_append calls (some path) none batch disk = (minus 1, disk)
mqtt_outbox_append calls (some path) (some topic) batch disk =
    append_output calls path (outbox_text topic batch) disk

-- `%X` of a number of at most so many digits, without zeros in front.
unfoldable pub hex_text : ℕ → ℕ → List ℕ
hex_text zero n = []
hex_text (suc places) n =
    let front = hex_text places (n / 16) in
    if ltb n 16 then hex_digit n ∷ [] else front ++ (hex_digit (n % 16) ∷ [])

-- `%03X` of a 32-bit number.
unfoldable pub print_id : ℕ → List ℕ
unfolding hex_text
print_id id =
    if ltb id 16
    then 48 ∷ 48 ∷ hex_text 8 id
    else if ltb id 256
    then 48 ∷ hex_text 8 id
    else hex_text 8 id

-- `byte_value`, `word_lo` and `word_hi`.
abbrev pub word_lo : ℕ → ℕ
word_lo value = u8 value

abbrev pub word_hi : ℕ → ℕ
word_hi value = u8 (value / 2 ^ 8)

-- `%02X` of a byte.
unfoldable pub hex_byte : ℕ → List ℕ
hex_byte byte = hex_digit (byte / 16 % 16) ∷ hex_digit (byte % 16) ∷ []

-- The cast of an `int16_t` to `uint16_t`.
unfoldable pub to_u16 : ℤ → ℕ
to_u16 (pos n) = u16 n
to_u16 (negsuc n) = u16 (2 ^ 16 - 1 - u16 n)

-- The eight bytes of the frame in the trace.
unfoldable pub trace_bytes : Batch → List ℕ
unfolding to_u16
trace_bytes batch =
    word_lo (u16 batch.sequence)
    ∷ word_hi (u16 batch.sequence)
    ∷ word_lo (to_u16 (first_sample batch))
    ∷ word_hi (to_u16 (first_sample batch))
    ∷ u8 (first_bits batch)
    ∷ word_lo batch.speed_pulse_delta
    ∷ word_hi batch.speed_pulse_delta
    ∷ 0
    ∷ []

unfoldable pub hex_bytes : List ℕ → List ℕ
unfolding hex_byte
hex_bytes [] = []
hex_bytes (byte ∷ rest) = hex_byte byte ++ hex_bytes rest

unfoldable pub trace_text : ℕ → Batch → List ℕ
trace_text can_id batch =
    codes "CAN id=0x"
    ++ (print_id can_id
        ++ (codes " seq="
            ++ (decimal 10 batch.sequence
                ++ (codes " ai0="
                    ++ (print_int (first_sample batch)
                        ++ (codes " di=0x"
                            ++ (hex_byte (first_bits batch)
                                ++ (codes " speed_pulse="
                                    ++ (decimal 5 batch.speed_pulse_delta
                                        ++ (codes " speed_period_us="
                                            ++ (decimal 10 batch.speed_period_us
                                                ++ (codes " frame="
                                                    ++ (print_id can_id
                                                        ++ (codes "#"
                                                            ++ (hex_bytes (trace_bytes batch)
                                                            ++ codes "\n")))))))))))))))

-- `a53_can_trace_append`.
unfoldable pub can_trace_append : OutputCalls → Option (List ℕ) → ℕ → Batch → Disk → ℤ × Disk
can_trace_append calls none can_id batch disk = (minus 1, disk)
can_trace_append calls (some path) can_id batch disk =
    append_output calls path (trace_text can_id batch) disk

-- The digital inputs of the last sample.
abbrev pub last_bits : Batch → ℕ
last_bits batch =
    get_or batch.digital_states (if batch.sample_count == 0 then 0 else batch.sample_count - 1) 0

unfoldable pub heartbeat_text : Batch → ℕ → List ℕ
heartbeat_text batch processed =
    codes "{\"ok\":true,\"sequence\":"
    ++ (decimal 10 batch.sequence
        ++ (codes ",\"processed_batches\":"
            ++ (decimal 10 processed
                ++ (codes ",\"sample_rate_hz\":"
                    ++ (decimal 10 batch.sample_rate_hz
                        ++ (codes ",\"digital_bits\":"
                            ++ (decimal 3 (last_bits batch) ++ codes "}\n")))))))

-- `a53_heartbeat_append`.
unfoldable pub heartbeat_append : OutputCalls → Option (List ℕ) → Batch → ℕ → Disk → ℤ × Disk
heartbeat_append calls none batch processed disk = (pos 0, disk)
heartbeat_append calls (some path) batch processed disk =
    append_output calls path (heartbeat_text batch processed) disk
