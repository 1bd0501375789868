-- ===== src/A53/Fits.antt =====
-- The line of a batch fits its buffer.
use okmx8mm.Base.{ℕ, zero, suc, ◌+◌, ◌-◌, ◌*◌, ◌≤◌, ◌<◌, ◌≡◌, refl, arith, List, [], ◌∷◌, ◌++◌}
use okmx8mm.Base.{Bool, true, false, some, length, get_or, ltb, leb, ℤ, pos, negsuc, codes}
use okmx8mm.Base.{length-decimal, length-append}
use okmx8mm.A53.{Batch, print_int}
use okmx8mm.A53.Append.{
  line_capacity, header_text, channel_text, append_text, append_comma, append_channels, line_of,
}
use okmx8mm.A53.Texts.{label_length, number_length}

length-print_int : (value : ℤ) → length (print_int value) ≤ 6
unfolding print_int
length-print_int (pos n) = omega (arith, length-decimal 5 n)
length-print_int (negsuc n) = omega (arith, length-decimal 5 (n + 1))

length-channel_text : (channel : ℕ) (value : ℤ) → length (channel_text channel value) ≤ 14
unfolding channel_text
length-channel_text channel value = label_length (codes "\"ai") _ 3 11 refl (
    number_length 3 channel 8 _
      (label_length (codes "\":") (print_int value) 2 6 refl (length-print_int value)))

length-header_text : (batch : Batch) → length (header_text batch) ≤ 171
unfolding header_text
length-header_text batch = label_length (codes "{\"sequence\":") _ 12 _ refl (
    number_length 10 batch.sequence _ _ (
      label_length (codes ",\"source\":\"m4-replay\",\"sample_rate_hz\":") _ 39 _ refl (
        number_length 10 batch.sample_rate_hz _ _ (
          label_length (codes ",\"samples\":") _ 11 _ refl (
            number_length 3 batch.sample_count _ _ (
              label_length (codes ",\"di_bits\":") _ 11 _ refl (
                number_length 3 (get_or batch.digital_states 0 0) _ _ (
                  label_length (codes ",\"speed_pulse_delta\":") _ 21 _ refl (
                    number_length 5 batch.speed_pulse_delta _ _ (
                      label_length (codes ",\"speed_period_us\":") _ 19 _ refl
                        (number_length 10 batch.speed_period_us 17 _ (omega arith))))))))))))

append_text-fits :
    (line text : List ℕ)
    → length line + length text < line_capacity
    → append_text line text ≡ some (line ++ text)
unfolding append_text
append_text-fits line text h =
    let room : leb (line_capacity - length line) (length text) ≡ false = ground (arith, h) in
    rw room refl

append_comma-fits :
    (more : Bool) (line : List ℕ)
    → length line + 1 < line_capacity
    → (longer : List ℕ) × (append_comma more line ≡ some longer) × (length longer ≤ length line + 1)
unfolding append_comma
append_comma-fits false line h = (line, refl, omega arith)
append_comma-fits true line h =
    let room : leb line_capacity (length line + 1) ≡ false = ground (arith, h) in
    (line ++ (44 ∷ []), rw room refl, omega (arith, length-append line (44 ∷ [])))

-- Each channel takes at most fifteen bytes.
append_channels-fits :
    (left channel count : ℕ) (samples : List ℤ) (line : List ℕ)
    → length line + 15 * left < 1000
    → (longer : List ℕ) × (append_channels left channel count samples line ≡ some longer)
      × (length longer ≤ length line + 15 * left)
unfolding append_channels
append_channels-fits zero channel count samples line h = (line, refl, omega arith)
append_channels-fits (suc left) channel count samples line h =
    let text = channel_text channel (get_or samples channel (pos 0)) in
    let short = length-channel_text channel (get_or samples channel (pos 0)) in
    let size = length-append line text in
    let first = append_text-fits line text (omega (arith, h, short)) in
    let (second, comma, small) =
      append_comma-fits (ltb (channel + 1) count) (line ++ text) (omega (arith, h, short, size)) in
    let (longer, rest, total) =
      append_channels-fits left (channel + 1) count samples second
        (omega (arith, h, short, size, small)) in
    (longer, rw (first, append_channels, comma) rest, omega (arith, total, small, size, short))

-- A batch of at most ten channels has a line that fits, with its terminating zero, into the buffer
-- of 1024 bytes, whatever its numbers are.
pub line_of-fits :
    (batch : Batch)
    → batch.analog_channel_count ≤ 10
    → (line : List ℕ) × (line_of batch ≡ some line)
unfolding line_of
line_of-fits batch h =
    let header = header_text batch in
    let count = batch.analog_channel_count in
    let short = length-header_text batch in
    let room : leb line_capacity (length header) ≡ false = ground (arith, short) in
    let (body, channels, size) =
      append_channels-fits count 0 count (get_or batch.analog_samples 0 []) header
        (omega (arith, h, short)) in
    (
      body ++ codes "}}\n",
      rw (room, line_of, channels)
          (append_text-fits body (codes "}}\n") (omega (arith, h, short, size))),
    )
