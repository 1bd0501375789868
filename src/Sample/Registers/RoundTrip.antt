-- ===== src/Sample/Registers/RoundTrip.antt =====
-- A sample and its registers stand for one another, but for the timestamp.
use okmx8mm.Base.{ℕ, zero, suc, ◌+◌, ◌*◌, ◌/◌, ◌%◌, ◌^◌, ◌≤◌, ◌≡◌, refl, ap, ◌∙◌, fun_ext, subst}
use okmx8mm.Base.{arith, List, [], ◌∷◌, ◌++◌, true, false, ltb, length, get_or, tabulate, drop}
use okmx8mm.Base.{
  All-get_or, tabulate-get_or, tabulate-append-drop, length-append, ok, IsU16, IsU32,
}
use okmx8mm.Base.Bits.{and_of_mask, or_of_fields}
use okmx8mm.Sample.{Sample, IsSample}
use okmx8mm.Sample.Registers.{join32, high_word, low_word, read_sample, sample_from_registers}
use okmx8mm.Sample.Registers.{write_sample, sample_to_registers}

-- The registers of a sample, one by one.
channel_words : ℕ → ℕ → List ℕ → List ℕ
channel_words zero channel analog = []
channel_words (suc left) channel analog =
    high_word (get_or analog channel 0)
    ∷ low_word (get_or analog channel 0)
    ∷ channel_words left (channel + 1) analog

unfoldable pub registers_of : Sample → List ℕ
unfolding channel_words
registers_of s =
    channel_words 10 0 s.analog
    ++ (s.digital_bits
        ∷ high_word s.speed_rpm
        ∷ low_word s.speed_rpm
        ∷ s.flags
        ∷ high_word s.sequence
        ∷ low_word s.sequence
        ∷ [])

pub length-registers_of : (s : Sample) → length (registers_of s) ≡ 26
unfolding registers_of
length-registers_of s = refl

pub join-split : (v : ℕ) → IsU32 v → join32 (high_word v) (low_word v) ≡ v
unfolding join32
join-split v h = ground (arith, and_of_mask 16 v, or_of_fields 16 (v / 2 ^ 16) (v % 2 ^ 16))

split-join :
    (high low : ℕ)
    → IsU16 high
    → IsU16 low
    → (high_word (join32 high low) ≡ high) × (low_word (join32 high low) ≡ low)
unfolding join32
split-join high low hh hl =
    ground (arith, and_of_mask 16 (high * 2 ^ 16 + low), or_of_fields 16 high low)

pub read_sample_lem :
    (s : Sample) (rest : List ℕ)
    → IsSample s
    → read_sample (registers_of s ++ rest) ≡ record s { timestamp_ms = 0 }
unfolding read_sample registers_of
read_sample_lem s rest valid = λ i. record {
  sequence = join-split s.sequence valid.sequence_fits i;
  timestamp_ms = 0;
  analog = channels i;
  digital_bits = s.digital_bits;
  speed_rpm = join-split s.speed_rpm valid.speed_fits i;
  flags = s.flags;
}
  where
    channels :
        tabulate 10 (λ j. join32 (high_word (get_or s.analog j 0)) (low_word (get_or s.analog j 0)))
        ≡ s.analog
    channels =
        ap (tabulate 10) (
          fun_ext (λ j.
            join-split (get_or s.analog j 0)
              (All-get_or IsU32 s.analog j 0 valid.analog_fits (omega arith))))
        ∙ tabulate-get_or 0 10 s.analog valid.channels

write_sample_lem :
    (s : Sample) (registers : List ℕ)
    → 26 ≤ length registers
    → write_sample s registers ≡ registers_of s ++ drop 26 registers
unfolding write_sample registers_of
write_sample_lem s registers h =
    subst (λ t. write_sample s t ≡ registers_of s ++ drop 26 t)
      (tabulate-append-drop 0 26 registers h) refl

-- With room for 26 registers `demo3_sample_to_registers` writes exactly the first 26, whatever
-- they held: each analog value, high word first, then the digital bits, the speed, the flags and
-- the sequence number.
pub to_registers_lem :
    (s : Sample) (registers : List ℕ)
    → 26 ≤ length registers
    → sample_to_registers true s registers ≡ ok (registers_of s ++ drop 26 registers)
unfolding sample_to_registers
to_registers_lem s registers h =
    let enough : ltb (length registers) 26 ≡ false = ground arith in
    rw enough (ap ok (write_sample_lem s registers h))

pub from_registers_lem :
    (s : Sample) (rest : List ℕ)
    → IsSample s
    → sample_from_registers true (registers_of s ++ rest) ≡ ok (record s { timestamp_ms = 0 })
unfolding sample_from_registers
from_registers_lem s rest valid =
    let enough : ltb (length (registers_of s ++ rest)) 26 ≡ false =
      ground (arith, length-append (registers_of s) rest, length-registers_of s) in
    rw enough (ap ok (read_sample_lem s rest valid))

-- Whatever array of at least 26 registers a sample is written to, reading that array back gives
-- the sample with its timestamp set to 0, which the registers do not carry.
pub from-to_registers :
    (s : Sample) (registers written : List ℕ)
    → IsSample s
    → 26 ≤ length registers
    → sample_to_registers true s registers ≡ ok written
    → sample_from_registers true written ≡ ok (record s { timestamp_ms = 0 })
from-to_registers s registers written valid h e =
    let same : written ≡ registers_of s ++ drop 26 registers =
      cc (to_registers_lem s registers h) in
    rw same (from_registers_lem s (drop 26 registers) valid)
