-- ===== src/Acquisition/Read.antt =====
-- What an acquisition gives.
use Prim.Native.Nat.{bit_or}
use okmx8mm.Base.{ℕ, zero, suc, ◌+◌, ◌-◌, ◌*◌, ◌%◌, ◌^◌, ◌≡◌, refl, arith, ◌∙◌, ◌⊎◌, inl, inr}
use okmx8mm.Base.{
  List, [], ◌∷◌, Bool, true, false, ◌||◌, ◌==◌, length, All, IsU16, IsU32, u16, set, replicate,
  length-set,
}
use okmx8mm.Base.{Bool-cases, if◌then◌else◌, leb, u32, pos, minus}
use native.Mathlib.Nat.{div-le_self}
use okmx8mm.Sample.{IsSample, analog_channel_count}
use okmx8mm.Acquisition.{Hal, Board, speed_of, read_speed, read_digital, read_channels, read_analog}
use okmx8mm.Acquisition.{acquisition_read}

speed_of-fits : (now count : ℕ) (board : Board) → IsU32 (speed_of now count board)
unfolding speed_of
speed_of-fits now count board =
    let elapsed = (now + 2 ^ 32 - board.previous_tick) % 2 ^ 32 in
    let delta = (count + 2 ^ 16 - board.previous_counter) % 2 ^ 16 in
    let pulses = if leb (2 ^ 15) delta then 2 ^ 16 - delta else delta in
    elim (Bool-cases (board.previous_tick == 0 || elapsed == 0)) [
      | inl standing ↦ rw standing (omega arith)
      | inr moving ↦
          rw moving (omega (arith, div-le_self (u32 (pulses * 60000)) (u32 (elapsed * 1))))
    ]

All-set : (xs : List ℕ) (i v : ℕ) → All IsU32 xs → IsU32 v → All IsU32 (set xs i v)
All-set [] i v h k = tt
All-set (x ∷ xs) zero v h k = (k, h.1)
All-set (x ∷ xs) (suc i) v h k = (h.0, All-set xs i v h.1 k)

flags_fit : (wrong : Bool) → IsU16 (if wrong then bit_or 1 2 else 1)
flags_fit true = omega arith
flags_fit false = omega arith

module _ {H : Type 0} (hal : Hal H) where
  -- Ten values of 32 bits.
  abbrev Ten : List ℕ → Type 0
  Ten analog = (length analog ≡ 10) × All IsU32 analog

  read_channels-Ten :
      (left channel : ℕ) (analog : List ℕ) (h : H)
      → Ten analog
      → Ten (read_channels hal left channel analog h).1
  unfolding read_channels
  read_channels-Ten zero channel analog h t = t
  read_channels-Ten (suc left) channel analog h t =
      let polled = hal.adc_poll h in
      let value = hal.adc_value polled.1 in
      let rest = read_channels-Ten left (channel + 1) (set analog channel (u32 value.0)) value.1 (
        length-set analog channel (u32 value.0) ∙ t.0,
        All-set analog channel (u32 value.0) t.1 (omega arith),
      ) in
      elim (Bool-cases polled.0) [ inl good ↦ rw good rest | inr bad ↦ rw bad t ]

  -- The analog error is flagged exactly if the code is not 0.
  read_analog-cases :
      (h : H)
      → let ((code, wrong), analog, h') = read_analog hal h in
        Ten analog
        × (((code ≡ pos 0) × (wrong ≡ false))
            ⊎ ((wrong ≡ true) × ((code ≡ minus 2) ⊎ ((code ≡ minus 3) ⊎ (code ≡ minus 4)))))
  unfolding read_analog
  read_analog-cases h =
      let started = hal.adc_start h in
      let zeros : List ℕ = replicate analog_channel_count 0 in
      let zeros_fit : Ten zeros = (refl, omega arith) in
      let read = read_channels hal analog_channel_count 0 zeros started.1 in
      let stopped = hal.adc_stop read.2 in
      let ten = read_channels-Ten analog_channel_count 0 zeros started.1 zeros_fit in
      elim (Bool-cases started.0) [
        | inr off ↦ rw off (zeros_fit, inr (refl, inl refl))
        | inl on ↦ elim (Bool-cases stopped.0) [
          | inr bad ↦ rw (on, bad) (ten, inr (refl, inr (inr refl)))
          | inl good ↦ elim (Bool-cases read.0) [
            | inl whole ↦ rw (on, good, whole) (ten, inl (refl, refl))
            | inr part ↦ rw (on, good, part) (ten, inr (refl, inr (inl refl)))
          ]
        ]
      ]

  read_digital-fits : (h : H) → IsU16 (read_digital hal h).0
  unfolding read_digital
  read_digital-fits h = ground arith

  -- An acquisition gives a sample that the C types can hold, with ten values, the next sequence
  -- number and the time of its start. Its code is 0 with the flags of a valid sample, or it is
  -- that of an error of the converter, and then the analog error is flagged too.
  pub acquisition_read-IsSample :
      (board : Board) (h : H)
      → ((h : H) → IsU32 (hal.get_tick h).0)
      → IsU32 board.sequence
      → let ((code, s), board', h') = acquisition_read hal board h in
        IsSample s
        × (s.sequence ≡ board.sequence)
        × (s.timestamp_ms ≡ (hal.get_tick h).0)
        × (board'.sequence ≡ u32 (board.sequence + 1))
        × (((code ≡ pos 0) × (s.flags ≡ 1))
            ⊎ ((s.flags ≡ 3) × ((code ≡ minus 2) ⊎ ((code ≡ minus 3) ⊎ (code ≡ minus 4)))))
  unfolding acquisition_read read_speed
  acquisition_read-IsSample board h ticks small =
      let now = hal.get_tick h in
      let analog = read_analog hal now.1 in
      let (ten, coded) = read_analog-cases now.1 in
      let digital = read_digital hal analog.2 in
      let count = hal.counter (hal.get_tick digital.1).1 in
      (
        record {
          sequence_fits = small;
          timestamp_fits = ticks h;
          channels = ten.0;
          analog_fits = ten.1;
          digital_fits = read_digital-fits analog.2;
          speed_fits =
              speed_of-fits (hal.get_tick digital.1).0 (u16 count.0)
                (record board { sequence = u32 (board.sequence + 1) });
          flags_fit = flags_fit analog.0.1;
        },
        refl,
        refl,
        refl,
        elim coded [
          | inl (good, flag) ↦ inl (good, rw flag refl)
          | inr (flag, bad) ↦ inr (rw flag refl, bad)
        ],
      )
