-- ===== src/Tests/Acquisition.antt =====
-- Tests of the acquisition.
use okmx8mm.Base.{
  ℕ, ◌+◌, ◌-◌, ◌*◌, ◌/◌, ◌%◌, ◌^◌, ◌≡◌, ◌⊎◌, arith, false, true, pos, minus, u32, ◌==◌, ltb,
}
use okmx8mm.Sample.{IsSample}
use okmx8mm.Acquisition.{Hal, Board, acquisition_read, speed_of}
use okmx8mm.Acquisition.Speed.{turned, speed_of-turned}
use okmx8mm.Acquisition.Read.{acquisition_read-IsSample}

-- A board on which each call takes a millisecond, and whose converter fails after a while.
abbrev hal : Hal ℕ
hal = record {
  get_tick = λ h. (u32 h, h + 1);
  adc_start = λ h. (true, h + 1);
  adc_poll = λ h. (ltb h 109, h + 1);
  adc_value = λ h. (4095, h + 1);
  adc_stop = λ h. (true, h + 1);
  read_pin = λ h pin. (pin == 1, h + 1);
  counter = λ h. (3 * h, h + 1);
}

abbrev board : Board
board = record { sequence = 2 ^ 32 - 1; previous_tick = 20; previous_counter = 65500 }

acquisition_read-IsSample_example :
    let ((code, s), board', h') = acquisition_read hal board 100 in
    IsSample s
    × (s.sequence ≡ board.sequence)
    × (s.timestamp_ms ≡ (hal.get_tick 100).0)
    × (board'.sequence ≡ u32 (board.sequence + 1))
    × (((code ≡ pos 0) × (s.flags ≡ 1))
        ⊎ ((s.flags ≡ 3) × ((code ≡ minus 2) ⊎ ((code ≡ minus 3) ⊎ (code ≡ minus 4)))))
acquisition_read-IsSample_example =
    acquisition_read-IsSample hal board 100 (λ h. omega arith) (omega arith)

-- Backwards by 300 pulses, through zeros of both counters.
speed_of-turned_example :
    let (before, now) = turned false 65500 300 in
    speed_of
      ((2 ^ 32 - 5 + 100) % 2 ^ 32)
      now
      (record { sequence = 0; previous_tick = (2 ^ 32 - 5) % 2 ^ 32; previous_counter = before })
    ≡ 300 * 60000 / 100
speed_of-turned_example =
    speed_of-turned false (2 ^ 32 - 5) 100 65500 300 0 (λ e. absurd (omega arith)) (omega arith)
      (omega arith) (omega arith)
