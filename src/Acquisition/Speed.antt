-- ===== src/Acquisition/Speed.antt =====
-- The speed out of counters that wrap around.
use okmx8mm.Base.{ℕ, ◌+◌, ◌-◌, ◌*◌, ◌/◌, ◌%◌, ◌^◌, ◌<◌, ◌≡◌, ◌≢◌, refl, arith, Bool, true, false}
use okmx8mm.Base.{◌==◌, leb, if◌then◌else◌, u32}
use okmx8mm.Acquisition.{speed_of}

-- The counters after the wheel has turned forwards, or backwards.
abbrev pub turned : Bool → ℕ → ℕ → ℕ × ℕ
turned true p d = (p % 2 ^ 16, (p + d) % 2 ^ 16)
turned false p d = ((p + d) % 2 ^ 16, p % 2 ^ 16)

pulses_of : ℕ → ℕ → ℕ
pulses_of before now =
    let delta = (now + 2 ^ 16 - before) % 2 ^ 16 in
    if leb (2 ^ 15) delta then 2 ^ 16 - delta else delta

pulses_of-turned :
    (forwards : Bool) (p d : ℕ)
    → d < 2 ^ 15
    → pulses_of (turned forwards p d).0 (turned forwards p d).1 ≡ d
unfolding pulses_of
pulses_of-turned true p d h = ground arith
pulses_of-turned false p d h = ground arith

-- Between two readings at the times `t` and `t + elapsed`, not at a tick of 0 and less than 2 ^ 32
-- milliseconds apart, a wheel that turns by fewer than 2 ^ 15 pulses, forwards or backwards, has
-- the speed of its pulses in a minute, whichever counters wrap around.
pub speed_of-turned :
    (forwards : Bool) (t elapsed p d sequence : ℕ)
    → t % 2 ^ 32 ≢ 0
    → 0 < elapsed
    → elapsed < 2 ^ 32
    → d < 2 ^ 15
    → let (before, now) = turned forwards p d in
      speed_of
        ((t + elapsed) % 2 ^ 32)
        now
        (record { sequence = sequence; previous_tick = t % 2 ^ 32; previous_counter = before })
      ≡ d * 60000 / elapsed
unfolding speed_of pulses_of
speed_of-turned forwards t elapsed p d sequence started later near few =
    let time : ((t + elapsed) % 2 ^ 32 + 2 ^ 32 - t % 2 ^ 32) % 2 ^ 32 ≡ elapsed = omega arith in
    let pulses = pulses_of-turned forwards p d few in
    let ticking : (t % 2 ^ 32 == 0) ≡ false = ground arith in
    let passed : (elapsed == 0) ≡ false = ground arith in
    let no_wrap : u32 (d * 60000) ≡ d * 60000 = omega arith in
    let divisor : u32 (elapsed * 1) ≡ elapsed = omega arith in
    rw (time, pulses, ticking, passed, no_wrap, divisor) refl
