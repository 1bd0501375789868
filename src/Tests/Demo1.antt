-- ===== src/Tests/Demo1.antt =====
-- Tests of the first M4 demo.
use Prim.Native.Nat.{bit_and}
use okmx8mm.Base.{
  u8, ◌>>>◌, ℕ, zero, suc, ◌+◌, ◌*◌, ◌%◌, ◌^◌, ◌≡◌, refl, arith, List, [], ◌∷◌, ◌++◌,
}
use okmx8mm.Base.{inl, if◌then◌else◌, ◌==◌, some, true, false, replicate, ok, err, pos}
use okmx8mm.Demo1.{TickSample}
use okmx8mm.Demo1.Engine.{ReadTick, Engine, empty_batch, tick, consume_batch}
use okmx8mm.Demo1.Engine.Batches.{batch_of}
use okmx8mm.Demo1.Engine.Ticks.{IsEngine, tick-IsEngine}
use okmx8mm.Demo1.Engine.Ten.{ticks, Delivers, Completed, samples_of, ticks-batch_of}
use okmx8mm.Demo1.Modbus.{request_head, modbus_crc16, build_read_request, no_sample}
use okmx8mm.Demo1.Modbus.Response.{response_of}
use okmx8mm.Demo1.Sources.{MockSource, Transport, wheel_source_init}
use okmx8mm.Demo1.Transport.{nothing, byte, Port, read, transport_init}
use okmx8mm.Demo1.Transport.Frame.{IsStored, read-Safe}
use okmx8mm.Demo1.Transport.Clock.{IsClock, Ended, read-Ended}

-- A source that counts its ticks in the first channel.
abbrev counted : ℕ → TickSample
counted n = record no_sample {
  analog_channel_count = 2;
  valid_mask = 3;
  analog = n ∷ 7 ∷ replicate 12 0;
  digital_bits = n % 2;
}

abbrev counter : ReadTick ℕ
counter n time = (pos 0, counted n, n + 1)

abbrev fresh : Engine ℕ
fresh = record {
  source = 0;
  current_batch = empty_batch;
  ready_batch = empty_batch;
  sample_index = 0;
  next_sequence = 41;
  batch_ready = false;
}

tick-IsEngine_example : IsEngine (tick counter true fresh 500).1
tick-IsEngine_example =
    tick-IsEngine counter true fresh 500 (λ n time. refl) (inl refl, λ h. absurd (ground arith))

-- The samples of the next ticks.
abbrev from : ℕ → ℕ → List (ℕ × TickSample)
from zero n = []
from (suc left) n = (n * 500, counted n) ∷ from left (n + 1)

from-Delivers : (left n : ℕ) → Delivers counter n (from left n)
from-Delivers zero n = tt
from-Delivers (suc left) n =
    (refl, refl, (omega arith, omega arith, refl), from-Delivers left (n + 1))

ticks-batch_of_example :
    let after = ticks counter fresh (from 10 0) in
    let batch = batch_of 41 0 (counted 0) (samples_of counter (from 9 1)) in
    Completed counter after 41 batch
    × ((consume_batch true after).0 ≡ ok batch)
    × ((consume_batch true after).1.batch_ready ≡ false)
ticks-batch_of_example =
    ticks-batch_of counter fresh 0 (counted 0) (from 9 1) refl refl (from-Delivers 10 0)

abbrev held : List ℕ
held = 1 ∷ 2 ∷ 3 ∷ 4 ∷ 5 ∷ 6 ∷ 7 ∷ 8 ∷ 7 ∷ 0x1234 ∷ []

abbrev wire : Transport ℕ
wire = record {
  write = λ n bytes. (pos 0, n + 1);
  read = λ n capacity. (pos 0, response_of 1 held, n + 1);
}

abbrev asked : List ℕ
asked =
    let crc = modbus_crc16 (some (request_head 1 0 10)) 6 in
    request_head 1 0 10 ++ (u8 (bit_and crc 0xFF) ∷ u8 (crc >>> 8) ∷ [])

asked_lem : build_read_request 1 0 10 true 8 ≡ ok asked
unfolding build_read_request
asked_lem = refl

abbrev seeded : MockSource
seeded = record { seed = 5; tick_count = 9; initialized = true }

-- A port that is its own clock, and on which a byte arrives at every third microsecond.
abbrev uart : Port ℕ
uart = record {
  write_bytes = λ now bytes. (pos 0, now);
  read_byte = λ now. (if now % 3 == 0 then byte 2 else nothing, now + 1);
  now_us = λ now. (now % 2 ^ 64, now);
}

uart-IsClock : IsClock uart (λ now. now)
uart-IsClock = record {
  shows = λ p. refl;
  forward = λ p. omega arith;
  near = λ p. omega arith;
  round_forward = λ p. omega arith;
  round_near = λ p. omega arith;
}

read-Safe_example : let run = read uart 50 true 7 64 52 in IsStored 64 (run.0, run.1)
read-Safe_example = read-Safe uart 50 64 52 true 7

read-Ended_example : Ended (read uart 50 true 7 64 52).0
read-Ended_example =
    read-Ended uart (λ now. now) 50 64 52 true 7 uart-IsClock (omega arith) (omega arith)

-- The wheel board's source needs a slave, the transport a time limit.
wheel_source_without_slave : wheel_source_init true 0 7 ≡ err 1
unfolding wheel_source_init
wheel_source_without_slave = refl

wheel_source_started : wheel_source_init true 3 7 ≡ ok (record { slave_id = 3; start_register = 7 })
unfolding wheel_source_init
wheel_source_started = refl

transport_without_limit : transport_init true 0 ≡ err 1
unfolding transport_init
transport_without_limit = refl

transport_started : transport_init true 20000 ≡ ok 20000
unfolding transport_init
transport_started = refl
