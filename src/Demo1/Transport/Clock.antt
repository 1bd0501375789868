-- ===== src/Demo1/Transport/Clock.antt =====
-- The transport's loop ends.
use okmx8mm.Base.{ℕ, zero, suc, ◌+◌, ◌-◌, ◌≤◌, ◌<◌, ◌%◌, ◌^◌, ◌≡◌, ap, ◌∙◌, arith, List, []}
use okmx8mm.Base.{Bool, true, false, Bool-cases, Option, none, some, leb, ◌==◌, Result, inl, inr}
use okmx8mm.Demo1.Transport.{Port, elapsed}
use okmx8mm.Demo1.Transport.{take_byte, read_loop, read}
use okmx8mm.Base.{Option-cases}

-- The clock of a port: `time` counts its microseconds, of which it shows 64 bits. A round of the
-- loop, which reads the clock and then a byte, takes a microsecond at least and 2 ^ 32 at most;
-- the reading of the clock alone takes no more than that.
pub record IsClock {P : Type 0} (port : Port P) (time : P → ℕ) : Type 0 where
  pub shows : (p : P) → (port.now_us p).0 ≡ time p % 2 ^ 64
  pub forward : (p : P) → time p ≤ time (port.now_us p).1
  pub near : (p : P) → time (port.now_us p).1 ≤ time p + 2 ^ 32
  pub round_forward : (p : P) → time p < time (port.read_byte (port.now_us p).1).1
  pub round_near : (p : P) → time (port.read_byte (port.now_us p).1).1 ≤ time p + 2 ^ 32

-- The run has ended with a result.
abbrev pub Ended : Option (Result (List ℕ)) → Type 0
Ended none = ◌≡◌ {A = ℕ} 0 1
Ended (some result) = Unit

elapsed_lem :
    (now start timeout : ℕ)
    → start ≤ now
    → now ≤ start + timeout + 2 ^ 33
    → timeout < 2 ^ 32
    → elapsed (now % 2 ^ 64) (start % 2 ^ 64) ≡ now - start
elapsed_lem now start timeout h k small = omega arith

module _ {P : Type 0} (port : Port P) (time : P → ℕ) (clock : IsClock port time)
    (timeout capacity start : ℕ) (small : timeout < 2 ^ 32) where
  shown_time :
      (p : P)
      → start ≤ time p
      → time p ≤ start + timeout + 2 ^ 33
      → elapsed (port.now_us p).0 (start % 2 ^ 64) ≡ time p - start
  shown_time p h k =
      ap (λ n. elapsed n (start % 2 ^ 64)) (clock.shows p)
      ∙ elapsed_lem (time p) start timeout h k small

  read_loop-Ended :
      (fuel : ℕ) (bytes : List ℕ) (expected : ℕ) (p : P)
      → start ≤ time p
      → time p ≤ start + timeout + 2 ^ 33
      → 0 < fuel
      → start + timeout + 2 ≤ time p + fuel
      → Ended (read_loop port timeout capacity (start % 2 ^ 64) fuel bytes expected p).0
  unfolding read_loop
  read_loop-Ended zero bytes expected p h k some_fuel enough = absurd (omega arith)
  read_loop-Ended (suc fuel) bytes expected p h k some_fuel enough =
      let now = port.now_us p in
      let got = port.read_byte now.1 in
      let taken = take_byte capacity got.0 bytes expected in
      let shown = shown_time p h k in
      let later = clock.round_forward p in
      let soon = clock.round_near p in
      elim (Bool-cases (leb (elapsed now.0 (start % 2 ^ 64)) timeout)) [
        | inr late ↦ rw late tt
        | inl within ↦
            let in_time : time p ≤ start + timeout = ground (arith, shown, within) in
            elim (Option-cases taken.0) [
              | inl (result, e) ↦ rw (within, e) tt
              | inr e ↦
                  rw (within, e)
                    (read_loop-Ended fuel taken.2 taken.1 got.1 (omega arith) (omega arith)
                      (omega arith) (omega arith))
            ]
      ]

-- With fuel for two rounds more than the time limit counts microseconds, the transport ends with
-- a result, whatever bytes arrive, on a port whose clock advances by 1 to 2 ^ 32 microseconds with
-- each round of the loop, the time limit being below 2 ^ 32.
pub read-Ended :
    {P : Type 0} (port : Port P) (time : P → ℕ) (timeout capacity fuel : ℕ) (given : Bool) (p : P)
    → IsClock port time
    → timeout < 2 ^ 32
    → timeout + 2 ≤ fuel
    → Ended (read port timeout given p capacity fuel).0
unfolding read
read-Ended port time timeout capacity fuel false p clock small enough = tt
read-Ended port time timeout capacity fuel true p clock small enough =
    let begun = clock.forward p in
    let near = clock.near p in
    elim (Bool-cases (capacity == 0)) [
      | inl no_room ↦ rw no_room tt
      | inr room ↦
          rw (room, clock.shows p)
            (read_loop-Ended port time clock timeout capacity (time p) small fuel [] 0
              (port.now_us p).1 (omega arith) (omega arith) (omega arith) (omega arith))
    ]
