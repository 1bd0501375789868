-- ===== src/Rtu/Kept.antt =====
-- What the master of the collector keeps of what it reads.
use okmx8mm.Base.{ℕ, zero, suc, ◌-◌, ◌≤◌, ◌≡◌, refl, arith, inl, inr}
use okmx8mm.Base.{List, true, false, Option, none, some, length, IsByte, All}
use okmx8mm.Base.{length-append, All-append, ltb, Bool-cases, subst, Option-cases}
use okmx8mm.Rtu.{
  Line, Selected, select_failed, timed_out, ready, Stop, received, read_more, read_round,
}
use okmx8mm.Rtu.{Ended, done, outside, running, read_response, check}

-- A read gives bytes, and no more than it is told to.
pub record IsLine {L : Type 0} (line : Line L) : Type 0 where
  pub within : (l : L) (n : ℕ) (more : List ℕ) → (line.read l n).0 ≡ some more → length more ≤ n
  pub bytes : (l : L) (n : ℕ) (more : List ℕ) → (line.read l n).0 ≡ some more → All IsByte more

-- The bytes fit into the buffer, and if the loop stops without an error they pass the checks.
abbrev pub IsKept : ℕ → ℕ → Option Stop → List ℕ → Type 0
IsKept address expected none bytes = (length bytes ≤ 256) × All IsByte bytes
IsKept address expected (some stop) bytes =
    (length bytes ≤ 256)
    × All IsByte bytes
    × (stop.error ≡ false → check address expected bytes ≡ some stop)

abbrev pub stop_of : Ended Stop → Option Stop
stop_of (done stop) = some stop
stop_of outside = none
stop_of running = none

pub IsKept-short :
    (address expected : ℕ) (stop : Option Stop) (bytes : List ℕ)
    → IsKept address expected stop bytes
    → length bytes ≤ 256
IsKept-short address expected none bytes (short, fit) = short
IsKept-short address expected (some stop) bytes (short, fit, checked) = short

check-IsKept :
    (address expected : ℕ) (bytes : List ℕ)
    → length bytes ≤ 256
    → All IsByte bytes
    → IsKept address expected (check address expected bytes) bytes
check-IsKept address expected bytes short fit = go (check address expected bytes) refl
  where
    go :
        (stop : Option Stop)
        → check address expected bytes ≡ stop
        → IsKept address expected (check address expected bytes) bytes
    go none e = rw e (short, fit)
    go (some stop) e = rw (e, e) (short, fit, λ h. refl)

module _ {L : Type 0} (line : Line L) (lawful : IsLine line) (address expected : ℕ) where
  received-fits :
      (bytes : List ℕ) (l : L) (n : ℕ) (got : Option (List ℕ))
      → (line.read l n).0 ≡ got
      → length bytes ≤ 256
      → All IsByte bytes
      → n ≤ 256 - length bytes
      → (length (received bytes got) ≤ 256) × All IsByte (received bytes got)
  received-fits bytes l n none e short fit room = (short, fit)
  received-fits bytes l n (some more) e short fit room =
      let within = lawful.within l n more e in
      (
        omega (arith, length-append bytes more),
        All-append IsByte bytes more fit (lawful.bytes l n more e),
      )

  read_more-IsKept :
      (bytes : List ℕ) (l : L)
      → length bytes ≤ 256
      → All IsByte bytes
      → let (stop, bytes', l') = read_more line address expected bytes l in
        IsKept address expected stop bytes'
  unfolding read_more
  read_more-IsKept bytes l short fit = elim (Option-cases (line.available l).0) [
    | inr e ↦ rw (read_more, e) (short, fit, λ h. absurd (ground (arith, h)))
    | inl (n, e) ↦
        let got = line.read (line.available l).1 n in
        elim (Bool-cases (ltb (256 - length bytes) n)) [
          | inl large ↦ rw (read_more, e, large) (short, fit, λ h. absurd (ground (arith, h)))
          | inr small ↦
              let (short', fit') =
                received-fits bytes (line.available l).1 n got.0 refl short fit
                  (ground (arith, small)) in
              rw (read_more, e, small)
                (check-IsKept address expected (received bytes got.0) short' fit')
        ]
  ]

  read_round-IsKept :
      (bytes : List ℕ) (l : L)
      → length bytes ≤ 256
      → All IsByte bytes
      → let (stop, bytes', l') = read_round line address expected bytes l in
        IsKept address expected stop bytes'
  unfolding read_round
  read_round-IsKept bytes l short fit = go (line.select l).0 refl
    where
      go :
          (selected : Selected)
          → (line.select l).0 ≡ selected
          → let (stop, bytes', l') = read_round line address expected bytes l in
            IsKept address expected stop bytes'
      go select_failed e = rw (read_round, e) (short, fit, λ h. absurd (ground (arith, h)))
      go timed_out e = rw (read_round, e) (short, fit, λ h. absurd (ground (arith, h)))
      go (ready false) e = rw (read_round, e) (short, fit)
      go (ready true) e = rw (read_round, e) (read_more-IsKept bytes (line.select l).1 short fit)

  -- However the loop ends, also where it runs out of fuel.
  pub read_response-IsKept :
      (fuel : ℕ) (bytes : List ℕ) (l : L)
      → length bytes ≤ 256
      → All IsByte bytes
      → let got = read_response line fuel address expected bytes l in
        IsKept address expected (stop_of got.0) got.1
  unfolding read_response
  read_response-IsKept zero bytes l short fit = (short, fit)
  read_response-IsKept (suc fuel) bytes l short fit =
      let round = read_round line address expected bytes l in
      let kept = read_round-IsKept bytes l short fit in
      elim (Bool-cases (line.is_shutdown l)) [
        | inl off ↦ rw off (short, fit, λ h. absurd (ground (arith, h)))
        | inr on ↦ elim (Option-cases round.0) [
          | inl (found, e) ↦ rw (on, e) (subst (λ o. IsKept address expected o round.1) e kept)
          | inr e ↦
              rw (on, e)
                (let (short', fit') = subst (λ o. IsKept address expected o round.1) e kept in
                  read_response-IsKept fuel round.1 round.2 short' fit')
        ]
      ]
