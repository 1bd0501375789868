-- ===== src/Demo1/Transport/Frame.antt =====
-- What the transport returns.
use okmx8mm.Base.{ℕ, zero, suc, ◌+◌, ◌≤◌, ◌<◌, ◌≡◌, refl, arith, List, [], ◌∷◌, ◌++◌}
use okmx8mm.Base.{Bool, true, false, Option, none, some, length, get_or, leb, ◌==◌}
use okmx8mm.Base.{Result, ok, err, length-snoc, subst, Bool-cases, Option-cases, ◌⊎◌, inl, inr}
use okmx8mm.Demo1.Transport.{Received, broken, nothing, byte, Port, elapsed, expected_after}
use okmx8mm.Demo1.Transport.{store_byte, take_byte, read_loop, read}

-- A whole response: as long as its third byte says, and no longer than the buffer.
abbrev pub IsWhole : ℕ → List ℕ → Type 0
IsWhole capacity bytes = (length bytes ≡ get_or bytes 2 0 + 5) × (length bytes ≤ capacity)

-- If there is a response, it is what the buffer holds, and it is whole.
abbrev pub Safe : ℕ → Option (Result (List ℕ)) → List ℕ → Type 0
Safe capacity none held = Unit
Safe capacity (some (err n)) held = Unit
Safe capacity (some (ok bytes)) held = (bytes ≡ held) × IsWhole capacity bytes

-- What stands in the buffer fits into it, however the run ends, and a response is what stands
-- there, and whole.
abbrev pub IsStored : ℕ → Option (Result (List ℕ)) × List ℕ → Type 0
IsStored capacity (result, bytes) = (length bytes ≤ capacity) × Safe capacity result bytes

-- Between two rounds the expected length is 0 until the third byte is there.
abbrev pub IsReading : ℕ → List ℕ → ℕ → Type 0
IsReading capacity bytes expected =
    (length bytes ≤ capacity)
    × ((expected ≡ 0) ⊎ ((2 < length bytes) × (expected ≡ get_or bytes 2 0 + 5)))

get_or-snoc :
    (bytes : List ℕ) (b i : ℕ)
    → i < length bytes
    → get_or (bytes ++ (b ∷ [])) i 0 ≡ get_or bytes i 0
get_or-snoc [] b i h = absurd (omega arith)
get_or-snoc (x ∷ xs) b zero h = refl
get_or-snoc (x ∷ xs) b (suc i) h = get_or-snoc xs b i (omega arith)

store_byte-Safe :
    (capacity b : ℕ) (bytes : List ℕ) (expected : ℕ)
    → IsReading capacity bytes expected
    → let stored = store_byte capacity b bytes expected in
      IsStored capacity (stored.0, stored.2)
      × (stored.0 ≡ none → IsReading capacity stored.2 stored.1)
unfolding store_byte expected_after
store_byte-Safe capacity b bytes expected h =
    ground (arith, length-snoc bytes b, get_or-snoc bytes b 2)

take_byte-Safe :
    (capacity : ℕ) (got : Received) (bytes : List ℕ) (expected : ℕ)
    → IsReading capacity bytes expected
    → let taken = take_byte capacity got bytes expected in
      IsStored capacity (taken.0, taken.2) × (taken.0 ≡ none → IsReading capacity taken.2 taken.1)
unfolding take_byte
take_byte-Safe capacity broken bytes expected h = ground arith
take_byte-Safe capacity nothing bytes expected h = ((h.0, tt), λ e. h)
take_byte-Safe capacity (byte b) bytes expected h = store_byte-Safe capacity b bytes expected h

module _ {P : Type 0} (port : Port P) (timeout capacity start : ℕ) where
  read_loop-Safe :
      (fuel : ℕ) (bytes : List ℕ) (expected : ℕ) (p : P)
      → IsReading capacity bytes expected
      → let run = read_loop port timeout capacity start fuel bytes expected p in
        IsStored capacity (run.0, run.1)
  unfolding read_loop
  read_loop-Safe zero bytes expected p h = (h.0, tt)
  read_loop-Safe (suc fuel) bytes expected p h =
      let now = port.now_us p in
      let got = port.read_byte now.1 in
      let taken = take_byte capacity got.0 bytes expected in
      let (safe, reading) = take_byte-Safe capacity got.0 bytes expected h in
      elim (Bool-cases (leb (elapsed now.0 start) timeout)) [
        | inr late ↦ rw late (h.0, tt)
        | inl within ↦ elim (Option-cases taken.0) [
          | inl (result, e) ↦ rw (within, e) (subst (λ o. IsStored capacity (o, taken.2)) e safe)
          | inr e ↦ rw (within, e) (read_loop-Safe fuel taken.2 taken.1 got.1 (reading e))
        ]
      ]

-- Whatever bytes arrive, whatever the clock says and however the run ends: the transport has never
-- stored more bytes than the buffer holds, and a response that it returns is what the buffer holds
-- and as long as its third byte says.
pub read-Safe :
    {P : Type 0} (port : Port P) (timeout capacity fuel : ℕ) (given : Bool) (p : P)
    → let run = read port timeout given p capacity fuel in IsStored capacity (run.0, run.1)
unfolding read
read-Safe port timeout capacity fuel false p = (omega arith, tt)
read-Safe port timeout capacity fuel true p = elim (Bool-cases (capacity == 0)) [
  | inl no_room ↦ rw no_room (omega arith, tt)
  | inr room ↦ rw room (
      read_loop-Safe port timeout capacity (port.now_us p).0 fuel [] 0 (port.now_us p).1
        (omega arith, inl refl))
]
