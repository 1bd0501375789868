-- ===== src/Executor/Abstract.antt =====
-- The queue as a sequence with a bound, and runs of critical sections.
use okmx8mm.Base.{ℕ}
use okmx8mm.Base.{List, [], ◌∷◌, ◌++◌, length, Bool, true, false, not, ◌&&◌, ltb}
use okmx8mm.Base.{if◌then◌else◌, Option, none, some, ℤ, pos, minus}
use okmx8mm.Executor.{TaskQueue}
use okmx8mm.Executor.{Call, call, take_sql}
use okmx8mm.Executor.Segment.{}

-- A critical section: a call, or the turn of the consumer with the calls that it waits through.
pub data Section (A : Type 0) : Type 0 where
  submit : Call A → Section A
  turn : Bool → List (Call A) → Section A

-- What a section returns: the codes of the calls, and the statement that was taken.
abbrev pub Outcome : Type 0 → Type 0
Outcome A = List ℤ × Option A

module _ {A : Type 0} where
  abbrev pub section : TaskQueue A → Section A → Outcome A × TaskQueue A
  section queue (submit c) = let done = call queue c in ((done.0 ∷ [], none), done.1)
  section queue (turn shutdown waiting) = take_sql shutdown queue waiting

  abbrev pub sections : TaskQueue A → List (Section A) → List (Outcome A) × TaskQueue A
  sections queue [] = ([], queue)
  sections queue (s ∷ ss) =
      let first = section queue s in let rest = sections first.1 ss in (first.0 ∷ rest.0, rest.1)

  -- The same with the sequence of the statements in the queue, at most `capacity` of them.
  module _ (capacity : ℕ) where
    abbrev pub call_fifo : List A → Call A → ℤ × List A
    call_fifo xs c =
        if not c.shutdown && c.initialized && c.locked && ltb (length xs) capacity
        then (pos 0, xs ++ (c.sql ∷ []))
        else (minus 1, xs)

    abbrev pub calls_fifo : List A → List (Call A) → List ℤ × List A
    calls_fifo xs [] = ([], xs)
    calls_fifo xs (c ∷ cs) =
        let first = call_fifo xs c in let rest = calls_fifo first.1 cs in (first.0 ∷ rest.0, rest.1)

    abbrev pub take_first : Bool → List A → Option A × List A
    take_first true xs = (none, xs)
    take_first false [] = (none, [])
    take_first false (x ∷ xs) = (some x, xs)

    abbrev pub turn_fifo : Bool → List A → List (Call A) → Outcome A × List A
    turn_fifo shutdown [] waiting =
        let waited = calls_fifo [] waiting in
        let taken = take_first shutdown waited.1 in ((waited.0, taken.0), taken.1)
    turn_fifo shutdown (x ∷ xs) waiting =
        let taken = take_first shutdown (x ∷ xs) in (([], taken.0), taken.1)

    abbrev pub section_fifo : List A → Section A → Outcome A × List A
    section_fifo xs (submit c) = let done = call_fifo xs c in ((done.0 ∷ [], none), done.1)
    section_fifo xs (turn shutdown waiting) = turn_fifo shutdown xs waiting

    abbrev pub sections_fifo : List A → List (Section A) → List (Outcome A) × List A
    sections_fifo xs [] = ([], xs)
    sections_fifo xs (s ∷ ss) =
        let first = section_fifo xs s in
        let rest = sections_fifo first.1 ss in (first.0 ∷ rest.0, rest.1)
