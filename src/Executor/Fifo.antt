-- ===== src/Executor/Fifo.antt =====
-- The queue does what a sequence with a bound does, over any run of critical sections.
use okmx8mm.Base.{ℕ, suc, ◌≡◌, refl, arith, inl}
use okmx8mm.Base.{List, [], ◌∷◌, Bool}
use okmx8mm.Base.{}
use okmx8mm.Executor.{TaskQueue, create_task_queue}
use okmx8mm.Executor.{Call, call, calls, take_sql}
use okmx8mm.Executor.Segment.{}
use okmx8mm.Executor.Abstract.{
  Section, submit, turn, section, sections, call_fifo, calls_fifo, turn_fifo, section_fifo,
  sections_fifo,
}
use okmx8mm.Executor.Represents.{
  Represents, empty-Represents, call-Represents, take_first-Represents,
}

module _ {A : Type 0} where
  calls-Represents :
      (capacity : ℕ) (queue : TaskQueue A) (xs : List A) (cs : List (Call A))
      → Represents capacity queue xs
      → ((calls queue cs).0 ≡ (calls_fifo capacity xs cs).0)
        × Represents capacity (calls queue cs).1 (calls_fifo capacity xs cs).1
  unfolding calls
  calls-Represents capacity queue xs [] h = (refl, h)
  calls-Represents capacity queue xs (c ∷ cs) h =
      let first = call-Represents capacity queue xs c h in
      let rest =
        calls-Represents capacity (call queue c).1 (call_fifo capacity xs c).1 cs first.1 in
      (rw (first.0, rest.0) refl, rest.1)

  turn-Represents :
      (capacity : ℕ) (shutdown : Bool) (queue : TaskQueue A) (xs : List A) (waiting : List (Call A))
      → Represents capacity queue xs
      → let taken = take_sql shutdown queue waiting in
        let spec = turn_fifo capacity shutdown xs waiting in
        (taken.0 ≡ spec.0) × Represents capacity taken.1 spec.1
  unfolding take_sql
  turn-Represents capacity shutdown queue [] waiting h =
      let waited = calls-Represents capacity queue [] waiting h in
      let taken =
        take_first-Represents capacity shutdown (calls queue waiting).1
          (calls_fifo capacity [] waiting).1 waited.1 in
      rw (empty-Represents capacity queue [] h) (rw (waited.0, taken.0) refl, taken.1)
  turn-Represents capacity shutdown queue (x ∷ xs) waiting h =
      let taken = take_first-Represents capacity shutdown queue (x ∷ xs) h in
      rw (empty-Represents capacity queue (x ∷ xs) h) (rw taken.0 refl, taken.1)

  section-Represents :
      (capacity : ℕ) (queue : TaskQueue A) (xs : List A) (s : Section A)
      → Represents capacity queue xs
      → ((section queue s).0 ≡ (section_fifo capacity xs s).0)
        × Represents capacity (section queue s).1 (section_fifo capacity xs s).1
  section-Represents capacity queue xs (submit c) h =
      let done = call-Represents capacity queue xs c h in (rw done.0 refl, done.1)
  section-Represents capacity queue xs (turn shutdown waiting) h =
      turn-Represents capacity shutdown queue xs waiting h

  sections-Represents :
      (capacity : ℕ) (queue : TaskQueue A) (xs : List A) (ss : List (Section A))
      → Represents capacity queue xs
      → ((sections queue ss).0 ≡ (sections_fifo capacity xs ss).0)
        × Represents capacity (sections queue ss).1 (sections_fifo capacity xs ss).1
  sections-Represents capacity queue xs [] h = (refl, h)
  sections-Represents capacity queue xs (s ∷ ss) h =
      let first = section-Represents capacity queue xs s h in
      let rest =
        sections-Represents capacity (section queue s).1 (section_fifo capacity xs s).1 ss
          first.1 in
      (rw (first.0, rest.0) refl, rest.1)

  -- From its creation with a size on, whatever `malloc` left in its memory, the queue does in any
  -- run of critical sections what a first-in first-out sequence of at most one element less does:
  -- the callers get the same codes, and the consumer the same statements in the same order.
  pub queue-refines-fifo :
      (capacity : ℕ) (memory : ℕ → A) (ss : List (Section A))
      → let ran = sections (create_task_queue (suc capacity) memory) ss in
        let spec = sections_fifo capacity [] ss in
        (ran.0 ≡ spec.0) × Represents capacity ran.1 spec.1
  unfolding create_task_queue
  queue-refines-fifo capacity memory ss =
      sections-Represents capacity (create_task_queue (suc capacity) memory) [] ss
        (refl, (omega arith, omega arith, inl refl), omega arith, tt)
