-- ===== src/Executor/Represents.antt =====
-- The ring holds a sequence: a call and a take keep that.
use okmx8mm.Base.{ℕ, suc, ◌+◌, ◌%◌, ◌≤◌, ◌<◌, ◌≡◌, refl, arith, inl, inr}
use okmx8mm.Base.{List, [], ◌∷◌, ◌++◌, length, Bool, true, false, not, ◌&&◌, ltb}
use okmx8mm.Base.{if◌then◌else◌, none, some, pos, Bool-cases, length-snoc, ◌∙◌, ap, sym, subst}
use okmx8mm.Executor.{TaskQueue, write_element, is_queue_empty, is_queue_full}
use okmx8mm.Executor.{enqueue, dequeue, execute_sql_async, Call, call}
use okmx8mm.Executor.Segment.{
  Segment, IsBehind, next-IsBehind, end-IsBehind, Segment-write, Segment-snoc, next-cases,
  write_element-same,
}
use okmx8mm.Executor.Abstract.{call_fifo, take_first}

module _ {A : Type 0} where
  -- The queue holds `xs`, with room for one more than `capacity`.
  abbrev pub Represents : ℕ → TaskQueue A → List A → Type 0
  Represents capacity queue xs =
      (queue.queue_size ≡ suc capacity)
      × IsBehind queue.queue_size queue.rear (length xs) queue.front
      × (length xs ≤ capacity)
      × Segment queue.queue_size queue.queue_elements queue.rear xs

  pub full-Represents :
      (capacity : ℕ) (queue : TaskQueue A) (xs : List A)
      → Represents capacity queue xs
      → is_queue_full queue ≡ not (ltb (length xs) capacity)
  unfolding is_queue_full
  full-Represents capacity queue xs h = ground (arith, next-cases queue.queue_size queue.front)

  abbrev is_empty : List A → Bool
  is_empty [] = true
  is_empty (x ∷ xs) = false

  pub empty-Represents :
      (capacity : ℕ) (queue : TaskQueue A) (xs : List A)
      → Represents capacity queue xs
      → is_queue_empty queue ≡ is_empty xs
  unfolding is_queue_empty
  empty-Represents capacity queue [] h = ground arith
  empty-Represents capacity queue (x ∷ xs) h = ground arith

  -- An element that finds room.
  abbrev pushed : TaskQueue A → A → TaskQueue A
  pushed queue x = record queue {
    queue_elements = write_element queue.queue_elements queue.front x;
    front = (queue.front + 1) % queue.queue_size;
  }

  pushed-Represents :
      (capacity : ℕ) (queue : TaskQueue A) (xs : List A) (x : A)
      → Represents capacity queue xs
      → length xs < capacity
      → Represents capacity (pushed queue x) (xs ++ (x ∷ []))
  pushed-Represents capacity queue xs x h room =
      let e = length-snoc xs x in
      (
        h.0,
        subst (λ k. IsBehind queue.queue_size queue.rear k ((queue.front + 1) % queue.queue_size))
            (sym e)
            (end-IsBehind queue.queue_size queue.rear (length xs) queue.front (omega arith) h.1),
        omega arith,
        Segment-snoc queue.queue_size (write_element queue.queue_elements queue.front x) queue.rear
            queue.front x xs h.1 (omega arith)
            (write_element-same queue.queue_elements queue.front x)
            (Segment-write queue.queue_size queue.queue_elements queue.rear (length xs) queue.front
              x xs h.1 (omega arith) (omega arith) h.3),
      )

  enqueue_room :
      (queue : TaskQueue A) (x : A)
      → is_queue_full queue ≡ false
      → enqueue queue x ≡ (pos 0, pushed queue x)
  unfolding enqueue
  enqueue_room queue x free = rw free refl

  dequeue-some :
      (queue : TaskQueue A)
      → is_queue_empty queue ≡ false
      → dequeue queue ≡ (
        some (queue.queue_elements queue.rear),
        record queue { rear = (queue.rear + 1) % queue.queue_size },
      )
  unfolding dequeue
  dequeue-some queue full = rw full refl

  -- A call, by its flags.
  execute-Represents :
      (capacity : ℕ) (queue : TaskQueue A) (xs : List A) (shutdown initialized locked : Bool)
      (x : A)
      → Represents capacity queue xs
      → let done = execute_sql_async shutdown initialized locked queue x in
        let spec =
          call_fifo capacity xs
            (record { shutdown = shutdown; initialized = initialized; locked = locked; sql = x }) in
        (done.0 ≡ spec.0) × Represents capacity done.1 spec.1
  unfolding execute_sql_async
  execute-Represents capacity queue xs true initialized locked x h = (refl, h)
  execute-Represents capacity queue xs false false locked x h = (refl, h)
  execute-Represents capacity queue xs false true false x h = (refl, h)
  execute-Represents capacity queue xs false true true x h =
      let full = full-Represents capacity queue xs h in
      elim (Bool-cases (ltb (length xs) capacity)) [
        | inl room ↦
            rw (full, room, enqueue_room queue x (full ∙ ap not room))
              (refl, pushed-Represents capacity queue xs x h (ground arith))
        | inr none_left ↦ rw (full, none_left) (refl, h)
      ]

  pub call-Represents :
      (capacity : ℕ) (queue : TaskQueue A) (xs : List A) (c : Call A)
      → Represents capacity queue xs
      → ((call queue c).0 ≡ (call_fifo capacity xs c).0)
        × Represents capacity (call queue c).1 (call_fifo capacity xs c).1
  unfolding call
  call-Represents capacity queue xs c h =
      execute-Represents capacity queue xs c.shutdown c.initialized c.locked c.sql h

  pub take_first-Represents :
      (capacity : ℕ) (shutdown : Bool) (queue : TaskQueue A) (xs : List A)
      → Represents capacity queue xs
      → let taken =
          if not shutdown && not (is_queue_empty queue) then dequeue queue else (none, queue) in
        (taken.0 ≡ (take_first capacity shutdown xs).0)
        × Represents capacity taken.1 (take_first capacity shutdown xs).1
  take_first-Represents capacity true queue xs h = (refl, h)
  take_first-Represents capacity false queue [] h =
      rw (empty-Represents capacity queue [] h) (refl, h)
  take_first-Represents capacity false queue (x ∷ xs) h =
      rw
        (
          empty-Represents capacity queue (x ∷ xs) h,
          dequeue-some queue (empty-Represents capacity queue (x ∷ xs) h),
        )
        (
          ap some h.3.0,
          (
            h.0,
            next-IsBehind queue.queue_size queue.rear (length xs) queue.front h.1,
            omega arith,
            h.3.1,
          ),
        )
