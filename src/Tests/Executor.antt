-- ===== src/Tests/Executor.antt =====
-- Tests of the executor of SQL.
use okmx8mm.Base.{ℕ, ◌*◌, ◌≡◌, refl, failed, List, [], ◌∷◌, true, false, some, none, pos, minus}
use okmx8mm.Executor.{Call, create_task_queue}
use okmx8mm.Executor.Abstract.{Section, submit, turn, sections, sections_fifo}
use okmx8mm.Executor.Represents.{Represents}
use okmx8mm.Executor.Fifo.{queue-refines-fifo}
use okmx8mm.Executor.Start.{start_mysql_executor, IsUsable, start-IsUsable}

abbrev running : ℕ → Call ℕ
running sql = record { shutdown = false; initialized = true; locked = true; sql = sql }

-- A queue of size three that fills, refuses, goes round its end and is waited on.
abbrev busy : List (Section ℕ)
busy =
    submit (running 7)
    ∷ submit (running 8)
    ∷ submit (running 9)
    ∷ turn false []
    ∷ submit (running 10)
    ∷ turn false []
    ∷ turn false []
    ∷ turn false (running 11 ∷ [])
    ∷ []

queue-refines-fifo_example :
    let ran = sections (create_task_queue 3 (λ i. i * i)) busy in
    let spec = sections_fifo 2 [] busy in (ran.0 ≡ spec.0) × Represents 2 ran.1 spec.1
queue-refines-fifo_example = queue-refines-fifo 2 (λ i. i * i) busy

-- What the callers and the consumer get there.
busy_lem :
    (sections_fifo 2 [] busy).0
    ≡ (pos 0 ∷ [], none)
      ∷ (pos 0 ∷ [], none)
      ∷ (minus 1 ∷ [], none)
      ∷ ([], some 7)
      ∷ (pos 0 ∷ [], none)
      ∷ ([], some 8)
      ∷ ([], some 10)
      ∷ (pos 0 ∷ [], some 11)
      ∷ []
busy_lem = refl

start-IsUsable_example :
    let ((code, context), runs) =
      start_mysql_executor false 20
        (λ i. i)
        (record { connection = minus 1; mutex_init = pos 0; cond_init = pos 0; create = pos 0 }) in
    IsUsable 20 (λ i. i) context
    × ((runs ≡ true → (code ≡ pos 0) × (context.mysql_context ≡ true))
        × (runs ≡ false → code ≡ minus 1))
    × (context.destroyed_null ≡ true → code ≡ minus 1)
    × (failed (minus 1) ≡ true → false ≡ false → context.destroyed_null ≡ true)
start-IsUsable_example =
    start-IsUsable false 20 (λ i. i)
      (record { connection = minus 1; mutex_init = pos 0; cond_init = pos 0; create = pos 0 })
