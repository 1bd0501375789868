-- ===== src/Executor.antt =====
-- The thread that runs SQL, OKMX8MM-Demo3/data-collector-demo3/src/mysql-executor/
-- mysql-executor.c. Statements have a type `A`, the memory of the queue is a function of the
-- index, and the MySQL client is the state `M` with the calls of `Mysql`. Each critical section
-- of the queue's mutex is one step.
pub mod Segment
pub mod Abstract
pub mod Represents
pub mod Fifo
pub mod Start
use okmx8mm.Base.{ℕ, zero, suc, ◌+◌, ◌%◌, List, [], ◌∷◌, ◌++◌, Bool, true, false, not, ◌&&◌, ◌||◌}
use okmx8mm.Base.{Option, none, some, ◌==◌, if◌then◌else◌, ℤ, pos, minus, failed, negative}

pub record TaskQueue (A : Type 0) : Type 0 where
  pub queue_elements : ℕ → A
  pub queue_size : ℕ
  pub front : ℕ
  pub rear : ℕ

-- `elements[i] = v`.
unfoldable pub write_element : {A : Type 0} → (ℕ → A) → ℕ → A → ℕ → A
write_element elements i v j = if j == i then v else elements j

module _ {A : Type 0} where
  -- The memory that `malloc` returns holds anything.
  unfoldable pub create_task_queue : ℕ → (ℕ → A) → TaskQueue A
  create_task_queue size memory = record {
    queue_elements = memory;
    queue_size = size;
    front = 0;
    rear = 0;
  }

  unfoldable pub is_queue_empty : TaskQueue A → Bool
  is_queue_empty queue = queue.front == queue.rear

  unfoldable pub is_queue_full : TaskQueue A → Bool
  is_queue_full queue = (queue.front + 1) % queue.queue_size == queue.rear

  unfoldable pub enqueue : TaskQueue A → A → ℤ × TaskQueue A
  enqueue queue element = if is_queue_full queue then (minus 1, queue) else (
    pos 0,
    record queue {
      queue_elements = write_element queue.queue_elements queue.front element;
      front = (queue.front + 1) % queue.queue_size;
    },
  )

  unfoldable pub dequeue : TaskQueue A → Option A × TaskQueue A
  dequeue queue = if is_queue_empty queue then (none, queue) else (
    some (queue.queue_elements queue.rear),
    record queue { rear = (queue.rear + 1) % queue.queue_size },
  )

  -- `execute_sql_async`: the flag of the shutdown, whether MySQL is initialised, and whether the
  -- mutex can be locked.
  unfoldable pub execute_sql_async : Bool → Bool → Bool → TaskQueue A → A → ℤ × TaskQueue A
  execute_sql_async shutdown initialized locked queue sql =
      if shutdown || not initialized
      then (minus 1, queue)
      else if not locked
      then (minus 1, queue)
      else if not (is_queue_full queue)
      then enqueue queue sql
      else (minus 1, queue)

-- A call of `execute_sql_async` by another thread.
pub record Call (A : Type 0) : Type 0 where
  pub shutdown : Bool
  pub initialized : Bool
  pub locked : Bool
  pub sql : A

module _ {A : Type 0} where
  unfoldable pub call : TaskQueue A → Call A → ℤ × TaskQueue A
  call queue c = execute_sql_async c.shutdown c.initialized c.locked queue c.sql

  -- The calls of the other threads, while the consumer waits for the condition.
  unfoldable pub calls : TaskQueue A → List (Call A) → List ℤ × TaskQueue A
  calls queue [] = ([], queue)
  calls queue (c ∷ cs) =
      let first = call queue c in let rest = calls first.1 cs in (first.0 ∷ rest.0, rest.1)

  -- The consumer with the mutex locked: it waits on an empty queue, once, and takes a statement
  -- if there is one. `shutdown` is the flag after the wait.
  unfoldable pub take_sql : Bool → TaskQueue A → List (Call A) → (List ℤ × Option A) × TaskQueue A
  take_sql shutdown queue waiting =
      let waited = if is_queue_empty queue then calls queue waiting else ([], queue) in
      let taken =
        if not shutdown && not (is_queue_empty waited.1)
        then dequeue waited.1
        else (none, waited.1) in
      ((waited.0, taken.0), taken.1)

-- The MySQL client and the clock. `test_connection` and `query` return as the C functions do.
pub record Mysql (A M : Type 0) : Type 0 where
  pub test_connection : M → ℤ × M
  pub query : M → A → ℤ × M
  pub sleep : M → M

module _ {A M : Type 0} (mysql : Mysql A M) where
  -- `do_execute_sql`. `shutdown` is the flag after the sleep.
  unfoldable pub do_execute_sql : Bool → M → A → ℤ × M
  do_execute_sql shutdown m sql =
      let tested = mysql.test_connection m in
      let slept = if negative tested.0 then mysql.sleep tested.1 else tested.1 in
      if negative tested.0 && shutdown
      then (minus 1, slept)
      else let asked = mysql.query slept sql in
        if failed asked.0 then (minus 1, asked.1) else (pos 0, asked.1)

  -- One round of the thread: the statement that it took, if there is one, is run, and the LED of
  -- MySQL is told (`true` is normal).
  unfoldable pub run_sql : Bool → M → Option A → Option Bool × M
  run_sql shutdown m none = (none, m)
  run_sql shutdown m (some sql) =
      let ran = do_execute_sql shutdown m sql in (some (not (failed ran.0)), ran.1)
