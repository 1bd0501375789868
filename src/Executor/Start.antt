-- ===== src/Executor/Start.antt =====
-- The start of the executor and its clean-up: start_mysql_executor, init_mysql_executor_context
-- and dispose_mysql_executor_context of mysql-executor.c.
use okmx8mm.Base.{ℕ, ◌≡◌, Bool, true, false, not, ◌&&◌, Option, none, some, ℤ, pos, minus}
use okmx8mm.Base.{if◌then◌else◌, failed, negative, arith}
use okmx8mm.Executor.{TaskQueue, create_task_queue}

-- Which pointers of the context are not null. `destroyed_null` says that a pthread object behind
-- a null pointer was destroyed.
pub record Context (A : Type 0) : Type 0 where
  pub mysql_context : Bool
  pub queue : Option (TaskQueue A)
  pub queue_mutex : Bool
  pub queue_cond : Bool
  pub destroyed_null : Bool

-- What the calls return: init_mysql_connection, pthread_mutex_init, pthread_cond_init and
-- pthread_create.
pub record Returned : Type 0 where
  pub connection : ℤ
  pub mutex_init : ℤ
  pub cond_init : ℤ
  pub create : ℤ

module _ {A : Type 0} where
  -- `memset` of the context.
  unfoldable pub cleared : Context A
  cleared = record {
    mysql_context = false;
    queue = none;
    queue_mutex = false;
    queue_cond = false;
    destroyed_null = false;
  }

  unfoldable pub init_mysql_executor_context :
      Bool → ℕ → (ℕ → A) → Returned → Context A → ℤ × Context A
  init_mysql_executor_context ignore_init_failure queue_size memory returned context =
      if failed returned.connection && not ignore_init_failure
      then (minus 1, context)
      else let with_mutex = record context {
        mysql_context = true;
        queue = some (create_task_queue queue_size memory);
        queue_mutex = true;
      } in
        if failed returned.mutex_init
        then (minus 1, with_mutex)
        else let with_cond = record with_mutex { queue_cond = true } in
          if failed returned.cond_init then (minus 1, with_cond) else (pos 0, with_cond)

  -- The tests of the mutex and of the condition are as they are in the code.
  unfoldable pub dispose_mysql_executor_context : Context A → Context A
  dispose_mysql_executor_context context = record context {
    mysql_context = false;
    queue = none;
    destroyed_null =
        if not context.queue_mutex
        then true
        else if not context.queue_cond
        then true
        else context.destroyed_null;
  }

  -- `start_mysql_executor`: the code, the context, and whether the thread runs.
  unfoldable pub start_mysql_executor : Bool → ℕ → (ℕ → A) → Returned → (ℤ × Context A) × Bool
  start_mysql_executor ignore_init_failure queue_size memory returned =
      let inited =
        init_mysql_executor_context ignore_init_failure queue_size memory returned cleared in
      if negative inited.0
      then ((minus 1, dispose_mysql_executor_context inited.1), false)
      else if failed returned.create
      then ((minus 1, inited.1), false)
      else ((pos 0, inited.1), true)

  -- A context that `execute_sql_async` can use: where it sees MySQL, the queue with its mutex and
  -- its condition is there, and is new.
  abbrev pub IsUsable : ℕ → (ℕ → A) → Context A → Type 0
  IsUsable queue_size memory context =
      context.mysql_context ≡ true
      → (context.queue ≡ some (create_task_queue queue_size memory))
        × (context.queue_mutex ≡ true)
        × (context.queue_cond ≡ true)

  -- Whatever the calls return, after the start a caller that sees MySQL finds the new queue, its
  -- mutex and its condition; the start returns 0 exactly if the thread runs; it destroys an object
  -- behind a null pointer only if it returns -1, and it always does if the connection fails and
  -- the failure is not ignored.
  pub start-IsUsable :
      (ignore : Bool) (size : ℕ) (memory : ℕ → A) (returned : Returned)
      → let ((code, context), runs) = start_mysql_executor ignore size memory returned in
        IsUsable size memory context
        × ((runs ≡ true → (code ≡ pos 0) × (context.mysql_context ≡ true))
            × (runs ≡ false → code ≡ minus 1))
        × (context.destroyed_null ≡ true → code ≡ minus 1)
        × (failed returned.connection ≡ true → ignore ≡ false → context.destroyed_null ≡ true)
  unfolding start_mysql_executor init_mysql_executor_context dispose_mysql_executor_context cleared
  start-IsUsable ignore size memory returned = ground arith
