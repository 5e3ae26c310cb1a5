-- ===== src/Allocator/TaskList.antt =====
-- internal/resources/hashrate/allocator/tasklist.go. Each method holds the mutex for its whole
-- body, so a method is one step. A task's callbacks are left out: what is sent to them is part of
-- the scheduler's model. `cancelCh` is closed exactly when `is_cancelled` is set. The `int32` size
-- is a bit pattern below 2^32. A panic is `none`.
pub mod Size
pub mod Cancel
pub mod Neighbours
use proxy_router.Prelude.{
  ℕ, zero, suc, ◌+◌, ◌-◌, ◌%◌, Bool, true, false, ◌&&◌, String, List, [], ◌∷◌, ◌++◌, Option, none,
  some, if◌then◌else◌, length, ◌==◌, ◌=?◌, string_eq, get_elem?, remove_at,
}
use proxy_router.Prelude.Options.{◌>>=◌}
use proxy_router.Prelude.Int.{ℤ}

-- `Job` is the type of float64, and the deadline a time.
pub record MinerTask (Job : Type 0) : Type 0 where
  pub id : String
  pub dest : Option String
  pub job : Job
  pub deadline : ℤ
  pub remaining_job_to_submit : ℤ
  pub is_cancelled : Bool

pub record TaskList (Job : Type 0) : Type 0 where
  pub tasks : List (MinerTask Job)
  pub size : ℕ
  pub task_taken : Bool

abbrev pub int32_inc : ℕ → ℕ
int32_inc n = (n + 1) % 4294967296

abbrev pub int32_dec : ℕ → ℕ
int32_dec n = (n + 4294967295) % 4294967296

module _ {Job : Type 0} where
  -- `to_int64` is Go's conversion `int64(job)`.
  unfoldable pub new_task : (Job → ℤ) → String → Option String → Job → ℤ → MinerTask Job
  new_task to_int64 id dest job deadline = record {
    id = id;
    dest = dest;
    job = job;
    deadline = deadline;
    remaining_job_to_submit = to_int64 job;
    is_cancelled = false;
  }

  -- `Cancel` of a task: whether this call is the first, and the task after it.
  unfoldable pub cancel_task : MinerTask Job → Bool × MinerTask Job
  cancel_task t = if t.is_cancelled then (false, t) else (true, record t { is_cancelled = true })

  unfoldable pub new_task_list : TaskList Job
  new_task_list = record { tasks = []; size = 0; task_taken = false }

  unfoldable pub add : TaskList Job → MinerTask Job → ℕ × TaskList Job
  add p task =
      let q = record p { tasks = p.tasks ++ task ∷ []; size = int32_inc p.size } in
      (length q.tasks, q)

  -- Several calls of `Add`.
  unfoldable pub add_all : TaskList Job → List (MinerTask Job) → TaskList Job
  unfolding add
  add_all p [] = p
  add_all p (t ∷ ts) = add_all (add p t).1 ts

  front : List (MinerTask Job) → TaskList Job → Option (MinerTask Job) × TaskList Job
  front [] p = (none, p)
  front (t ∷ ts) p = (some t, record p { task_taken = true })

  -- Panics when a task is already taken.
  unfoldable pub lock_next_task : TaskList Job → Option (Option (MinerTask Job) × TaskList Job)
  unfolding front
  lock_next_task p = if p.task_taken then none else some (front p.tasks p)

  pop_front : List (MinerTask Job) → TaskList Job → Option (TaskList Job)
  pop_front [] p = none
  pop_front (t ∷ ts) p = some (record p { tasks = ts; size = int32_dec p.size })

  -- Panics when no task is taken, or none is there.
  unfoldable pub unlock_and_remove : TaskList Job → Option (TaskList Job)
  unfolding pop_front
  unlock_and_remove p =
      if p.task_taken then pop_front p.tasks (record p { task_taken = false }) else none

  unfoldable pub unlock : TaskList Job → Option (TaskList Job)
  unlock p = if p.task_taken then some (record p { task_taken = false }) else none

  abbrev pub cancel_front : List (MinerTask Job) → List (MinerTask Job)
  cancel_front [] = []
  cancel_front (t ∷ ts) = (cancel_task t).1 ∷ ts

  clear : TaskList Job → TaskList Job
  clear p = record p { tasks = []; size = 0 }

  clear_taken : List (MinerTask Job) → TaskList Job → Option (Option (MinerTask Job) × TaskList Job)
  unfolding clear
  clear_taken [] p = none
  clear_taken (t ∷ ts) p = some (some (cancel_task t).1, clear p)

  -- With the list comes the front if it was taken, cancelled: the scheduler holds it still.
  -- `Front` panics on an empty list.
  unfoldable pub cancel_all : TaskList Job → Option (Option (MinerTask Job) × TaskList Job)
  unfolding clear clear_taken
  cancel_all p = if p.task_taken then clear_taken p.tasks p else some (none, clear p)

  -- The body of the loop in `Cancel` at the index `i`, where the task is `t`.
  cancel_round : String → ℕ → MinerTask Job → TaskList Job → TaskList Job
  cancel_round contract_id i t p =
      if t.id =? contract_id
      then (if i == 0 && p.task_taken
          then record p { tasks = cancel_front p.tasks }
          else record p { tasks = remove_at i p.tasks; size = int32_dec p.size })
      else p

  -- `i` rises in each round whether or not a task is removed, so as many rounds as there are
  -- tasks are enough.
  unfoldable pub cancel_loop : ℕ → String → ℕ → TaskList Job → TaskList Job
  unfolding cancel_round
  cancel_loop zero contract_id i p = p
  cancel_loop (suc n) contract_id i p = elim (get_elem? p.tasks i) [
    | none ↦ p
    | some t ↦ cancel_loop n contract_id (i + 1) (cancel_round contract_id i t p)
  ]

  unfoldable pub cancel : TaskList Job → String → TaskList Job
  unfolding cancel_loop
  cancel p contract_id = cancel_loop (length p.tasks) contract_id 0 p
