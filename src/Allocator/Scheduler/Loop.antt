-- ===== src/Allocator/Scheduler/Loop.antt =====
-- `taskLoop` and `onDisconnect` of scheduler.go, with what they tell the owners of the tasks. One
-- turn of the loop is driven by what happens in it: what the two `select`s find ready, whether
-- `SetDest` fails, the shares that the miner submits for the task, and the tasks that the
-- allocator adds. `RemoveTasksByID` in the middle of a turn is left out.
pub mod Work
pub mod Ends
pub mod Turns
pub mod Disconnect
use proxy_router.Prelude.{
  ℕ, Bool, true, false, not, ◌||◌, String, List, [], ◌∷◌, ◌++◌, Option, none, some, if◌then◌else◌,
}
use proxy_router.Prelude.Options.{◌>>=◌}
use proxy_router.Prelude.Int.{ℤ, pos, ◌-ℤ◌, ltb_ℤ}
use proxy_router.Floats.{Float64}
use proxy_router.Allocator.TaskList
use proxy_router.Allocator.TaskList.{
  MinerTask, TaskList, cancel_task, lock_next_task, unlock_and_remove,
}
use proxy_router.Allocator.Scheduler.{Scheduler}

-- The error that `OnEnd` gets; `completed` is nil.
pub data Reason : Type 0 where
  completed deadline_exceeded proxy_exited conn_dest miner_disconnected : Reason

pub data Notice : Type 0 where
  on_end : String → ℤ → Reason → Notice
  on_disconnect_notice : String → ℤ → Notice

-- What a `select` picks; `nothing_ready` is its default case.
pub data Ready : Type 0 where
  exited is_cancelled deadline nothing_ready : Ready

pub record Turn (F : Type 0) : Type 0 where
  pub first : Ready
  pub set_dest_fails : Bool
  pub diffs : List F
  pub added : List (MinerTask F)
  pub second : Ready

pub record LoopState (F : Type 0) : Type 0 where
  pub tasks : TaskList F
  pub notices : List Notice

-- How a turn ends: `waits` when the turn's second `select` is still blocked.
pub data Outcome (F : Type 0) : Type 0 where
  continues idle exits waits : LoopState F → Outcome F

abbrev pub is_negative_or_zero : ℤ → Bool
is_negative_or_zero n = not (ltb_ℤ (pos 0) n)

module _ (fl : Float64) where
  open fl use {F, to_int64}

  -- The callback `onSubmit` on the task that it holds.
  unfoldable pub on_submit : F → MinerTask F → MinerTask F
  on_submit diff task =
      let remaining = task.remaining_job_to_submit -ℤ to_int64 diff in
      let task' = record task { remaining_job_to_submit = remaining } in
      if is_negative_or_zero remaining then (cancel_task task').1 else task'

  unfoldable pub on_submits : List F → MinerTask F → MinerTask F
  on_submits [] task = task
  on_submits (diff ∷ diffs) task = on_submits diffs (on_submit diff task)

  abbrev pub set_front : MinerTask F → List (MinerTask F) → List (MinerTask F)
  set_front t [] = []
  set_front t (_ ∷ ts) = t ∷ ts

  -- While the task runs: its shares come in, and the allocator adds tasks behind it.
  unfoldable pub during : Turn F → MinerTask F → TaskList F → TaskList F
  during turn task p =
      TaskList.add_all (record p { tasks = set_front (on_submits turn.diffs task) p.tasks })
        turn.added

  unfoldable pub end_task : MinerTask F → Reason → LoopState F → LoopState F
  end_task task reason s = record s {
    notices = s.notices ++ on_end task.id task.remaining_job_to_submit reason ∷ [];
  }

  -- `OnEnd`, then `UnlockAndRemove` and the next turn.
  unfoldable pub end_and_remove : MinerTask F → Reason → LoopState F → Option (Outcome F)
  unfolding end_task
  end_and_remove task reason s = do
    let s' = end_task task reason s
    p ← unlock_and_remove s'.tasks
    some (continues (record s' { tasks = p }))

  -- The cases that both `select`s share.
  unfoldable pub on_ready :
      Ready → MinerTask F → LoopState F → Option (Outcome F) → Option (Outcome F)
  unfolding end_and_remove end_task
  on_ready exited task s otherwise = some (exits (end_task task proxy_exited s))
  on_ready is_cancelled task s otherwise = end_and_remove task completed s
  on_ready deadline task s otherwise = end_and_remove task deadline_exceeded s
  on_ready nothing_ready task s otherwise = otherwise

  -- From `SetDest` on.
  unfoldable pub run_task : Turn F → MinerTask F → LoopState F → Option (Outcome F)
  unfolding on_ready during
  run_task turn task s =
      if turn.set_dest_fails
      then some (exits (end_task task conn_dest s))
      else let s' = record s { tasks = during turn task s.tasks } in
        on_ready turn.second (on_submits turn.diffs task) s' (some (waits s'))

  turn_with : Turn F → Option (MinerTask F) → LoopState F → Option (Outcome F)
  unfolding run_task
  turn_with turn none s = some (idle s)
  turn_with turn (some task) s = on_ready turn.first task s (run_task turn task s)

  -- One turn; `none` is a panic of the task list.
  unfoldable pub task_turn : Turn F → LoopState F → Option (Outcome F)
  unfolding turn_with
  task_turn turn s = do r ← lock_next_task s.tasks; turn_with turn r.0 (record s { tasks = r.1 })

  abbrev pub next_turn : Outcome F → (LoopState F → Option (Outcome F)) → Option (Outcome F)
  next_turn (continues s) k = k s
  next_turn (idle s) k = some (idle s)
  next_turn (exits s) k = some (exits s)
  next_turn (waits s) k = some (waits s)

  unfoldable pub task_loop : List (Turn F) → LoopState F → Option (Outcome F)
  task_loop [] s = some (continues s)
  task_loop (turn ∷ turns) s = do o ← task_turn turn s; next_turn o (task_loop turns)

  -- The loop over the tasks in `onDisconnect`.
  unfoldable pub notify_all : List (MinerTask F) → List Notice
  notify_all [] = []
  notify_all (t ∷ ts) =
      on_disconnect_notice t.id t.remaining_job_to_submit
      ∷ on_end t.id t.remaining_job_to_submit miner_disconnected
      ∷ notify_all ts

  unfoldable pub on_disconnect : LoopState F → Option (LoopState F)
  unfolding notify_all
  on_disconnect s =
      let s' = record s { notices = s.notices ++ notify_all s.tasks.tasks } in
      if s.tasks.task_taken
      then (do p ← unlock_and_remove s'.tasks; some (record s' { tasks = p }))
      else some s'
