-- ===== src/Allocator/Scheduler/Loop/Turns.antt =====
-- One turn of `taskLoop` in scheduler.go, on every branch.
use proxy_router.Prelude.{
  ◌≡◌, refl, ap, true, false, String, List, [], ◌∷◌, none, some, ◌⊎◌, inl, inr, arith, length,
}
use proxy_router.Prelude.Options.{Returns, Returns-map}
use proxy_router.Floats.{Float64}
use proxy_router.Allocator.TaskList.{MinerTask, TaskList, lock_next_task}
use proxy_router.Allocator.TaskList.Size.{IsConsistent}
use proxy_router.Allocator.Scheduler.Loop.{Turn, LoopState, Outcome, idle, turn_with, task_turn}
use proxy_router.Allocator.Scheduler.Loop.Ends.{
  ended, ids, Busy, Served, on_ready-Settles, run_task-Served,
}

module _ (fl : Float64) where
  open fl use {F}

  -- What a turn does: nothing if no task is queued, and else it serves the first.
  abbrev pub TurnDone : Turn F → LoopState F → Outcome F → Type 0
  TurnDone turn s o =
      ((ids s.tasks.tasks ≡ []) × (o ≡ idle s))
      ⊎ ((id : String) × (rest : List String) × (ids s.tasks.tasks ≡ id ∷ rest)
          × Served fl turn (ended s.notices) id rest o)

  lock_empty :
      (p : TaskList F) → p.task_taken ≡ false → p.tasks ≡ [] → lock_next_task p ≡ some (none, p)
  unfolding lock_next_task
  lock_empty p f e = ground arith

  lock_front :
      (p : TaskList F) (t : MinerTask F) (ts : List (MinerTask F))
      → p.task_taken ≡ false
      → p.tasks ≡ t ∷ ts
      → lock_next_task p ≡ some (some t, record p { task_taken = true })
  unfolding lock_next_task
  lock_front p t ts f e = ground arith

  -- While no task is taken a turn of the loop does not panic. With the queue empty it goes idle.
  -- Else it serves the task in front: the outcome is one `OnEnd` more, for that task, unless the
  -- turn still waits; the task has left the queue if the loop goes on, and stays taken in front if
  -- the loop exits or waits; behind it stand the tasks that stood there, and any that were added.
  pub task_turn-TurnDone :
      (turn : Turn F) (s : LoopState F)
      → IsConsistent s.tasks
      → s.tasks.task_taken ≡ false
      → Returns (TurnDone turn s) (task_turn fl turn s)
  unfolding task_turn turn_with
  task_turn-TurnDone turn s c f = go s.tasks.tasks refl
    where
      go :
          (ts : List (MinerTask F))
          → s.tasks.tasks ≡ ts
          → Returns (TurnDone turn s) (task_turn fl turn s)
      go [] e = rw (lock_empty s.tasks f e) (inl (ap ids e, refl))
      go (t ∷ ts) e =
          let b : Busy fl (record s.tasks { task_taken = true }) t.id (ids ts) = record {
            taken = refl;
            queue = ap ids e;
            sound = ground (arith, ap length e);
          } in
          rw (lock_front s.tasks t ts f e) (
            on_ready-Settles fl (TurnDone turn s) turn.first t
              (record s { tasks = record s.tasks { task_taken = true } }) (ids ts) _ b
              (λ o h. inr (t.id, ids ts, ap ids e, (ids ts, inl refl, h)))
              (Returns-map _ (TurnDone turn s) _ (run_task-Served fl turn t _ (ids ts) b)
                (λ o h. inr (t.id, ids ts, ap ids e, h))))
