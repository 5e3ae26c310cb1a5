-- ===== src/Allocator/Scheduler/Status.antt =====
-- How the scheduler's answers to the allocator fit together (scheduler.go).
use proxy_router.Prelude.{
  ◌<◌, ◌≡◌, ◌↔◌, ◌⊎◌, true, false, not, String, [], ◌∷◌, ◌++◌, Option, arith, if◌then◌else◌, ◌==◌,
  length, length-append,
}
use proxy_router.Prelude.Int.{ℤ}
use proxy_router.Floats.{Float64}
use proxy_router.Allocator.TaskList.{new_task, add}
use proxy_router.Allocator.Scheduler.{
  Scheduler, free, partial_busy, is_accepting_tasks, get_status, get_total_scheduled_job,
  get_expected_cycle_job, add_task,
}

module _ (fl : Float64) where
  open fl use {F, lt, le}

  -- For a miner that is connected and vetted, whose task count fits an `int32` and whose job
  -- totals are numbers: it accepts tasks exactly if its status is free or partly busy.
  pub is_accepting_tasks-get_status :
      (p : Scheduler F) (d : ℤ)
      → p.is_disconnecting ≡ false
      → p.is_vetting ≡ false
      → p.tasks.size < 2147483648
      → le (get_expected_cycle_job fl p d) (get_total_scheduled_job fl p)
        ≡ not (lt (get_total_scheduled_job fl p) (get_expected_cycle_job fl p d))
      → (is_accepting_tasks fl p d ≡ true)
        ↔ ((get_status fl p d ≡ free) ⊎ (get_status fl p d ≡ partial_busy))
  unfolding is_accepting_tasks get_status
  is_accepting_tasks-get_status p d c v s n = ground arith

  -- `AddTask` leaves a signal when its task is the only one, and otherwise leaves the channel as it
  -- was. The queue grows at its end by one task for the contract, with the whole job to submit.
  pub add_task-signal :
      (p : Scheduler F) (id : String) (dest : Option String) (job : F) (deadline : ℤ)
      → let q = add_task fl p id dest job deadline in
        (q.tasks.tasks ≡ p.tasks.tasks ++ new_task fl.to_int64 id dest job deadline ∷ [])
        × (q.new_task_signal ≡ (if length p.tasks.tasks == 0 then true else p.new_task_signal))
  unfolding add_task add
  add_task-signal p id dest job deadline =
      let n = length-append p.tasks.tasks (new_task fl.to_int64 id dest job deadline ∷ []) in
      (ground (arith, n), ground (arith, n))
