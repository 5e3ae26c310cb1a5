-- ===== src/Tests/Queue.antt =====
-- The task list of internal/resources/hashrate/allocator/tasklist.go on small inputs.
use proxy_router.Prelude.{
  suc, ◌≡◌, refl, true, false, String, [], ◌∷◌, ◌++◌, some, arith, Among, length,
}
use proxy_router.Prelude.Options.{Returns}
use proxy_router.Prelude.Int.{ℤ, pos}
use proxy_router.Allocator.TaskList.{MinerTask, TaskList, cancel, unlock_and_remove}
use proxy_router.Allocator.TaskList.Cancel.{without}
use proxy_router.Allocator.TaskList.Size.{IsConsistent, unlock_and_remove-IsConsistent}
use proxy_router.Allocator.TaskList.Neighbours.{
  held_front, waiting, cancel-without, cancel-leaves_neighbour,
}

abbrev task : String → ℤ → MinerTask ℤ
task id job = record {
  id = id;
  dest = some "pool";
  job = job;
  deadline = pos 9;
  remaining_job_to_submit = job;
  is_cancelled = false;
}

abbrev three_tasks : TaskList ℤ
three_tasks = record {
  tasks = task "x" (pos 1) ∷ task "c" (pos 2) ∷ task "c" (pos 3) ∷ [];
  size = 3;
  task_taken = false;
}

abbrev running : TaskList ℤ
running = record {
  tasks = task "c" (pos 2) ∷ task "c" (pos 3) ∷ task "x" (pos 1) ∷ [];
  size = 3;
  task_taken = true;
}

cancel_runs : (cancel three_tasks "c").tasks ≡ task "x" (pos 1) ∷ task "c" (pos 3) ∷ []
unfolding cancel
cancel_runs = refl

unlock_and_remove-IsConsistent_example :
    Returns (λ q. IsConsistent q × (3 ≡ suc (length q.tasks))) (unlock_and_remove running)
unlock_and_remove-IsConsistent_example = unlock_and_remove-IsConsistent running (ground arith) refl

-- Tasks of one contract that do not stand side by side.
abbrev spread : TaskList ℤ
spread = record {
  tasks = task "c" (pos 1) ∷ task "x" (pos 2) ∷ task "c" (pos 3) ∷ task "y" (pos 4) ∷ [];
  size = 4;
  task_taken = true;
}

cancel-without_example :
    (cancel spread "c").tasks
    ≡ held_front "c" true spread.tasks ++ without "c" (waiting true spread.tasks)
cancel-without_example = cancel-without spread "c" (refl, (refl, tt))

cancel-leaves_neighbour_example : Among (task "c" (pos 3)) (cancel three_tasks "c").tasks
cancel-leaves_neighbour_example =
    cancel-leaves_neighbour three_tasks "c" (task "c" (pos 2)) (task "c" (pos 3))
      (task "x" (pos 1) ∷ []) [] refl refl (refl, tt) refl refl
