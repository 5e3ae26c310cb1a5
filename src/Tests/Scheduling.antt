-- ===== src/Tests/Scheduling.antt =====
-- The scheduler and its loop (internal/resources/hashrate/allocator/scheduler.go) on whole numbers.
use proxy_router.Prelude.{◌≡◌, ◌↔◌, refl, true, false, String, List, [], ◌∷◌, some, arith}
use proxy_router.Prelude.Options.{Returns}
use proxy_router.Prelude.Int.{ℤ, pos, ◌-ℤ◌, ◌≤ℤ◌, int_laws}
use proxy_router.Floats.Exact.{exact}
use proxy_router.Allocator.TaskList.{MinerTask, TaskList, lock_next_task}
use proxy_router.Allocator.Scheduler.{Scheduler}
use proxy_router.Allocator.Scheduler.Loop.{
  Turn, LoopState, exits, exited, deadline, nothing_ready, task_turn, on_submits, on_disconnect,
  on_end, proxy_exited,
}
use proxy_router.Allocator.Scheduler.Loop.Ends.{ended, ids}
use proxy_router.Allocator.Scheduler.Loop.Work.{total, on_submits-cancelled}
use proxy_router.Allocator.Scheduler.Loop.Turns.{TurnDone, task_turn-TurnDone}
use proxy_router.Allocator.Scheduler.Loop.Disconnect.{on_disconnect_twice}

abbrev a_task : MinerTask ℤ
a_task = record {
  id = "a";
  dest = some "pool";
  job = pos 6000;
  deadline = pos 100;
  remaining_job_to_submit = pos 6000;
  is_cancelled = false;
}

abbrev b_task : MinerTask ℤ
b_task = record a_task { id = "b" }

abbrev queue : TaskList ℤ
queue = record { tasks = a_task ∷ b_task ∷ []; size = 2; task_taken = false }

abbrev scheduler : Scheduler ℤ
scheduler = record {
  primary_dest = "default";
  tasks = queue;
  new_task_signal = false;
  is_disconnecting = false;
  hashrate_ghs = pos 100;
  is_vetting = false;
}

abbrev state : LoopState ℤ
state = record { tasks = queue; notices = [] }

-- Two shares, one more task, then the deadline.
abbrev turn : Turn ℤ
turn = record {
  first = nothing_ready;
  set_dest_fails = false;
  diffs = pos 1000 ∷ pos 2000 ∷ [];
  added = b_task ∷ [];
  second = deadline;
}

-- The proxy exits before the task starts.
abbrev exit_turn : Turn ℤ
exit_turn = record turn { first = exited }

task_turn-TurnDone_example : Returns (TurnDone exact turn state) (task_turn exact turn state)
task_turn-TurnDone_example = task_turn-TurnDone exact turn state (ground arith) refl

on_submits-cancelled_example :
    let t = on_submits exact (pos 4000 ∷ pos 2000 ∷ []) a_task in
    (t.remaining_job_to_submit ≡ pos 6000 -ℤ total exact (pos 4000 ∷ pos 2000 ∷ []))
    × ((t.is_cancelled ≡ true) ↔ (t.remaining_job_to_submit ≤ℤ pos 0))
on_submits-cancelled_example =
    on_submits-cancelled exact (pos 4000) (pos 2000 ∷ []) a_task
      (omega int_laws, (omega int_laws, tt)) refl

abbrev after_exit : LoopState ℤ
after_exit = record {
  tasks = record queue { task_taken = true };
  notices = on_end "a" (pos 6000) proxy_exited ∷ [];
}

exit_runs : task_turn exact exit_turn state ≡ some (exits after_exit)
unfolding task_turn lock_next_task
exit_runs = refl

on_disconnect_twice_example :
    Returns
      (λ r.
        (id : String) × (rest : List String) × (ended r.notices ≡ id ∷ id ∷ rest)
        × (ids r.tasks.tasks ≡ rest))
      (on_disconnect exact after_exit)
on_disconnect_twice_example =
    on_disconnect_twice exact exit_turn state after_exit (ground arith) refl exit_runs
