-- ===== src/Allocator/Scheduler.antt =====
-- internal/resources/hashrate/allocator/scheduler.go: what the scheduler of a miner holds, and its
-- answers to the allocator. The proxy below it is seen through what the scheduler reads of it: the
-- hashrate that its counters show, and whether it still vets the miner. A call reads each of them
-- once here, where the source may read a value that has moved between two reads.
pub mod Status
pub mod Loop
use proxy_router.Prelude.{
  ℕ, ◌+◌, Bool, true, false, not, ◌&&◌, String, List, [], ◌∷◌, Option, some, if◌then◌else◌, ltb,
  ◌==◌, ◌=?◌, string_eq,
}
use proxy_router.Prelude.Int.{ℤ, pos, negsuc, ltb_ℤ}
use proxy_router.Floats.{Float64}
use proxy_router.Hashrate.Units.{ghs_to_job_submitted_v2}
use proxy_router.Allocator.TaskList
use proxy_router.Allocator.TaskList.{MinerTask, TaskList, new_task}

pub record Scheduler (F : Type 0) : Type 0 where
  pub primary_dest : String
  pub tasks : TaskList F
  -- the channel of capacity one holds a signal
  pub new_task_signal : Bool
  pub is_disconnecting : Bool
  pub hashrate_ghs : F
  pub is_vetting : Bool

-- miner_status.go
pub data MinerStatus : Type 0 where
  vetting free busy partial_busy disconnecting : MinerStatus

unfoldable pub status_string : MinerStatus → String
status_string vetting = "vetting"
status_string free = "free"
status_string busy = "busy"
status_string partial_busy = "partial_busy"
status_string disconnecting = "disconnecting"

-- An `int32` bit pattern that stands for a number above 0.
abbrev pub is_positive : ℕ → Bool
is_positive n = ltb 0 n && ltb n 2147483648

module _ {F : Type 0} where
  -- A send that does not block: a signal that waits already is enough.
  signal : Scheduler F → Scheduler F
  signal p = record p { new_task_signal = true }

  unfoldable pub set_primary_dest : Scheduler F → String → Scheduler F
  unfolding signal
  set_primary_dest p dest = signal (record p { primary_dest = dest })

  unfoldable pub remove_tasks_by_id : Scheduler F → String → Scheduler F
  remove_tasks_by_id p id = record p { tasks = TaskList.cancel p.tasks id }

  unfoldable pub get_task_count : Scheduler F → ℕ
  get_task_count p = p.tasks.size

  tasks_of : String → List (MinerTask F) → List (MinerTask F)
  tasks_of id [] = []
  tasks_of id (t ∷ ts) = if t.id =? id then t ∷ tasks_of id ts else tasks_of id ts

  unfoldable pub get_tasks_by_id : Scheduler F → String → List (MinerTask F)
  unfolding tasks_of
  get_tasks_by_id p id = tasks_of id p.tasks.tasks

  unfoldable pub is_free : Scheduler F → Bool
  is_free p = p.tasks.size == 0

module _ (fl : Float64) where
  open fl use {F, of_int, add, sub, lt, le, to_int64}

  unfoldable pub add_task : Scheduler F → String → Option String → F → ℤ → Scheduler F
  unfolding signal
  add_task p id dest job_submitted deadline =
      let (new_length, q) =
        TaskList.add p.tasks (new_task to_int64 id dest job_submitted deadline) in
      let p' = record p { tasks = q } in if new_length == 1 then signal p' else p'

  -- The loop of `GetTotalScheduledJob`.
  unfoldable pub total_job : F → List (MinerTask F) → F
  total_job total [] = total
  total_job total (t ∷ ts) = total_job (add total (of_int t.remaining_job_to_submit)) ts

  unfoldable pub get_total_scheduled_job : Scheduler F → F
  unfolding total_job
  get_total_scheduled_job p = total_job (of_int (pos 0)) p.tasks.tasks

  unfoldable pub get_expected_cycle_job : Scheduler F → ℤ → F
  get_expected_cycle_job p cycle_duration = ghs_to_job_submitted_v2 fl p.hashrate_ghs cycle_duration

  unfoldable pub is_partial_busy : Scheduler F → ℤ → Bool
  is_partial_busy p cycle_duration =
      is_positive p.tasks.size
      && lt (get_total_scheduled_job p) (get_expected_cycle_job p cycle_duration)

  unfoldable pub is_busy : Scheduler F → ℤ → Bool
  is_busy p cycle_duration =
      is_positive p.tasks.size
      && le (get_expected_cycle_job p cycle_duration) (get_total_scheduled_job p)

  unfoldable pub is_accepting_tasks : Scheduler F → ℤ → Bool
  unfolding is_busy
  is_accepting_tasks p duration = not (is_busy p duration)

  abbrev is_zero : ℤ → Bool
  is_zero (pos n) = n == 0
  is_zero (negsuc n) = false

  unfoldable pub get_job_could_be_scheduled_till : Scheduler F → ℤ → F
  get_job_could_be_scheduled_till p interval =
      if is_zero interval
      then of_int (pos 0)
      else sub (get_expected_cycle_job p interval) (get_total_scheduled_job p)

  unfoldable pub get_status : Scheduler F → ℤ → MinerStatus
  unfolding is_partial_busy is_free
  get_status p cycle_duration =
      if p.is_disconnecting
      then disconnecting
      else if p.is_vetting
      then vetting
      else if is_free p
      then free
      else if is_partial_busy p cycle_duration
      then partial_busy
      else busy
