-- ===== src/Allocator/Miners/Partial.antt =====
-- `AllocatePartialForJob` of allocator.go: the loop over the miners that are busy in part, then the
-- loop over those that are free.
pub mod Shares
pub mod Duration
use proxy_router.Prelude.{
  Bool, true, false, not, String, List, [], ◌∷◌, Option, none, some, if◌then◌else◌, string_eq,
}
use proxy_router.Prelude.Int.{ℤ, pos, ◌+ℤ◌, ltb_ℤ}
use proxy_router.Prelude.Assoc.{Assoc, insert}
use proxy_router.Floats.{Float64}
use proxy_router.Hashrate.Units.{ghs_to_job_submitted_v2, ghs_to_hs}
use proxy_router.Allocator.Scheduler.{Scheduler, add_task}
use proxy_router.Allocator.Miners.{
  MinerItem, Proxies, Sort, MinerSnapshot, get_miners_snapshot, load_connected, allocation_min_job,
  allocation_min_duration, nanos_per_second,
}

-- The variables of the two loops.
pub record JobShares (F : Type 0) : Type 0 where
  pub proxies : Proxies F
  pub miner_id_job : Assoc String F
  pub job_needed : F

-- A round goes on with the loop, or returns from the function with this remainder.
pub data Flow (F : Type 0) : Type 0 where
  goes_on : JobShares F → Flow F
  returns : JobShares F → F → Flow F

-- What the function returns: the shares, and the remainder.
abbrev pub result : {F : Type 0} → Flow F → JobShares F × F
result (goes_on s) = (s, s.job_needed)
result (returns s rest) = (s, rest)

-- The next loop, unless the function has returned.
abbrev pub and_then : {F : Type 0} → Flow F → (JobShares F → Flow F) → Flow F
and_then (goes_on s) k = k s
and_then (returns s rest) k = returns s rest

module _ (fl : Float64) (id : String) (dest : Option String) (cycle_end_timeout now : ℤ) where
  open fl use {F, of_int, sub, mul, div, min, lt, le, to_int64}

  -- `AddTask` for this job, noted in the result.
  unfoldable pub give : String → Scheduler F → F → JobShares F → JobShares F
  give miner_id m job s = record s {
    proxies = insert miner_id (add_task fl m id dest job (now +ℤ cycle_end_timeout)) s.proxies;
    miner_id_job = insert miner_id job s.miner_id_job;
  }

  unfoldable pub duration_to_do_job : F → MinerItem F → ℤ
  duration_to_do_job job_needed miner =
      to_int64 (mul (div job_needed (ghs_to_hs fl (to_int64 miner.hr_ghs))) (nanos_per_second fl))

  -- "try to add at least a minJob and continue"
  unfoldable pub add_chunk : MinerItem F → JobShares F → Flow F
  unfolding give
  add_chunk miner s =
      if le (allocation_min_job fl) miner.job_remaining
      then elim (load_connected fl s.proxies miner.id) [
        | none ↦ goes_on s
        | some m ↦ goes_on (record (give miner.id m miner.job_remaining s) {
          job_needed = sub s.job_needed miner.job_remaining;
        })
      ]
      else goes_on s

  -- "try to add the whole chunk and return"
  unfoldable pub add_whole : MinerItem F → JobShares F → Flow F
  unfolding add_chunk
  add_whole miner s =
      if le s.job_needed miner.job_remaining
      then elim (load_connected fl s.proxies miner.id) [
        | none ↦ add_chunk miner s
        | some m ↦ returns (give miner.id m s.job_needed s) (of_int (pos 0))
      ]
      else add_chunk miner s

  -- The tests that pass a miner over.
  unfoldable pub is_passed_over : MinerItem F → JobShares F → Bool
  is_passed_over miner s =
      if lt miner.job_remaining (allocation_min_job fl)
      then true
      else if ltb_ℤ miner.time_remaining allocation_min_duration
      then true
      else ltb_ℤ (duration_to_do_job s.job_needed miner) allocation_min_duration

  unfoldable pub partial_round : MinerItem F → JobShares F → Flow F
  partial_round miner s =
      if lt s.job_needed (allocation_min_job fl)
      then returns s (of_int (pos 0))
      else if is_passed_over miner s
      then goes_on s
      else add_whole miner s

  unfoldable pub partial_loop : List (MinerItem F) → JobShares F → Flow F
  unfolding partial_round
  partial_loop [] s = goes_on s
  partial_loop (miner ∷ miners) s = and_then (partial_round miner s) (partial_loop miners)

  unfoldable pub add_free : MinerItem F → F → JobShares F → JobShares F
  unfolding give
  add_free miner job s = elim (load_connected fl s.proxies miner.id) [
    | none ↦ s
    | some m ↦ record (give miner.id m job s) { job_needed = sub s.job_needed job }
  ]

  -- `returns` stands for the `break`, after which the function returns `jobNeeded`, set to 0.
  unfoldable pub free_round : MinerItem F → JobShares F → Flow F
  unfolding add_free
  free_round miner s =
      let miner_job_remaining = ghs_to_job_submitted_v2 fl miner.hr_ghs cycle_end_timeout in
      if lt s.job_needed (allocation_min_job fl)
      then returns s (of_int (pos 0))
      else if le miner_job_remaining (allocation_min_job fl)
      then goes_on s
      else goes_on (add_free miner (min miner_job_remaining s.job_needed) s)

  unfoldable pub free_loop : List (MinerItem F) → JobShares F → Flow F
  unfolding free_round
  free_loop [] s = goes_on s
  free_loop (miner ∷ miners) s = and_then (free_round miner s) (free_loop miners)

  unfoldable pub allocate_partial_for_job : Sort (MinerItem F) → Proxies F → F → JobShares F × F
  unfolding partial_loop free_loop
  allocate_partial_for_job sort proxies job_needed =
      let miners = get_miners_snapshot fl sort proxies cycle_end_timeout in
      let s : JobShares F = record {
        proxies = proxies;
        miner_id_job = [];
        job_needed = job_needed;
      } in
      result (and_then (partial_loop miners.partial_miners s) (free_loop miners.free_miners))
