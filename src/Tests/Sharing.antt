-- ===== src/Tests/Sharing.antt =====
-- The allocator (internal/resources/hashrate/allocator/allocator.go) on whole numbers.
use proxy_router.Prelude.{◌≡◌, refl, true, false, [], ◌∷◌, some, arith, string_eq}
use proxy_router.Prelude.Int.{ℤ, pos, ◌*ℤ◌}
use proxy_router.Prelude.Assoc.{Assoc, lookup}
use proxy_router.Floats.Exact.{exact}
use proxy_router.Allocator.Scheduler.{Scheduler, is_free}
use proxy_router.Allocator.Miners.{MinerItem, Proxies, Sort, get_miners_snapshot, load_connected}
use proxy_router.Allocator.Miners.Full.{
  TakesOff, allocate_full_miners_for_hr, allocate_full-TakesOff,
}
use proxy_router.Allocator.Miners.Partial.{JobShares, goes_on, partial_loop}
use proxy_router.Allocator.Miners.Partial.Duration.{partial_loop_idle}

abbrev idle_miner : ℤ → Scheduler ℤ
idle_miner hr = record {
  primary_dest = "default";
  tasks = record { tasks = []; size = 0; task_taken = false };
  new_task_signal = false;
  is_disconnecting = false;
  hashrate_ghs = hr;
  is_vetting = false;
}

abbrev proxies : Proxies ℤ
proxies =
    ("m1", idle_miner (pos 40)) ∷ ("m2", record (idle_miner (pos 30)) { is_vetting = true }) ∷ []

-- The order of the map, which is sorted here.
abbrev as_is : {A : Type 0} → Sort A
as_is f l = l

abbrev ten_minutes : ℤ
ten_minutes = pos 600000000000

allocate_full_runs :
    (allocate_full_miners_for_hr exact "c"
      (some "pool")
      ten_minutes
      (pos 0)
      as_is
      proxies
      (pos 50)).miner_ids
    ≡ "m1" ∷ []
unfolding allocate_full_miners_for_hr get_miners_snapshot is_free ◌*ℤ◌ load_connected lookup
allocate_full_runs = refl

allocate_full-TakesOff_example :
    let r =
      allocate_full_miners_for_hr exact "c"
        (some "pool")
        ten_minutes
        (pos 0)
        as_is
        proxies
        (pos 50) in
    TakesOff exact "c"
      (some "pool")
      ten_minutes
      (pos 0)
      (pos 50)
      proxies
      (get_miners_snapshot exact as_is proxies (pos 0)).free_miners
      r.miner_ids
      r.hr_ghs
      r.proxies
allocate_full-TakesOff_example =
    allocate_full-TakesOff exact "c" (some "pool") ten_minutes (pos 0) as_is proxies (pos 50)

-- A miner that is busy in part, with room for the whole job.
abbrev half_busy : MinerItem ℤ
half_busy = record {
  id = "m1";
  hr_ghs = pos 40;
  job_remaining = pos 10000;
  time_remaining = ten_minutes;
  is_full_miner = false;
}

abbrev wanted : JobShares ℤ
wanted = record { proxies = proxies; miner_id_job = []; job_needed = pos 6000 }

partial_loop_idle_example :
    partial_loop exact "c" (some "pool") ten_minutes (pos 0) (half_busy ∷ []) wanted
    ≡ goes_on wanted
partial_loop_idle_example =
    partial_loop_idle "c" (some "pool") ten_minutes (pos 0) 6000 (half_busy ∷ []) wanted refl
      (omega arith) ((40, refl, omega arith), tt)
