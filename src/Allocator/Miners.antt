-- ===== src/Allocator/Miners.antt =====
-- internal/resources/hashrate/allocator/allocator.go. The collection of schedulers is a map in the
-- order of one iteration; the time of the call and the stable sort (golang.org/x/exp/slices) are
-- arguments. The callbacks that a task carries are left out, as in `TaskList`.
pub mod Full
pub mod Partial
use proxy_router.Prelude.{
  ℕ, Bool, true, false, not, ◌&&◌, ◌||◌, String, List, [], ◌∷◌, ◌++◌, Option, none, some,
  if◌then◌else◌, ◌==◌, string_eq,
}
use proxy_router.Prelude.Int.{ℤ, pos, negsuc, ◌+ℤ◌, ltb_ℤ}
use proxy_router.Prelude.Assoc.{Assoc, lookup, insert}
use proxy_router.Floats.{Float64}
use proxy_router.Hashrate.Units.{ghs_to_job_submitted_v2, job_submitted_to_ghs, ghs_to_hs}
use proxy_router.Allocator.Scheduler.{
  Scheduler, is_free, is_partial_busy, get_job_could_be_scheduled_till, add_task,
}

pub record MinerItem (F : Type 0) : Type 0 where
  pub id : String
  pub hr_ghs : F
  pub job_remaining : F
  pub time_remaining : ℤ
  pub is_full_miner : Bool

pub record MinerSnapshot (F : Type 0) : Type 0 where
  pub partial_miners : List (MinerItem F)
  pub free_miners : List (MinerItem F)

abbrev pub Proxies : Type 0 → Type 0
Proxies F = Assoc String (Scheduler F)

-- `slices.SortStableFunc`
abbrev pub Sort : Type 0 → Type 0
Sort A = (A → A → Bool) → List A → List A

-- 5 seconds in nanoseconds
abbrev pub allocation_min_duration : ℤ
allocation_min_duration = pos 5000000000

module _ (fl : Float64) where
  open fl use {F, of_int, add, sub, mul, div, lt, le, to_int64}

  abbrev pub allocation_min_job : F
  allocation_min_job = of_int (pos 5000)

  abbrev pub hashrate_prediction_adjustment : F
  hashrate_prediction_adjustment = of_int (pos 1)

  abbrev pub nanos_per_second : F
  nanos_per_second = of_int (pos 1000000000)

  free_item : Scheduler F → String → ℤ → MinerItem F
  free_item item id remaining = record {
    id = id;
    hr_ghs = mul item.hashrate_ghs hashrate_prediction_adjustment;
    job_remaining = ghs_to_job_submitted_v2 fl item.hashrate_ghs remaining;
    time_remaining = remaining;
    is_full_miner = true;
  }

  partial_item : Scheduler F → String → ℤ → MinerItem F
  partial_item item id remaining =
      let job = get_job_could_be_scheduled_till fl item remaining in
      record {
        id = id;
        hr_ghs = item.hashrate_ghs;
        job_remaining = job;
        time_remaining =
            to_int64 (mul (div (job_submitted_to_ghs fl job) item.hashrate_ghs) nanos_per_second);
        is_full_miner = false;
      }

  abbrev is_zero : ℤ → Bool
  is_zero (pos n) = n == 0
  is_zero (negsuc n) = false

  -- The visit of one scheduler in `getMinersSnapshot`.
  unfoldable pub visit : ℤ → String → Scheduler F → MinerSnapshot F → MinerSnapshot F
  unfolding free_item partial_item
  visit remaining id item snap =
      if item.is_vetting
      then snap
      else if item.is_disconnecting
      then snap
      else let snap' =
          if is_free item
          then record snap { free_miners = snap.free_miners ++ free_item item id remaining ∷ [] }
          else snap in
        if is_zero remaining
        then snap'
        else if is_partial_busy fl item remaining
        then record snap' {
          partial_miners = snap'.partial_miners ++ partial_item item id remaining ∷ [];
        }
        else snap'

  unfoldable pub visit_all : ℤ → Proxies F → MinerSnapshot F → MinerSnapshot F
  unfolding visit
  visit_all remaining [] snap = snap
  visit_all remaining ((id, item) ∷ proxies) snap =
      visit_all remaining proxies (visit remaining id item snap)

  unfoldable pub get_miners_snapshot : Sort (MinerItem F) → Proxies F → ℤ → MinerSnapshot F
  unfolding visit_all
  get_miners_snapshot sort proxies remaining =
      let snap = visit_all remaining proxies (record { partial_miners = []; free_miners = [] }) in
      record {
        free_miners = sort (λ i j. lt j.hr_ghs i.hr_ghs) snap.free_miners;
        partial_miners = sort (λ i j. lt i.job_remaining j.job_remaining) snap.partial_miners;
      }

  -- `p.proxies.Load(id)` with the test that follows it.
  unfoldable pub load_connected : Proxies F → String → Option (Scheduler F)
  load_connected proxies id = elim (lookup id proxies) [
    | none ↦ none
    | some m ↦ if m.is_disconnecting then none else some m
  ]
