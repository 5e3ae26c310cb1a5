-- ===== src/Seller/Cycle.antt =====
-- The cycle of contract_seller_v2.go: the adjustment of the hashrate, the replacement of a miner that
-- has left, and the end of a cycle, whose log entry is left out. The debt is an atomic int64, and its
-- sum wraps.
use proxy_router.Prelude.{[], if◌then◌else◌}
use proxy_router.Prelude.Int.{ℤ, pos, ◌+ℤ◌, wrap_int64}
use proxy_router.Floats.{Float64}
use proxy_router.Hashrate.Units.{ghs_to_job_submitted_v2, job_submitted_to_ghs_v2}
use proxy_router.Allocator.Miners.{MinerItem, Sort}
use proxy_router.Seller.{
  Contract, total_job, get_full_miners_hr, remove_full_miners, add_full_miners, add_partial_miners,
}

module _ (fl : Float64) where
  open fl use {F, of_int, add, sub, abs, lt, to_int64, to_uint64}

  -- A contract, with the hashrate that is still to be adjusted.
  abbrev pub Adjusting : Type 0
  Adjusting = Contract F × F

  unfoldable pub remove_step : Sort (MinerItem F) → Adjusting → Adjusting
  remove_step sort (p, hr) =
      let (p', removed) = remove_full_miners fl sort hr p in
      if lt hr (sub (of_int (pos 0)) (of_int (pos 1000))) then (p', add hr removed) else (p, hr)

  unfoldable pub full_step : ℤ → Sort (MinerItem F) → Adjusting → Adjusting
  full_step now sort (p, hr) =
      let (p', added) = add_full_miners fl now sort hr p in
      if lt (of_int (pos 1000)) hr then (p', sub hr added) else (p, hr)

  unfoldable pub partial_step : ℤ → Sort (MinerItem F) → ℤ → Adjusting → Adjusting
  partial_step now sort remaining (p, hr) =
      let (p', added_job) =
        add_partial_miners fl now sort (ghs_to_job_submitted_v2 fl hr remaining) remaining p in
      if lt (of_int (pos 100)) hr
      then (p', sub hr (job_submitted_to_ghs_v2 fl added_job remaining))
      else (p, hr)

  unfoldable pub note_starving : Adjusting → Contract F
  note_starving (p, hr) = record p {
    starving_ghs = if lt (of_int (pos 0)) hr then to_uint64 hr else 0;
  }

  -- `remaining` is `remainingCycleDuration`. The contract, and the hashrate that was added (or, below
  -- nothing, removed).
  unfoldable pub adjust_hashrate : ℤ → Sort (MinerItem F) → ℤ → F → Contract F → Contract F × F
  unfolding note_starving
  adjust_hashrate now sort remaining hashrate p =
      let r =
        partial_step now sort remaining (full_step now sort (remove_step sort (p, hashrate))) in
      if lt (of_int (pos 100)) (abs hashrate)
      then (note_starving r, sub hashrate r.1)
      else (record p { starving_ghs = 0 }, of_int (pos 0))

  abbrev pub with_target : F → Contract F → Contract F
  with_target target p = record p { stats = record p.stats { delivery_target_ghs = target } }

  -- `deliveryTargetGHS -= adjustHashrate(deliveryTargetGHS)`; the call leaves the target as it is.
  unfoldable pub adjust_target : ℤ → Sort (MinerItem F) → ℤ → Contract F → Contract F
  adjust_target now sort remaining p =
      let target = p.stats.delivery_target_ghs in
      let (p', adjusted) = adjust_hashrate now sort remaining target p in
      with_target (sub target adjusted) p'

  -- The start of a cycle.
  unfoldable pub start_cycle : ℤ → Sort (MinerItem F) → ℤ → Contract F → Contract F
  start_cycle now sort cycle_duration p = adjust_target now sort cycle_duration (record p {
    stats = record p.stats {
      partial_miners = [];
      job_full_miners = 0;
      job_partial_miners = 0;
      shares_full_miners = 0;
      shares_partial_miners = 0;
    };
  })

  unfoldable pub on_cycle_end : Sort (MinerItem F) → ℤ → Contract F → Contract F
  on_cycle_end sort cycle_duration p =
      let actual = job_submitted_to_ghs_v2 fl (total_job fl p.stats) cycle_duration in
      let owed =
        wrap_int64 (p.stats.global_under_delivery_ghs +ℤ to_int64 (sub p.hashrate_ghs actual)) in
      let q = record p { stats = record p.stats { global_under_delivery_ghs = owed } } in
      let (q', full) = get_full_miners_hr fl sort q in
      with_target (add (sub p.hashrate_ghs full) (of_int owed)) q'
