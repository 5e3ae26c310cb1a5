-- ===== src/Seller/Delivery.antt =====
-- What the seller's contract of contract_seller_v2.go owes from cycle to cycle.
use proxy_router.Prelude.{ℕ, ◌+◌, ◌%◌, ◌^◌, ◌≡◌, refl, ap, ◌∙◌, List, [], ◌∷◌}
use proxy_router.Prelude.Int.{ℤ, pos, ◌+ℤ◌, wrap_int64}
use proxy_router.Floats.{Float64}
use proxy_router.Hashrate.Units.{job_submitted_to_ghs_v2}
use proxy_router.Allocator.Miners.{MinerItem, Sort}
use proxy_router.Seller.{
  Contract, on_full_miner_share, on_partial_miner_share, total_job, get_full_miners_hr,
}
use proxy_router.Seller.Cycle.{adjust_target, start_cycle, on_cycle_end}
use proxy_router.Seller.Kept.{sorted-Same, adjust_target-Same}

module _ (fl : Float64) where
  open fl use {F, of_int, add, sub, abs, lt, to_int64, to_uint64}

  -- What comes in a cycle: a share of a full or of a partial miner, with its difficulty, or an
  -- adjustment, at a time and with what remains of the cycle.
  pub data CycleEvent : Type 0 where
    full_share partial_share : F → CycleEvent
    adjusts : ℤ → ℤ → CycleEvent

  -- A cycle that starts at a time and is planned to last so long, and how long it has lasted.
  pub record Cycle : Type 0 where
    pub starts_at : ℤ
    pub planned : ℤ
    pub events : List CycleEvent
    pub duration : ℤ

  abbrev pub on_cycle_event : Sort (MinerItem F) → CycleEvent → Contract F → Contract F
  on_cycle_event sort (full_share diff) p = record p { stats = on_full_miner_share fl diff p.stats }
  on_cycle_event sort (partial_share diff) p = record p {
    stats = on_partial_miner_share fl diff p.stats;
  }
  on_cycle_event sort (adjusts now remaining) p = adjust_target fl now sort remaining p

  abbrev pub on_cycle_events : Sort (MinerItem F) → List CycleEvent → Contract F → Contract F
  on_cycle_events sort [] p = p
  on_cycle_events sort (e ∷ events) p = on_cycle_events sort events (on_cycle_event sort e p)

  -- The cycles one after the other.
  abbrev pub run_cycles : Sort (MinerItem F) → List Cycle → Contract F → Contract F
  run_cycles sort [] p = p
  run_cycles sort (c ∷ cycles) p = run_cycles sort cycles (
      on_cycle_end fl sort c.duration
        (on_cycle_events sort c.events (start_cycle fl c.starts_at sort c.planned p)))

  -- A counter of 64 bits after the shares of the full miners, and of the partial ones.
  abbrev pub full_job : ℕ → List CycleEvent → ℕ
  full_job n [] = n
  full_job n (full_share diff ∷ events) = full_job ((n + to_uint64 diff) % 2 ^ 64) events
  full_job n (partial_share diff ∷ events) = full_job n events
  full_job n (adjusts now remaining ∷ events) = full_job n events

  abbrev pub partial_job : ℕ → List CycleEvent → ℕ
  partial_job n [] = n
  partial_job n (full_share diff ∷ events) = partial_job n events
  partial_job n (partial_share diff ∷ events) = partial_job ((n + to_uint64 diff) % 2 ^ 64) events
  partial_job n (adjusts now remaining ∷ events) = partial_job n events

  -- What a cycle delivered, in GH/s, by its own shares.
  abbrev pub delivered : Cycle → F
  delivered c =
      job_submitted_to_ghs_v2 fl
        (add (of_int (pos (full_job 0 c.events))) (of_int (pos (partial_job 0 c.events))))
        c.duration

  -- The debt after the cycles, from a debt before: each adds, in whole GH/s, what it fell short of
  -- the contract's hashrate, and the sum wraps at 64 bits.
  abbrev pub owed_after : F → List Cycle → ℤ → ℤ
  owed_after hr [] debt = debt
  owed_after hr (c ∷ cycles) debt =
      owed_after hr cycles (wrap_int64 (debt +ℤ to_int64 (sub hr (delivered c))))

  record Worked (p q : Contract F) (events : List CycleEvent) : Type 0 where
    keeps_hashrate : q.hashrate_ghs ≡ p.hashrate_ghs
    keeps_debt : q.stats.global_under_delivery_ghs ≡ p.stats.global_under_delivery_ghs
    full_counted : q.stats.job_full_miners ≡ full_job p.stats.job_full_miners events
    partial_counted : q.stats.job_partial_miners ≡ partial_job p.stats.job_partial_miners events

  events-Worked :
      (sort : Sort (MinerItem F)) (events : List CycleEvent) (p : Contract F)
      → Worked p (on_cycle_events sort events p) events
  unfolding on_full_miner_share on_partial_miner_share
  events-Worked sort [] p = record {
    keeps_hashrate = refl;
    keeps_debt = refl;
    full_counted = refl;
    partial_counted = refl;
  }
  events-Worked sort (full_share diff ∷ events) p =
      let w = events-Worked sort events (on_cycle_event sort (full_share diff) p) in
      record {
        keeps_hashrate = w.keeps_hashrate;
        keeps_debt = w.keeps_debt;
        full_counted = w.full_counted;
        partial_counted = w.partial_counted;
      }
  events-Worked sort (partial_share diff ∷ events) p =
      let w = events-Worked sort events (on_cycle_event sort (partial_share diff) p) in
      record {
        keeps_hashrate = w.keeps_hashrate;
        keeps_debt = w.keeps_debt;
        full_counted = w.full_counted;
        partial_counted = w.partial_counted;
      }
  events-Worked sort (adjusts now remaining ∷ events) p =
      let s = adjust_target-Same fl now sort remaining p in
      let w = events-Worked sort events (adjust_target fl now sort remaining p) in
      record {
        keeps_hashrate = w.keeps_hashrate ∙ s.same_hashrate;
        keeps_debt = w.keeps_debt ∙ s.same_debt;
        full_counted = w.full_counted ∙ ap (λ n. full_job n events) s.same_full;
        partial_counted = w.partial_counted ∙ ap (λ n. partial_job n events) s.same_partial;
      }

  record Started (p q : Contract F) : Type 0 where
    started_hashrate : q.hashrate_ghs ≡ p.hashrate_ghs
    started_debt : q.stats.global_under_delivery_ghs ≡ p.stats.global_under_delivery_ghs
    full_zero : q.stats.job_full_miners ≡ 0
    partial_zero : q.stats.job_partial_miners ≡ 0

  start-Started :
      (now : ℤ) (sort : Sort (MinerItem F)) (planned : ℤ) (p : Contract F)
      → Started p (start_cycle fl now sort planned p)
  unfolding start_cycle
  start-Started now sort planned p =
      let s = adjust_target-Same fl now sort planned _ in
      record {
        started_hashrate = s.same_hashrate;
        started_debt = s.same_debt;
        full_zero = s.same_full;
        partial_zero = s.same_partial;
      }

  end-owed :
      (sort : Sort (MinerItem F)) (duration : ℤ) (p : Contract F)
      → ((on_cycle_end fl sort duration p).stats.global_under_delivery_ghs
          ≡ wrap_int64 (
              p.stats.global_under_delivery_ghs
              +ℤ to_int64 (
                  sub p.hashrate_ghs (
                    job_submitted_to_ghs_v2 fl
                      (add
                        (of_int (pos p.stats.job_full_miners))
                        (of_int (pos p.stats.job_partial_miners)))
                      duration))))
        × ((on_cycle_end fl sort duration p).hashrate_ghs ≡ p.hashrate_ghs)
  unfolding on_cycle_end get_full_miners_hr total_job
  end-owed sort duration p = let s = sorted-Same fl sort _ in (s.same_debt, s.same_hashrate)

  -- The debt after a cycle that ends with these counters.
  abbrev adds_up : ℤ → ℤ → F → ℕ → ℕ → ℤ
  adds_up duration debt hr full partial = wrap_int64 (
      debt
      +ℤ to_int64 (
          sub hr
            (job_submitted_to_ghs_v2 fl (add (of_int (pos full)) (of_int (pos partial))) duration)))

  cycle-owed :
      (sort : Sort (MinerItem F)) (c : Cycle) (p : Contract F)
      → ((run_cycles sort (c ∷ []) p).stats.global_under_delivery_ghs
          ≡ wrap_int64
              (p.stats.global_under_delivery_ghs +ℤ to_int64 (sub p.hashrate_ghs (delivered c))))
        × ((run_cycles sort (c ∷ []) p).hashrate_ghs ≡ p.hashrate_ghs)
  cycle-owed sort c p =
      let a : Contract F = start_cycle fl c.starts_at sort c.planned p in
      let b : Contract F = on_cycle_events sort c.events a in
      let s = start-Started c.starts_at sort c.planned p in
      let w = events-Worked sort c.events a in
      let e = end-owed sort c.duration b in
      let hr : b.hashrate_ghs ≡ p.hashrate_ghs = w.keeps_hashrate ∙ s.started_hashrate in
      let full : b.stats.job_full_miners ≡ full_job 0 c.events =
        w.full_counted ∙ ap (λ n. full_job n c.events) s.full_zero in
      let partial : b.stats.job_partial_miners ≡ partial_job 0 c.events =
        w.partial_counted ∙ ap (λ n. partial_job n c.events) s.partial_zero in
      (
        e.0
            ∙ ap
                (λ x.
                  adds_up c.duration x b.hashrate_ghs b.stats.job_full_miners
                    b.stats.job_partial_miners)
                (w.keeps_debt ∙ s.started_debt)
            ∙ ap
                (λ x.
                  adds_up c.duration p.stats.global_under_delivery_ghs x b.stats.job_full_miners
                    b.stats.job_partial_miners)
                hr
            ∙ ap
                (λ x.
                  adds_up c.duration p.stats.global_under_delivery_ghs p.hashrate_ghs x
                    b.stats.job_partial_miners)
                full
            ∙ ap
                (λ x.
                  adds_up c.duration p.stats.global_under_delivery_ghs p.hashrate_ghs
                    (full_job 0 c.events) x)
                partial,
        e.1 ∙ hr,
      )

  -- Over any cycles, in which any shares and adjustments come in any order: the debt after them is the
  -- debt before, to which each cycle has added what its own shares fell short of the contract's
  -- hashrate (a negative amount, if they exceeded it), converted to an int64, with sums that wrap at 64
  -- bits. Neither the adjustments nor what an earlier cycle counted changes it. The contract's hashrate
  -- stays as it was.
  pub run_cycles-owed :
      (sort : Sort (MinerItem F)) (cycles : List Cycle) (p : Contract F)
      → ((run_cycles sort cycles p).stats.global_under_delivery_ghs
          ≡ owed_after p.hashrate_ghs cycles p.stats.global_under_delivery_ghs)
        × ((run_cycles sort cycles p).hashrate_ghs ≡ p.hashrate_ghs)
  run_cycles-owed sort [] p = (refl, refl)
  run_cycles-owed sort (c ∷ cycles) p =
      let e = cycle-owed sort c p in
      let ih = run_cycles-owed sort cycles (run_cycles sort (c ∷ []) p) in
      (
        ih.0
            ∙ ap
                (λ h.
                  owed_after h cycles (run_cycles sort (c ∷ []) p).stats.global_under_delivery_ghs)
                e.1
            ∙ ap (λ d. owed_after p.hashrate_ghs cycles d) e.0,
        ih.1 ∙ e.1,
      )
