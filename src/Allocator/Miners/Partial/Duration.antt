-- ===== src/Allocator/Miners/Partial/Duration.antt =====
-- How long a miner is reckoned to need for a job (`durationToDoJobWithMiner` in allocator.go). The
-- job is divided by hashes per second without the factor 2^32 that `JobSubmittedToHS` has, so the
-- duration comes out 2^32 times too short.
use proxy_router.Prelude.{
  ℕ, ◌*◌, ◌<◌, ◌≤◌, ◌/◌, ◌≡◌, refl, ap, ◌∙◌, true, false, String, List, [], ◌∷◌, Option, arith,
}
use proxy_router.Prelude.Int.{ℤ, pos}
use proxy_router.Floats.Exact.{exact, quotient-pos, *ℤ-pos}
use proxy_router.Hashrate.Units.{ghs_to_hs}
use proxy_router.Allocator.Miners.{MinerItem, allocation_min_job}
use proxy_router.Allocator.Miners.Partial.{
  JobShares, goes_on, duration_to_do_job, is_passed_over, partial_round, partial_loop,
}

div_small : (n d : ℕ) → n < d → n / d ≡ 0
div_small n d h = grind arith

-- On whole numbers: a job below the number of hashes that the miner makes in a second is reckoned
-- to take no time at all.
duration_zero :
    (id : String) (dest : Option String) (cycle now : ℤ) (n g : ℕ) (m : MinerItem ℤ)
    → m.hr_ghs ≡ pos g
    → n < g * 1000000000
    → duration_to_do_job exact id dest cycle now (pos n) m ≡ pos 0
unfolding duration_to_do_job ghs_to_hs
duration_zero id dest cycle now n g m e h = rw (
  e,
  *ℤ-pos g 1000000000,
  quotient-pos n (g * 1000000000),
  div_small n (g * 1000000000) h,
  *ℤ-pos 0 1000000000,
)

-- Each miner of the list makes more hashes in a second than `n`.
abbrev pub Outpaced : ℕ → List (MinerItem ℤ) → Type 0
Outpaced n [] = Unit
Outpaced n (m ∷ ms) = ((g : ℕ) × (m.hr_ghs ≡ pos g) × (n < g * 1000000000)) × Outpaced n ms

is_passed_over_lem :
    (id : String) (dest : Option String) (cycle now : ℤ) (n : ℕ) (m : MinerItem ℤ) (s : JobShares ℤ)
    → s.job_needed ≡ pos n
    → duration_to_do_job exact id dest cycle now (pos n) m ≡ pos 0
    → is_passed_over exact id dest cycle now m s ≡ true
unfolding is_passed_over
is_passed_over_lem id dest cycle now n m s e d =
    ground (arith, ap (λ x. duration_to_do_job exact id dest cycle now x m) e)

small_job : (n : ℕ) → 5000 ≤ n → exact.lt (pos n) (allocation_min_job exact) ≡ false
small_job n h = ground arith

partial_round_idle :
    (id : String) (dest : Option String) (cycle now : ℤ) (n : ℕ) (m : MinerItem ℤ) (s : JobShares ℤ)
    → s.job_needed ≡ pos n
    → 5000 ≤ n
    → is_passed_over exact id dest cycle now m s ≡ true
    → partial_round exact id dest cycle now m s ≡ goes_on s
unfolding partial_round
partial_round_idle id dest cycle now n m s e h p =
    let l : exact.lt s.job_needed (allocation_min_job exact) ≡ false =
      ap (λ x. exact.lt x (allocation_min_job exact)) e ∙ small_job n h in
    rw (l, p, partial_round)

-- On whole numbers: the loop over the miners that are busy in part passes all of them over, with
-- whatever job they could still do and for however long, when the job is no less than the smallest
-- job and below the hashes that each of them makes in a second (which is what the miner
-- delivers as job in 2^32 seconds).
pub partial_loop_idle :
    (id : String) (dest : Option String) (cycle now : ℤ) (n : ℕ) (ms : List (MinerItem ℤ))
    (s : JobShares ℤ)
    → s.job_needed ≡ pos n
    → 5000 ≤ n
    → Outpaced n ms
    → partial_loop exact id dest cycle now ms s ≡ goes_on s
unfolding partial_loop
partial_loop_idle id dest cycle now n [] s e h o = refl
partial_loop_idle id dest cycle now n (m ∷ ms) s e h o =
    let d = duration_zero id dest cycle now n o.0.0 m o.0.1 o.0.2 in
    rw
      (
        partial_round_idle id dest cycle now n m s e h
            (is_passed_over_lem id dest cycle now n m s e d),
        partial_loop,
      )
      (partial_loop_idle id dest cycle now n ms s e h o.1)
