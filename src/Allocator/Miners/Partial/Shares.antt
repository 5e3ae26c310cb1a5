-- ===== src/Allocator/Miners/Partial/Shares.antt =====
-- How `AllocatePartialForJob` of allocator.go shares out the job that is wanted.
use proxy_router.Prelude.{
  ◌≡◌, ◌⊎◌, true, false, none, some, String, List, [], ◌∷◌, Option, string_eq,
}
use proxy_router.Prelude.Int.{ℤ, pos, ◌+ℤ◌, ltb_ℤ}
use proxy_router.Prelude.Assoc.{Assoc, insert}
use proxy_router.Floats.{Float64}
use proxy_router.Hashrate.Units.{ghs_to_job_submitted_v2}
use proxy_router.Allocator.Scheduler.{Scheduler, add_task}
use proxy_router.Allocator.Miners.{
  MinerItem, Proxies, load_connected, allocation_min_job, allocation_min_duration,
}
use proxy_router.Allocator.Miners.Partial.{JobShares, duration_to_do_job}

-- The result's map: each share noted under its miner.
abbrev pub note_all : {F : Type 0} → Assoc String F → Assoc String F → Assoc String F
note_all m [] = m
note_all m ((k, job) ∷ shares) = note_all (insert k job m) shares

module _ (fl : Float64) (id : String) (dest : Option String) (cycle_end_timeout now : ℤ) where
  open fl use {F, of_int, sub, lt, le, min}

  -- The job that a free miner does until the end of the cycle.
  abbrev pub free_job : MinerItem F → F
  free_job m = ghs_to_job_submitted_v2 fl m.hr_ghs cycle_end_timeout

  -- The schedulers when `s`, that of the miner, has one more task, for this job.
  abbrev pub with_job : String → Scheduler F → F → Proxies F → Proxies F
  with_job miner_id s job ps =
      insert miner_id (add_task fl s id dest job (now +ℤ cycle_end_timeout)) ps

  -- The reasons for which a busy miner is passed over.
  abbrev pub PassedOver : F → MinerItem F → Type 0
  PassedOver need m =
      (lt m.job_remaining (allocation_min_job fl) ≡ true)
      ⊎ (ltb_ℤ m.time_remaining allocation_min_duration ≡ true)
      ⊎ (ltb_ℤ (duration_to_do_job fl id dest cycle_end_timeout now need m) allocation_min_duration
          ≡ true)

  -- None of them.
  pub record Considered (need : F) (m : MinerItem F) : Type 0 where
    pub job_enough : lt m.job_remaining (allocation_min_job fl) ≡ false
    pub time_enough : ltb_ℤ m.time_remaining allocation_min_duration ≡ false
    pub takes_long :
        ltb_ℤ (duration_to_do_job fl id dest cycle_end_timeout now need m) allocation_min_duration
        ≡ false

  -- How `need` is shared out to miners that are busy in part, and then to those that are free, each
  -- list in its order, from the schedulers `ps`: the shares, what is reported as left, and the
  -- schedulers then. Once `need` is below the smallest job, nothing more is given and nothing is
  -- reported as left. A busy miner that is connected and not passed over gets all of `need` if that
  -- fits into what it has left, which ends the sharing, or else all that it has left, if that is the
  -- smallest job at least. A connected free miner that does more than the smallest job in the cycle gets
  -- what it does, or `need` if that is less.
  pub data Hands
      : F
        → Proxies F
        → List (MinerItem F)
        → List (MinerItem F)
        → Assoc String F
        → F
        → Proxies F
        → Type 0 where
    leaves : {need : F} {ps : Proxies F} → Hands need ps [] [] [] need ps
    drops_busy :
        {need : F} {ps : Proxies F} {m : MinerItem F} {busy free : List (MinerItem F)}
        → lt need (allocation_min_job fl) ≡ true
        → Hands need ps (m ∷ busy) free [] (of_int (pos 0)) ps
    drops_free :
        {need : F} {ps : Proxies F} {m : MinerItem F} {free : List (MinerItem F)}
        → lt need (allocation_min_job fl) ≡ true
        → Hands need ps [] (m ∷ free) [] (of_int (pos 0)) ps
    passes_over :
        {need rest : F} {ps qs : Proxies F} {m : MinerItem F} {busy free : List (MinerItem F)}
        {shares : Assoc String F}
        → PassedOver need m
        → Hands need ps busy free shares rest qs
        → Hands need ps (m ∷ busy) free shares rest qs
    passes_busy :
        {need rest : F} {ps qs : Proxies F} {m : MinerItem F} {busy free : List (MinerItem F)}
        {shares : Assoc String F}
        → (load_connected fl ps m.id ≡ none)
          ⊎ ((le need m.job_remaining ≡ false)
              × (le (allocation_min_job fl) m.job_remaining ≡ false))
        → Hands need ps busy free shares rest qs
        → Hands need ps (m ∷ busy) free shares rest qs
    whole :
        {need : F} {ps : Proxies F} {m : MinerItem F} {busy free : List (MinerItem F)}
        (s : Scheduler F)
        → lt need (allocation_min_job fl) ≡ false
        → Considered need m
        → le need m.job_remaining ≡ true
        → load_connected fl ps m.id ≡ some s
        → Hands need ps
            (m ∷ busy)
            free
            ((m.id, need) ∷ [])
            (of_int (pos 0))
            (with_job m.id s need ps)
    part :
        {need rest : F} {ps qs : Proxies F} {m : MinerItem F} {busy free : List (MinerItem F)}
        {shares : Assoc String F} (s : Scheduler F)
        → lt need (allocation_min_job fl) ≡ false
        → Considered need m
        → le need m.job_remaining ≡ false
        → le (allocation_min_job fl) m.job_remaining ≡ true
        → load_connected fl ps m.id ≡ some s
        → Hands
            (sub need m.job_remaining)
            (with_job m.id s m.job_remaining ps)
            busy
            free
            shares
            rest
            qs
        → Hands need ps (m ∷ busy) free ((m.id, m.job_remaining) ∷ shares) rest qs
    passes_free :
        {need rest : F} {ps qs : Proxies F} {m : MinerItem F} {free : List (MinerItem F)}
        {shares : Assoc String F}
        → (le (free_job m) (allocation_min_job fl) ≡ true) ⊎ (load_connected fl ps m.id ≡ none)
        → Hands need ps [] free shares rest qs
        → Hands need ps [] (m ∷ free) shares rest qs
    by_free :
        {need rest : F} {ps qs : Proxies F} {m : MinerItem F} {free : List (MinerItem F)}
        {shares : Assoc String F} (s : Scheduler F)
        → lt need (allocation_min_job fl) ≡ false
        → le (free_job m) (allocation_min_job fl) ≡ false
        → load_connected fl ps m.id ≡ some s
        → Hands
            (sub need (min (free_job m) need))
            (with_job m.id s (min (free_job m) need) ps)
            []
            free
            shares
            rest
            qs
        → Hands need ps [] (m ∷ free) ((m.id, min (free_job m) need) ∷ shares) rest qs

  -- A flow that comes from `s` and these miners, the shares noted in the result.
  abbrev pub HandsOut :
      JobShares F → List (MinerItem F) → List (MinerItem F) → JobShares F × F → Type 0
  HandsOut s busy free (s', rest) =
      (shares : Assoc String F) × Hands s.job_needed s.proxies busy free shares rest s'.proxies
      × (s'.miner_id_job ≡ note_all s.miner_id_job shares)
