-- ===== src/Validator/Expiry.antt =====
-- The jobs that a notification with the clean flag makes old (`AddNewJob` and `ScheduleCleanJobs` of
-- validator.go).
use proxy_router.Prelude.{
  ℕ, ◌+◌, ◌<◌, ◌≡◌, ◌≢◌, ◌⊎◌, inl, inr, refl, sym, ap, ◌∙◌, subst, true, false, String, List, [],
  ◌∷◌, Option, none, some, arith, lt→ltb, Option-cases, string_eq,
}
use proxy_router.Prelude.Options.{◌>>=◌, some_inj}
use proxy_router.Prelude.Assoc.{lookup}
use proxy_router.Floats.{Float64}
use proxy_router.Stratum.{MiningNotify, MiningSubmit, get_job_id}
use proxy_router.Containers.BoundStackMap.{push, get}
use proxy_router.Containers.BoundStackMap.Duplicates.{get-push}
use proxy_router.Validator.{
  MiningJob, Validator, job_not_found, new_mining_job, schedule_clean_jobs, add_new_job, with_job,
  not_found, validate_and_add_share,
}
use proxy_router.Validator.Seen.{lookup-expire_all}
use proxy_router.Validator.Seen.Cases.{validate-with_job}

module _ (fl : Float64) (sha256 : List ℕ → List ℕ) where
  open fl use {F}

  expired-with_job :
      (id : String) (t now : ℕ) (s : MiningSubmit) (w : Validator F) (o : Option (MiningJob F))
      → t < now
      → with_job fl sha256 now id s w
          (elim o [ none ↦ none | some job ↦ some (record job { expiration_time = some t }) ])
        ≡ not_found fl sha256 w
  unfolding with_job
  expired-with_job id t now s w none h = refl
  expired-with_job id t now s w (some job) h = rw (lt→ltb t now h) refl

  -- A job as it comes: at a time, with a difficulty, an extranonce and its size.
  abbrev pub Notified : Type 0
  Notified = ℕ × MiningNotify × F × String × ℕ

  abbrev pub add_jobs : List Notified → Validator F → Option (Validator F)
  add_jobs [] v = some v
  add_jobs ((now, msg, diff, xn1, n) ∷ later) v = do
    w ← add_new_job now msg diff xn1 n v
    add_jobs later w

  -- The jobs come without the clean flag, and none under this ID.
  abbrev pub AllPlain : String → List Notified → Type 0
  AllPlain id [] = Unit {0}
  AllPlain id ((now, msg, diff, xn1, n) ∷ later) =
      (msg.clean_jobs ≡ false) × (msg.job_id ≢ id) × AllPlain id later

  -- The job under an ID is gone, or as it was.
  abbrev Faded : String → Validator F → Validator F → Type 0
  Faded id v w = (get w.jobs id ≡ none) ⊎ (get w.jobs id ≡ get v.jobs id)

  Faded-trans : (id : String) (u v w : Validator F) → Faded id u v → Faded id v w → Faded id u w
  Faded-trans id u v w a (inl n) = inl n
  Faded-trans id u v w (inl n) (inr e) = inl (e ∙ n)
  Faded-trans id u v w (inr d) (inr e) = inr (e ∙ d)

  plain-Faded :
      (id : String) (now : ℕ) (msg : MiningNotify) (diff : F) (xn1 : String) (n : ℕ)
      (v w : Validator F)
      → msg.clean_jobs ≡ false
      → msg.job_id ≢ id
      → add_new_job now msg diff xn1 n v ≡ some w
      → Faded id v w
  unfolding add_new_job
  plain-Faded id now msg diff xn1 n v w c ne e =
      elim (Option-cases (push v.jobs msg.job_id (new_mining_job msg diff xn1 n))) [
        | inl p ↦ absurd (ground (arith, e, c, p))
        | inr (jobs, p) ↦
            let q : w.jobs ≡ jobs = ground (arith, e, c, p) in
            subst (λ j. (get j id ≡ none) ⊎ (get j id ≡ get v.jobs id)) (sym q)
              (get-push v.jobs jobs msg.job_id id (new_mining_job msg diff xn1 n) ne p)
      ]

  clean-Faded :
      (id : String) (now : ℕ) (msg : MiningNotify) (diff : F) (xn1 : String) (n : ℕ)
      (v w : Validator F)
      → msg.clean_jobs ≡ true
      → msg.job_id ≢ id
      → add_new_job now msg diff xn1 n v ≡ some w
      → Faded id (schedule_clean_jobs now v) w
  unfolding add_new_job
  clean-Faded id now msg diff xn1 n v w c ne e =
      elim (Option-cases
        (push (schedule_clean_jobs now v).jobs msg.job_id (new_mining_job msg diff xn1 n))) [
          | inl p ↦ absurd (ground (arith, e, c, p))
          | inr (jobs, p) ↦
              let q : w.jobs ≡ jobs = ground (arith, e, c, p) in
              subst (λ j. (get j id ≡ none) ⊎ (get j id ≡ get (schedule_clean_jobs now v).jobs id))
                (sym q)
                (get-push (schedule_clean_jobs now v).jobs jobs msg.job_id id
                  (new_mining_job msg diff xn1 n) ne p)
        ]

  add_jobs-Faded :
      (id : String) (later : List Notified) (v w : Validator F)
      → AllPlain id later
      → add_jobs later v ≡ some w
      → Faded id v w
  add_jobs-Faded id [] v w a e =
      inr (ap (λ (x : Validator F). get x.jobs id) (sym (some_inj v w e)))
  add_jobs-Faded id ((now, msg, diff, xn1, n) ∷ later) v w (c, ne, a) e =
      elim (Option-cases (add_new_job now msg diff xn1 n v)) [
        | inl p ↦ absurd (ground (arith, rw p at e))
        | inr (u, p) ↦
            Faded-trans id v u w (plain-Faded id now msg diff xn1 n v u c ne p)
              (add_jobs-Faded id later u w a (rw p at e))
      ]

  -- After a job came with the clean flag, and then any jobs without it and under other IDs than `id`: a
  -- share for the job `id`, which is not that of the flag, is rejected as not found once the timeout
  -- after the job with the flag has passed, and changes nothing. Nothing is said of what a second job
  -- with the flag does, which moves the time of expiration.
  pub add_new_job_expires :
      (id : String) (now now' : ℕ) (msg : MiningNotify) (diff : F) (xn1 : String) (n : ℕ)
      (later : List Notified) (u v w : Validator F) (s : MiningSubmit)
      → msg.clean_jobs ≡ true
      → add_new_job now msg diff xn1 n v ≡ some u
      → AllPlain id later
      → add_jobs later u ≡ some w
      → get_job_id s ≡ some id
      → id ≢ msg.job_id
      → now + v.clean_job_timeout < now'
      → validate_and_add_share fl sha256 now' s w
        ≡ some (w, record { diff = 0; error = some job_not_found })
  unfolding schedule_clean_jobs with_job get lookup
  add_new_job_expires id now now' msg diff xn1 n later u v w s c e a l i ne h = go (
      Faded-trans id (schedule_clean_jobs now v) u w
        (clean-Faded id now msg diff xn1 n v u c (λ x. ne (sym x)) e)
        (add_jobs-Faded id later u w a l))
    where
      go :
          Faded id (schedule_clean_jobs now v) w
          → validate_and_add_share fl sha256 now' s w ≡ not_found fl sha256 w
      go (inl g) = validate-with_job fl sha256 id now' s w none i g ∙ gone
        where
          gone : with_job fl sha256 now' id s w none ≡ not_found fl sha256 w
          gone = refl
      go (inr g) =
          validate-with_job fl sha256 id now' s w _ i
            (g ∙ lookup-expire_all (now + v.clean_job_timeout) id v.jobs.data_map)
          ∙ expired-with_job id (now + v.clean_job_timeout) now' s w (get v.jobs id) h
