-- ===== src/Validator/Seen.antt =====
-- The duplicate check of validator.go and mining_job.go through any run of the validator's calls.
pub mod Cases
pub mod Once
use proxy_router.Prelude.{
  ℕ, ◌+◌, ◌<◌, ◌≡◌, ◌≢◌, ◌⊎◌, inl, inr, refl, sym, ap, ◌∙◌, subst, Bool, true, false, ◌&&◌, ◌||◌,
  String, List, [], ◌∷◌, Option, none, some, arith, if◌then◌else◌, ltb, ◌==◌, ◌=?◌, string_eq,
  Option-cases, Bool-cases, Eq,
}
use proxy_router.Prelude.Options.{◌>>=◌, Returns, Returns-bind}
use proxy_router.Prelude.Assoc.{Assoc, lookup, insert, delete, lookup-insert, lookup-delete}
use proxy_router.Floats.{Float64}
use proxy_router.Stratum.{MiningNotify, MiningSubmit, get_job_id}
use proxy_router.Containers.BoundStackMap.{BoundStackMap, push, get}
use proxy_router.Containers.BoundStackMap.Duplicates.{get-push}
use proxy_router.Validator.{
  MiningJob, Validator, ShareError, job_not_found, duplicate_share, ShareResult, share_of, same,
  is_among, is_expired, new_mining_job, check_duplicate_and_add_share, set_version_rolling_mask,
  expire_all, schedule_clean_jobs, add_new_job, put_job, check_diff, after_check, check_share,
  not_found, validate_and_add_share,
}

-- The calls that change a validator.
pub data Call (F : Type 0) : Type 0 where
  submits : ℕ → MiningSubmit → Call F
  adds : ℕ → MiningNotify → F → String → ℕ → Call F
  sets_mask : String → Call F
  cleans : ℕ → Call F

-- No call of the list adds a job under this ID.
abbrev pub Keeps : {F : Type 0} → String → List (Call F) → Type 0
Keeps id [] = Unit
Keeps id (adds _ msg _ _ _ ∷ calls) = (msg.job_id ≢ id) × Keeps id calls
Keeps id (_ ∷ calls) = Keeps id calls

same_refl : (b : List ℕ) → same b b ≡ true
same_refl [] = refl
same_refl (x ∷ b) = ground (arith, same_refl b)

module _ {F : Type 0} where
  -- The job is gone, or has the share.
  abbrev pub Knows : String → List ℕ → Validator F → Type 0
  Knows id b v =
      (get v.jobs id ≡ none)
      ⊎ ((job : MiningJob F) × (get v.jobs id ≡ some job) × (is_among b job.shares ≡ true))

  abbrev expired_at : ℕ → Option (MiningJob F) → Option (MiningJob F)
  expired_at t none = none
  expired_at t (some job) = some (record job { expiration_time = some t })

  pub lookup-expire_all :
      (t : ℕ) (id : String) (jobs : Assoc String (MiningJob F))
      → lookup id (expire_all t jobs) ≡ expired_at t (lookup id jobs)
  unfolding expire_all lookup
  lookup-expire_all t id [] = refl
  lookup-expire_all t id ((k, job) ∷ jobs) = ground (arith, lookup-expire_all t id jobs)

  pub get-put_job :
      (id j : String) (job : MiningJob F) (v : Validator F)
      → get (put_job id job v).jobs j ≡ (if id =? j then some job else get v.jobs j)
  unfolding get put_job
  get-put_job id j job v = lookup-insert id j job v.jobs.data_map

  -- The check of a share leaves it among the job's, and forgets no other.
  pub check_adds :
      (job : MiningJob F) (c : List ℕ)
      → is_among c (check_duplicate_and_add_share job c).1.shares ≡ true
  unfolding check_duplicate_and_add_share
  check_adds job c = ground (arith, same_refl c)

  pub check_keeps :
      (job : MiningJob F) (b c : List ℕ)
      → is_among b job.shares ≡ true
      → is_among b (check_duplicate_and_add_share job c).1.shares ≡ true
  unfolding check_duplicate_and_add_share
  check_keeps job b c h = ground (arith, h)

  pub check_again :
      (job : MiningJob F) (b : List ℕ)
      → is_among b job.shares ≡ true
      → check_duplicate_and_add_share job b ≡ (true, job)
  unfolding check_duplicate_and_add_share
  check_again job b h = ground (arith, h)

  pub schedule-Knows :
      (id : String) (b : List ℕ) (now : ℕ) (v : Validator F)
      → Knows id b v
      → Knows id b (schedule_clean_jobs now v)
  unfolding schedule_clean_jobs get
  schedule-Knows id b now v (inl e) =
      inl (lookup-expire_all (now + v.clean_job_timeout) id v.jobs.data_map ∙ ap (expired_at _) e)
  schedule-Knows id b now v (inr (job, e, m)) = inr (
    record job { expiration_time = some (now + v.clean_job_timeout) },
    lookup-expire_all (now + v.clean_job_timeout) id v.jobs.data_map ∙ ap (expired_at _) e,
    m,
  )

  pub add_new_job-Knows :
      (id : String) (b : List ℕ) (now : ℕ) (msg : MiningNotify) (d : F) (xn1 : String) (n : ℕ)
      (v w : Validator F)
      → msg.job_id ≢ id
      → Knows id b v
      → add_new_job now msg d xn1 n v ≡ some w
      → Knows id b w
  unfolding add_new_job
  add_new_job-Knows id b now msg d xn1 n v w ne k e =
      let v' = if msg.clean_jobs then schedule_clean_jobs now v else v in
      let k' : Knows id b v' = elim (Bool-cases msg.clean_jobs) [
        | inl c ↦ rw c (schedule-Knows id b now v k)
        | inr c ↦ rw c k
      ] in
      elim (Option-cases (push v'.jobs msg.job_id (new_mining_job msg d xn1 n))) [
        | inl p ↦ absurd (ground (arith, e, p))
        | inr (jobs, p) ↦
            keep v' jobs w k'
              (get-push v'.jobs jobs msg.job_id id (new_mining_job msg d xn1 n) ne p)
              (ground (arith, e, p))
      ]
    where
      keep :
          (v' : Validator F) (jobs : BoundStackMap (MiningJob F)) (w : Validator F)
          → Knows id b v'
          → (get jobs id ≡ none) ⊎ (get jobs id ≡ get v'.jobs id)
          → w.jobs ≡ jobs
          → Knows id b w
      keep v' jobs w k (inl g) q = inl (ap (λ x. get x id) q ∙ g)
      keep v' jobs w (inl n) (inr g) q = inl (ap (λ x. get x id) q ∙ g ∙ n)
      keep v' jobs w (inr (job, n, m)) (inr g) q = inr (job, ap (λ x. get x id) q ∙ g ∙ n, m)
