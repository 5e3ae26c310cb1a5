-- ===== src/Validator/Seen/Cases.antt =====
-- The outcomes of `ValidateAndAddShare` in validator.go, and what it does to the jobs.
use proxy_router.Prelude.{
  ℕ, ◌≡◌, ◌≢◌, ◌⊎◌, inl, inr, refl, sym, ap, ◌∙◌, false, String, List, ◌∷◌, Option, none, some,
  arith, string_eq, Option-cases, Bool-cases,
}
use proxy_router.Floats.{Float64}
use proxy_router.Stratum.{MiningSubmit, get_job_id}
use proxy_router.Containers.BoundStackMap.{get}
use proxy_router.Validator.{
  MiningJob, Validator, job_not_found, ShareResult, share_of, is_among, is_expired,
  check_duplicate_and_add_share, put_job, check_diff, after_check, check_share, with_job,
  validate_and_add_share,
}
use proxy_router.Validator.Seen.{get-put_job}

module _ (fl : Float64) (sha256 : List ℕ → List ℕ) where
  open fl use {F}

  -- What the check of a diff leaves: the job, with the share.
  after_check-put :
      (id : String) (job : MiningJob F) (msg : MiningSubmit) (v w : Validator F) (r : ShareResult)
      → after_check fl sha256 id (false, job) msg v ≡ some (w, r)
      → w ≡ put_job id job v
  unfolding after_check
  after_check-put id job msg v w r e = elim (Option-cases (check_diff fl sha256 job msg v)) [
    | inl n ↦ absurd (ground (arith, e, n))
    | inr (q, n) ↦ ground (arith, e, n)
  ]

  -- The job at `id` after the check of the share `c` on it.
  pub after_check-get :
      (id : String) (job : MiningJob F) (c : List ℕ) (msg : MiningSubmit) (v w : Validator F)
      (r : ShareResult)
      → get v.jobs id ≡ some job
      → after_check fl sha256 id (check_duplicate_and_add_share job c) msg v ≡ some (w, r)
      → (get w.jobs id ≡ some (check_duplicate_and_add_share job c).1)
        × ((j : String) → j ≢ id → get w.jobs j ≡ get v.jobs j)
  unfolding check_duplicate_and_add_share after_check
  after_check-get id job c msg v w r g e = elim (Bool-cases (is_among c job.shares)) [
    | inl b ↦ rw b (ground (arith, e, g, b), (λ j n. ground (arith, e, b)))
    | inr b ↦
        let job' : MiningJob F = record job { shares = c ∷ job.shares } in
        let p = after_check-put id job' msg v w r (rw b at e) in
        rw b (
          ap (λ x. get x.jobs id) p
              ∙ get-put_job id id job' v
              ∙ ground (arith, string_eq.beq_iff id id),
          (λ j n.
              ap (λ x. get x.jobs j) p
              ∙ get-put_job id j job' v
              ∙ ground (arith, string_eq.beq_iff id j, n)),
        )
  ]

  -- A call that returns found no job, or came to the check of a diff.
  abbrev pub Checked : String → ℕ → MiningSubmit → Validator F → Validator F → ShareResult → Type 0
  Checked id now msg v w r =
      (job : MiningJob F) × (c : List ℕ) × (get v.jobs id ≡ some job)
      × (is_expired now job.expiration_time ≡ false)
      × (share_of msg ≡ some c)
      × (after_check fl sha256 id (check_duplicate_and_add_share job c) msg v ≡ some (w, r))

  check_share-Checked :
      (id : String) (now : ℕ) (job : MiningJob F) (msg : MiningSubmit) (v w : Validator F)
      (r : ShareResult)
      → get v.jobs id ≡ some job
      → is_expired now job.expiration_time ≡ false
      → check_share fl sha256 id job msg v ≡ some (w, r)
      → Checked id now msg v w r
  unfolding check_share
  check_share-Checked id now job msg v w r g x e = elim (Option-cases (share_of msg)) [
    | inl n ↦ absurd (ground (arith, e, n))
    | inr (c, n) ↦ (job, c, g, x, n, rw n at e)
  ]

  pub validate-with_job :
      (id : String) (now : ℕ) (msg : MiningSubmit) (v : Validator F) (o : Option (MiningJob F))
      → get_job_id msg ≡ some id
      → get v.jobs id ≡ o
      → validate_and_add_share fl sha256 now msg v ≡ with_job fl sha256 now id msg v o
  unfolding validate_and_add_share
  validate-with_job id now msg v o i g = rw (i, g) refl

  with_job-cases :
      (id : String) (now : ℕ) (msg : MiningSubmit) (v w : Validator F) (r : ShareResult)
      (o : Option (MiningJob F))
      → get v.jobs id ≡ o
      → with_job fl sha256 now id msg v o ≡ some (w, r)
      → ((w ≡ v) × (r.error ≡ some job_not_found)) ⊎ Checked id now msg v w r
  unfolding with_job
  with_job-cases id now msg v w r none g e = inl (ground (arith, e))
  with_job-cases id now msg v w r (some job) g e =
      elim (Bool-cases (is_expired now job.expiration_time)) [
        | inl x ↦ inl (ground (arith, rw x at e))
        | inr x ↦ inr (check_share-Checked id now job msg v w r g x (rw x at e))
      ]

  pub validate-cases :
      (id : String) (now : ℕ) (msg : MiningSubmit) (v w : Validator F) (r : ShareResult)
      → get_job_id msg ≡ some id
      → validate_and_add_share fl sha256 now msg v ≡ some (w, r)
      → ((w ≡ v) × (r.error ≡ some job_not_found)) ⊎ Checked id now msg v w r
  validate-cases id now msg v w r i e =
      with_job-cases id now msg v w r (get v.jobs id) refl
        (sym (validate-with_job id now msg v (get v.jobs id) i refl) ∙ e)
