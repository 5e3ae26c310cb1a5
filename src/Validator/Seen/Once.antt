-- ===== src/Validator/Seen/Once.antt =====
-- No share counts twice (validator.go).
use proxy_router.Prelude.{
  ℕ, ◌≡◌, ◌≢◌, ◌⊎◌, inl, inr, refl, sym, ap, ◌∙◌, subst, true, false, String, List, [], ◌∷◌, Option,
  none, some, arith, ◌=?◌, string_eq, Option-cases, Bool-cases,
}
use proxy_router.Prelude.Options.{◌>>=◌, Returns, some_inj}
use proxy_router.Floats.{Float64}
use proxy_router.Stratum.{MiningSubmit, get_job_id}
use proxy_router.Containers.BoundStackMap.{get}
use proxy_router.Validator.{
  MiningJob, Validator, job_not_found, duplicate_share, ShareResult, share_of, is_among, is_expired,
  check_duplicate_and_add_share, set_version_rolling_mask, schedule_clean_jobs, add_new_job,
  after_check, check_share, with_job, validate_and_add_share,
}
use proxy_router.Validator.Seen.{
  Call, submits, adds, sets_mask, cleans, Keeps, Knows, check_adds, check_keeps, check_again,
  schedule-Knows, add_new_job-Knows,
}
use proxy_router.Validator.Seen.Cases.{Checked, after_check-get, validate-with_job, validate-cases}

module _ (fl : Float64) (sha256 : List ℕ → List ℕ) where
  open fl use {F}

  -- One call, and several.
  abbrev pub call : Call F → Validator F → Option (Validator F)
  call (submits now msg) v = do r ← validate_and_add_share fl sha256 now msg v; some r.0
  call (adds now msg diff xn1 xn2size) v = add_new_job now msg diff xn1 xn2size v
  call (sets_mask mask) v = some (set_version_rolling_mask v mask)
  call (cleans now) v = some (schedule_clean_jobs now v)

  abbrev pub run : List (Call F) → Validator F → Option (Validator F)
  run [] v = some v
  run (c ∷ calls) v = do w ← call c v; run calls w

  submit-Knows :
      (id : String) (b : List ℕ) (now : ℕ) (msg : MiningSubmit) (v w : Validator F)
      (r : ShareResult) (j : String)
      → get_job_id msg ≡ some j
      → validate_and_add_share fl sha256 now msg v ≡ some (w, r)
      → Knows id b v
      → Knows id b w
  submit-Knows id b now msg v w r j i e k =
      go (validate-cases fl sha256 j now msg v w r i e) (Bool-cases (j =? id))
    where
      moved :
          ((x : String) → x ≢ j → get w.jobs x ≡ get v.jobs x)
          → id ≢ j
          → Knows id b v
          → Knows id b w
      moved f n (inl g) = inl (f id n ∙ g)
      moved f n (inr (job, g, m)) = inr (job, f id n ∙ g, m)

      same_job :
          (job : MiningJob F) (c : List ℕ)
          → get v.jobs id ≡ some job
          → get w.jobs id ≡ some (check_duplicate_and_add_share job c).1
          → Knows id b v
          → Knows id b w
      same_job job c g g' (inl n) = absurd (ground (arith, g, n))
      same_job job c g g' (inr (job', n, m)) = inr (
        (check_duplicate_and_add_share job c).1,
        g',
        check_keeps job b c (
            subst (λ (x : MiningJob F). is_among b x.shares ≡ true) (some_inj job' job (sym n ∙ g))
              m),
      )

      go :
          ((w ≡ v) × (r.error ≡ some job_not_found)) ⊎ Checked fl sha256 j now msg v w r
          → ((j =? id) ≡ true) ⊎ ((j =? id) ≡ false)
          → Knows id b w
      go (inl (p, _)) _ = subst (Knows id b) (sym p) k
      go (inr (job, c, g, x, s, a)) (inr n) =
          moved (after_check-get fl sha256 j job c msg v w r g a).1
            (ground (arith, string_eq.beq_iff j id, n)) k
      go (inr (job, c, g, x, s, a)) (inl p) =
          let q : j ≡ id = ground (arith, string_eq.beq_iff j id, p) in
          same_job job c (ap (get v.jobs) (sym q) ∙ g)
            (ap (get w.jobs) (sym q) ∙ (after_check-get fl sha256 j job c msg v w r g a).0) k

  validate_none :
      (now : ℕ) (msg : MiningSubmit) (v : Validator F)
      → get_job_id msg ≡ none
      → validate_and_add_share fl sha256 now msg v ≡ none
  unfolding validate_and_add_share
  validate_none now msg v n = rw n refl

  call-Knows :
      (id : String) (b : List ℕ) (c : Call F) (v w : Validator F)
      → Keeps id (c ∷ [])
      → call c v ≡ some w
      → Knows id b v
      → Knows id b w
  unfolding set_version_rolling_mask
  call-Knows id b (submits now msg) v w o e k = elim (Option-cases (get_job_id msg)) [
    | inl n ↦ absurd (ground (arith, e, validate_none now msg v n))
    | inr (j, i) ↦ elim (Option-cases (validate_and_add_share fl sha256 now msg v)) [
      | inl n ↦ absurd (ground (arith, e, n))
      | inr (r, n) ↦ submit-Knows id b now msg v w r.1 j i (n ∙ ground (arith, e, n)) k
    ]
  ]
  call-Knows id b (adds now msg d xn1 n) v w o e k =
      add_new_job-Knows id b now msg d xn1 n v w o.0 k e
  call-Knows id b (sets_mask mask) v w o e k = subst (Knows id b) (some_inj _ _ e) k
  call-Knows id b (cleans now) v w o e k =
      subst (Knows id b) (some_inj _ _ e) (schedule-Knows id b now v k)

  run-Knows :
      (id : String) (b : List ℕ) (calls : List (Call F)) (v w : Validator F)
      → Keeps id calls
      → run calls v ≡ some w
      → Knows id b v
      → Knows id b w
  run-Knows id b [] v w o e k = subst (Knows id b) (some_inj _ _ e) k
  run-Knows id b (c ∷ calls) v w o e k = elim (Option-cases (call c v)) [
    | inl n ↦ absurd (ground (arith, e, n))
    | inr (u, n) ↦
        run-Knows id b calls u w (rest c calls o) (sym (ap (λ x. x >>= run calls) n) ∙ e)
          (call-Knows id b c v u (first c calls o) n k)
  ]
    where
      first : (c : Call F) (calls : List (Call F)) → Keeps id (c ∷ calls) → Keeps id (c ∷ [])
      first (submits _ _) calls o = tt
      first (adds _ _ _ _ _) calls o = (o.0, tt)
      first (sets_mask _) calls o = tt
      first (cleans _) calls o = tt

      rest : (c : Call F) (calls : List (Call F)) → Keeps id (c ∷ calls) → Keeps id calls
      rest (submits _ _) calls o = o
      rest (adds _ _ _ _ _) calls o = o.1
      rest (sets_mask _) calls o = o
      rest (cleans _) calls o = o

  -- A job that is gone or has the share: the share is not accepted again.
  Knows-rejects :
      (id : String) (b : List ℕ) (now : ℕ) (msg : MiningSubmit) (v : Validator F)
      → get_job_id msg ≡ some id
      → share_of msg ≡ some b
      → Knows id b v
      → Returns
          (λ r. (r.0 ≡ v) × ((r.1.error ≡ some job_not_found) ⊎ (r.1.error ≡ some duplicate_share)))
          (validate_and_add_share fl sha256 now msg v)
  unfolding with_job check_share after_check
  Knows-rejects id b now msg v i s (inl g) =
      rw (validate-with_job fl sha256 id now msg v none i g) (refl, inl refl)
  Knows-rejects id b now msg v i s (inr (job, g, m)) =
      elim (Bool-cases (is_expired now job.expiration_time)) [
        | inl x ↦ rw (validate-with_job fl sha256 id now msg v (some job) i g, x) (refl, inl refl)
        | inr x ↦
            rw (validate-with_job fl sha256 id now msg v (some job) i g, x, s, check_again job b m)
              (refl, inr refl)
      ]

  -- A share that has come to the check of its difficulty, or was a duplicate there, is never
  -- accepted after that, in whatever message it comes: after any run of the validator's calls that
  -- adds no job under the same ID, the call returns, changes nothing, and reports a duplicate or
  -- that the job is not found.
  pub validate_once :
      (id : String) (b : List ℕ) (now now' : ℕ) (msg msg' : MiningSubmit) (calls : List (Call F))
      (v w u : Validator F) (r : ShareResult)
      → get_job_id msg ≡ some id
      → share_of msg ≡ some b
      → validate_and_add_share fl sha256 now msg v ≡ some (w, r)
      → r.error ≢ some job_not_found
      → Keeps id calls
      → run calls w ≡ some u
      → get_job_id msg' ≡ some id
      → share_of msg' ≡ some b
      → Returns
          (λ x. (x.0 ≡ u) × ((x.1.error ≡ some job_not_found) ⊎ (x.1.error ≡ some duplicate_share)))
          (validate_and_add_share fl sha256 now' msg' u)
  validate_once id b now now' msg msg' calls v w u r i s e n o q i' s' =
      Knows-rejects id b now' msg' u i' s'
        (run-Knows id b calls w u o q (go (validate-cases fl sha256 id now msg v w r i e)))
    where
      go :
          ((w ≡ v) × (r.error ≡ some job_not_found)) ⊎ Checked fl sha256 id now msg v w r
          → Knows id b w
      go (inl (_, p)) = absurd (n p)
      go (inr (job, c, g, x, t, a)) = inr (
        (check_duplicate_and_add_share job c).1,
        (after_check-get fl sha256 id job c msg v w r g a).0,
        subst (λ y. is_among y (check_duplicate_and_add_share job c).1.shares ≡ true)
            (ground (arith, s, t)) (check_adds job c),
      )
