-- ===== src/Validator.antt =====
-- internal/resources/hashrate/validator: validator.go and mining_job.go. A time is a number of
-- nanoseconds, and the zero time is `none`. The jobs are pointers in the source, each held by one
-- entry of the map only, so a job is a value here and a change of it is written back. A panic is
-- `none`.
pub mod Diff
pub mod Seen
pub mod Shares
pub mod Expiry
use proxy_router.Prelude.{
  ℕ, ◌+◌, ◌-◌, ◌<◌, Bool, true, false, not, ◌&&◌, ◌||◌, String, List, [], ◌∷◌, ◌++◌, Option, none,
  some, if◌then◌else◌, length, ltb, take, replicate, ◌==◌, string_eq, Eq,
}
use proxy_router.Prelude.Options.{◌>>=◌}
use proxy_router.Prelude.Int.{negsuc}
use proxy_router.Prelude.Assoc.{Assoc, lookup, insert}
use proxy_router.Floats.{Float64}
use proxy_router.Stratum.{
  MiningNotify, MiningSubmit, get_job_id, get_extra_nonce2, get_ntime, get_nonce, get_vmask,
}
use proxy_router.Stratum.Hex.{decode}
use proxy_router.Containers.BoundStackMap
use proxy_router.Containers.BoundStackMap.{BoundStackMap}
use proxy_router.Validator.Diff.{validate_diff}

pub record MiningJob (F : Type 0) : Type 0 where
  pub notify : MiningNotify
  pub diff : F
  pub extra_nonce1 : String
  pub extra_nonce2_size : ℕ
  -- the serialized shares
  pub shares : List (List ℕ)
  pub expiration_time : Option ℕ

pub record Validator (F : Type 0) : Type 0 where
  pub jobs : BoundStackMap (MiningJob F)
  pub version_rolling_mask : String
  pub clean_job_timeout : ℕ

pub data ShareError : Type 0 where
  job_not_found duplicate_share low_difficulty : ShareError

pub record ShareResult : Type 0 where
  pub diff : ℕ
  pub error : Option ShareError

-- The slice `bytes[:4]`: it panics where fewer than four bytes were decoded (unless Go has given
-- the slice spare capacity).
unfoldable pub first_four : List ℕ → Option (List ℕ)
first_four bytes = if ltb (length bytes) 4 then none else some (take 4 bytes)

-- `copy` into eight zero bytes.
abbrev pub first_eight : List ℕ → List ℕ
first_eight bytes = take 8 bytes ++ replicate (8 - length bytes) 0

unfoldable pub serialize_share : String → String → String → String → Option (List ℕ)
unfolding first_four
serialize_share enonce2 ntime nonce vmask = do
  n ← first_four (decode ntime)
  o ← first_four (decode nonce)
  v ← first_four (decode vmask)
  some (first_eight (decode enonce2) ++ n ++ o ++ v)

-- The share of a message.
unfoldable pub share_of : MiningSubmit → Option (List ℕ)
share_of s = do
  e ← get_extra_nonce2 s
  t ← get_ntime s
  n ← get_nonce s
  v ← get_vmask s
  serialize_share e t n v

-- Equality of Go's byte arrays.
abbrev pub same : List ℕ → List ℕ → Bool
same [] [] = true
same [] (y ∷ ys) = false
same (x ∷ xs) [] = false
same (x ∷ xs) (y ∷ ys) = (x == y) && same xs ys

abbrev pub is_among : List ℕ → List (List ℕ) → Bool
is_among b [] = false
is_among b (c ∷ cs) = same b c || is_among b cs

abbrev pub is_expired : ℕ → Option ℕ → Bool
is_expired now none = false
is_expired now (some t) = ltb t now

module _ {F : Type 0} where
  unfoldable pub new_mining_job : MiningNotify → F → String → ℕ → MiningJob F
  new_mining_job msg diff extra_nonce1 extra_nonce2_size = record {
    notify = msg;
    diff = diff;
    extra_nonce1 = extra_nonce1;
    extra_nonce2_size = extra_nonce2_size;
    shares = [];
    expiration_time = none;
  }

  -- Whether the share was there already, and the job with it.
  unfoldable pub check_duplicate_and_add_share : MiningJob F → List ℕ → Bool × MiningJob F
  check_duplicate_and_add_share m bytes =
      if is_among bytes m.shares then (true, m) else (false, record m { shares = bytes ∷ m.shares })

  -- The expiration is the zero time again, and no share is copied.
  unfoldable pub copy : MiningJob F → MiningJob F
  copy m = record m { shares = []; expiration_time = none }

  unfoldable pub new_validator : ℕ → Validator F
  new_validator clean_job_timeout = record {
    jobs = BoundStackMap.new 30;
    version_rolling_mask = "00000000";
    clean_job_timeout = clean_job_timeout;
  }

  unfoldable pub set_version_rolling_mask : Validator F → String → Validator F
  set_version_rolling_mask v mask = record v { version_rolling_mask = mask }

  unfoldable pub has_job : Validator F → String → Bool
  has_job v job_id = elim (BoundStackMap.get v.jobs job_id) [ none ↦ false | some _ ↦ true ]

  -- The visit of each job in `ScheduleCleanJobs`.
  unfoldable pub expire_all : ℕ → Assoc String (MiningJob F) → Assoc String (MiningJob F)
  expire_all t [] = []
  expire_all t ((k, job) ∷ jobs) = (k, record job { expiration_time = some t }) ∷ expire_all t jobs

  unfoldable pub schedule_clean_jobs : ℕ → Validator F → Validator F
  unfolding expire_all
  schedule_clean_jobs now v = record v {
    jobs = record v.jobs { data_map = expire_all (now + v.clean_job_timeout) v.jobs.data_map };
  }

  unfoldable pub add_new_job :
      ℕ → MiningNotify → F → String → ℕ → Validator F → Option (Validator F)
  add_new_job now msg diff xn1 xn2size v = do
    let v' = if msg.clean_jobs then schedule_clean_jobs now v else v
    jobs ← BoundStackMap.push v'.jobs msg.job_id (new_mining_job msg diff xn1 xn2size)
    some (record v' { jobs = jobs })

  -- The job at a key, changed through its pointer.
  unfoldable pub put_job : String → MiningJob F → Validator F → Validator F
  put_job id job v = record v { jobs = record v.jobs { data_map = insert id job v.jobs.data_map } }

  copy_found : Option (Option (MiningJob F)) → Option (Option (MiningJob F))
  copy_found none = some none
  copy_found (some none) = none
  copy_found (some (some job)) = some (some (copy job))

  -- A key whose job is lost gives a nil pointer, and `Copy` of it panics.
  unfoldable pub get_latest_job : Validator F → Option (Option (MiningJob F))
  unfolding copy_found
  get_latest_job v = copy_found (BoundStackMap.at v.jobs (negsuc 0))

module _ (fl : Float64) (sha256 : List ℕ → List ℕ) where
  open fl use {F, to_uint64}

  -- The last part of `ValidateAndAddShare`.
  unfoldable pub check_diff : MiningJob F → MiningSubmit → Validator F → Option ShareResult
  check_diff job msg v = do
    r ←
        validate_diff sha256 job.extra_nonce1 (to_uint64 job.diff) v.version_rolling_mask job.notify
          msg
    some (record { diff = r.0; error = if r.1 then none else some low_difficulty })

  -- What follows `CheckDuplicateAndAddShare`.
  unfoldable pub after_check :
      String → Bool × MiningJob F → MiningSubmit → Validator F → Option (Validator F × ShareResult)
  unfolding check_diff
  after_check id (true, job) msg v = some (v, record { diff = 0; error = some duplicate_share })
  after_check id (false, job) msg v = do r ← check_diff job msg v; some (put_job id job v, r)

  unfoldable pub check_share :
      String → MiningJob F → MiningSubmit → Validator F → Option (Validator F × ShareResult)
  check_share id job msg v = do
    bytes ← share_of msg
    after_check id (check_duplicate_and_add_share job bytes) msg v

  abbrev pub not_found : Validator F → Option (Validator F × ShareResult)
  not_found v = some (v, record { diff = 0; error = some job_not_found })

  -- What follows `Get`.
  unfoldable pub with_job :
      ℕ
      → String
      → MiningSubmit
      → Validator F
      → Option (MiningJob F)
      → Option (Validator F × ShareResult)
  with_job now id msg v none = not_found v
  with_job now id msg v (some job) =
      if is_expired now job.expiration_time then not_found v else check_share id job msg v

  unfoldable pub validate_and_add_share :
      ℕ → MiningSubmit → Validator F → Option (Validator F × ShareResult)
  validate_and_add_share now msg v = do
    id ← get_job_id msg
    with_job now id msg v (BoundStackMap.get v.jobs id)
