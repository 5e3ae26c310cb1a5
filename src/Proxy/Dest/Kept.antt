-- ===== src/Proxy/Dest/Kept.antt =====
-- What a job of a pool is kept with (`readInterceptor` and `AddNewJob`, conn_dest.go and validator.go).
use proxy_router.Prelude.{
  ℕ, ◌<◌, ◌≡◌, refl, Bool, true, false, String, List, [], ◌∷◌, Option, some, arith, if◌then◌else◌,
}
use proxy_router.Prelude.Options.{◌>>=◌, Returns, Returns-bind, Returns-and}
use proxy_router.Prelude.Int.{pos}
use proxy_router.Floats.{Float64}
use proxy_router.Stratum.{MiningNotify}
use proxy_router.Containers.BoundStackMap.{BoundStackMap, push, get}
use proxy_router.Containers.BoundStackMap.Counts.{IsWellFormed, push-IsWellFormed}
use proxy_router.Containers.BoundStackMap.Duplicates.{get-push_self}
use proxy_router.Validator.{MiningJob, Validator, new_mining_job, add_new_job, schedule_clean_jobs}
use proxy_router.Proxy.Pipe.{Intercepted}
use proxy_router.Proxy.Dest.{
  ConnDest, PoolMessage, notify, set_difficulty, set_extranonce, set_version_mask, result, other,
  add_job,
}

-- What a job is kept with.
pub record Work : Type 0 where
  pub difficulty : ℕ
  pub extranonce : String
  pub size : ℕ

abbrev pub work_of : {F H : Type 0} → ConnDest F H → Work
work_of c = record { difficulty = c.diff; extranonce = c.extra_nonce1; size = c.extra_nonce2_size }

module _ {F : Type 0} (to_uint64 : F → ℕ) where
  -- The last difficulty and the last extranonce that the pool has set.
  abbrev pub last_set : {R : Type 0} → List (ℕ × PoolMessage F R) → Work → Work
  last_set [] w = w
  last_set ((now, set_difficulty d) ∷ ms) w = last_set ms (record w { difficulty = to_uint64 d })
  last_set ((now, set_extranonce xn size) ∷ ms) w =
      last_set ms (record w { extranonce = xn; size = size })
  last_set ((now, notify m) ∷ ms) w = last_set ms w
  last_set ((now, set_version_mask m) ∷ ms) w = last_set ms w
  last_set ((now, result i r) ∷ ms) w = last_set ms w
  last_set ((now, other) ∷ ms) w = last_set ms w

-- No result is among the messages.
abbrev pub Unasked : {F R : Type 0} → List (ℕ × PoolMessage F R) → Type 0
Unasked [] = Unit {0}
Unasked ((now, result i r) ∷ ms) = ⊥
Unasked ((now, notify m) ∷ ms) = Unasked ms
Unasked ((now, set_difficulty d) ∷ ms) = Unasked ms
Unasked ((now, set_extranonce xn size) ∷ ms) = Unasked ms
Unasked ((now, set_version_mask m) ∷ ms) = Unasked ms
Unasked ((now, other) ∷ ms) = Unasked ms

pub record HasRoom {F H : Type 0} (c : ConnDest F H) : Type 0 where
  pub formed : IsWellFormed c.validator.jobs
  pub some_room : 0 < c.validator.jobs.capacity

module _ {F : Type 0} where
  -- The validator once the jobs are marked, if they are.
  pub cleaned :
      (clean : Bool) (now : ℕ) (v : Validator F)
      → IsWellFormed v.jobs
      → 0 < v.jobs.capacity
      → IsWellFormed (if clean then schedule_clean_jobs now v else v).jobs
        × (0 < (if clean then schedule_clean_jobs now v else v).jobs.capacity)
  unfolding schedule_clean_jobs
  cleaned true now v k p = (record { counted = k.counted; bounded = k.bounded }, p)
  cleaned false now v k p = (k, p)

module _ (fl : Float64) {H R E : Type 0}
    (run_handler : H
      → ℕ
      → R
      → ConnDest fl.F H
      → Option (ConnDest fl.F H × Intercepted (PoolMessage fl.F R) E)) where
  open fl use {F, of_int, to_uint64}

  -- The job of a notification, with the work that it is kept for; and there is a first job.
  abbrev pub Kept : MiningNotify → Work → ConnDest F H → Type 0
  Kept m w c =
      (get c.validator.jobs m.job_id
        ≡ some (new_mining_job m (of_int (pos w.difficulty)) w.extranonce w.size))
      × (c.first_job ≡ true)

  abbrev Pushed : MiningNotify → Work → Validator F → BoundStackMap (MiningJob F) → Type 0
  Pushed m w v b =
      (IsWellFormed b × (b.capacity ≡ v.jobs.capacity))
      × (get b m.job_id ≡ some (new_mining_job m (of_int (pos w.difficulty)) w.extranonce w.size))

  push_job :
      (m : MiningNotify) (w : Work) (v : Validator F)
      → IsWellFormed v.jobs
      → 0 < v.jobs.capacity
      → Returns
          (Pushed m w v)
          (push v.jobs m.job_id (new_mining_job m (of_int (pos w.difficulty)) w.extranonce w.size))
  push_job m w v k p =
      Returns-and _ _ _ (push-IsWellFormed v.jobs m.job_id _ k p)
        (λ b e. get-push_self v.jobs b m.job_id _ e)

  -- The validator after `AddNewJob`.
  abbrev Took : MiningNotify → Work → Validator F → Type 0
  Took m w v =
      IsWellFormed v.jobs
      × (0 < v.jobs.capacity)
      × (get v.jobs m.job_id
          ≡ some (new_mining_job m (of_int (pos w.difficulty)) w.extranonce w.size))

  push_taken :
      (m : MiningNotify) (w : Work) (v : Validator F)
      → IsWellFormed v.jobs × (0 < v.jobs.capacity)
      → Returns (Took m w) (
          push v.jobs m.job_id (new_mining_job m (of_int (pos w.difficulty)) w.extranonce w.size)
          >>= (λ jobs. some (record v { jobs = jobs })))
  push_taken m w v k =
      Returns-bind (Pushed m w v) (Took m w) _ _ (push_job m w v k.0 k.1)
        (λ b q. (q.0.0, omega (arith, q.0.1), q.1))

  add_new_job-Took :
      (now : ℕ) (m : MiningNotify) (w : Work) (v : Validator F)
      → IsWellFormed v.jobs
      → 0 < v.jobs.capacity
      → Returns (Took m w) (add_new_job now m (of_int (pos w.difficulty)) w.extranonce w.size v)
  unfolding add_new_job
  add_new_job-Took now m w v k p = push_taken m w _ (cleaned m.clean_jobs now v k p)

  pub add_job_lem :
      (now : ℕ) (m : MiningNotify) (c : ConnDest F H)
      → HasRoom c
      → Returns
          (λ c'. HasRoom c' × (work_of c' ≡ work_of c) × Kept m (work_of c) c')
          (add_job fl run_handler now m c)
  unfolding add_job
  add_job_lem now m c k =
      Returns-bind (Took m (work_of c)) _ _ _
        (add_new_job-Took now m (work_of c) c.validator k.formed k.some_room)
        (λ v q. (record { formed = q.0; some_room = q.1 }, refl, (q.2, refl)))
