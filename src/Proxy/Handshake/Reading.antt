-- ===== src/Proxy/Handshake/Reading.antt =====
-- What a message of the pool leaves of a new connection (readInterceptor of conn_dest.go, in the
-- handshake of handler_change_dest.go).
use proxy_router.Prelude.{
  ℕ, ◌<◌, ◌≡◌, ◌≢◌, refl, ◌∙◌, Bool, true, false, String, Option, none, some, arith, string_eq,
}
use proxy_router.Prelude.Options.{◌>>=◌, Returns, Returns-bind}
use proxy_router.Prelude.Int.{pos, negsuc}
use proxy_router.Floats.{Float64}
use proxy_router.Stratum.{MiningNotify}
use proxy_router.Containers.BoundStackMap.{BoundStackMap, push, at}
use proxy_router.Containers.BoundStackMap.Counts.{IsWellFormed}
use proxy_router.Containers.BoundStackMap.Last.{at-push_last}
use proxy_router.Validator.{MiningJob, Validator, add_new_job, set_version_rolling_mask}
use proxy_router.Proxy.Pipe.{Intercepted}
use proxy_router.Proxy.Dest.{
  ConnDest, PoolMessage, notify, set_difficulty, set_extranonce, set_version_mask, result, other,
  set_extra_nonce, set_version_rolling, add_job, handle_result, read_interceptor,
}
use proxy_router.Proxy.Handshake.{
  Handler, awaits, subscribed, HandshakeError, Results, subscribe_result, run_handler,
}
use proxy_router.Proxy.Dest.Kept.{cleaned}

-- The latest job is there, once there has been a first one.
abbrev pub LatestKept : {V : Type 0} → Bool → BoundStackMap V → Type 0
LatestKept true b = Returns (λ o. Returns (λ _. Unit {0}) o) (at b (negsuc 0))
LatestKept false b = Unit {0}

pub record ConnOk {F H : Type 0} (url : String) (c : ConnDest F H) : Type 0 where
  pub same_id : c.id ≡ url
  pub formed : IsWellFormed c.validator.jobs
  pub some_room : 0 < c.validator.jobs.capacity
  pub latest : LatestKept c.first_job c.validator.jobs

-- A change that leaves the ID, the jobs and the flag alone.
pub kept :
    {F H : Type 0} (url : String) (c c' : ConnDest F H)
    → c'.id ≡ c.id
    → c'.validator.jobs ≡ c.validator.jobs
    → c'.first_job ≡ c.first_job
    → ConnOk url c
    → ConnOk url c'
kept url c c' i j f k = record {
  same_id = i ∙ k.same_id;
  formed = rw j k.formed;
  some_room = rw j k.some_room;
  latest = rw (j, f) k.latest;
}

module _ {F : Type 0} where
  -- The validator after `AddNewJob`.
  abbrev pub Took : Validator F → Type 0
  Took v = IsWellFormed v.jobs × (0 < v.jobs.capacity) × LatestKept true v.jobs

  push-Took :
      (id : String) (job : MiningJob F) (v : Validator F)
      → IsWellFormed v.jobs × (0 < v.jobs.capacity)
      → Returns Took (push v.jobs id job >>= (λ jobs. some (record v { jobs = jobs })))
  push-Took id job v k =
      Returns-bind
        (λ b.
          (IsWellFormed b × (b.capacity ≡ v.jobs.capacity)) × (at b (negsuc 0) ≡ some (some job)))
        Took _ _ (at-push_last v.jobs id job k.0 k.1)
        (λ b q. (q.0.0, omega (arith, q.0.1), rw q.1 tt))

  pub add_new_job-Took :
      (now : ℕ) (m : MiningNotify) (diff : F) (xn : String) (size : ℕ) (v : Validator F)
      → IsWellFormed v.jobs
      → 0 < v.jobs.capacity
      → Returns Took (add_new_job now m diff xn size v)
  unfolding add_new_job
  add_new_job-Took now m diff xn size v k p =
      push-Took m.job_id _ _ (cleaned m.clean_jobs now v k p)

module _ (fl : Float64) {R : Type 0} (results : Results R) where
  open fl use {F, of_int, to_uint64}

  abbrev pub ReadOk :
      String → ConnDest F Handler × Intercepted (PoolMessage F R) HandshakeError → Type 0
  ReadOk url r = ConnOk url r.0

  -- No result of the subscription panics.
  abbrev pub NoPanic : Type 0
  NoPanic = (r : R) → results.to_subscribe r ≢ some none

  subscribe_result-ConnOk :
      (url : String) (e : HandshakeError) (o : Option (Option (String × ℕ)))
      (c : ConnDest F Handler)
      → o ≢ some none
      → ConnOk url c
      → Returns (ReadOk url) (subscribe_result results e o c)
  unfolding subscribe_result set_extra_nonce
  subscribe_result-ConnOk url e none c n k = k
  subscribe_result-ConnOk url e (some none) c n k = absurd (n refl)
  subscribe_result-ConnOk url e (some (some (xn, size))) c n k = kept url _ _ refl refl refl k

  handle_result-ConnOk :
      (url : String) (o : Option Handler) (id : ℕ) (r : R) (c : ConnDest F Handler)
      → NoPanic
      → ConnOk url c
      → Returns (ReadOk url) (handle_result fl (run_handler results) o id r c)
  unfolding handle_result run_handler
  handle_result-ConnOk url none id r c n k = k
  handle_result-ConnOk url (some awaits) id r c n k = kept url _ _ refl refl refl k
  handle_result-ConnOk url (some subscribed) id r c n k =
      subscribe_result-ConnOk url _ (results.to_subscribe r) _ (n r) (kept url _ _ refl refl refl k)

  pub read-ConnOk :
      (url : String) (now : ℕ) (msg : PoolMessage F R) (c : ConnDest F Handler)
      → NoPanic
      → ConnOk url c
      → Returns (ReadOk url) (read_interceptor fl (run_handler results) now msg c)
  unfolding read_interceptor add_job set_extra_nonce set_version_rolling set_version_rolling_mask
  read-ConnOk url now (notify m) c n k =
      Returns-bind (ConnOk url) (ReadOk url) _ _
        (Returns-bind Took (ConnOk url) _ _
          (add_new_job-Took now m (of_int (pos c.diff)) c.extra_nonce1 c.extra_nonce2_size
            c.validator k.formed k.some_room)
          (λ v q. record { same_id = k.same_id; formed = q.0; some_room = q.1; latest = q.2 }))
        (λ c' q. q)
  read-ConnOk url now (set_difficulty d) c n k = kept url _ _ refl refl refl k
  read-ConnOk url now (set_extranonce xn size) c n k = kept url _ _ refl refl refl k
  read-ConnOk url now (set_version_mask mask) c n k = kept url _ _ refl refl refl k
  read-ConnOk url now (result id r) c n k = handle_result-ConnOk url _ id r c n k
  read-ConnOk url now other c n k = k
