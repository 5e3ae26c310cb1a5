-- ===== src/Proxy/Dest/InForce.antt =====
-- The difficulty and the extranonce that a pool's jobs are kept with (`readInterceptor` of
-- conn_dest.go).
use proxy_router.Prelude.{ℕ, ◌≡◌, refl, sym, ap, ◌∙◌, subst, List, [], ◌∷◌, Option, some}
use proxy_router.Prelude.Options.{◌>>=◌, Returns, Returns-bind, Returns-map}
use proxy_router.Floats.{Float64}
use proxy_router.Stratum.{MiningNotify}
use proxy_router.Validator.{set_version_rolling_mask}
use proxy_router.Proxy.Pipe.{Intercepted, passed}
use proxy_router.Proxy.Dest.{
  set_extra_nonce, set_version_rolling, ConnDest, PoolMessage, notify, set_difficulty,
  set_extranonce, set_version_mask, result, other, read_interceptor, auto_read, goes_on_after,
}
use proxy_router.Proxy.Dest.Kept.{Work, work_of, last_set, Unasked, HasRoom, Kept, add_job_lem}

module _ (fl : Float64) {H R E : Type 0}
    (run_handler : H
      → ℕ
      → R
      → ConnDest fl.F H
      → Option (ConnDest fl.F H × Intercepted (PoolMessage fl.F R) E)) where
  open fl use {F, of_int, to_uint64}

  abbrev Passed :
      ℕ → PoolMessage F R → ConnDest F H → ConnDest F H × Intercepted (PoolMessage F R) E → Type 0
  Passed now msg c r =
      HasRoom r.0
      × (work_of r.0 ≡ last_set to_uint64 ((now, msg) ∷ []) (work_of c))
      × (r.1 ≡ passed msg)

  -- One message that is no result.
  message_lem :
      (now : ℕ) (msg : PoolMessage F R) (c : ConnDest F H)
      → Unasked ((now, msg) ∷ [])
      → HasRoom c
      → Returns (Passed now msg c) (read_interceptor fl run_handler now msg c)
  unfolding read_interceptor set_extra_nonce set_version_rolling set_version_rolling_mask
  message_lem now (notify m) c u k =
      Returns-bind
        (λ c'. HasRoom c' × (work_of c' ≡ work_of c) × Kept fl run_handler m (work_of c) c')
        (Passed now (notify m) c) _ _ (add_job_lem fl run_handler now m c k)
        (λ c' q. (q.0, q.1, refl))
  message_lem now (set_difficulty d) c u k =
      (record { formed = k.formed; some_room = k.some_room }, refl, refl)
  message_lem now (set_extranonce xn size) c u k =
      (record { formed = k.formed; some_room = k.some_room }, refl, refl)
  message_lem now (set_version_mask mask) c u k =
      (record { formed = k.formed; some_room = k.some_room }, refl, refl)
  message_lem now (result i r) c u k = elim u [ ]
  message_lem now other c u k = (k, refl, refl)

  last_set_cons :
      (now : ℕ) (msg : PoolMessage F R) (ms : List (ℕ × PoolMessage F R)) (w : Work)
      → last_set to_uint64 ((now, msg) ∷ ms) w
        ≡ last_set to_uint64 ms (last_set to_uint64 ((now, msg) ∷ []) w)
  last_set_cons now (notify m) ms w = refl
  last_set_cons now (set_difficulty d) ms w = refl
  last_set_cons now (set_extranonce xn size) ms w = refl
  last_set_cons now (set_version_mask mask) ms w = refl
  last_set_cons now (result i r) ms w = refl
  last_set_cons now other ms w = refl

  Unasked-cons :
      (now : ℕ) (msg : PoolMessage F R) (ms : List (ℕ × PoolMessage F R))
      → Unasked ((now, msg) ∷ ms)
      → Unasked ((now, msg) ∷ []) × Unasked ms
  Unasked-cons now (notify m) ms u = (tt, u)
  Unasked-cons now (set_difficulty d) ms u = (tt, u)
  Unasked-cons now (set_extranonce xn size) ms u = (tt, u)
  Unasked-cons now (set_version_mask mask) ms u = (tt, u)
  Unasked-cons now (result i r) ms u = absurd u
  Unasked-cons now other ms u = (tt, u)

  abbrev Follows : List (ℕ × PoolMessage F R) → ConnDest F H → ConnDest F H → Type 0
  Follows ms c c' = HasRoom c' × (work_of c' ≡ last_set to_uint64 ms (work_of c))

  goes_on_lem :
      (r : ConnDest F H × Intercepted (PoolMessage F R) E) (msg : PoolMessage F R)
      (rest : Option (ConnDest F H))
      → r.1 ≡ passed msg
      → goes_on_after fl run_handler r rest ≡ rest
  goes_on_lem (c, i) msg rest e = rw e

  auto_read_lem :
      (ms : List (ℕ × PoolMessage F R)) (c : ConnDest F H)
      → Unasked ms
      → HasRoom c
      → Returns (Follows ms c) (auto_read fl run_handler ms c)
  unfolding auto_read
  auto_read_lem [] c u k = (k, refl)
  auto_read_lem ((now, msg) ∷ ms) c u k =
      let v = Unasked-cons now msg ms u in
      Returns-bind (Passed now msg c) (Follows ((now, msg) ∷ ms) c) _ _
        (message_lem now msg c v.0 k)
        (λ r q. rw (goes_on_lem r msg (auto_read fl run_handler ms r.0) q.2) (
          Returns-map (Follows ms r.0) (Follows ((now, msg) ∷ ms) c) _
            (auto_read_lem ms r.0 v.1 q.0)
            (λ c' f. (
              f.0,
              f.1 ∙ ap (last_set to_uint64 ms) q.1 ∙ sym (last_set_cons now msg ms (work_of c)),
            ))))

  notify_lem :
      (now : ℕ) (m : MiningNotify) (c : ConnDest F H)
      → HasRoom c
      → Returns
          (Kept fl run_handler m (work_of c))
          (do r ← read_interceptor fl run_handler now (notify m) c; some r.0)
  unfolding read_interceptor
  notify_lem now m c k =
      Returns-bind (λ r. Kept fl run_handler m (work_of c) r.0) (Kept fl run_handler m (work_of c))
        _ _
        (Returns-bind
          (λ c'. HasRoom c' × (work_of c' ≡ work_of c) × Kept fl run_handler m (work_of c) c')
          (λ r. Kept fl run_handler m (work_of c) r.0) _ _ (add_job_lem fl run_handler now m c k)
          (λ c' q. q.2))
        (λ r q. q)

  -- A pool sends what it likes, but no results, and then a job. No message panics, the job is in the
  -- validator with the difficulty and the extranonce that were set last before it, and the
  -- destination has told that it has a job.
  pub notify_in_force :
      (ms : List (ℕ × PoolMessage F R)) (now : ℕ) (m : MiningNotify) (c : ConnDest F H)
      → Unasked ms
      → HasRoom c
      → Returns (Kept fl run_handler m (last_set to_uint64 ms (work_of c))) (do
        c1 ← auto_read fl run_handler ms c
        r ← read_interceptor fl run_handler now (notify m) c1
        some r.0)
  notify_in_force ms now m c u k =
      Returns-bind (Follows ms c) (Kept fl run_handler m (last_set to_uint64 ms (work_of c))) _ _
        (auto_read_lem ms c u k)
        (λ c1 f.
          subst
            (λ w.
              Returns (Kept fl run_handler m w)
                (do r ← read_interceptor fl run_handler now (notify m) c1; some r.0))
            f.1 (notify_lem now m c1 f.0))
