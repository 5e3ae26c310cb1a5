-- ===== src/Proxy/Handshake/Changed.antt =====
-- A change of the destination to a pool that is not among the cached ones, with the connection that
-- the handshake makes (setDest of proxy.go with connectNewDest of handler_change_dest.go).
use proxy_router.Prelude.{ℕ, Bool, true, false, String, List, Option, none, some, string_eq}
use proxy_router.Prelude.Options.{◌>>=◌}
use proxy_router.Floats.{Float64}
use proxy_router.Validator.{Validator}
use proxy_router.Proxy.Change.{Proxy, Writes, ChangeError, set_dest}
use proxy_router.Proxy.Change.Obtained.{Outcome}
use proxy_router.Proxy.Handshake.{
  has_ended, Handshake, Handler, Results, Greeting, Move, begin_handshake, run_handshake,
  connected_dest,
}

-- A call that has returned, or has not (`none` inside).
abbrev pub returned : {A : Type 0} → Bool → Option A → Option (Option A)
returned true o = o >>= λ r. some (some r)
returned false o = some none

module _ (fl : Float64) {R K : Type 0} (results : Results R) where
  open fl use {F}

  -- `connectNewDest` and what `setDest` does with the connection: nothing (`none` inside) while the
  -- handshake has not ended.
  abbrev pub connect_and_set :
      Greeting
      → List (Move F R)
      → Validator F
      → Bool
      → ℕ
      → Writes
      → String
      → Option K
      → Proxy F Handler K
      → Option (Option (Proxy F Handler K × Option ChangeError))
  connect_and_set g ms valid auto idle w url on_submit p = do
    s ← run_handshake fl results g ms (begin_handshake url g.user valid)
    returned (has_ended s.stage) (set_dest auto idle (connected_dest s) w url on_submit p)
