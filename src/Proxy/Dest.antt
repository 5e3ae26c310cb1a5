-- ===== src/Proxy/Dest.antt =====
-- internal/resources/hashrate/proxy/conn_dest.go: the connection to a pool, and what it keeps of the
-- messages that it reads. A URL is its text. `H` are the handlers that wait for a result with an ID,
-- and `run_handler` is what such a handler does; it may panic. A panic is `none`.
pub mod Kept
pub mod InForce
use proxy_router.Prelude.{
  ℕ, ◌+◌, Bool, true, false, String, List, [], ◌∷◌, Option, none, some, ◌⊎◌, inl, inr,
  if◌then◌else◌, nat_eq, ◌=?◌,
}
use proxy_router.Prelude.Options.{◌>>=◌}
use proxy_router.Prelude.Int.{ℤ, pos}
use proxy_router.Prelude.Assoc.{Assoc, lookup, insert, delete}
use proxy_router.Floats.{Float64}
use proxy_router.Stratum.{MiningNotify}
use proxy_router.Validator.{Validator, new_validator, add_new_job, set_version_rolling_mask}
use proxy_router.Proxy.Pipe.{Intercepted, intercept_fails, swallowed, passed}

pub record ConnDest (F H : Type 0) : Type 0 where
  pub id : String
  pub user_name : String
  pub dest_url : String
  pub diff : ℕ
  pub extra_nonce1 : String
  pub extra_nonce2_size : ℕ
  pub version_rolling : Bool
  pub version_rolling_mask : String
  pub validator : Validator F
  -- `firstJobSignal` is closed
  pub first_job : Bool
  pub result_handlers : Assoc ℕ H
  -- `arCancel` is set; the inner option is the URL that its callback takes off the map of the proxy
  pub auto_read : Option (Option String)
  pub closed : Bool
  pub idle_close_at : ℕ

-- What a pool sends. `R` is the content of a result.
pub data PoolMessage (F R : Type 0) : Type 0 where
  notify : MiningNotify → PoolMessage F R
  set_difficulty : F → PoolMessage F R
  set_extranonce : String → ℕ → PoolMessage F R
  set_version_mask : String → PoolMessage F R
  result : ℕ → R → PoolMessage F R
  other : PoolMessage F R

module _ {F H : Type 0} where
  unfoldable pub new_dest_conn : String → String → Validator F → String → ConnDest F H
  new_dest_conn id user valid url = record {
    id = id;
    user_name = user;
    dest_url = url;
    diff = 0;
    extra_nonce1 = "";
    extra_nonce2_size = 0;
    version_rolling = false;
    version_rolling_mask = "";
    validator = valid;
    first_job = false;
    result_handlers = [];
    auto_read = none;
    closed = false;
    idle_close_at = 0;
  }

  unfoldable pub set_extra_nonce : String → ℕ → ConnDest F H → ConnDest F H
  set_extra_nonce xn size c = record c { extra_nonce1 = xn; extra_nonce2_size = size }

  unfoldable pub set_version_rolling : Bool → String → ConnDest F H → ConnDest F H
  set_version_rolling rolling mask c = record c {
    version_rolling = rolling;
    version_rolling_mask = mask;
    validator = set_version_rolling_mask c.validator mask;
  }

  -- `with_user` puts a user's name into a URL. The ID of the connection follows.
  unfoldable pub set_user_name : (String → String → String) → String → ConnDest F H → ConnDest F H
  set_user_name with_user name c =
      let url = with_user c.dest_url name in record c { user_name = name; dest_url = url; id = url }

  -- `false` if it reads already.
  unfoldable pub auto_read_start : Option String → ConnDest F H → ConnDest F H × Bool
  auto_read_start cb c = elim c.auto_read [
    | none ↦ (record c { auto_read = some cb }, true)
    | some _ ↦ (c, false)
  ]

  unfoldable pub once_result : ℕ → H → ConnDest F H → ConnDest F H
  once_result msg_id handler c = record c {
    result_handlers = insert msg_id handler c.result_handlers;
  }

module _ (fl : Float64) {H R E : Type 0}
    (run_handler : H
      → ℕ
      → R
      → ConnDest fl.F H
      → Option (ConnDest fl.F H × Intercepted (PoolMessage fl.F R) E)) where
  open fl use {F, of_int, to_uint64}

  -- What follows `LoadAndDelete`.
  unfoldable pub handle_result :
      Option H → ℕ → R → ConnDest F H → Option (ConnDest F H × Intercepted (PoolMessage F R) E)
  handle_result none id r c = some (c, passed (result id r))
  handle_result (some h) id r c =
      run_handler h id r (record c { result_handlers = delete id c.result_handlers })

  unfoldable pub add_job : ℕ → MiningNotify → ConnDest F H → Option (ConnDest F H)
  add_job now msg c = do
    v ← add_new_job now msg (of_int (pos c.diff)) c.extra_nonce1 c.extra_nonce2_size c.validator
    some (record c { validator = v; first_job = true })

  unfoldable pub read_interceptor :
      ℕ → PoolMessage F R → ConnDest F H → Option (ConnDest F H × Intercepted (PoolMessage F R) E)
  unfolding add_job handle_result set_extra_nonce set_version_rolling
  read_interceptor now (notify msg) c = do c' ← add_job now msg c; some (c', passed (notify msg))
  read_interceptor now (set_difficulty d) c =
      some (record c { diff = to_uint64 d }, passed (set_difficulty d))
  read_interceptor now (set_extranonce xn size) c =
      some (set_extra_nonce xn size c, passed (set_extranonce xn size))
  read_interceptor now (set_version_mask mask) c =
      some (set_version_rolling true mask c, passed (set_version_mask mask))
  read_interceptor now (result id r) c = handle_result (lookup id c.result_handlers) id r c
  read_interceptor now other c = some (c, passed other)

  -- Whether reading goes on: `AutoRead` ends at the first error.
  abbrev goes_on_after :
      ConnDest F H × Intercepted (PoolMessage F R) E → Option (ConnDest F H) → Option (ConnDest F H)
  goes_on_after (c, intercept_fails e) rest = some c
  goes_on_after (c, _) rest = rest

  -- The messages that `AutoRead` reads, each with the time.
  unfoldable pub auto_read : List (ℕ × PoolMessage F R) → ConnDest F H → Option (ConnDest F H)
  auto_read [] c = some c
  auto_read ((now, msg) ∷ msgs) c = do
    r ← read_interceptor now msg c
    goes_on_after r (auto_read msgs r.0)
