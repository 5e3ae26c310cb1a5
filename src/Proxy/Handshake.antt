-- ===== src/Proxy/Handshake.antt =====
-- internal/resources/hashrate/proxy/handler_change_dest.go: how a proxy connects to a further pool
-- (connectNewDest and destHandshake, with onceResult and WriteAwaitRes of conn_dest.go). The goroutine
-- that reads the pool's messages and the task of the handshake take turns as the moves say. What a
-- result holds is read by encoding/json, which is a parameter. A panic is `none`.
pub mod Reading
pub mod Kept
pub mod Ready
pub mod Stuck
pub mod Changed
use proxy_router.Prelude.{
  ℕ, ◌+◌, Bool, true, false, String, List, [], ◌∷◌, ◌++◌, Option, none, some, if◌then◌else◌, ◌=?◌,
  string_eq, nat_eq,
}
use proxy_router.Prelude.Options.{◌>>=◌}
use proxy_router.Prelude.Assoc.{lookup, insert, delete}
use proxy_router.Floats.{Float64}
use proxy_router.Validator.{Validator}
use proxy_router.Proxy.Pipe.{Intercepted, intercept_fails, swallowed, passed}
use proxy_router.Proxy.Dest.{
  ConnDest, PoolMessage, notify, set_difficulty, set_extranonce, set_version_mask, result, other,
  new_dest_conn, set_extra_nonce, set_version_rolling, auto_read_start, once_result,
  read_interceptor,
}

-- A handler hands the result to WriteAwaitRes, or is that of the subscription.
pub data Handler : Type 0 where
  awaits subscribed : Handler

pub data HandshakeError : Type 0 where
  write_failed result_not_parsed mask_differs not_authorized : HandshakeError
  response_timeout cancelled read_failed : HandshakeError

pub data Stage : Type 0 where
  begins configuring subscribing authorizing awaiting_job connected : Stage
  failed : HandshakeError → Stage

pub data Sent : Type 0 where
  configure : String → ℕ → String → Sent
  subscribe : Sent
  authorize : String → String → Sent

-- How a result is read; `some none` is a result of the subscription whose extranonce cannot be taken
-- out, which panics.
pub record Results (R : Type 0) : Type 0 where
  pub is_error : R → Bool
  pub to_configure : R → Option (Bool × String)
  pub to_subscribe : R → Option (Option (String × ℕ))

-- What the proxy greets the pool with: the mask and the bits of the miner, and a user.
pub record Greeting : Type 0 where
  pub mask : String
  pub min_bits : ℕ
  pub user : String
  pub password : String

pub record Handshake (F R : Type 0) : Type 0 where
  pub conn : ConnDest F Handler
  pub stage : Stage
  -- the result that the handshake waits for has come
  pub answer : Option R
  pub sent : List Sent

-- A message is read; reading fails; the handshake goes on, if it can, with a write that goes through
-- or not; the time for an answer is over; the context is cancelled.
pub data Move (F R : Type 0) : Type 0 where
  reads : ℕ → PoolMessage F R → Move F R
  read_breaks : Move F R
  proceeds : Bool → Move F R
  times_out : Move F R
  cancels : Move F R

abbrev pub has_ended : Stage → Bool
has_ended connected = true
has_ended (failed e) = true
has_ended _ = false

module _ {F R : Type 0} where
  -- A new connection, which is read from the start.
  unfoldable pub begin_handshake : String → String → Validator F → Handshake F R
  unfolding new_dest_conn auto_read_start
  begin_handshake url user valid = record {
    conn = (auto_read_start none (new_dest_conn url user valid url)).0;
    stage = begins;
    answer = none;
    sent = [];
  }

  abbrev pub fail : HandshakeError → Handshake F R → Handshake F R
  fail e s = record s { stage = failed e }

  -- A handler for the answer is set up, and the message is written.
  abbrev pub ask : ℕ → Handler → Sent → Stage → Bool → Handshake F R → Handshake F R
  ask id h msg stage ok s =
      let c = record s.conn { result_handlers = insert id h s.conn.result_handlers } in
      if ok
      then record s { conn = c; stage = stage; answer = none; sent = s.sent ++ msg ∷ [] }
      else record s { conn = c; stage = failed write_failed }

  abbrev pub send_subscribe : Bool → Handshake F R → Handshake F R
  send_subscribe ok s = ask 2 subscribed subscribe subscribing ok s

  abbrev pub send_authorize : Greeting → Bool → Handshake F R → Handshake F R
  send_authorize g ok s = ask 3 awaits (authorize g.user g.password) authorizing ok s

  -- The result of the configuration.
  on_configured : Option (Bool × String) → Greeting → Bool → Handshake F R → Handshake F R
  unfolding set_version_rolling
  on_configured none g ok s = fail result_not_parsed s
  on_configured (some (_, mask)) g ok s =
      if mask =? g.mask
      then send_subscribe ok (record s { conn = set_version_rolling true mask s.conn })
      else fail mask_differs s

-- The handshake gets the result that a handler has run for.
answered : {R : Type 0} → Option Handler → R → Option R → Option R
answered none r answer = answer
answered (some h) r answer = some r

module _ {F R : Type 0} (results : Results R) where
  -- The next step of `destHandshake`, where what it waits for is there.
  go_on : Greeting → Bool → Stage → Option R → Handshake F R → Handshake F R
  unfolding on_configured
  go_on g ok begins answer s =
      if g.mask =? ""
      then send_subscribe ok s
      else ask 1 awaits (configure g.mask g.min_bits g.user) configuring ok s
  go_on g ok configuring (some r) s = on_configured (results.to_configure r) g ok s
  go_on g ok subscribing (some r) s = send_authorize g ok s
  go_on g ok authorizing (some r) s =
      if results.is_error r
      then fail not_authorized s
      else record s { stage = awaiting_job; answer = none }
  go_on g ok awaiting_job answer s =
      if s.conn.first_job
      then record s { stage = connected; conn = record s.conn { auto_read = none } }
      else s
  go_on g ok _ answer s = s

  subscribe_result :
      {E : Type 0}
      → E
      → Option (Option (String × ℕ))
      → ConnDest F Handler
      → Option (ConnDest F Handler × Intercepted (PoolMessage F R) E)
  unfolding set_extra_nonce
  subscribe_result e none c = some (c, intercept_fails e)
  subscribe_result e (some none) c = none
  subscribe_result e (some (some (xn, size))) c = some (set_extra_nonce xn size c, swallowed)

  unfoldable pub run_handler :
      Handler
      → ℕ
      → R
      → ConnDest F Handler
      → Option (ConnDest F Handler × Intercepted (PoolMessage F R) HandshakeError)
  unfolding subscribe_result
  run_handler awaits id r c = some (c, swallowed)
  run_handler subscribed id r c = subscribe_result result_not_parsed (results.to_subscribe r) c

  answer_to : PoolMessage F R → Handshake F R → Option R
  unfolding answered
  answer_to (result id r) s = answered (lookup id s.conn.result_handlers) r s.answer
  answer_to (notify m) s = s.answer
  answer_to (set_difficulty d) s = s.answer
  answer_to (set_extranonce xn size) s = s.answer
  answer_to (set_version_mask mask) s = s.answer
  answer_to other s = s.answer

  after_message :
      PoolMessage F R
      → ConnDest F Handler × Intercepted (PoolMessage F R) HandshakeError
      → Handshake F R
      → Handshake F R
  unfolding answer_to
  after_message msg (c, intercept_fails e) s = record s { conn = c; stage = failed read_failed }
  after_message msg (c, swallowed) s = record s { conn = c; answer = answer_to msg s }
  after_message msg (c, passed m) s = record s { conn = c; answer = answer_to msg s }

  -- The handler goes. The wait for the subscription has no end of its own.
  time_out : Stage → Handshake F R → Handshake F R
  time_out configuring s =
      fail response_timeout
        (record s { conn = record s.conn { result_handlers = delete 1 s.conn.result_handlers } })
  time_out subscribing s = record s {
    conn = record s.conn { result_handlers = delete 2 s.conn.result_handlers };
  }
  time_out authorizing s =
      fail response_timeout
        (record s { conn = record s.conn { result_handlers = delete 3 s.conn.result_handlers } })
  time_out _ s = s

module _ (fl : Float64) {R : Type 0} (results : Results R) where
  open fl use {F}

  unfoldable pub handshake_move : Greeting → Move F R → Handshake F R → Option (Handshake F R)
  unfolding after_message go_on time_out
  handshake_move g (reads now msg) s = do
    r ← read_interceptor fl (run_handler results) now msg s.conn
    some (after_message results msg r s)
  handshake_move g read_breaks s = some (fail read_failed s)
  handshake_move g (proceeds ok) s = some (go_on results g ok s.stage s.answer s)
  handshake_move g times_out s = some (time_out results s.stage s)
  handshake_move g cancels s = some (fail cancelled s)

  -- `connectNewDest`: nothing is read once the handshake has ended.
  unfoldable pub run_handshake : Greeting → List (Move F R) → Handshake F R → Option (Handshake F R)
  run_handshake g [] s = some s
  run_handshake g (m ∷ ms) s = do
    s' ← if has_ended s.stage then some s else handshake_move g m s
    run_handshake g ms s'

-- The new connection, if there is one.
abbrev pub stage_is_connected : Stage → Bool
stage_is_connected connected = true
stage_is_connected _ = false

unfoldable pub connected_dest : {F R : Type 0} → Handshake F R → Option (ConnDest F Handler)
connected_dest s = if stage_is_connected s.stage then some s.conn else none
