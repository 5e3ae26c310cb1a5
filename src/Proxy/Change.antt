-- ===== src/Proxy/Change.antt =====
-- The destinations of a proxy and the change of the one in use: internal/resources/hashrate/proxy/
-- proxy.go, and resendRelevantNotifications of handler_change_dest.go. The connections are pointers, so
-- they stand in a store, `conns`, under numbers; `K` are the callbacks for shares. What the pool and
-- the miner answer is an argument. A panic is `none`. The wait for unanswered messages is left out:
-- where it returns, it changes nothing.
pub mod Keyed
pub mod Kept
pub mod Obtained
pub mod Outcome
pub mod Reconnect
pub mod Reconnected
use proxy_router.Prelude.{
  ℕ, ◌+◌, Bool, true, false, String, List, [], ◌∷◌, ◌++◌, Option, none, some, if◌then◌else◌, length,
  ltb, leb, ◌==◌, ◌=?◌, string_eq,
}
use proxy_router.Prelude.Options.{◌>>=◌}
use proxy_router.Prelude.Assoc.{Assoc, lookup, insert, delete}
use proxy_router.Stratum.{MiningNotify, MiningSubmit, set_clean_jobs}
use proxy_router.Validator.{MiningJob, get_latest_job}
use proxy_router.Proxy.Dest.{ConnDest, auto_read_start}

-- What is written to the miner.
pub data ToMiner (F : Type 0) : Type 0 where
  version_mask : String → ToMiner F
  extranonce : String → ℕ → ToMiner F
  difficulty : F → ToMiner F
  notify : MiningNotify → ToMiner F

pub record Source (F : Type 0) : Type 0 where
  pub extra_nonce : String
  pub extra_nonce_size : ℕ
  pub written : List (ToMiner F)

-- The first errors come before the pipe is stopped, the others after.
pub data ChangeError : Type 0 where
  connect_failed autoread_not_started : ChangeError
  source_write_failed no_job_available : ChangeError

-- A direction of the pipe, a task of lib/task.go: its goroutine runs; was stopped and has left; was
-- stopped, has closed the channel of the stop, and has yet to note that it runs no more; or the task
-- has ended by itself, for good.
pub data Direction : Type 0 where
  runs stopped leaving done : Direction

pub record Directions : Type 0 where
  pub source_to_dest : Direction
  pub dest_to_source : Direction

-- How the goroutine of a direction that is stopped leaves: before the direction is started again,
-- after that, or by an error of its own, which ends the task.
pub data Exit : Type 0 where
  in_time late fails : Exit

-- What a change meets: how the directions leave, and whether the four writes to the miner go through.
pub record Writes : Type 0 where
  pub source_to_dest_exit : Exit
  pub dest_to_source_exit : Exit
  pub mask_ok : Bool
  pub extranonce_ok : Bool
  pub difficulty_ok : Bool
  pub notify_ok : Bool

pub record Proxy (F H K : Type 0) : Type 0 where
  pub source : Source F
  pub conns : ℕ → ConnDest F H
  pub next : ℕ
  pub dest : ℕ
  pub dest_url : String
  pub dest_map : Assoc String ℕ
  pub max_cached_dests : ℕ
  pub on_submit : Option K
  pub pipe_dest : ℕ
  pub directions : Directions

-- `Task.Stop`, when its channel is closed.
abbrev pub stop_direction : Exit → Direction → Direction
stop_direction in_time runs = stopped
stop_direction late runs = leaving
stop_direction fails runs = done
stop_direction in_time leaving = stopped
stop_direction late leaving = leaving
stop_direction fails leaving = leaving
stop_direction e stopped = stopped
stop_direction e done = done

-- `Task.Start`. A start that comes before the goroutine has left is lost; a task that is done does not
-- start.
abbrev pub start_direction : Direction → Direction
start_direction runs = runs
start_direction stopped = runs
start_direction leaving = stopped
start_direction done = done

unfoldable pub stop_pipe : Writes → Directions → Directions
stop_pipe w d = record {
  source_to_dest = stop_direction w.source_to_dest_exit d.source_to_dest;
  dest_to_source = stop_direction w.dest_to_source_exit d.dest_to_source;
}

unfoldable pub start_pipe : Directions → Directions
start_pipe d = record {
  source_to_dest = start_direction d.source_to_dest;
  dest_to_source = start_direction d.dest_to_source;
}

module _ {F : Type 0} where
  write : ToMiner F → Source F → Source F
  write msg s = record s { written = s.written ++ msg ∷ [] }

  -- The last three writes; the extranonce is noted once it is sent.
  send_job : Writes → MiningJob F → Source F → Source F × Option ChangeError
  unfolding write
  send_job w job s =
      if w.extranonce_ok
      then (let s1 = record (write (extranonce job.extra_nonce1 job.extra_nonce2_size) s) {
        extra_nonce = job.extra_nonce1;
        extra_nonce_size = job.extra_nonce2_size;
      } in
          if w.difficulty_ok
          then (let s2 = write (difficulty job.diff) s1 in
              if w.notify_ok
              then (write (notify (set_clean_jobs job.notify true)) s2, none)
              else (s2, some source_write_failed))
          else (s1, some source_write_failed))
      else (s, some source_write_failed)

  send_found : Writes → Option (MiningJob F) → Source F → Source F × Option ChangeError
  unfolding send_job
  send_found w none s = (s, some no_job_available)
  send_found w (some job) s = send_job w job s

  unfoldable pub resend_relevant_notifications :
      {H : Type 0} → Writes → ConnDest F H → Source F → Option (Source F × Option ChangeError)
  unfolding send_found write
  resend_relevant_notifications w c s =
      if w.mask_ok
      then (do
        job ← get_latest_job c.validator
        some (send_found w job (write (version_mask c.version_rolling_mask) s)))
      else some (s, some source_write_failed)

module _ {F H : Type 0} where
  abbrev pub close_conn : ConnDest F H → ConnDest F H
  close_conn c = record c { closed = true }

  -- The connection that is idle for the longest: the first of those whose time comes first.
  abbrev pub oldest_of : (ℕ → ConnDest F H) → ℕ → Assoc String ℕ → ℕ
  oldest_of conns old [] = old
  oldest_of conns old ((_, d) ∷ m) =
      oldest_of conns (if ltb (conns d).idle_close_at (conns old).idle_close_at then d else old) m

module _ {F H K : Type 0} where
  -- A change of a connection through its pointer.
  abbrev pub at_conn : ℕ → (ConnDest F H → ConnDest F H) → Proxy F H K → Proxy F H K
  at_conn d f p = record p { conns = λ i. if i == d then f (p.conns d) else p.conns i }

  -- `p.destMap.Delete`
  abbrev pub forget : String → Proxy F H K → Proxy F H K
  forget k p = record p { dest_map = delete k p.dest_map }

  -- What the callback of the reading goroutine does when that ends.
  abbrev pub forget_opt : Option String → Proxy F H K → Proxy F H K
  forget_opt none p = p
  forget_opt (some url) p = forget url p

  -- `AutoReadStop`, which waits for the callback.
  abbrev pub auto_read_stop : Option (Option String) → ℕ → Proxy F H K → Option (Proxy F H K)
  auto_read_stop none d p = none
  auto_read_stop (some cb) d p =
      some (forget_opt cb (at_conn d (λ c. record c { auto_read = none }) p))

  -- A cached connection or a new one (`connected`), or else an error, and the proxy as it is then.
  abbrev pub from_cache :
      ℕ → Option (Proxy F H K) → Proxy F H K → Proxy F H K × Option ℕ × Option ChangeError
  from_cache d none p = (p, none, some autoread_not_started)
  from_cache d (some p') p = (p', some d, none)

  abbrev pub from_pool :
      Option (ConnDest F H) → Proxy F H K → Proxy F H K × Option ℕ × Option ChangeError
  from_pool none p = (p, none, some connect_failed)
  from_pool (some c) p = (
    record p { conns = λ i. if i == p.next then c else p.conns i; next = p.next + 1 },
    some p.next,
    none,
  )

  abbrev pub obtain_with :
      Option ℕ
      → ℕ
      → Option (ConnDest F H)
      → Proxy F H K
      → Proxy F H K × Option ℕ × Option ChangeError
  obtain_with none idle_close_at connected p = from_pool connected p
  obtain_with (some d) idle_close_at connected p =
      from_cache d
        (do
          p' ← auto_read_stop (p.conns d).auto_read d p
          some (at_conn d (λ c. record c { idle_close_at = idle_close_at }) p'))
        p

  -- The old destination goes on being read; if it is read already, it is closed.
  unfoldable pub park : Proxy F H K → Proxy F H K
  park p =
      let (c, ok) = auto_read_start (some p.dest_url) (p.conns p.dest) in
      if ok
      then at_conn p.dest (λ _. c) p
      else at_conn p.dest close_conn (forget (p.conns p.dest).id p)

  -- With no connection in the map the pointer is nil.
  unfoldable pub close_oldest_conn : Assoc String ℕ → Proxy F H K → Option (Proxy F H K)
  close_oldest_conn [] p = none
  close_oldest_conn ((_, d) ∷ m) p =
      let old = oldest_of p.conns d m in some (forget (p.conns old).id (at_conn old close_conn p))

  unfoldable pub make_room : Proxy F H K → Option (Proxy F H K)
  unfolding close_oldest_conn
  make_room p =
      if leb p.max_cached_dests (length p.dest_map) then close_oldest_conn p.dest_map p else some p

  -- The destination in use.
  unfoldable pub use_dest : ℕ → String → Proxy F H K → Proxy F H K
  unfolding start_pipe
  use_dest d url p = record p {
    dest = d;
    dest_url = url;
    dest_map = insert (p.conns d).id d p.dest_map;
    pipe_dest = d;
    directions = start_pipe p.directions;
  }

  -- What follows `resendRelevantNotifications`.
  abbrev pub after_resend :
      Source F × Option ChangeError
      → ℕ
      → String
      → Option K
      → Proxy F H K
      → Option (Proxy F H K × Option ChangeError)
  after_resend (s, some e) d url on_submit p = some (record p { source = s }, some e)
  after_resend (s, none) d url on_submit p = do
    p' ← make_room (record p { source = s })
    some (record (use_dest d url p') { on_submit = on_submit }, none)

  -- What follows once the new connection is there.
  unfoldable pub switch :
      Bool
      → Writes
      → String
      → Option K
      → Proxy F H K × Option ℕ × Option ChangeError
      → Option (Proxy F H K × Option ChangeError)
  unfolding park stop_pipe
  switch auto w url on_submit (p, none, e) = some (p, e)
  switch auto w url on_submit (p, some d, e) = do
    let p1 = record p { directions = stop_pipe w p.directions }
    let p2 = if auto then park p1 else p1
    r ← resend_relevant_notifications w (p2.conns d) p2.source
    after_resend r d url on_submit p2

  -- `connected` is the connection that `connectNewDest` makes, or `none` if it fails.
  unfoldable pub set_dest :
      Bool
      → ℕ
      → Option (ConnDest F H)
      → Writes
      → String
      → Option K
      → Proxy F H K
      → Option (Proxy F H K × Option ChangeError)
  unfolding switch
  set_dest auto idle_close_at connected w url on_submit p =
      if p.dest_url =? url
      then some (p, none)
      else switch auto w url on_submit
          (obtain_with (lookup url p.dest_map) idle_close_at connected p)
