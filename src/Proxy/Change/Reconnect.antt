-- ===== src/Proxy/Change/Reconnect.antt =====
-- How a proxy loses connections to pools and makes one anew: the callback of setDest, ConnectDest, the
-- case of Run for an error of the pool, and closeConnections (internal/resources/hashrate/proxy/
-- proxy.go).
use proxy_router.Prelude.{
  ℕ, Bool, true, false, ◌||◌, String, [], ◌∷◌, Option, none, some, if◌then◌else◌, string_eq,
}
use proxy_router.Prelude.Options.{◌>>=◌}
use proxy_router.Prelude.Assoc.{Assoc}
use proxy_router.Proxy.Dest.{ConnDest}
use proxy_router.Proxy.Change.{
  Direction, done, Directions, stop_direction, Proxy, Source, Writes, ChangeError, at_conn, forget,
  close_conn, from_pool, use_dest, resend_relevant_notifications,
}

-- The direction whose goroutine ended by an error of the pool: its read, or its write to the pool.
pub data Broken : Type 0 where
  source_to_dest_broke dest_to_source_broke : Broken

-- `Pipe.Run`, when one direction is done: the other is stopped.
unfoldable pub break_pipe : Broken → Writes → Directions → Directions
break_pipe source_to_dest_broke w d = record {
  source_to_dest = done;
  dest_to_source = stop_direction w.dest_to_source_exit d.dest_to_source;
}
break_pipe dest_to_source_broke w d = record {
  source_to_dest = stop_direction w.source_to_dest_exit d.source_to_dest;
  dest_to_source = done;
}

abbrev is_done : Direction → Bool
is_done done = true
is_done _ = false

-- Whether the channel of a direction that is done lets `Pipe.Run` end at once.
unfoldable pub ends_at_once : Directions → Bool
ends_at_once d = is_done d.source_to_dest || is_done d.dest_to_source

module _ {F H K : Type 0} where
  abbrev pub read_ended : Option (Option String) → Bool → ℕ → Proxy F H K → Proxy F H K
  read_ended none broken d p = p
  read_ended (some none) broken d p = p
  read_ended (some (some url)) broken d p =
      forget url (if broken then at_conn d close_conn p else p)

  -- The goroutine that reads a parked connection ends by itself: its callback. `broken` is any error
  -- but that of a connection that was closed.
  unfoldable pub auto_read_ends : Bool → ℕ → Proxy F H K → Proxy F H K
  auto_read_ends broken d p = read_ended (p.conns d).auto_read broken d p

  -- What follows in `ConnectDest`.
  abbrev pub after_reconnect :
      Source F × Option ChangeError → ℕ → String → Proxy F H K → Proxy F H K × Option ChangeError
  after_reconnect (s, some e) d url p = (record p { source = s }, some e)
  after_reconnect (s, none) d url p = (use_dest d url (record p { source = s }), none)

  abbrev pub reconnect_with :
      Writes
      → String
      → Proxy F H K × Option ℕ × Option ChangeError
      → Option (Proxy F H K × Option ChangeError)
  reconnect_with w url (p, none, e) = some (p, e)
  reconnect_with w url (p, some d, e) = do
    r ← resend_relevant_notifications w (p.conns d) p.source
    some (after_reconnect r d url p)

  unfoldable pub connect_dest :
      Option (ConnDest F H)
      → Writes
      → String
      → Proxy F H K
      → Option (Proxy F H K × Option ChangeError)
  connect_dest connected w url p = reconnect_with w url (from_pool connected p)

  -- What `Run` does when the pipe ends by an error of the pool: the connection is closed, and made
  -- anew to the same URL.
  unfoldable pub on_dest_error :
      Broken
      → Option (ConnDest F H)
      → Writes
      → Proxy F H K
      → Option (Proxy F H K × Option ChangeError)
  unfolding connect_dest break_pipe
  on_dest_error broken connected w p =
      let p' =
        at_conn p.dest close_conn (record p { directions = break_pipe broken w p.directions }) in
      connect_dest connected w p.dest_url (forget (p.conns p.dest).id p')

  -- The connections of the map, closed; the map is empty then.
  abbrev pub close_all : Assoc String ℕ → Proxy F H K → Proxy F H K
  close_all [] p = p
  close_all ((_, d) ∷ m) p = close_all m (forget (p.conns d).id (at_conn d close_conn p))

  unfoldable pub close_connections : Proxy F H K → Proxy F H K
  close_connections p = let p' = at_conn p.dest close_conn p in close_all p'.dest_map p'
