-- ===== src/Proxy/Change/Reconnected.antt =====
-- What a reconnection to the pool leaves behind (`Run` and `ConnectDest` of
-- internal/resources/hashrate/proxy/proxy.go).
use proxy_router.Prelude.{◌≡◌, true, Option, none, some, string_eq}
use proxy_router.Prelude.Assoc.{Assoc}
use proxy_router.Proxy.Change.{
  Directions, start_pipe, Proxy, ChangeError, at_conn, forget, close_conn,
}
use proxy_router.Proxy.Change.Obtained.{Halted, Switched, Stayed, Obtained}
use proxy_router.Proxy.Change.Reconnect.{ends_at_once}

module _ {F H K : Type 0} where
  -- The proxy when it has closed its destination.
  abbrev pub dropped : Directions → Proxy F H K → Proxy F H K
  dropped c p = forget (p.conns p.dest).id (at_conn p.dest close_conn (record p { directions = c }))

  -- What the proxy is like after a reconnection, and after its failure.
  abbrev pub Reconnected : Proxy F H K → Proxy F H K × Option ChangeError → Type 0
  Reconnected p (q, none) =
      Switched p.dest_url p.on_submit q
      × (ends_at_once q.directions ≡ true)
      × (ends_at_once (start_pipe q.directions) ≡ true)
  Reconnected p (q, some e) = Stayed p q × Halted q.directions
