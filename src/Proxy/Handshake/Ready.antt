-- ===== src/Proxy/Handshake/Ready.antt =====
-- What a connection is like once the handshake with its pool is through (connectNewDest of
-- handler_change_dest.go).
use proxy_router.Prelude.{
  ◌<◌, ◌≡◌, ◌≢◌, refl, subst, Bool, true, false, String, List, none, some, arith, inl, inr,
  Bool-cases, Option-cases, string_eq,
}
use proxy_router.Prelude.Options.{some_inj, Returns, Returns-map}
use proxy_router.Prelude.Int.{negsuc}
use proxy_router.Floats.{Float64}
use proxy_router.Containers.BoundStackMap.{at}
use proxy_router.Containers.BoundStackMap.Counts.{IsWellFormed}
use proxy_router.Validator.{Validator, get_latest_job}
use proxy_router.Proxy.Dest.{ConnDest, new_dest_conn, auto_read_start}
use proxy_router.Proxy.Handshake.{
  Handler, Stage, begins, configuring, subscribing, authorizing, awaiting_job, connected, failed,
  Results, Greeting, Handshake, Move, begin_handshake, run_handshake, connected_dest,
  stage_is_connected,
}
use proxy_router.Proxy.Handshake.Reading.{LatestKept, NoPanic}
use proxy_router.Proxy.Handshake.Kept.{HandshakeOk, run_handshake-Ok}

module _ (fl : Float64) {R : Type 0} (results : Results R) where
  open fl use {F, of_int, to_uint64}

  -- A new connection: it has the URL, and its latest job can be read and is there.
  pub record Usable (url : String) (c : ConnDest F Handler) : Type 0 where
    pub has_url : c.id ≡ url
    pub job_there : Returns (λ o. o ≢ none) (get_latest_job c.validator)

  latest_there :
      (b : Bool) (c : ConnDest F Handler)
      → b ≡ true
      → LatestKept b c.validator.jobs
      → Returns (λ o. o ≢ none) (get_latest_job c.validator)
  unfolding get_latest_job
  latest_there false c e k = absurd (ground (arith, e))
  latest_there true c e k = elim (Option-cases (at c.validator.jobs (negsuc 0))) [
    | inl nothing ↦ absurd (rw nothing at k)
    | inr (o, found) ↦ elim (Option-cases o) [
      | inl lost ↦ absurd (rw (found, lost) at k)
      | inr (job, there) ↦ rw (found, there) (λ z. (cc))
    ]
  ]

  connected_of : (st : Stage) → stage_is_connected st ≡ true → st ≡ connected
  connected_of connected h = refl
  connected_of begins h = absurd (ground (arith, h))
  connected_of configuring h = absurd (ground (arith, h))
  connected_of subscribing h = absurd (ground (arith, h))
  connected_of authorizing h = absurd (ground (arith, h))
  connected_of awaiting_job h = absurd (ground (arith, h))
  connected_of (failed x) h = absurd (ground (arith, h))

  Ok-Usable :
      (url : String) (s : Handshake F R) (c : ConnDest F Handler)
      → HandshakeOk fl results url s
      → connected_dest s ≡ some c
      → Usable url c
  unfolding connected_dest
  Ok-Usable url s c k e = elim (Bool-cases (stage_is_connected s.stage)) [
    | inl through ↦ subst (Usable url) (some_inj _ _ (rw through at e)) (record {
      has_url = k.conn_ok.same_id;
      job_there =
          latest_there s.conn.first_job s.conn (k.has_job (connected_of s.stage through))
            k.conn_ok.latest;
    })
    | inr not_yet ↦ absurd (ground (arith, rw not_yet at e))
  ]

  -- However the pool answers, and in whatever order its messages come, are lost or come too late: the
  -- handshake does not panic, if no result of a subscription does, and a connection that comes out of
  -- it has the URL that it was made for and a latest job that can be sent to the miner.
  pub handshake-Usable :
      (url user : String) (valid : Validator F) (g : Greeting) (ms : List (Move F R))
      → NoPanic fl results
      → IsWellFormed valid.jobs
      → 0 < valid.jobs.capacity
      → Returns
          (λ s. (c : ConnDest F Handler) → connected_dest s ≡ some c → Usable url c)
          (run_handshake fl results g ms (begin_handshake url user valid))
  unfolding begin_handshake connected_dest new_dest_conn auto_read_start
  handshake-Usable url user valid g ms n w p =
      Returns-map (HandshakeOk fl results url) _ _
        (run_handshake-Ok fl results url g ms (begin_handshake url user valid) n (record {
          conn_ok = record { same_id = refl; formed = w; some_room = p; latest = tt };
          has_job = λ z. absurd (ground (arith, z));
        }))
        (λ s k c e. Ok-Usable url s c k e)
