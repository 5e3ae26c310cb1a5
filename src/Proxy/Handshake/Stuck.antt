-- ===== src/Proxy/Handshake/Stuck.antt =====
-- A handshake whose subscription is not answered in time (destHandshake of handler_change_dest.go,
-- onceResult of conn_dest.go).
use proxy_router.Prelude.{ℕ, ◌<◌, ◌≡◌, refl, Bool, false, List, [], ◌∷◌, Option, none, nat_eq}
use proxy_router.Prelude.Options.{Returns, Returns-bind, Returns-map}
use proxy_router.Prelude.Int.{pos}
use proxy_router.Prelude.Assoc.{lookup, delete}
use proxy_router.Floats.{Float64}
use proxy_router.Containers.BoundStackMap.Counts.{IsWellFormed}
use proxy_router.Validator.{set_version_rolling_mask}
use proxy_router.Proxy.Pipe.{Intercepted, passed}
use proxy_router.Proxy.Dest.{
  ConnDest, PoolMessage, notify, set_difficulty, set_extranonce, set_version_mask, result, other,
  set_extra_nonce, set_version_rolling, add_job, handle_result, read_interceptor,
}
use proxy_router.Proxy.Handshake.{
  Handler, subscribed, HandshakeError, Stage, subscribing, Results, Greeting, Handshake, Move,
  reads, read_breaks, proceeds, times_out, cancels, has_ended, go_on, run_handler, after_message,
  time_out, handshake_move, run_handshake,
}
use proxy_router.Proxy.Handshake.{answered, answer_to}
use proxy_router.Proxy.Handshake.Reading.{Took, add_new_job-Took}

-- Neither does reading break nor is the context cancelled.
abbrev pub Calm : {F R : Type 0} → List (Move F R) → Type 0
Calm [] = Unit {0}
Calm (read_breaks ∷ ms) = ⊥
Calm (cancels ∷ ms) = ⊥
Calm (reads now msg ∷ ms) = Calm ms
Calm (proceeds ok ∷ ms) = Calm ms
Calm (times_out ∷ ms) = Calm ms

record Idle {F H : Type 0} (c : ConnDest F H) : Type 0 where
  formed : IsWellFormed c.validator.jobs
  some_room : 0 < c.validator.jobs.capacity
  no_handlers : c.result_handlers ≡ []

-- The handshake waits for an answer that nothing waits to hand over.
record Waits {F R : Type 0} (s : Handshake F R) : Type 0 where
  subscribes : s.stage ≡ subscribing
  unanswered : s.answer ≡ none
  idle : Idle s.conn

module _ (fl : Float64) {R : Type 0} (results : Results R) where
  open fl use {F, of_int, to_uint64}

  abbrev Passes :
      PoolMessage F R → ConnDest F Handler × Intercepted (PoolMessage F R) HandshakeError → Type 0
  Passes msg r = Idle r.0 × (r.1 ≡ passed msg)

  unhandled :
      (o : Option Handler) (id : ℕ) (r : R) (c : ConnDest F Handler)
      → o ≡ none
      → Idle c
      → Returns (Passes (result id r)) (handle_result fl (run_handler results) o id r c)
  unfolding handle_result
  unhandled o id r c e k = rw e (k, refl)

  lookup-none : (id : ℕ) (hs : List (ℕ × Handler)) → hs ≡ [] → lookup id hs ≡ none
  unfolding lookup
  lookup-none id hs e = rw e refl

  read-Passes :
      (now : ℕ) (msg : PoolMessage F R) (c : ConnDest F Handler)
      → Idle c
      → Returns (Passes msg) (read_interceptor fl (run_handler results) now msg c)
  unfolding read_interceptor add_job set_extra_nonce set_version_rolling set_version_rolling_mask
  read-Passes now (notify m) c k =
      Returns-bind Idle (Passes (notify m)) _ _
        (Returns-bind Took Idle _ _
          (add_new_job-Took now m (of_int (pos c.diff)) c.extra_nonce1 c.extra_nonce2_size
            c.validator k.formed k.some_room)
          (λ v q. record { formed = q.0; some_room = q.1; no_handlers = k.no_handlers }))
        (λ c' q. (q, refl))
  read-Passes now (set_difficulty d) c k =
      (record { formed = k.formed; some_room = k.some_room; no_handlers = k.no_handlers }, refl)
  read-Passes now (set_extranonce xn size) c k =
      (record { formed = k.formed; some_room = k.some_room; no_handlers = k.no_handlers }, refl)
  read-Passes now (set_version_mask mask) c k =
      (record { formed = k.formed; some_room = k.some_room; no_handlers = k.no_handlers }, refl)
  read-Passes now (result id r) c k =
      unhandled _ id r c (lookup-none id c.result_handlers k.no_handlers) k
  read-Passes now other c k = (k, refl)

  answer-unanswered :
      (msg : PoolMessage F R) (s : Handshake F R) → Waits s → answer_to results msg s ≡ none
  unfolding answer_to answered lookup
  answer-unanswered (notify m) s k = k.unanswered
  answer-unanswered (set_difficulty d) s k = k.unanswered
  answer-unanswered (set_extranonce xn size) s k = k.unanswered
  answer-unanswered (set_version_mask mask) s k = k.unanswered
  answer-unanswered (result id r) s k = rw k.idle.no_handlers k.unanswered
  answer-unanswered other s k = k.unanswered

  after_message-Waits :
      (msg m : PoolMessage F R) (c : ConnDest F Handler)
      (i : Intercepted (PoolMessage F R) HandshakeError) (s : Handshake F R)
      → Waits s
      → Idle c
      → i ≡ passed m
      → Waits (after_message results msg (c, i) s)
  unfolding after_message
  after_message-Waits msg m c i s k q e =
      rw e (record { subscribes = k.subscribes; unanswered = answer-unanswered msg s k; idle = q })

  go_on_unanswered :
      (g : Greeting) (ok : Bool) (st : Stage) (a : Option R) (s : Handshake F R)
      → st ≡ subscribing
      → a ≡ none
      → go_on results g ok st a s ≡ s
  unfolding go_on
  go_on_unanswered g ok st a s e h = rw (e, h) refl

  time_out_subscribing :
      (st : Stage) (s : Handshake F R)
      → st ≡ subscribing
      → time_out results st s
        ≡ record s { conn = record s.conn { result_handlers = delete 2 s.conn.result_handlers } }
  unfolding time_out
  time_out_subscribing st s e = rw e refl

  delete_none : (hs : List (ℕ × Handler)) → hs ≡ [] → delete 2 hs ≡ []
  unfolding delete
  delete_none hs e = rw e refl

  move-Waits :
      (g : Greeting) (m : Move F R) (ms : List (Move F R)) (s : Handshake F R)
      → Calm (m ∷ ms)
      → Waits s
      → Returns Waits (handshake_move fl results g m s) × Calm ms
  unfolding handshake_move go_on time_out
  move-Waits g (reads now msg) ms s a k = (
    Returns-bind (Passes msg) Waits _ _ (read-Passes now msg s.conn k.idle)
        (λ r q. after_message-Waits msg msg r.0 r.1 s k q.0 q.1),
    a,
  )
  move-Waits g (proceeds ok) ms s a k =
      (rw (go_on_unanswered g ok s.stage s.answer s k.subscribes k.unanswered) k, a)
  move-Waits g times_out ms s a k = (
    rw (time_out_subscribing s.stage s k.subscribes) (record {
      subscribes = k.subscribes;
      unanswered = k.unanswered;
      idle = record {
        formed = k.idle.formed;
        some_room = k.idle.some_room;
        no_handlers = delete_none s.conn.result_handlers k.idle.no_handlers;
      };
    }),
    a,
  )
  move-Waits g read_breaks ms s a k = absurd a
  move-Waits g cancels ms s a k = absurd a

  on_the_way : (st : Stage) → st ≡ subscribing → has_ended st ≡ false
  on_the_way st e = rw e refl

  run-Waits :
      (g : Greeting) (ms : List (Move F R)) (s : Handshake F R)
      → Calm ms
      → Waits s
      → Returns Waits (run_handshake fl results g ms s)
  unfolding run_handshake
  run-Waits g [] s a k = k
  run-Waits g (m ∷ ms) s a k =
      let q = move-Waits g m ms s a k in
      rw (on_the_way s.stage k.subscribes)
        (Returns-bind Waits Waits _ _ q.0 (λ s' w. run-Waits g ms s' q.1 w))

  -- Once the time for the answer to the subscription is over, the handshake never ends by itself:
  -- whatever the pool sends, a late answer included, and however often the task gets its turn, it
  -- still waits for that answer, unless reading breaks or the context is cancelled.
  pub subscribe_hangs :
      (g : Greeting) (ms : List (Move F R)) (s : Handshake F R)
      → s.stage ≡ subscribing
      → s.answer ≡ none
      → s.conn.result_handlers ≡ (2, subscribed) ∷ []
      → IsWellFormed s.conn.validator.jobs
      → 0 < s.conn.validator.jobs.capacity
      → Calm ms
      → Returns (λ s'. s'.stage ≡ subscribing) (run_handshake fl results g (times_out ∷ ms) s)
  unfolding run_handshake handshake_move delete
  subscribe_hangs g ms s st an h w p a =
      rw (on_the_way s.stage st, time_out_subscribing s.stage s st)
        (Returns-map Waits _ _
          (run-Waits g ms
            (record s {
              conn = record s.conn { result_handlers = delete 2 s.conn.result_handlers };
            })
            a
            (record {
              subscribes = st;
              unanswered = an;
              idle = record { formed = w; some_room = p; no_handlers = rw h refl };
            }))
          (λ s' k. k.subscribes))
