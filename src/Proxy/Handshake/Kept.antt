-- ===== src/Proxy/Handshake/Kept.antt =====
-- What holds of a connection all through its handshake (destHandshake and connectNewDest of
-- handler_change_dest.go).
use proxy_router.Prelude.{
  ℕ, ◌≡◌, refl, sym, subst, Bool, true, false, String, List, [], ◌∷◌, Option, none, some, arith,
  if◌then◌else◌, inl, inr, Bool-cases, ◌=?◌, string_eq,
}
use proxy_router.Prelude.Options.{Returns, Returns-bind}
use proxy_router.Floats.{Float64}
use proxy_router.Validator.{set_version_rolling_mask}
use proxy_router.Proxy.Pipe.{Intercepted, intercept_fails, swallowed, passed}
use proxy_router.Proxy.Dest.{ConnDest, PoolMessage, set_version_rolling}
use proxy_router.Proxy.Handshake.{
  Handler, awaits, subscribed, HandshakeError, Stage, Sent, configure, subscribe, authorize, ask,
  begins, configuring, subscribing, authorizing, awaiting_job, connected, failed, Results, Greeting,
  Handshake, Move, reads, read_breaks, proceeds, times_out, cancels, has_ended, on_configured,
  go_on, after_message, time_out, handshake_move, run_handshake, stage_is_connected,
}
use proxy_router.Proxy.Handshake.Reading.{ConnOk, kept, ReadOk, NoPanic, read-ConnOk}

module _ (fl : Float64) {R : Type 0} (results : Results R) where
  open fl use {F, of_int, to_uint64}

  -- A handshake on the way or through.
  pub record HandshakeOk (url : String) (s : Handshake F R) : Type 0 where
    pub conn_ok : ConnOk url s.conn
    pub has_job : s.stage ≡ connected → s.conn.first_job ≡ true

  going :
      (url : String) (c : ConnDest F Handler) (s : Handshake F R)
      → s.conn ≡ c
      → ConnOk url c
      → stage_is_connected s.stage ≡ false
      → HandshakeOk url s
  going url c s e k h = record {
    conn_ok = subst (ConnOk url) (sym e) k;
    has_job = λ z. absurd (ground (arith, z, h));
  }

  message-Ok :
      (url : String) (msg : PoolMessage F R)
      (r : ConnDest F Handler × Intercepted (PoolMessage F R) HandshakeError) (s : Handshake F R)
      → stage_is_connected s.stage ≡ false
      → ReadOk fl results url r
      → HandshakeOk url (after_message results msg r s)
  unfolding after_message
  message-Ok url msg (c, intercept_fails e) s h k = going url c _ refl k refl
  message-Ok url msg (c, swallowed) s h k = going url c _ refl k h
  message-Ok url msg (c, passed m) s h k = going url c _ refl k h

  ask-Ok :
      (url : String) (id : ℕ) (h : Handler) (msg : Sent) (stage : Stage) (ok : Bool)
      (s : Handshake F R)
      → stage_is_connected stage ≡ false
      → ConnOk url s.conn
      → HandshakeOk url (ask id h msg stage ok s)
  ask-Ok url id h msg stage true s n k = going url _ _ refl (kept url _ _ refl refl refl k) n
  ask-Ok url id h msg stage false s n k = going url _ _ refl (kept url _ _ refl refl refl k) refl

  configured-Ok :
      (url : String) (o : Option (Bool × String)) (g : Greeting) (ok : Bool) (s : Handshake F R)
      → ConnOk url s.conn
      → HandshakeOk url (on_configured o g ok s)
  unfolding on_configured set_version_rolling set_version_rolling_mask
  configured-Ok url none g ok s k = going url s.conn _ refl k refl
  configured-Ok url (some (vr, mask)) g ok s k = elim (Bool-cases (mask =? g.mask)) [
    | inl same ↦ rw same (
        ask-Ok url 2 subscribed subscribe subscribing ok
          (record s { conn = set_version_rolling true mask s.conn }) refl
          (kept url _ _ refl refl refl k))
    | inr differs ↦ rw differs (going url s.conn _ refl k refl)
  ]

  awaited :
      (url : String) (b : Bool) (s : Handshake F R)
      → s.conn.first_job ≡ b
      → stage_is_connected s.stage ≡ false
      → ConnOk url s.conn
      → HandshakeOk url (
          if b
          then record s { stage = connected; conn = record s.conn { auto_read = none } }
          else s)
  awaited url true s e h k = record { conn_ok = (kept url _ _ refl refl refl k); has_job = λ z. e }
  awaited url false s e h k = going url s.conn s refl k h

  go_on-Ok :
      (url : String) (g : Greeting) (ok : Bool) (st : Stage) (answer : Option R) (s : Handshake F R)
      → s.stage ≡ st
      → stage_is_connected st ≡ false
      → ConnOk url s.conn
      → HandshakeOk url (go_on results g ok st answer s)
  unfolding go_on
  go_on-Ok url g ok begins answer s e h k = elim (Bool-cases (g.mask =? "")) [
    | inl empty ↦ rw empty (ask-Ok url 2 subscribed subscribe subscribing ok s refl k)
    | inr masked ↦
        rw masked (ask-Ok url 1 awaits (configure g.mask g.min_bits g.user) configuring ok s refl k)
  ]
  go_on-Ok url g ok configuring none s e h k = going url s.conn s refl k (rw e refl)
  go_on-Ok url g ok configuring (some r) s e h k =
      configured-Ok url (results.to_configure r) g ok s k
  go_on-Ok url g ok subscribing none s e h k = going url s.conn s refl k (rw e refl)
  go_on-Ok url g ok subscribing (some r) s e h k =
      ask-Ok url 3 awaits (authorize g.user g.password) authorizing ok s refl k
  go_on-Ok url g ok authorizing none s e h k = going url s.conn s refl k (rw e refl)
  go_on-Ok url g ok authorizing (some r) s e h k = elim (Bool-cases (results.is_error r)) [
    | inl refused ↦ rw refused (going url s.conn _ refl k refl)
    | inr taken ↦ rw taken (going url s.conn _ refl k refl)
  ]
  go_on-Ok url g ok awaiting_job answer s e h k = awaited url s.conn.first_job s refl (rw e refl) k
  go_on-Ok url g ok connected answer s e h k = absurd (ground (arith, h))
  go_on-Ok url g ok (failed x) answer s e h k = going url s.conn s refl k (rw e refl)

  time_out-Ok :
      (url : String) (st : Stage) (s : Handshake F R)
      → s.stage ≡ st
      → stage_is_connected st ≡ false
      → ConnOk url s.conn
      → HandshakeOk url (time_out results st s)
  unfolding time_out
  time_out-Ok url configuring s e h k = going url _ _ refl (kept url _ _ refl refl refl k) refl
  time_out-Ok url subscribing s e h k =
      going url _ _ refl (kept url _ _ refl refl refl k) (rw e refl)
  time_out-Ok url authorizing s e h k = going url _ _ refl (kept url _ _ refl refl refl k) refl
  time_out-Ok url begins s e h k = going url s.conn s refl k (rw e refl)
  time_out-Ok url awaiting_job s e h k = going url s.conn s refl k (rw e refl)
  time_out-Ok url connected s e h k = absurd (ground (arith, h))
  time_out-Ok url (failed x) s e h k = going url s.conn s refl k (rw e refl)

  handshake_move-Ok :
      (url : String) (g : Greeting) (m : Move F R) (s : Handshake F R)
      → NoPanic fl results
      → stage_is_connected s.stage ≡ false
      → ConnOk url s.conn
      → Returns (HandshakeOk url) (handshake_move fl results g m s)
  unfolding handshake_move
  handshake_move-Ok url g (reads now msg) s n h k =
      Returns-bind (ReadOk fl results url) (HandshakeOk url) _ _
        (read-ConnOk fl results url now msg s.conn n k) (λ r q. message-Ok url msg r s h q)
  handshake_move-Ok url g read_breaks s n h k = going url s.conn _ refl k refl
  handshake_move-Ok url g (proceeds ok) s n h k = go_on-Ok url g ok s.stage s.answer s refl h k
  handshake_move-Ok url g times_out s n h k = time_out-Ok url s.stage s refl h k
  handshake_move-Ok url g cancels s n h k = going url s.conn _ refl k refl

  not_connected : (st : Stage) → has_ended st ≡ false → stage_is_connected st ≡ false
  not_connected begins h = refl
  not_connected configuring h = refl
  not_connected subscribing h = refl
  not_connected authorizing h = refl
  not_connected awaiting_job h = refl
  not_connected connected h = absurd (ground (arith, h))
  not_connected (failed x) h = refl

  pub run_handshake-Ok :
      (url : String) (g : Greeting) (ms : List (Move F R)) (s : Handshake F R)
      → NoPanic fl results
      → HandshakeOk url s
      → Returns (HandshakeOk url) (run_handshake fl results g ms s)
  unfolding run_handshake
  run_handshake-Ok url g [] s n k = k
  run_handshake-Ok url g (m ∷ ms) s n k = elim (Bool-cases (has_ended s.stage)) [
    | inl ended ↦ rw ended (run_handshake-Ok url g ms s n k)
    | inr on_the_way ↦ rw on_the_way (
        Returns-bind (HandshakeOk url) (HandshakeOk url) _ _
          (handshake_move-Ok url g m s n (not_connected s.stage on_the_way) k.conn_ok)
          (λ s' q. run_handshake-Ok url g ms s' n q))
  ]
