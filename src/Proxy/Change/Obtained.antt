-- ===== src/Proxy/Change/Obtained.antt =====
-- The connection that a change of the destination goes to, got from the map or made anew (`setDest`
-- of internal/resources/hashrate/proxy/proxy.go), and what may come of the change.
use proxy_router.Prelude.{
  ℕ, suc, ◌+◌, ◌≤◌, ◌<◌, ◌≡◌, refl, Bool, true, false, String, Option, none, some, arith, sym,
  subst, ◌∙◌, inl, inr, if◌then◌else◌, length, ◌==◌, string_eq, Bool-cases,
}
use proxy_router.Prelude.Options.{◌>>=◌, Returns, Returns-bind}
use proxy_router.Prelude.Assoc.{lookup}
use proxy_router.Validator.{MiningJob, get_latest_job}
use proxy_router.Proxy.Dest.{ConnDest, auto_read_start}
use proxy_router.Proxy.Change.{
  Direction, runs, stopped, leaving, done, Directions, Exit, in_time, late, fails, stop_direction,
  start_direction, stop_pipe, start_pipe, Proxy, Source, Writes, ChangeError, connect_failed,
  autoread_not_started, source_write_failed, no_job_available, send_job, send_found,
  resend_relevant_notifications, at_conn, forget, forget_opt, close_conn, park, use_dest,
  auto_read_stop, from_cache, from_pool,
}
use proxy_router.Proxy.Change.Keyed.{Keyed-conns, Keyed-insert, length-insert-le}
use proxy_router.Proxy.Change.Kept.{
  Sound, Alike, Alike-refl, Alike-trans, forget-Sound, forget-Alike, at_conn-Sound, at_conn-Alike,
}

-- The latest job of a connection can be read: its key is not lost.
abbrev pub JobKept : {F H : Type 0} → ConnDest F H → Type 0
JobKept c = Returns (λ _. Unit {0}) (get_latest_job c.validator)

-- What `resendRelevantNotifications` may answer.
abbrev pub Late : Option ChangeError → Type 0
Late none = Unit {0}
Late (some connect_failed) = ⊥
Late (some autoread_not_started) = ⊥
Late (some source_write_failed) = Unit {0}
Late (some no_job_available) = Unit {0}

abbrev pub is_running : Direction → Bool
is_running runs = true
is_running stopped = false
is_running leaving = false
is_running done = false

-- The direction is stopped already, or is not done and leaves in time.
abbrev pub can_restart : Exit → Direction → Bool
can_restart in_time runs = true
can_restart in_time leaving = true
can_restart late runs = false
can_restart late leaving = false
can_restart fails runs = false
can_restart fails leaving = false
can_restart e stopped = true
can_restart e done = false

-- Neither direction of the pipe runs.
pub record Halted (d : Directions) : Type 0 where
  pub source_to_dest_halted : is_running d.source_to_dest ≡ false
  pub dest_to_source_halted : is_running d.dest_to_source ≡ false

-- Of the directions `c`, those run that could be started again.
pub record Restarted (w : Writes) (c d : Directions) : Type 0 where
  pub source_to_dest_runs :
      is_running d.source_to_dest ≡ can_restart w.source_to_dest_exit c.source_to_dest
  pub dest_to_source_runs :
      is_running d.dest_to_source ≡ can_restart w.dest_to_source_exit c.dest_to_source

pub stop_direction-halted : (e : Exit) (d : Direction) → is_running (stop_direction e d) ≡ false
stop_direction-halted in_time runs = refl
stop_direction-halted late runs = refl
stop_direction-halted fails runs = refl
stop_direction-halted in_time leaving = refl
stop_direction-halted late leaving = refl
stop_direction-halted fails leaving = refl
stop_direction-halted e stopped = refl
stop_direction-halted e done = refl

start-stop_direction :
    (e : Exit) (d : Direction) → is_running (start_direction (stop_direction e d)) ≡ can_restart e d
start-stop_direction in_time runs = refl
start-stop_direction late runs = refl
start-stop_direction fails runs = refl
start-stop_direction in_time leaving = refl
start-stop_direction late leaving = refl
start-stop_direction fails leaving = refl
start-stop_direction e stopped = refl
start-stop_direction e done = refl

pub stop_pipe-Halted : (w : Writes) (d : Directions) → Halted (stop_pipe w d)
unfolding stop_pipe
stop_pipe-Halted w d = record {
  source_to_dest_halted = stop_direction-halted w.source_to_dest_exit d.source_to_dest;
  dest_to_source_halted = stop_direction-halted w.dest_to_source_exit d.dest_to_source;
}

pub start-stop_pipe : (w : Writes) (d : Directions) → Restarted w d (start_pipe (stop_pipe w d))
unfolding stop_pipe start_pipe
start-stop_pipe w d = record {
  source_to_dest_runs = start-stop_direction w.source_to_dest_exit d.source_to_dest;
  dest_to_source_runs = start-stop_direction w.dest_to_source_exit d.dest_to_source;
}

module _ {F : Type 0} where
  send_found-Late :
      (w : Writes) (o : Option (MiningJob F)) (s : Source F) → Late (send_found w o s).1
  unfolding send_found send_job
  send_found-Late w none s = tt
  send_found-Late w (some job) s = ground arith

module _ {F H : Type 0} where
  pub resend-Late :
      (w : Writes) (c : ConnDest F H) (s : Source F)
      → JobKept c
      → Returns (λ r. Late r.1) (resend_relevant_notifications w c s)
  unfolding resend_relevant_notifications
  resend-Late w c s k = elim (Bool-cases w.mask_ok) [
    | inl ok ↦
        rw ok
          (Returns-bind (λ _. Unit {0}) (λ r. Late r.1) _ _ k (λ job _. send_found-Late w job _))
    | inr failed ↦ rw failed tt
  ]

  auto_read_start-same :
      (cb : Option String) (c : ConnDest F H)
      → ((auto_read_start cb c).0.id ≡ c.id) × ((auto_read_start cb c).0.validator ≡ c.validator)
  unfolding auto_read_start
  auto_read_start-same cb c = ground arith

n==n : (n : ℕ) → (n == n) ≡ true
n==n n = ground arith

pub if_lem : {A : Type 0} (P : A → Type 0) (b : Bool) (x y : A) → P x → P y → P (if b then x else y)
if_lem P true x y p q = p
if_lem P false x y p q = q

module _ {F H K : Type 0} where
  pub record Switched (url : String) (on_submit : Option K) (q : Proxy F H K) : Type 0 where
    pub url_set : q.dest_url ≡ url
    pub dest_has_url : (q.conns q.dest).id ≡ url
    pub cached : lookup url q.dest_map ≡ some q.dest
    pub submit_set : q.on_submit ≡ on_submit
    pub piped : q.pipe_dest ≡ q.dest

  pub record Stayed (p q : Proxy F H K) : Type 0 where
    pub dest_kept : q.dest ≡ p.dest
    pub url_kept : q.dest_url ≡ p.dest_url
    pub submit_kept : q.on_submit ≡ p.on_submit

  -- What the proxy is like after each error, and after none.
  abbrev pub Outcome :
      Writes → String → Option K → Proxy F H K → Proxy F H K × Option ChangeError → Type 0
  Outcome w url on_submit p (q, none) =
      Switched url on_submit q × Restarted w p.directions q.directions
  Outcome w url on_submit p (q, some connect_failed) = Stayed p q × (q.directions ≡ p.directions)
  Outcome w url on_submit p (q, some autoread_not_started) =
      Stayed p q × (q.directions ≡ p.directions)
  Outcome w url on_submit p (q, some source_write_failed) = Stayed p q × Halted q.directions
  Outcome w url on_submit p (q, some no_job_available) = Stayed p q × Halted q.directions

  pub park-Sound : (p : Proxy F H K) → Sound p → Sound (park p) × Alike p (park p)
  unfolding park
  park-Sound p s =
      let same = auto_read_start-same (some p.dest_url) (p.conns p.dest) in
      let parked : ConnDest F H → ConnDest F H =
        λ _. (auto_read_start (some p.dest_url) (p.conns p.dest)).0 in
      if_lem (λ q. Sound q × Alike p q) (auto_read_start (some p.dest_url) (p.conns p.dest)).1 _ _
        (at_conn-Sound p.dest parked p same.0 s, at_conn-Alike p.dest parked p same.0 same.1)
        (
          at_conn-Sound p.dest close_conn _ refl (forget-Sound (p.conns p.dest).id p s),
          Alike-trans p (forget (p.conns p.dest).id p) _ (forget-Alike (p.conns p.dest).id p)
              (at_conn-Alike p.dest close_conn (forget (p.conns p.dest).id p) refl refl),
        )

  pub use_dest-Sound :
      (d : ℕ) (url : String) (p : Proxy F H K)
      → Sound p
      → d < p.next
      → suc (length p.dest_map) ≤ p.max_cached_dests
      → Sound (use_dest d url p)
  unfolding use_dest
  use_dest-Sound d url p s l room = record {
    keyed = Keyed-insert p.conns p.next d p.dest_map l s.keyed;
    bounded = omega (arith, length-insert-le (p.conns d).id d p.dest_map, room);
    some_room = s.some_room;
    in_store = l;
  }

  abbrev pub AllKept : Proxy F H K → Type 0
  AllKept p = (d : ℕ) → JobKept (p.conns d)

  pub Alike-AllKept : (p q : Proxy F H K) → Alike p q → AllKept p → AllKept q
  Alike-AllKept p q a k d =
      subst (λ v. Returns (λ _. Unit {0}) (get_latest_job v)) (sym (a.same_jobs d)) (k d)

  -- What `obtain_with` gives: a connection to the URL, or an error that left the proxy as it was.
  pub record Got (url : String) (p q : Proxy F H K) (d : ℕ) : Type 0 where
    pub sound : Sound q
    pub in_q : d < q.next
    pub has_url : (q.conns d).id ≡ url
    pub kept : AllKept q
    pub stayed : Stayed p q

  unfoldable pub Obtained :
      Writes
      → String
      → Option K
      → Proxy F H K
      → Proxy F H K × Option ℕ × Option ChangeError
      → Type 0
  Obtained w url on_submit p (q, none, e) = Sound q × Outcome w url on_submit p (q, e)
  Obtained w url on_submit p (q, some d, e) = Got url p q d × (q.directions ≡ p.directions)

  pub Alike-Got :
      (url : String) (p q r : Proxy F H K) (d : ℕ)
      → Alike q r
      → Sound r
      → Got url p q d
      → Got url p r d
  Alike-Got url p q r d a s g = record {
    sound = s;
    in_q = subst (λ n. d < n) (sym a.same_next) g.in_q;
    has_url = a.same_ids d ∙ g.has_url;
    kept = Alike-AllKept q r a g.kept;
    stayed = record {
      dest_kept = a.same_dest ∙ g.stayed.dest_kept;
      url_kept = a.same_url ∙ g.stayed.url_kept;
      submit_kept = a.same_submit ∙ g.stayed.submit_kept;
    };
  }

  forget_opt-Sound :
      (cb : Option String) (p : Proxy F H K)
      → Sound p
      → Sound (forget_opt cb p) × Alike p (forget_opt cb p)
  forget_opt-Sound none p s = (s, Alike-refl p)
  forget_opt-Sound (some url) p s = (forget-Sound url p s, forget-Alike url p)

  pub cached-Obtained :
      (w : Writes) (url : String) (on_submit : Option K) (d idle : ℕ) (ar : Option (Option String))
      (p : Proxy F H K)
      → Got url p p d
      → Obtained w url on_submit p (
          from_cache d
            (do
              p' ← auto_read_stop ar d p
              some (at_conn d (λ c. record c { idle_close_at = idle }) p'))
            p)
  unfolding Obtained
  cached-Obtained w url on_submit d idle none p g = (g.sound, (g.stayed, refl))
  cached-Obtained w url on_submit d idle (some cb) p g =
      let p1 : Proxy F H K = at_conn d (λ c. record c { auto_read = none }) p in
      let q =
        forget_opt-Sound cb p1
          (at_conn-Sound d (λ c. record c { auto_read = none }) p refl g.sound) in
      let p2 : Proxy F H K = forget_opt cb p1 in
      let r : Proxy F H K = at_conn d (λ c. record c { idle_close_at = idle }) p2 in
      let a : Alike p r =
        Alike-trans p p1 r (at_conn-Alike d (λ c. record c { auto_read = none }) p refl refl) (
          Alike-trans p1 p2 r q.1
            (at_conn-Alike d (λ c. record c { idle_close_at = idle }) p2 refl refl)) in
      (
        Alike-Got url p p r d a
            (at_conn-Sound d (λ c. record c { idle_close_at = idle }) p2 refl q.0) g,
        a.same_directions,
      )

  -- The connections once a new one stands at the end of the store.
  abbrev extended : ConnDest F H → Proxy F H K → ℕ → ConnDest F H
  extended x p i = if i == p.next then x else p.conns i

  old_id :
      (x : ConnDest F H) (i : ℕ)
      → (p : Proxy F H K) → i < p.next
      → (extended x p i).id ≡ (p.conns i).id
  old_id x i p l = ground (arith, l)

  new_kept :
      (x : ConnDest F H) (i : ℕ) (p : Proxy F H K)
      → JobKept x
      → JobKept (p.conns i)
      → JobKept (extended x p i)
  new_kept x i p a b = if_lem JobKept (i == p.next) x (p.conns i) a b

  pub pool-Obtained :
      (w : Writes) (url : String) (on_submit : Option K) (c : Option (ConnDest F H))
      (p : Proxy F H K)
      → ((x : ConnDest F H) → c ≡ some x → (x.id ≡ url) × JobKept x)
      → Sound p
      → AllKept p
      → Obtained w url on_submit p (from_pool c p)
  unfolding Obtained
  pool-Obtained w url on_submit none p f s k =
      (s, (record { dest_kept = refl; url_kept = refl; submit_kept = refl }, refl))
  pool-Obtained w url on_submit (some x) p f s k = (
    record {
      sound = record {
        keyed =
            Keyed-conns p.conns (extended x p) p.next (p.next + 1) p.dest_map
              (λ i l. old_id x i p l) (omega arith) s.keyed;
        bounded = s.bounded;
        some_room = s.some_room;
        in_store = omega (arith, s.in_store);
      };
      in_q = omega arith;
      has_url = rw (n==n p.next) (f x refl).0;
      kept = λ i. new_kept x i p (f x refl).1 (k i);
      stayed = record { dest_kept = refl; url_kept = refl; submit_kept = refl };
    },
    refl,
  )

  -- A change of the source or of the pipe.
  pub re_source :
      (s : Source F) (b : Directions) (p : Proxy F H K)
      → Sound p
      → Sound (record p { source = s; directions = b })
  re_source s b p k = record {
    keyed = k.keyed;
    bounded = k.bounded;
    some_room = k.some_room;
    in_store = k.in_store;
  }

  pub re_Got :
      (url : String) (s : Source F) (b : Directions) (p q : Proxy F H K) (d : ℕ)
      → Got url p q d
      → Got url p (record q { source = s; directions = b }) d
  re_Got url s b p q d g = record {
    sound = re_source s b q g.sound;
    in_q = g.in_q;
    has_url = g.has_url;
    kept = g.kept;
    stayed = record {
      dest_kept = g.stayed.dest_kept;
      url_kept = g.stayed.url_kept;
      submit_kept = g.stayed.submit_kept;
    };
  }
