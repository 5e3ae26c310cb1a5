-- ===== src/Proxy/Change/Outcome.antt =====
-- What a change of the destination leaves behind on each of its branches (`setDest` of
-- internal/resources/hashrate/proxy/proxy.go).
use proxy_router.Prelude.{
  ℕ, suc, ◌≤◌, ◌≡◌, refl, ap, sym, subst, Bool, String, Option, none, some, arith, ◌∙◌, inl, inr,
  if◌then◌else◌, length, ◌=?◌, string_eq, Bool-cases, if_true, =?_refl,
}
use proxy_router.Prelude.Options.{Returns, Returns-bind}
use proxy_router.Prelude.Assoc.{lookup, lookup-insert}
use proxy_router.Proxy.Dest.{ConnDest}
use proxy_router.Proxy.Change.{
  stop_pipe, start_pipe, Proxy, Source, Writes, ChangeError, connect_failed, autoread_not_started,
  source_write_failed, no_job_available, park, use_dest, obtain_with, after_resend, switch,
  set_dest,
}
use proxy_router.Proxy.Change.Keyed.{Keyed-lookup}
use proxy_router.Proxy.Change.Kept.{Sound, Alike, Alike-refl, make_room-Sound}
use proxy_router.Proxy.Change.Obtained.{
  Halted, Restarted, stop_pipe-Halted, start-stop_pipe, JobKept, Late, resend-Late, if_lem,
  Switched, Outcome, park-Sound, use_dest-Sound, AllKept, Got, Obtained, Alike-Got, cached-Obtained,
  pool-Obtained, re_Got,
}

module _ {F H K : Type 0} where
  pub used-Switched :
      (url : String) (on_submit : Option K) (d : ℕ) (q : Proxy F H K)
      → (q.conns d).id ≡ url
      → Switched url on_submit (record (use_dest d url q) { on_submit = on_submit })
  unfolding use_dest
  used-Switched url on_submit d q e = record {
    url_set = refl;
    dest_has_url = e;
    cached = rw e (
        lookup-insert url url d q.dest_map
        ∙ if_true (url =? url) (some d) (lookup url q.dest_map) (=?_refl url));
    submit_set = refl;
    piped = refl;
  }

  re_submit : (k : Option K) (p : Proxy F H K) → Sound p → Sound (record p { on_submit = k })
  re_submit k p s = record {
    keyed = s.keyed;
    bounded = s.bounded;
    some_room = s.some_room;
    in_store = s.in_store;
  }

  after-Outcome :
      (w : Writes) (url : String) (on_submit : Option K) (p q : Proxy F H K) (d : ℕ)
      (r : Source F × Option ChangeError)
      → Late r.1
      → Got url p q d
      → q.directions ≡ stop_pipe w p.directions
      → Returns (λ r. Sound r.0 × Outcome w url on_submit p r) (after_resend r d url on_submit q)
  unfolding use_dest start_pipe
  after-Outcome w url on_submit p q d (s, some connect_failed) l g e = absurd l
  after-Outcome w url on_submit p q d (s, some autoread_not_started) l g e = absurd l
  after-Outcome w url on_submit p q d (s, some source_write_failed) l g e =
      let h = re_Got url s q.directions p q d g in
      (h.sound, (h.stayed, subst Halted (sym e) (stop_pipe-Halted w p.directions)))
  after-Outcome w url on_submit p q d (s, some no_job_available) l g e =
      let h = re_Got url s q.directions p q d g in
      (h.sound, (h.stayed, subst Halted (sym e) (stop_pipe-Halted w p.directions)))
  after-Outcome w url on_submit p q d (s, none) l g e =
      let h = re_Got url s q.directions p q d g in
      Returns-bind
        (λ m.
          Sound m
          × Alike (record q { source = s }) m
          × (suc (length m.dest_map) ≤ q.max_cached_dests))
        (λ r. Sound r.0 × Outcome w url on_submit p r) _ _
        (make_room-Sound (record q { source = s }) h.sound)
        (λ m k. (
          re_submit on_submit (use_dest d url m) (
              use_dest-Sound d url m k.0 (omega (arith, k.1.same_next, g.in_q))
                (omega (arith, k.2, k.1.same_limit))),
          (
            used-Switched url on_submit d m (k.1.same_ids d ∙ g.has_url),
            subst (λ c. Restarted w p.directions (start_pipe c)) (sym (k.1.same_directions ∙ e))
                (start-stop_pipe w p.directions),
          ),
        ))

  switch_to :
      (auto : Bool) (w : Writes) (url : String) (on_submit : Option K) (p p' : Proxy F H K) (d : ℕ)
      (e : Option ChangeError)
      → Got url p p' d
      → p'.directions ≡ p.directions
      → Returns
          (λ r. Sound r.0 × Outcome w url on_submit p r)
          (switch auto w url on_submit (p', some d, e))
  unfolding switch
  switch_to auto w url on_submit p p' d e g n =
      let p1 : Proxy F H K = record p' { directions = stop_pipe w p'.directions } in
      let g1 : Got url p p1 d = re_Got url p'.source (stop_pipe w p'.directions) p p' d g in
      let p2 : Proxy F H K = if auto then park p1 else p1 in
      let a : Sound p2 × Alike p1 p2 =
        if_lem (λ q. Sound q × Alike p1 q) auto (park p1) p1 (park-Sound p1 g1.sound)
          (g1.sound, Alike-refl p1) in
      let g2 : Got url p p2 d = Alike-Got url p p1 p2 d a.1 a.0 g1 in
      Returns-bind (λ r. Late r.1) (λ r. Sound r.0 × Outcome w url on_submit p r) _ _
        (resend-Late w (p2.conns d) p2.source (g2.kept d))
        (λ r l.
          after-Outcome w url on_submit p p2 d r l g2 (a.1.same_directions ∙ ap (stop_pipe w) n))

  switch-Outcome :
      (auto : Bool) (w : Writes) (url : String) (on_submit : Option K) (p : Proxy F H K)
      (o : Proxy F H K × Option ℕ × Option ChangeError)
      → Sound p
      → Obtained w url on_submit p o
      → Returns (λ r. Sound r.0 × Outcome w url on_submit p r) (switch auto w url on_submit o)
  unfolding switch Obtained
  switch-Outcome auto w url on_submit p (p', none, e) s h = h
  switch-Outcome auto w url on_submit p (p', some d, e) s h =
      switch_to auto w url on_submit p p' d e h.0 h.1

  -- A proxy whose map is well kept, and whose limit of connections is at least one, gets a new
  -- destination, while the latest job of each connection can be read and a new connection has the URL
  -- that it was made for. The call does not panic; the map is well kept and within the limit again. If
  -- it succeeds, the destination with the new URL is in use, in the map, and behind the pipe, and
  -- shares go to the new callback; a direction of the pipe runs then exactly if it had been stopped
  -- before, or was not done and its goroutine leaves before it is started again. Or the URL was the one
  -- in use, and nothing changed. If it fails, the destination, the URL and the callback are the old
  -- ones; the pipe is as it was after a failure to get the connection, and neither direction runs after
  -- a failure to tell the miner.
  pub set_dest-Outcome :
      (auto : Bool) (idle_close_at : ℕ) (connected : Option (ConnDest F H)) (w : Writes)
      (url : String) (on_submit : Option K) (p : Proxy F H K)
      → Sound p
      → AllKept p
      → ((x : ConnDest F H) → connected ≡ some x → (x.id ≡ url) × JobKept x)
      → Returns
          (λ r.
            Sound r.0 × (if p.dest_url =? url then r ≡ (p, none) else Outcome w url on_submit p r))
          (set_dest auto idle_close_at connected w url on_submit p)
  unfolding set_dest
  set_dest-Outcome auto idle_close_at connected w url on_submit p s k f =
      elim (Bool-cases (p.dest_url =? url)) [
        | inl same ↦ rw same (s, refl)
        | inr other ↦
            rw other
              (switch-Outcome auto w url on_submit p _ s (obtained (lookup url p.dest_map) refl))
      ]
    where
      obtained :
          (o : Option ℕ)
          → lookup url p.dest_map ≡ o
          → Obtained w url on_submit p (obtain_with o idle_close_at connected p)
      obtained none e = pool-Obtained w url on_submit connected p f s k
      obtained (some d) e =
          let known = Keyed-lookup p.conns p.next d url p.dest_map s.keyed e in
          cached-Obtained w url on_submit d idle_close_at (p.conns d).auto_read p (record {
            sound = s;
            in_q = known.1;
            has_url = known.0;
            kept = k;
            stayed = record { dest_kept = refl; url_kept = refl; submit_kept = refl };
          })
