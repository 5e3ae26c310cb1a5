-- ===== src/Proxy/Pipe/Order.antt =====
-- What reaches the other side of the pipe (internal/resources/hashrate/proxy/pipe.go).
use proxy_router.Prelude.{
  ◌≡◌, refl, Bool, true, false, List, [], ◌∷◌, ◌++◌, Option, none, some, ◌⊎◌, inl, inr, ap, sym,
  ◌∙◌, subst, if◌then◌else◌,
}
use proxy_router.Proxy.Pipe.{
  Read, read_fails, read_nothing, got, Intercepted, intercept_fails, swallowed, passed, Round,
  Ended, ends_with, context_cancelled, read_error, interceptor_error, write_error_of, Outcome, Run,
  cons_opt, write, after_interceptor, after_read, pipe_round, join, pipe,
}

-- The message that an interceptor lets through.
abbrev pub let_through : {M E : Type 0} → Intercepted M E → List M
let_through (intercept_fails e) = []
let_through swallowed = []
let_through (passed m) = m ∷ []

cons_opt-append : {M : Type 0} (o : Option M) (ms : List M) → cons_opt o ms ≡ cons_opt o [] ++ ms
cons_opt-append none ms = refl
cons_opt-append (some m) ms = refl

module _ {M E S : Type 0} (interceptor : M → S → S × Intercepted M E) where
  -- The state of the interceptor when it has seen what was read.
  abbrev pub seen : Read M E → S → S
  seen (read_fails e) s = s
  seen read_nothing s = s
  seen (got m) s = (interceptor m s).0

  -- What the interceptor lets through of what was read.
  abbrev pub let_through_of : Read M E → S → List M
  let_through_of (read_fails e) s = []
  let_through_of read_nothing s = []
  let_through_of (got m) s = let_through (interceptor m s).1

  -- All that the interceptor lets through when it sees what the rounds read, one after the other.
  abbrev pub offered : List (Round M E) → S → List M
  offered [] s = []
  offered (r ∷ rs) s = let_through_of r.read s ++ offered rs (seen r.read s)

  -- The interceptor's state after them.
  abbrev pub seen_all : List (Round M E) → S → S
  seen_all [] s = s
  seen_all (r ∷ rs) s = seen_all rs (seen r.read s)

  -- Why a round is the last one, and how the loop ends by it.
  pub data Breaks (r : Round M E) (s : S) : Ended E → Type 0 where
    by_cancel : r.cancelled_before ≡ true → Breaks r s context_cancelled
    by_read : (e : E) → r.read ≡ read_fails e → Breaks r s (read_error e)
    by_interceptor :
        (m : M) (e : E)
        → r.read ≡ got m
        → (interceptor m s).1 ≡ intercept_fails e
        → Breaks r s (interceptor_error e)
    by_late_cancel :
        (m : M) → r.read ≡ got m → r.cancelled_after ≡ true → Breaks r s context_cancelled
    by_write :
        (m m' : M) (e : E)
        → r.read ≡ got m
        → (interceptor m s).1 ≡ passed m'
        → r.write_error ≡ some e
        → Breaks r s (write_error_of e)

  -- A round either writes what the interceptor lets through, and the loop goes on, or writes nothing
  -- and breaks.
  abbrev RoundOk : Round M E → S → Outcome M E S → Type 0
  RoundOk r s o =
      ((o.ended ≡ none)
        × (cons_opt o.written [] ≡ let_through_of r.read s)
        × (o.state ≡ seen r.read s))
      ⊎ ((how : Ended E) × (o.ended ≡ some how) × (o.written ≡ none) × Breaks r s how)

  after_interceptor-Ok :
      (m : M) (r : Round M E) (s : S) (c : Bool) (o : Option E) (i : S × Intercepted M E)
      → r.read ≡ got m
      → r.cancelled_after ≡ c
      → r.write_error ≡ o
      → interceptor m s ≡ i
      → RoundOk r s (after_interceptor interceptor c o i)
  unfolding after_interceptor write
  after_interceptor-Ok m r s c o (s', intercept_fails e) h hc ho q =
      inr (interceptor_error e, refl, refl, by_interceptor m e h (ap (λ x. x.1) q))
  after_interceptor-Ok m r s true o (s', swallowed) h hc ho q =
      inr (context_cancelled, refl, refl, by_late_cancel m h hc)
  after_interceptor-Ok m r s false o (s', swallowed) h hc ho q = inl (
    refl,
    sym (ap (λ a. let_through_of a s) h ∙ ap (λ (x : S × Intercepted M E). let_through x.1) q),
    sym (ap (λ a. seen a s) h ∙ ap (λ x. x.0) q),
  )
  after_interceptor-Ok m r s true o (s', passed m') h hc ho q =
      inr (context_cancelled, refl, refl, by_late_cancel m h hc)
  after_interceptor-Ok m r s false none (s', passed m') h hc ho q = inl (
    refl,
    sym (ap (λ a. let_through_of a s) h ∙ ap (λ (x : S × Intercepted M E). let_through x.1) q),
    sym (ap (λ a. seen a s) h ∙ ap (λ x. x.0) q),
  )
  after_interceptor-Ok m r s false (some e) (s', passed m') h hc ho q =
      inr (write_error_of e, refl, refl, by_write m m' e h (ap (λ x. x.1) q) ho)

  after_read-Ok :
      (a : Read M E) (r : Round M E) (s : S)
      → r.read ≡ a
      → RoundOk r s (after_read interceptor a r.cancelled_after r.write_error s)
  unfolding after_read
  after_read-Ok (read_fails e) r s h = inr (read_error e, refl, refl, by_read e h)
  after_read-Ok read_nothing r s h = rw h (inl (refl, refl, refl))
  after_read-Ok (got m) r s h =
      after_interceptor-Ok m r s r.cancelled_after r.write_error (interceptor m s) h refl refl refl

  round-Ok :
      (b : Bool) (r : Round M E) (s : S)
      → r.cancelled_before ≡ b
      → RoundOk r s (
          if b
          then ends_with interceptor s context_cancelled
          else after_read interceptor r.read r.cancelled_after r.write_error s)
  round-Ok true r s h = inr (context_cancelled, refl, refl, by_cancel h)
  round-Ok false r s h = after_read-Ok r.read r s refl

  -- The loop has written all that was offered and goes on, or it has ended in one of the rounds, has
  -- written all that was offered before that, and nothing after it.
  pub record GoesOn (rs : List (Round M E)) (s : S) (o : Run M E S) : Type 0 where
    pub goes_on : o.how ≡ none
    pub wrote_all : o.all_written ≡ offered rs s
    pub saw_all : o.final ≡ seen_all rs s

  pub record EndedIn (rs : List (Round M E)) (s : S) (o : Run M E S) : Type 0 where
    pub before : List (Round M E)
    pub last : Round M E
    pub after : List (Round M E)
    pub split : rs ≡ before ++ last ∷ after
    pub wrote_before : o.all_written ≡ offered before s
    pub how : Ended E
    pub ended : o.how ≡ some how
    pub breaks : Breaks last (seen_all before s) how

  abbrev Split : List (Round M E) → S → Run M E S → Type 0
  Split rs s o = GoesOn rs s o ⊎ EndedIn rs s o

  goes_on_first :
      (r : Round M E) (rs : List (Round M E)) (s : S) (o : Outcome M E S) (rest : Run M E S)
      → cons_opt o.written [] ≡ let_through_of r.read s
      → Split rs (seen r.read s) rest
      → Split (r ∷ rs) s (join interceptor o none rest)
  goes_on_first r rs s o rest w (inl g) = inl (record {
    goes_on = g.goes_on;
    wrote_all =
        cons_opt-append o.written rest.all_written
        ∙ ap (λ ms. ms ++ rest.all_written) w
        ∙ ap (λ ms. let_through_of r.read s ++ ms) g.wrote_all;
    saw_all = g.saw_all;
  })
  goes_on_first r rs s o rest w (inr g) = inr (record {
    before = r ∷ g.before;
    last = g.last;
    after = g.after;
    split = ap (λ rs. r ∷ rs) g.split;
    wrote_before =
        cons_opt-append o.written rest.all_written
        ∙ ap (λ ms. ms ++ rest.all_written) w
        ∙ ap (λ ms. let_through_of r.read s ++ ms) g.wrote_before;
    how = g.how;
    ended = g.ended;
    breaks = g.breaks;
  })

  join-Split :
      (r : Round M E) (rs : List (Round M E)) (s : S) (o : Outcome M E S) (rest : Run M E S)
      → RoundOk r s o
      → (o.state ≡ seen r.read s → Split rs (seen r.read s) rest)
      → Split (r ∷ rs) s (join interceptor o o.ended rest)
  join-Split r rs s o rest (inl (n, w, st)) go =
      subst (λ e. Split (r ∷ rs) s (join interceptor o e rest)) (sym n)
        (goes_on_first r rs s o rest w (go st))
  join-Split r rs s o rest (inr (how, n, w, b)) go =
      subst (λ e. Split (r ∷ rs) s (join interceptor o e rest)) (sym n)
        (inr (record {
          before = [];
          last = r;
          after = rs;
          split = refl;
          wrote_before = ap (λ o. cons_opt o []) w;
          how = how;
          ended = refl;
          breaks = b;
        }))

  -- After any rounds, the pipe has either not ended, has written exactly what its interceptor lets
  -- through of the messages read, in their order, and the interceptor has seen all of them. Or it has
  -- ended in one of the rounds: it has written exactly what was let through before that, and that round
  -- was cancelled, or failed in the read, the interceptor or the write, which is the error returned.
  pub pipe_order :
      (rs : List (Round M E)) (s : S)
      → GoesOn rs s (pipe interceptor rs s) ⊎ EndedIn rs s (pipe interceptor rs s)
  unfolding pipe pipe_round
  pipe_order [] s = inl (record { goes_on = refl; wrote_all = refl; saw_all = refl })
  pipe_order (r ∷ rs) s =
      join-Split r rs s (pipe_round interceptor r s) _ (round-Ok r.cancelled_before r s refl) (λ e.
        subst (λ t. Split rs t (pipe interceptor rs (pipe_round interceptor r s).state)) e
          (pipe_order rs (pipe_round interceptor r s).state))
