-- ===== src/Proxy/Pipe.antt =====
-- internal/resources/hashrate/proxy/pipe.go: one direction of the pipe between a miner and a pool. A
-- round of the loop gets what its calls answer; the interceptor is a function on a state of its own.
pub mod Order
use proxy_router.Prelude.{Bool, List, [], ◌∷◌, Option, none, some, if◌then◌else◌}

-- How `from().Read` goes.
pub data Read (M E : Type 0) : Type 0 where
  read_fails : E → Read M E
  read_nothing : Read M E
  got : M → Read M E

-- What the interceptor answers.
pub data Intercepted (M E : Type 0) : Type 0 where
  intercept_fails : E → Intercepted M E
  swallowed : Intercepted M E
  passed : M → Intercepted M E

-- `ctx.Done()` at the top of the round and before the write, and the error of the write.
pub record Round (M E : Type 0) : Type 0 where
  pub cancelled_before : Bool
  pub read : Read M E
  pub cancelled_after : Bool
  pub write_error : Option E

pub data Ended (E : Type 0) : Type 0 where
  context_cancelled : Ended E
  read_error interceptor_error write_error_of : E → Ended E

-- A round: the interceptor's state after it, what was written, how the loop ends.
pub record Outcome (M E S : Type 0) : Type 0 where
  pub state : S
  pub written : Option M
  pub ended : Option (Ended E)

-- The loop: what was written in all rounds, and how it ended.
pub record Run (M E S : Type 0) : Type 0 where
  pub final : S
  pub all_written : List M
  pub how : Option (Ended E)

abbrev pub cons_opt : {M : Type 0} → Option M → List M → List M
cons_opt none ms = ms
cons_opt (some m) ms = m ∷ ms

module _ {M E S : Type 0} (interceptor : M → S → S × Intercepted M E) where
  abbrev pub ends_with : S → Ended E → Outcome M E S
  ends_with s e = record { state = s; written = none; ended = some e }

  abbrev pub goes_on : S → Option M → Outcome M E S
  goes_on s m = record { state = s; written = m; ended = none }

  write : Option E → M → S → Outcome M E S
  write none m s = goes_on s (some m)
  write (some e) m s = ends_with s (write_error_of e)

  -- What follows the interceptor. A message in hand is checked against nil after the context.
  after_interceptor : Bool → Option E → S × Intercepted M E → Outcome M E S
  unfolding write
  after_interceptor cancelled error (s, intercept_fails e) = ends_with s (interceptor_error e)
  after_interceptor cancelled error (s, swallowed) =
      if cancelled then ends_with s context_cancelled else goes_on s none
  after_interceptor cancelled error (s, passed m) =
      if cancelled then ends_with s context_cancelled else write error m s

  after_read : Read M E → Bool → Option E → S → Outcome M E S
  unfolding after_interceptor
  after_read (read_fails e) cancelled error s = ends_with s (read_error e)
  after_read read_nothing cancelled error s = goes_on s none
  after_read (got m) cancelled error s = after_interceptor cancelled error (interceptor m s)

  unfoldable pub pipe_round : Round M E → S → Outcome M E S
  unfolding after_read
  pipe_round r s =
      if r.cancelled_before
      then ends_with s context_cancelled
      else after_read r.read r.cancelled_after r.write_error s

  -- The loop goes on unless the round ended it.
  abbrev pub join : Outcome M E S → Option (Ended E) → Run M E S → Run M E S
  join o (some e) rest = record {
    final = o.state;
    all_written = cons_opt o.written [];
    how = some e;
  }
  join o none rest = record rest { all_written = cons_opt o.written rest.all_written }

  unfoldable pub pipe : List (Round M E) → S → Run M E S
  pipe [] s = record { final = s; all_written = []; how = none }
  pipe (r ∷ rs) s = let o = pipe_round r s in join o o.ended (pipe rs o.state)
