-- ===== src/Task.antt =====
-- internal/lib/task.go: a function that runs in a goroutine and can be stopped and started again.
-- The goroutine of a start goes through the phases below one step at a time, and Start and Stop are
-- steps that may come between them. A channel is whether it is closed; closing it twice panics, which
-- is `none`. A context is whether it is cancelled; every start has one of its own.
pub mod Interleaved
pub mod Restart
use proxy_router.Prelude.{
  ℕ, suc, ◌+◌, Bool, true, false, not, ◌&&◌, List, [], ◌∷◌, Option, none, some, if◌then◌else◌, ◌==◌,
}
use proxy_router.Prelude.Options.{◌>>=◌}

-- Where the goroutine stands: in the function; before `close(stopCh)` after a Stop; before it stores
-- what the function returned, before `close(doneCh)` and before `close(stopCh)` after any other end;
-- before `isRunning.Store(false)`.
pub data Phase (E : Type 0) : Type 0 where
  runs : Phase E
  stopping : Phase E
  ending : Option E → Phase E
  closing_done : Phase E
  closing_stop : Phase E
  leaving : Phase E

pub record Worker (E : Type 0) : Type 0 where
  pub start : ℕ
  -- `cancel` of the start was called
  pub cancelled : Bool
  -- the context that Start was given is cancelled
  pub outside : Bool
  pub phase : Phase E

pub record Task (E : Type 0) : Type 0 where
  pub is_running : Bool
  pub is_done : Bool
  -- no channel before the first start
  pub stop_ch : Option Bool
  pub done_ch : Bool
  pub err : Option (Option E)
  -- the number of starts that have made a goroutine; `cancel` is that of the last
  pub starts : ℕ
  pub workers : List (Worker E)

-- What may happen: a call, the cancellation of the context outside, the return of the function with
-- an error that is a context's or not, and a step of a goroutine.
pub data Move (E : Type 0) : Type 0 where
  start : Move E
  stop : Move E
  cancel_outside : ℕ → Move E
  returns : ℕ → Bool → Option E → Move E
  proceeds : ℕ → Move E

module _ {E : Type 0} where
  unfoldable pub new_task : Task E
  new_task = record {
    is_running = false;
    is_done = false;
    stop_ch = none;
    done_ch = false;
    err = none;
    starts = 0;
    workers = [];
  }

  -- The goroutine of the n-th start changes.
  abbrev pub at_worker : ℕ → (Worker E → Worker E) → List (Worker E) → List (Worker E)
  at_worker n f [] = []
  at_worker n f (w ∷ ws) = (if w.start == n then f w else w) ∷ at_worker n f ws

  abbrev pub find_worker : ℕ → List (Worker E) → Option (Worker E)
  find_worker n [] = none
  find_worker n (w ∷ ws) = if w.start == n then some w else find_worker n ws

  abbrev pub remove_worker : ℕ → List (Worker E) → List (Worker E)
  remove_worker n [] = []
  remove_worker n (w ∷ ws) =
      let rest = remove_worker n ws in if w.start == n then rest else w ∷ rest

  abbrev pub to_phase : Phase E → Worker E → Worker E
  to_phase p w = record w { phase = p }

  unfoldable pub start_task : Task E → Task E
  start_task s =
      if s.is_running then s else if s.is_done then record s { is_running = true } else record s {
        is_running = true;
        stop_ch = some false;
        err = none;
        starts = s.starts + 1;
        workers =
            record { start = s.starts + 1; cancelled = false; outside = false; phase = runs }
            ∷ s.workers;
      }

  cancel_last : Option Bool → Task E → Task E × Bool
  cancel_last none s = (s, true)
  cancel_last (some closed) s = (
    record s { workers = at_worker s.starts (λ w. record w { cancelled = true }) s.workers },
    closed,
  )

  -- The state, and whether the channel that Stop returns is closed. There is a `cancel` exactly when
  -- there is a stop channel.
  unfoldable pub stop_task : Task E → Task E × Bool
  unfolding cancel_last
  stop_task s = cancel_last s.stop_ch s

  close_stop : ℕ → Task E → Option (Task E)
  close_stop n s = elim s.stop_ch [
    | none ↦ none
    | some true ↦ none
    | some false ↦
        some (record s { stop_ch = some true; workers = at_worker n (to_phase leaving) s.workers })
  ]

  -- What becomes of the goroutine when the function returns: `ctx.Err() == nil && subCtx.Err() != nil
  -- && isContextErr` is a stop; both other cases end the task.
  unfoldable pub after_run : Bool → Option E → Worker E → Worker E
  after_run is_context_err err w =
      if not w.outside && (w.cancelled && is_context_err)
      then record w { phase = stopping }
      else record w { phase = ending err }

  proceed : ℕ → Phase E → Task E → Option (Task E)
  unfolding close_stop
  proceed n runs s = some s
  proceed n stopping s = close_stop n s
  proceed n (ending err) s = some (record s {
    is_done = true;
    err = some err;
    workers = at_worker n (to_phase closing_done) s.workers;
  })
  proceed n closing_done s =
      if s.done_ch
      then none
      else some
          (record s { done_ch = true; workers = at_worker n (to_phase closing_stop) s.workers })
  proceed n closing_stop s = close_stop n s
  proceed n leaving s = some (record s { is_running = false; workers = remove_worker n s.workers })

  proceed_with : Option (Worker E) → Task E → Option (Task E)
  unfolding proceed
  proceed_with none s = some s
  proceed_with (some w) s = proceed w.start w.phase s

  -- The function of a goroutine returns, if it runs.
  return_from : Bool → Option E → Phase E → Worker E → Worker E
  unfolding after_run
  return_from c err runs w = after_run c err w
  return_from c err _ w = w

  unfoldable pub move : Move E → Task E → Option (Task E)
  unfolding proceed_with return_from
  move start s = some (start_task s)
  move stop s = some (stop_task s).0
  move (cancel_outside n) s =
      some (record s { workers = at_worker n (λ w. record w { outside = true }) s.workers })
  move (returns n c err) s =
      some (record s { workers = at_worker n (λ w. return_from c err w.phase w) s.workers })
  move (proceeds n) s = proceed_with (find_worker n s.workers) s

  unfoldable pub run_moves : List (Move E) → Task E → Option (Task E)
  run_moves [] s = some s
  run_moves (m ∷ ms) s = do s' ← move m s; run_moves ms s'
