-- ===== src/Task/Restart.antt =====
-- A task that is stopped and started again (internal/lib/task.go), when Start comes after the
-- goroutine has gone and when it comes as soon as the channel of Stop is closed.
use proxy_router.Prelude.{
  ℕ, ◌+◌, ◌≡◌, refl, true, false, List, [], ◌∷◌, Option, none, some, arith, ◌==◌, ap, ◌∙◌, ◌++◌,
}
use proxy_router.Prelude.Options.{◌>>=◌, Returns, some_inj, >>=-swap}
use proxy_router.Task.{
  runs, leaving, Task, Move, start, stop, returns, proceeds, start_task, stop_task, proceed_with,
  return_from, move, run_moves,
}

n==n : (n : ℕ) → (n == n) ≡ true
n==n n = ground arith

module _ {E : Type 0} where
  -- A task that is up: the goroutine of its last start is in the function, and its context stands.
  abbrev pub up : ℕ → Option (Option E) → Task E
  up n err = record {
    is_running = true;
    is_done = false;
    stop_ch = some false;
    done_ch = false;
    err = err;
    starts = n;
    workers = record { start = n; cancelled = false; outside = false; phase = runs } ∷ [];
  }

  -- Stop, the function returns because its context is cancelled, and the goroutine closes the channel
  -- that Stop returned.
  abbrev pub stop_moves : ℕ → Option E → List (Move E)
  stop_moves n err = stop ∷ returns n true err ∷ proceeds n ∷ []

  abbrev stopped : ℕ → Option (Option E) → Task E
  stopped n e = record (up n e) {
    stop_ch = some true;
    workers = record { start = n; cancelled = true; outside = false; phase = leaving } ∷ [];
  }

  stop_lem :
      (n : ℕ) (err : Option E) (e : Option (Option E))
      → run_moves (stop_moves n err) (up n e) ≡ some (stopped n e)
  unfolding run_moves move stop_task return_from proceed_with
  stop_lem n err e = simp (n==n n)

  leave_lem :
      (n : ℕ) (e : Option (Option E))
      → move (proceeds n) (stopped n e)
        ≡ some (record (stopped n e) { is_running = false; workers = [] })
  unfolding move proceed_with
  leave_lem n e = simp (n==n n)

  leave_then_start :
      (n : ℕ) (e : Option (Option E))
      → run_moves (proceeds n ∷ start ∷ []) (stopped n e) ≡ some (up (n + 1) none)
  unfolding run_moves move start_task
  leave_then_start n e = rw (leave_lem n e, ◌>>=◌)

  start_then_leave :
      (n : ℕ) (e : Option (Option E))
      → run_moves (start ∷ proceeds n ∷ []) (stopped n e)
        ≡ some (record (stopped n e) { is_running = false; workers = [] })
  unfolding run_moves move start_task
  start_then_leave n e = rw (leave_lem n e, ◌>>=◌)

  run_moves-append :
      (ms ns : List (Move E)) (s t : Task E)
      → run_moves ms s ≡ some t
      → run_moves (ms ++ ns) s ≡ run_moves ns t
  unfolding run_moves
  run_moves-append [] ns s t h = ap (run_moves ns) (some_inj s t h)
  run_moves-append (m ∷ ms) ns s t h =
      >>=-swap (move m s) (run_moves ms) (run_moves (ms ++ ns)) t (run_moves ns t) h
        (λ u q. run_moves-append ms ns u t q)

  -- A task that is up is stopped, its function returns because the context is cancelled, and the
  -- channel that Stop returned is closed. If the goroutine leaves before the next Start, that starts a
  -- new one, and the task is up as before. If Start comes in between, it does nothing: the goroutine
  -- leaves, none is left, and the task is neither running nor done.
  pub restart_race :
      (n : ℕ) (err : Option E) (e : Option (Option E))
      → (run_moves (stop_moves n err ++ proceeds n ∷ start ∷ []) (up n e) ≡ some (up (n + 1) none))
        × Returns
            (λ t.
              (t.workers ≡ [])
              × (t.is_running ≡ false)
              × (t.is_done ≡ false)
              × (t.stop_ch ≡ some true))
            (run_moves (stop_moves n err ++ start ∷ proceeds n ∷ []) (up n e))
  restart_race n err e = (
    run_moves-append (stop_moves n err) _ _ _ (stop_lem n err e) ∙ leave_then_start n e,
    rw
        (run_moves-append (stop_moves n err) (start ∷ proceeds n ∷ []) _ _ (stop_lem n err e)
          ∙ start_then_leave n e)
        (refl, refl, refl, refl),
  )
