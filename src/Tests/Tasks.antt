-- ===== src/Tests/Tasks.antt =====
-- A task of internal/lib/task.go and a pipe of internal/resources/hashrate/proxy/pipe.go on small
-- inputs.
use proxy_router.Prelude.{
  ℕ, suc, ◌≡◌, true, false, String, List, [], ◌∷◌, ◌++◌, Option, none, some, ◌⊎◌,
}
use proxy_router.Prelude.Options.{Returns}
use proxy_router.Task.{Move, start, stop, returns, proceeds, new_task, run_moves}
use proxy_router.Task.Interleaved.{Sound, run_moves_safe}
use proxy_router.Task.Restart.{up, stop_moves, restart_race}
use proxy_router.Proxy.Pipe.{Intercepted, passed, Round, got, read_nothing, pipe}
use proxy_router.Proxy.Pipe.Order.{GoesOn, EndedIn, pipe_order}

abbrev cancelled : Option String
cancelled = some "cancelled"

-- Two starts with a stop between them, and a function that ends by itself the second time.
abbrev moves : List (Move String)
moves =
    start
    ∷ stop
    ∷ returns 1 true (some "cancelled")
    ∷ proceeds 1
    ∷ proceeds 1
    ∷ start
    ∷ returns 2 false (some "lost")
    ∷ stop
    ∷ proceeds 2
    ∷ proceeds 2
    ∷ proceeds 2
    ∷ start
    ∷ []

run_moves_safe_example : Returns Sound (run_moves moves new_task)
run_moves_safe_example = run_moves_safe moves

restart_race_example :
    (run_moves (stop_moves 1 cancelled ++ proceeds 1 ∷ start ∷ []) (up 1 none) ≡ some (up 2 none))
    × Returns
        (λ t.
          (t.workers ≡ []) × (t.is_running ≡ false) × (t.is_done ≡ false) × (t.stop_ch ≡ some true))
        (run_moves (stop_moves 1 cancelled ++ start ∷ proceeds 1 ∷ []) (up 1 none))
restart_race_example = restart_race 1 cancelled none

-- It numbers the messages that it passes on.
abbrev tagged : ℕ × String → ℕ → ℕ × Intercepted (ℕ × String) String
tagged m n = (suc n, passed (n, m.1))

abbrev rounds : List (Round (ℕ × String) String)
rounds =
    record {
      cancelled_before = false;
      read = got (0, "a");
      cancelled_after = false;
      write_error = none;
    }
    ∷ record {
      cancelled_before = false;
      read = read_nothing;
      cancelled_after = false;
      write_error = none;
    }
    ∷ record {
      cancelled_before = false;
      read = got (0, "b");
      cancelled_after = false;
      write_error = some "closed";
    }
    ∷ []

pipe_order_example :
    GoesOn tagged rounds 0 (pipe tagged rounds 0) ⊎ EndedIn tagged rounds 0 (pipe tagged rounds 0)
pipe_order_example = pipe_order tagged rounds 0
