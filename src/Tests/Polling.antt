-- ===== src/Tests/Polling.antt =====
-- The polling of internal/repositories/contracts/log_watcher_polling.go on small inputs.
use proxy_router.Prelude.{ℕ, ◌≡◌, refl, true, false, List, [], ◌∷◌, Option, none, some}
use proxy_router.LogWatcher.{Poll, Watcher, Log, watch}
use proxy_router.LogWatcher.Gaps.{Gapless, watch-Gapless}

abbrev a_log : Log ℕ
a_log = record { removed = false; event = some 7 }

abbrev answering : ℕ → Poll ℕ
answering head = record {
  header = some head;
  filter_logs = λ from to. some (a_log ∷ record a_log { removed = true } ∷ []);
  stop_after = none;
  stopped_waiting = false;
}

abbrev failing : ℕ → Poll ℕ
failing head = record (answering head) { filter_logs = λ from to. none }

abbrev at_ten : Watcher ℕ
at_ten = record { next_from_block = some 10; sent = []; covered = [] }

abbrev two_rounds : List (List (Option (Poll ℕ)))
two_rounds =
    (some (record (answering 12) { header = none }) ∷ some (answering 12) ∷ [])
    ∷ (some (answering 15) ∷ [])
    ∷ []

watch_runs : (watch two_rounds at_ten).0.covered ≡ (10, 12) ∷ (13, 15) ∷ []
unfolding watch
watch_runs = refl

watch-Gapless_example : Gapless 10 (watch two_rounds at_ten).0
watch-Gapless_example =
    watch-Gapless 10 two_rounds at_ten
      (
        (
          (λ from to. (a_log ∷ record a_log { removed = true } ∷ [], refl)),
          ((λ from to. (a_log ∷ record a_log { removed = true } ∷ [], refl)), tt),
        ),
        (((λ from to. (a_log ∷ record a_log { removed = true } ∷ [], refl)), tt), tt),
      )
      (10, refl, refl)
