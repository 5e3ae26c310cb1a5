-- ===== src/Task/Interleaved.antt =====
-- What holds of a task under every interleaving (internal/lib/task.go).
use proxy_router.Prelude.{
  ℕ, ◌≡◌, refl, Bool, true, false, List, [], ◌∷◌, Option, none, some, inl, inr, arith, ◌==◌,
  Bool-cases,
}
use proxy_router.Prelude.Options.{Returns, Returns-bind}
use proxy_router.Task.{
  Phase, runs, stopping, ending, closing_done, closing_stop, leaving, Worker, Task, Move, start,
  stop, cancel_outside, returns, proceeds, new_task, at_worker, find_worker, start_task, stop_task,
  close_stop, after_run, proceed, proceed_with, cancel_last, return_from, move, run_moves,
}

module _ {E : Type 0} where
  -- The stop channel, `isDone` and the done channel while the goroutine stands in a phase.
  abbrev pub InPhase : Phase E → Option Bool → Bool → Bool → Type 0
  InPhase runs closed is_done done = (closed ≡ some false) × (is_done ≡ false) × (done ≡ false)
  InPhase stopping closed is_done done = (closed ≡ some false) × (is_done ≡ false) × (done ≡ false)
  InPhase (ending err) closed is_done done =
      (closed ≡ some false) × (is_done ≡ false) × (done ≡ false)
  InPhase closing_done closed is_done done =
      (closed ≡ some false) × (is_done ≡ true) × (done ≡ false)
  InPhase closing_stop closed is_done done =
      (closed ≡ some false) × (is_done ≡ true) × (done ≡ true)
  InPhase leaving closed is_done done = (closed ≡ some true) × (done ≡ is_done)

  -- At most one goroutine, that of the last start, and the task counts as running while there is one.
  abbrev pub Single : List (Worker E) → Task E → Type 0
  Single [] s = s.done_ch ≡ s.is_done
  Single (w ∷ []) s =
      (s.is_running ≡ true) × (w.start ≡ s.starts) × InPhase w.phase s.stop_ch s.is_done s.done_ch
  Single (w ∷ v ∷ ws) s = ⊥

  unfoldable pub Sound : Task E → Type 0
  Sound s = Single s.workers s

  start_task-Sound :
      (ws : List (Worker E)) (s : Task E) → s.workers ≡ ws → Single ws s → Sound (start_task s)
  unfolding start_task Sound
  start_task-Sound [] s e k = ground arith
  start_task-Sound (w ∷ []) s e k = ground (arith, e)
  start_task-Sound (w ∷ v ∷ ws) s e k = elim k [ ]

  -- A change of the workers that leaves their starts and their phases is of no account.
  mark-Sound :
      (n : ℕ) (f : Worker E → Worker E)
      → ((w : Worker E) → (f w).start ≡ w.start)
      → ((w : Worker E) → (f w).phase ≡ w.phase)
      → (ws : List (Worker E)) (s : Task E) → s.workers ≡ ws
      → Single ws s
      → Sound (record s { workers = at_worker n f s.workers })
  unfolding Sound
  mark-Sound n f a b [] s e k = rw e k
  mark-Sound n f a b (w ∷ []) s e k = elim (Bool-cases (w.start == n)) [
    | inl mine ↦ rw (e, mine, a w, b w) k
    | inr other ↦ rw (e, other) k
  ]
  mark-Sound n f a b (w ∷ v ∷ ws) s e k = elim k [ ]

  return_from-start :
      (c : Bool) (err : Option E) (p : Phase E) (w : Worker E)
      → (return_from c err p w).start ≡ w.start
  unfolding return_from after_run
  return_from-start c err runs w = ground arith
  return_from-start c err stopping w = refl
  return_from-start c err (ending _) w = refl
  return_from-start c err closing_done w = refl
  return_from-start c err closing_stop w = refl
  return_from-start c err leaving w = refl

  return_from-InPhase :
      (c : Bool) (err : Option E) (p : Phase E) (w : Worker E) (sc : Option Bool)
      (is_done done : Bool)
      → w.phase ≡ p
      → InPhase p sc is_done done
      → InPhase (return_from c err p w).phase sc is_done done
  unfolding return_from after_run
  return_from-InPhase c err runs w sc d x e k = ground (arith, k)
  return_from-InPhase c err stopping w sc d x e k = rw e k
  return_from-InPhase c err (ending _) w sc d x e k = rw e k
  return_from-InPhase c err closing_done w sc d x e k = rw e k
  return_from-InPhase c err closing_stop w sc d x e k = rw e k
  return_from-InPhase c err leaving w sc d x e k = rw e k

  proceed-Sound :
      (p : Phase E) (w : Worker E) (s : Task E)
      → s.workers ≡ w ∷ []
      → s.is_running ≡ true
      → w.start ≡ s.starts
      → w.phase ≡ p
      → InPhase p s.stop_ch s.is_done s.done_ch
      → Returns Sound (proceed w.start p s)
  unfolding proceed close_stop Sound
  proceed-Sound runs w s e r st ph k = rw (e, ph) (r, st, k)
  proceed-Sound stopping w s e r st ph k = ground (arith, e, r, st, ph, k)
  proceed-Sound (ending err) w s e r st ph k = ground (arith, e, r, st, ph, k)
  proceed-Sound closing_done w s e r st ph k = ground (arith, e, r, st, ph, k)
  proceed-Sound closing_stop w s e r st ph k = ground (arith, e, r, st, ph, k)
  proceed-Sound leaving w s e r st ph k = ground (arith, e, r, st, ph, k)

  worker_move-Sound :
      (n : ℕ) (ws : List (Worker E)) (s : Task E)
      → s.workers ≡ ws
      → Single ws s
      → Returns Sound (proceed_with (find_worker n ws) s)
  unfolding proceed_with Sound
  worker_move-Sound n [] s e k = rw e k
  worker_move-Sound n (w ∷ []) s e k = elim (Bool-cases (w.start == n)) [
    | inl mine ↦ rw mine (proceed-Sound w.phase w s e k.0 k.1 refl k.2)
    | inr other ↦ rw (other, e) k
  ]
  worker_move-Sound n (w ∷ v ∷ ws) s e k = elim k [ ]

  return_move-Sound :
      (n : ℕ) (c : Bool) (err : Option E) (ws : List (Worker E)) (s : Task E)
      → s.workers ≡ ws
      → Single ws s
      → Returns Sound (move (returns n c err) s)
  unfolding move Sound
  return_move-Sound n c err [] s e k = rw e k
  return_move-Sound n c err (w ∷ []) s e k = elim (Bool-cases (w.start == n)) [
    | inl mine ↦
        rw (e, mine, return_from-start c err w.phase w)
          (k.0, k.1, return_from-InPhase c err w.phase w s.stop_ch s.is_done s.done_ch refl k.2)
    | inr other ↦ rw (e, other) k
  ]
  return_move-Sound n c err (w ∷ v ∷ ws) s e k = elim k [ ]

  cancel_last-Sound : (o : Option Bool) (s : Task E) → Sound s → Sound (cancel_last o s).0
  unfolding cancel_last Sound
  cancel_last-Sound none s k = k
  cancel_last-Sound (some closed) s k =
      mark-Sound s.starts (λ w. record w { cancelled = true }) (λ w. refl) (λ w. refl) s.workers s
        refl k

  move-Sound : (m : Move E) (s : Task E) → Sound s → Returns Sound (move m s)
  unfolding move stop_task Sound
  move-Sound start s k = start_task-Sound s.workers s refl k
  move-Sound stop s k = cancel_last-Sound s.stop_ch s k
  move-Sound (cancel_outside n) s k =
      mark-Sound n (λ w. record w { outside = true }) (λ w. refl) (λ w. refl) s.workers s refl k
  move-Sound (returns n c err) s k = return_move-Sound n c err s.workers s refl k
  move-Sound (proceeds n) s k = worker_move-Sound n s.workers s refl k

  pub run_moves-Sound : (ms : List (Move E)) (s : Task E) → Sound s → Returns Sound (run_moves ms s)
  unfolding run_moves
  run_moves-Sound [] s k = k
  run_moves-Sound (m ∷ ms) s k =
      Returns-bind Sound Sound (move m s) (run_moves ms) (move-Sound m s k) (run_moves-Sound ms)

  -- However the calls of Start and Stop, the cancellations from outside and the steps of the
  -- goroutines follow one another, no channel of the task is closed twice, and there is never more
  -- than one goroutine. While there is one, Start does nothing; the stop channel is closed only by the
  -- goroutine that is about to leave; and the done channel is closed when, and only when, the task is
  -- done and its goroutine has told so.
  pub run_moves_safe : (ms : List (Move E)) → Returns Sound (run_moves ms new_task)
  unfolding new_task Sound
  run_moves_safe ms = run_moves-Sound ms new_task refl
