-- ===== src/Allocator/Scheduler/Loop/Disconnect.antt =====
-- `onDisconnect` of scheduler.go after the loop has exited.
use proxy_router.Prelude.{
  ◌≡◌, refl, ap, ◌∙◌, false, String, List, [], ◌∷◌, ◌++◌, some, inl, inr, append_assoc, if_true,
  subst,
}
use proxy_router.Prelude.Options.{Returns, Returns-bind}
use proxy_router.Floats.{Float64}
use proxy_router.Allocator.TaskList.{MinerTask, unlock_and_remove}
use proxy_router.Allocator.TaskList.Size.{IsConsistent}
use proxy_router.Allocator.Scheduler.Loop.{
  Turn, LoopState, exits, task_turn, notify_all, on_disconnect,
}
use proxy_router.Allocator.Scheduler.Loop.Ends.{ended, ended-append, ids, unlock_and_remove_lem}
use proxy_router.Allocator.Scheduler.Loop.Turns.{TurnDone, task_turn-TurnDone}

module _ (fl : Float64) where
  open fl use {F}

  ended-notify_all : (ts : List (MinerTask F)) → ended (notify_all fl ts) ≡ ids ts
  unfolding notify_all
  ended-notify_all [] = refl
  ended-notify_all (t ∷ ts) = ap (◌∷◌ t.id) (ended-notify_all ts)

  -- `onDisconnect` after the loop has exited with the task `id` taken: it gives an `OnEnd` to that
  -- task, which has had one from the loop, and to every task behind it, and takes the front off.
  pub on_disconnect_twice :
      (turn : Turn F) (s s' : LoopState F)
      → IsConsistent s.tasks
      → s.tasks.task_taken ≡ false
      → task_turn fl turn s ≡ some (exits s')
      → Returns
          (λ r.
            (id : String) × (rest : List String) × (ended r.notices
              ≡ ended s.notices ++ id ∷ id ∷ rest)
            × (ids r.tasks.tasks ≡ rest))
          (on_disconnect fl s')
  unfolding on_disconnect
  on_disconnect_twice turn s s' c f e =
      go (subst (Returns (TurnDone fl turn s)) e (task_turn-TurnDone fl turn s c f))
    where
      go :
          TurnDone fl turn s (exits s')
          → Returns
              (λ r.
                (id : String) × (rest : List String) × (ended r.notices
                  ≡ ended s.notices ++ id ∷ id ∷ rest)
                × (ids r.tasks.tasks ≡ rest))
              (on_disconnect fl s')
      go (inl (_, x)) = absurd (cc)
      go (inr (id, rest0, _, (rest, _, (n, b)))) = rw (if_true s'.tasks.task_taken _ _ b.taken) (
          Returns-bind _ _ (unlock_and_remove s'.tasks) _
            (unlock_and_remove_lem fl s'.tasks id rest b.taken b.queue b.sound)
            (λ q h. (
              id,
              rest,
              ended-append s'.notices (notify_all fl s'.tasks.tasks)
                  ∙ ap (λ x. x ++ ended (notify_all fl s'.tasks.tasks)) n
                  ∙ ap (◌++◌ (ended s.notices ++ id ∷ []))
                      (ended-notify_all s'.tasks.tasks ∙ b.queue)
                  ∙ append_assoc (ended s.notices) (id ∷ []) (id ∷ rest),
              h.0,
            )))
