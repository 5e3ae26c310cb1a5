-- ===== src/Allocator/TaskList/Size.antt =====
-- The counter `size` and the flag `taskTaken` of tasklist.go, through every method.
use proxy_router.Prelude.{
  ℕ, zero, suc, ◌+◌, ◌%◌, ◌<◌, ◌≡◌, refl, sym, ◌∙◌, append-nil, append_assoc, true, false, String,
  List, [], ◌∷◌, ◌++◌, none, some, ◌⊎◌, inl, inr, arith, length, length-append, get_elem?,
  remove_at, Option-cases, string_eq,
}
use proxy_router.Prelude.Options.{Returns}
use proxy_router.Allocator.TaskList.{
  MinerTask, TaskList, new_task_list, add, add_all, lock_next_task, unlock_and_remove, cancel,
  cancel_loop, cancel_round, cancel_front, front, pop_front, cancel_all,
}

module _ {Job : Type 0} where
  -- `size` counts the tasks, modulo 2^32, and a task that is taken is in the list.
  pub record IsConsistent (p : TaskList Job) : Type 0 where
    pub counted : p.size ≡ length p.tasks % 4294967296
    pub held : (p.task_taken ≡ false) ⊎ (0 < length p.tasks)

  pub new-IsConsistent : IsConsistent new_task_list
  unfolding new_task_list
  new-IsConsistent = ground arith

  pub add-IsConsistent :
      (p : TaskList Job) (t : MinerTask Job) → IsConsistent p → IsConsistent (add p t).1
  unfolding add
  add-IsConsistent p t c = ground (arith, length-append p.tasks (t ∷ []))

  pub lock_next_task-IsConsistent :
      (p : TaskList Job)
      → IsConsistent p
      → p.task_taken ≡ false
      → Returns (λ r. IsConsistent r.1) (lock_next_task p)
  unfolding lock_next_task front
  lock_next_task-IsConsistent p c f = ground arith

  -- With a task taken `UnlockAndRemove` does not panic: it drops the front.
  pub unlock_and_remove-IsConsistent :
      (p : TaskList Job)
      → IsConsistent p
      → p.task_taken ≡ true
      → Returns
          (λ q. IsConsistent q × (length p.tasks ≡ suc (length q.tasks)))
          (unlock_and_remove p)
  unfolding unlock_and_remove pop_front
  unlock_and_remove-IsConsistent p c t = grind arith

  length-remove_at :
      (i : ℕ) (ts : List (MinerTask Job)) (t : MinerTask Job)
      → get_elem? ts i ≡ some t
      → suc (length (remove_at i ts)) ≡ length ts
  length-remove_at i [] t h = cc
  length-remove_at zero (x ∷ ts) t h = refl
  length-remove_at (suc i) (x ∷ ts) t h = omega (arith, length-remove_at i ts t h)

  length-cancel_front : (ts : List (MinerTask Job)) → length (cancel_front ts) ≡ length ts
  length-cancel_front [] = refl
  length-cancel_front (t ∷ ts) = refl

  cancel_round-IsConsistent :
      (c : String) (i : ℕ) (t : MinerTask Job) (p : TaskList Job)
      → get_elem? p.tasks i ≡ some t
      → IsConsistent p
      → IsConsistent (cancel_round c i t p)
  unfolding cancel_round
  cancel_round-IsConsistent c i t p e k =
      ground (arith, length-remove_at i p.tasks t e, length-cancel_front p.tasks)

  cancel_loop-IsConsistent :
      (n : ℕ) (c : String) (i : ℕ) (p : TaskList Job)
      → IsConsistent p
      → IsConsistent (cancel_loop n c i p)
  unfolding cancel_loop
  cancel_loop-IsConsistent zero c i p k = k
  cancel_loop-IsConsistent (suc n) c i p k = elim (Option-cases (get_elem? p.tasks i)) [
    | inl e ↦ rw (e, cancel_loop) k
    | inr (t, e) ↦
        rw (e, cancel_loop)
          (cancel_loop-IsConsistent n c (i + 1) (cancel_round c i t p)
            (cancel_round-IsConsistent c i t p e k))
  ]

  -- `Cancel` keeps the counter right, and a task that is taken in the list.
  pub cancel-IsConsistent :
      (p : TaskList Job) (c : String) → IsConsistent p → IsConsistent (cancel p c)
  unfolding cancel
  cancel-IsConsistent p c k = cancel_loop-IsConsistent (length p.tasks) c 0 p k

  -- `CancelAll` while a task is taken empties the list under the scheduler: the `UnlockAndRemove`
  -- that ends the task then panics.
  pub cancel_all-unlock_and_remove :
      (p : TaskList Job)
      → IsConsistent p
      → p.task_taken ≡ true
      → Returns (λ r. unlock_and_remove r.1 ≡ none) (cancel_all p)
  unfolding unlock_and_remove cancel_all
  cancel_all-unlock_and_remove p c t = grind arith

  pub add_all-tasks :
      (p : TaskList Job) (ts : List (MinerTask Job))
      → ((add_all p ts).tasks ≡ p.tasks ++ ts) × ((add_all p ts).task_taken ≡ p.task_taken)
  unfolding add_all
  add_all-tasks p [] = (sym (append-nil p.tasks), refl)
  add_all-tasks p (t ∷ ts) =
      let ih = add_all-tasks (add p t).1 ts in (ih.0 ∙ append_assoc p.tasks (t ∷ []) ts, ih.1)

  pub add_all-IsConsistent :
      (p : TaskList Job) (ts : List (MinerTask Job)) → IsConsistent p → IsConsistent (add_all p ts)
  unfolding add_all
  add_all-IsConsistent p [] c = c
  add_all-IsConsistent p (t ∷ ts) c = add_all-IsConsistent (add p t).1 ts (add-IsConsistent p t c)
