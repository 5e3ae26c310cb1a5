-- ===== src/Allocator/TaskList/Neighbours.antt =====
-- What `Cancel` of tasklist.go does to the tasks of one contract, by whether two of them stand side
-- by side in the queue.
use proxy_router.Prelude.{
  ◌≡◌, refl, ap, ◌∙◌, Bool, true, false, String, List, [], ◌∷◌, ◌++◌, arith, string_eq, Among,
}
use proxy_router.Allocator.TaskList.{MinerTask, TaskList, cancel}
use proxy_router.Allocator.TaskList.Cancel.{
  skip, without, Apart, Apart-tail, marked, skip-without, cancel-skip, cancel-marked, cancel_none,
}

module _ {Job : Type 0} where
  -- The task that is taken, marked cancelled if it is the contract's.
  abbrev pub held_front : String → Bool → List (MinerTask Job) → List (MinerTask Job)
  held_front c false ts = []
  held_front c true [] = []
  held_front c true (t ∷ ts) = marked c t ∷ []

  -- The tasks that wait.
  abbrev pub waiting : Bool → List (MinerTask Job) → List (MinerTask Job)
  waiting false ts = ts
  waiting true [] = []
  waiting true (t ∷ ts) = ts

  -- When no two neighbours that wait are of the contract, `Cancel` takes out every waiting task of
  -- the contract and keeps the others in their order. A task that is taken stays in front, marked
  -- cancelled if it is the contract's.
  pub cancel-without :
      (p : TaskList Job) (c : String)
      → Apart c (waiting p.task_taken p.tasks)
      → (cancel p c).tasks
        ≡ held_front c p.task_taken p.tasks ++ without c (waiting p.task_taken p.tasks)
  cancel-without p c = go p.task_taken p.tasks refl refl
    where
      go :
          (b : Bool) (ts : List (MinerTask Job))
          → p.task_taken ≡ b
          → p.tasks ≡ ts
          → Apart c (waiting b ts)
          → (cancel p c).tasks ≡ held_front c b ts ++ without c (waiting b ts)
      go false ts f e a = cancel-skip p c f ∙ ap (skip c) e ∙ skip-without c ts a
      go true [] f e a = cancel_none p c e
      go true (t ∷ ts) f e a =
          cancel-marked p c t ts f e ∙ ap (◌∷◌ (marked c t)) (skip-without c ts a)

  Among-skip_pair :
      (c : String) (t u : MinerTask Job) (pre ts : List (MinerTask Job))
      → Apart c (pre ++ t ∷ [])
      → t.id ≡ c
      → Among u (skip c (pre ++ t ∷ u ∷ ts))
  Among-skip_pair c t u [] ts a e = ground (arith, string_eq.beq_iff t.id c)
  Among-skip_pair c t u (x ∷ []) ts a e =
      ground (arith, string_eq.beq_iff t.id c, Among-skip_pair c t u [] ts tt e)
  Among-skip_pair c t u (x ∷ y ∷ pre) ts a e = ground (
    arith,
    Among-skip_pair c t u (y ∷ pre) ts a.1 e,
    Among-skip_pair c t u pre ts (Apart-tail c y (pre ++ t ∷ []) a.1) e,
  )

  -- Where no task is taken, and two neighbours are the first tasks of the contract to stand side by
  -- side, `Cancel` leaves the second of them in the queue.
  pub cancel-leaves_neighbour :
      (p : TaskList Job) (c : String) (t u : MinerTask Job) (pre ts : List (MinerTask Job))
      → p.task_taken ≡ false
      → p.tasks ≡ pre ++ t ∷ u ∷ ts
      → Apart c (pre ++ t ∷ [])
      → t.id ≡ c
      → u.id ≡ c
      → Among u (cancel p c).tasks
  cancel-leaves_neighbour p c t u pre ts f e a et eu =
      rw (cancel-skip p c f, e) (Among-skip_pair c t u pre ts a et)
