-- ===== src/Allocator/Scheduler/Loop/Ends.antt =====
-- What `taskLoop` and `onDisconnect` of scheduler.go tell the owners of the tasks: which tasks get
-- an `OnEnd`, and in what order.
use proxy_router.Prelude.{
  ◌≡◌, refl, sym, ap, ◌∙◌, Bool, true, false, String, List, [], ◌∷◌, ◌++◌, Option, some, ◌⊎◌, inl,
  inr, arith, if◌then◌else◌, length, subst,
}
use proxy_router.Prelude.Options.{Returns, Returns-bind, Returns-map}
use proxy_router.Floats.{Float64}
use proxy_router.Allocator.TaskList.{MinerTask, TaskList, unlock_and_remove, cancel_task}
use proxy_router.Allocator.TaskList.Size.{IsConsistent, add_all-tasks, add_all-IsConsistent}
use proxy_router.Allocator.Scheduler.Loop.{
  Notice, on_end, on_disconnect_notice, Reason, proxy_exited, conn_dest, completed,
  deadline_exceeded, Ready, exited, is_cancelled, deadline, nothing_ready, Turn, LoopState, Outcome,
  continues, idle, exits, waits, on_submit, on_submits, set_front, during, end_task, end_and_remove,
  on_ready, run_task,
}

-- The tasks that have got an `OnEnd`, in order.
abbrev pub ended : List Notice → List String
ended [] = []
ended (on_end id remaining reason ∷ ns) = id ∷ ended ns
ended (on_disconnect_notice id remaining ∷ ns) = ended ns

pub ended-append : (ns ms : List Notice) → ended (ns ++ ms) ≡ ended ns ++ ended ms
ended-append [] ms = refl
ended-append (on_end id remaining reason ∷ ns) ms = ap (◌∷◌ id) (ended-append ns ms)
ended-append (on_disconnect_notice id remaining ∷ ns) ms = ended-append ns ms

abbrev pub ids : {F : Type 0} → List (MinerTask F) → List String
ids [] = []
ids (t ∷ ts) = t.id ∷ ids ts

ids-append : {F : Type 0} (ts us : List (MinerTask F)) → ids (ts ++ us) ≡ ids ts ++ ids us
ids-append [] us = refl
ids-append (t ∷ ts) us = ap (◌∷◌ t.id) (ids-append ts us)

module _ (fl : Float64) where
  open fl use {F}

  -- A task is taken, `id` is its ID, and `rest` are the IDs behind it.
  pub record Busy (p : TaskList F) (id : String) (rest : List String) : Type 0 where
    pub taken : p.task_taken ≡ true
    pub queue : ids p.tasks ≡ id ∷ rest
    pub sound : IsConsistent p

  -- The task is done with: it has got an `OnEnd` more than `before`.
  abbrev pub Settles : List String → String → List String → Outcome F → Type 0
  Settles before id rest (continues s) =
      (ended s.notices ≡ before ++ id ∷ [])
      × (ids s.tasks.tasks ≡ rest)
      × (s.tasks.task_taken ≡ false)
      × IsConsistent s.tasks
  Settles before id rest (idle s) = ⊥
  Settles before id rest (exits s) = (ended s.notices ≡ before ++ id ∷ []) × Busy s.tasks id rest
  Settles before id rest (waits s) = (ended s.notices ≡ before) × Busy s.tasks id rest

  pub unlock_and_remove_lem :
      (p : TaskList F) (id : String) (rest : List String)
      → p.task_taken ≡ true
      → ids p.tasks ≡ id ∷ rest
      → IsConsistent p
      → Returns
          (λ q. (ids q.tasks ≡ rest) × (q.task_taken ≡ false) × IsConsistent q)
          (unlock_and_remove p)
  unfolding unlock_and_remove
  unlock_and_remove_lem p id rest t q c = go p.tasks refl
    where
      go :
          (ts : List (MinerTask F))
          → p.tasks ≡ ts
          → Returns
              (λ q. (ids q.tasks ≡ rest) × (q.task_taken ≡ false) × IsConsistent q)
              (unlock_and_remove p)
      go [] e = absurd (ground (arith, c.held, t, ap length e))
      go (u ∷ us) e =
          let r : ids us ≡ rest = ground (arith, ap ids e, q) in
          rw (t, e, unlock_and_remove) (r, refl, ground (arith, ap length e, c.counted))

  ended-end_task :
      (task : MinerTask F) (reason : Reason) (s : LoopState F)
      → ended (end_task fl task reason s).notices ≡ ended s.notices ++ task.id ∷ []
  unfolding end_task
  ended-end_task task reason s = ended-append s.notices _

  end_and_remove-Settles :
      (task : MinerTask F) (reason : Reason) (s : LoopState F) (rest : List String)
      → Busy s.tasks task.id rest
      → Returns (Settles (ended s.notices) task.id rest) (end_and_remove fl task reason s)
  unfolding end_and_remove
  end_and_remove-Settles task reason s rest b =
      Returns-bind _ _ (unlock_and_remove s.tasks) _
        (unlock_and_remove_lem s.tasks task.id rest b.taken b.queue b.sound)
        (λ q h. (ended-end_task task reason s, h.0, h.1, h.2))

  pub on_ready-Settles :
      (Q : Outcome F → Type 0) (r : Ready) (task : MinerTask F) (s : LoopState F)
      (rest : List String) (o : Option (Outcome F))
      → Busy s.tasks task.id rest
      → ((x : Outcome F) → Settles (ended s.notices) task.id rest x → Q x)
      → Returns Q o
      → Returns Q (on_ready fl r task s o)
  unfolding on_ready
  on_ready-Settles Q exited task s rest o b q k = q _ (ended-end_task task proxy_exited s, b)
  on_ready-Settles Q is_cancelled task s rest o b q k =
      Returns-map _ Q _ (end_and_remove-Settles task completed s rest b) q
  on_ready-Settles Q deadline task s rest o b q k =
      Returns-map _ Q _ (end_and_remove-Settles task deadline_exceeded s rest b) q
  on_ready-Settles Q nothing_ready task s rest o b q k = k

  id-on_submits : (diffs : List F) (task : MinerTask F) → (on_submits fl diffs task).id ≡ task.id
  unfolding on_submits on_submit cancel_task
  id-on_submits [] task = refl
  id-on_submits (d ∷ diffs) task = id-on_submits diffs (on_submit fl d task) ∙ ground arith

  set_front-Busy :
      (p : TaskList F) (t : MinerTask F) (id : String) (rest : List String)
      → t.id ≡ id
      → Busy p id rest
      → Busy (record p { tasks = set_front fl t p.tasks }) id rest
  set_front-Busy p t id rest e b = go p.tasks refl
    where
      go :
          (ts : List (MinerTask F))
          → p.tasks ≡ ts
          → Busy (record p { tasks = set_front fl t p.tasks }) id rest
      go [] q = absurd (ground (arith, ap ids q, b.queue))
      go (u ∷ us) q = rw q (record {
        taken = b.taken;
        queue = ground (arith, ap ids q, b.queue);
        sound = ground (arith, ap length q, b.sound);
      })

  during-Busy :
      (turn : Turn F) (task : MinerTask F) (p : TaskList F) (rest : List String)
      → Busy p task.id rest
      → Busy (during fl turn task p) task.id (rest ++ ids turn.added)
  unfolding during
  during-Busy turn task p rest b =
      let c =
        set_front-Busy p (on_submits fl turn.diffs task) task.id rest
          (id-on_submits turn.diffs task) b in
      let a =
        add_all-tasks (record p { tasks = set_front fl (on_submits fl turn.diffs task) p.tasks })
          turn.added in
      record {
        taken = a.1 ∙ c.taken;
        queue = ap ids a.0 ∙ ids-append _ turn.added ∙ ap (λ xs. xs ++ ids turn.added) c.queue;
        sound = add_all-IsConsistent _ turn.added c.sound;
      }

  -- What may wait behind the task at the end of the turn.
  abbrev pub Gains : Turn F → List String → List String → Type 0
  Gains turn rest rest' = (rest' ≡ rest) ⊎ (rest' ≡ rest ++ ids turn.added)

  -- The outcome of a turn that takes the task `id`, with `rest` behind it.
  abbrev pub Served : Turn F → List String → String → List String → Outcome F → Type 0
  Served turn before id rest o =
      (rest' : List String) × Gains turn rest rest' × Settles before id rest' o

  pub run_task-Served :
      (turn : Turn F) (task : MinerTask F) (s : LoopState F) (rest : List String)
      → Busy s.tasks task.id rest
      → Returns (Served turn (ended s.notices) task.id rest) (run_task fl turn task s)
  unfolding run_task
  run_task-Served turn task s rest b = go turn.set_dest_fails
    where
      on_ready-Served :
          (r : Ready) (t : MinerTask F) (s' : LoopState F) (rest' : List String)
          → t.id ≡ task.id
          → Busy s'.tasks task.id rest'
          → Returns
              (Settles (ended s'.notices) task.id rest')
              (on_ready fl r t s' (some (waits s')))
      on_ready-Served r t s' rest' e' b' =
          let here = subst (λ i. Busy s'.tasks i rest') (sym e') b' in
          subst
            (λ i.
              Returns (Settles (ended s'.notices) i rest') (on_ready fl r t s' (some (waits s'))))
            e'
            (on_ready-Settles (Settles (ended s'.notices) t.id rest') r t s' rest' (some (waits s'))
              here (λ o h. h) (refl, here))

      after : LoopState F
      after = record s { tasks = during fl turn task s.tasks }

      go :
          (fails : Bool)
          → Returns (Served turn (ended s.notices) task.id rest) (
              if fails
              then some (exits (end_task fl task conn_dest s))
              else on_ready fl turn.second
                  (on_submits fl turn.diffs task)
                  after
                  (some (waits after)))
      go true = (rest, inl refl, (ended-end_task task conn_dest s, b))
      go false =
          Returns-map _ _
            (on_ready fl turn.second (on_submits fl turn.diffs task) after (some (waits after)))
            (on_ready-Served turn.second (on_submits fl turn.diffs task) after
              (rest ++ ids turn.added) (id-on_submits turn.diffs task)
              (during-Busy turn task s.tasks rest b))
            (λ o h. (rest ++ ids turn.added, inr refl, h))
