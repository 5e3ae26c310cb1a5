-- ===== src/Allocator/TaskList/Cancel.antt =====
-- Which tasks `Cancel` of tasklist.go removes. The loop steps past the task that moves up into a
-- removed task's place, so of two neighbours with the contract's ID the second stays.
use proxy_router.Prelude.{
  ℕ, zero, suc, ◌+◌, ◌≤◌, ◌<◌, ◌≡◌, refl, sym, ap, ◌∙◌, Bool, true, false, ◌&&◌, String, List, [],
  ◌∷◌, ◌++◌, none, some, ◌⊎◌, inl, inr, arith, if◌then◌else◌, length, length-append, get_elem?,
  remove_at, append_assoc, append-nil, Bool-cases, ◌=?◌, string_eq,
}
use proxy_router.Allocator.TaskList.{
  MinerTask, TaskList, cancel, cancel_loop, cancel_round, cancel_task,
}

module _ {Job : Type 0} where
  abbrev hit : String → MinerTask Job → Bool
  hit c t = t.id =? c

  -- The waiting tasks that are left: the one behind a removed task is kept unseen.
  abbrev pub skip : String → List (MinerTask Job) → List (MinerTask Job)
  skip c [] = []
  skip c (t ∷ []) = if t.id =? c then [] else t ∷ []
  skip c (t ∷ u ∷ ts) = if t.id =? c then u ∷ skip c ts else t ∷ skip c (u ∷ ts)

  -- The tasks of other contracts.
  abbrev pub without : String → List (MinerTask Job) → List (MinerTask Job)
  without c [] = []
  without c (t ∷ ts) = if t.id =? c then without c ts else t ∷ without c ts

  -- No two neighbours are both of the contract.
  abbrev pub Apart : String → List (MinerTask Job) → Type 0
  Apart c [] = Unit
  Apart c (t ∷ []) = Unit
  Apart c (t ∷ u ∷ ts) = (((t.id =? c) && (u.id =? c)) ≡ false) × Apart c (u ∷ ts)

  pub Apart-tail :
      (c : String) (t : MinerTask Job) (ts : List (MinerTask Job)) → Apart c (t ∷ ts) → Apart c ts
  Apart-tail c t [] a = tt
  Apart-tail c t (u ∷ ts) a = a.1

  pub skip-without :
      (c : String) (ts : List (MinerTask Job)) → Apart c ts → skip c ts ≡ without c ts
  skip-without c [] a = refl
  skip-without c (t ∷ []) a = refl
  skip-without c (t ∷ u ∷ ts) a =
      ground (arith, skip-without c ts (Apart-tail c u ts a.1), skip-without c (u ∷ ts) a.1)

  get_elem?-append :
      (pre : List (MinerTask Job)) (t : MinerTask Job) (ts : List (MinerTask Job))
      → get_elem? (pre ++ t ∷ ts) (length pre) ≡ some t
  get_elem?-append [] t ts = refl
  get_elem?-append (x ∷ pre) t ts = get_elem?-append pre t ts

  get_elem?_end : (pre : List (MinerTask Job)) → get_elem? pre (length pre) ≡ none
  get_elem?_end [] = refl
  get_elem?_end (x ∷ pre) = get_elem?_end pre

  get_elem?_past : (pre : List (MinerTask Job)) → get_elem? pre (suc (length pre)) ≡ none
  get_elem?_past [] = refl
  get_elem?_past (x ∷ pre) = get_elem?_past pre

  remove_at-append :
      (pre : List (MinerTask Job)) (t : MinerTask Job) (ts : List (MinerTask Job))
      → remove_at (length pre) (pre ++ t ∷ ts) ≡ pre ++ ts
  remove_at-append [] t ts = refl
  remove_at-append (x ∷ pre) t ts = ap (◌∷◌ x) (remove_at-append pre t ts)

  length-append_one :
      (pre : List (MinerTask Job)) (t : MinerTask Job) → length (pre ++ t ∷ []) ≡ length pre + 1
  length-append_one pre t = omega (arith, length-append pre (t ∷ []))

  -- The loop behind the front that is taken, or from the start when none is.
  abbrev Waiting : ℕ → TaskList Job → Type 0
  Waiting i p = (p.task_taken ≡ false) ⊎ (0 < i)

  round_miss :
      (c : String) (i : ℕ) (t : MinerTask Job) (p : TaskList Job)
      → (t.id =? c) ≡ false
      → cancel_round c i t p ≡ p
  unfolding cancel_round
  round_miss c i t p e = rw e

  round_hit :
      (c : String) (i : ℕ) (t : MinerTask Job) (p : TaskList Job)
      → (t.id =? c) ≡ true
      → Waiting i p
      → ((cancel_round c i t p).tasks ≡ remove_at i p.tasks)
        × ((cancel_round c i t p).task_taken ≡ p.task_taken)
  unfolding cancel_round
  round_hit c i t p e w = ground arith

  cancel_loop_step :
      (n : ℕ) (c : String) (i : ℕ) (p : TaskList Job) (t : MinerTask Job)
      → get_elem? p.tasks i ≡ some t
      → cancel_loop (suc n) c i p ≡ cancel_loop n c (i + 1) (cancel_round c i t p)
  unfolding cancel_loop
  cancel_loop_step n c i p t e = rw (e, cancel_loop)

  front_at :
      (i : ℕ) (p : TaskList Job) (pre : List (MinerTask Job)) (t : MinerTask Job)
      (ts : List (MinerTask Job))
      → p.tasks ≡ pre ++ t ∷ ts
      → length pre ≡ i
      → (get_elem? p.tasks i ≡ some t) × (remove_at i p.tasks ≡ pre ++ ts)
  front_at i p pre t ts e l =
      (rw (e, ← l) (get_elem?-append pre t ts), rw (e, ← l) (remove_at-append pre t ts))

  -- At or past the end the loop stops.
  cancel_loop_end :
      (n : ℕ) (c : String) (i : ℕ) (p : TaskList Job)
      → get_elem? p.tasks i ≡ none
      → cancel_loop n c i p ≡ p
  unfolding cancel_loop
  cancel_loop_end zero c i p e = refl
  cancel_loop_end (suc n) c i p e = rw (e, cancel_loop)

  cancel_loop-skip :
      (n : ℕ) (c : String) (i : ℕ) (p : TaskList Job) (pre rest : List (MinerTask Job))
      → p.tasks ≡ pre ++ rest
      → length pre ≡ i
      → Waiting i p
      → length rest ≤ n
      → (cancel_loop n c i p).tasks ≡ pre ++ skip c rest
  cancel_loop-skip n c i p pre [] e l w h =
      rw (cancel_loop_end n c i p (rw (e, append-nil pre, ← l) (get_elem?_end pre))) e
  cancel_loop-skip zero c i p pre (t ∷ ts) e l w h = absurd (omega arith)
  cancel_loop-skip (suc n) c i p pre (t ∷ []) e l w h =
      let at_front = front_at i p pre t [] e l in
      rw (cancel_loop_step n c i p t at_front.0) (elim (Bool-cases (t.id =? c)) [
        | inl e' ↦
            let r = round_hit c i t p e' w in
            let gone : (cancel_round c i t p).tasks ≡ pre = r.0 ∙ at_front.1 ∙ append-nil pre in
            rw
              (
                e',
                append-nil pre,
                cancel_loop_end n c (i + 1) (cancel_round c i t p)
                    (rw gone (ground (arith, get_elem?_past pre))),
              )
              gone
        | inr e' ↦
            rw (e', round_miss c i t p e')
              (cancel_loop-skip n c (i + 1) p (pre ++ t ∷ []) [] (e ∙ sym (append-nil _))
                  (omega (arith, length-append_one pre t)) (inr (omega arith)) (omega arith)
                ∙ append-nil (pre ++ t ∷ []))
      ])
  cancel_loop-skip (suc n) c i p pre (t ∷ u ∷ ts) e l w h =
      let at_front = front_at i p pre t (u ∷ ts) e l in
      rw (cancel_loop_step n c i p t at_front.0) (elim (Bool-cases (t.id =? c)) [
        | inl e' ↦
            let r = round_hit c i t p e' w in
            rw e' (
              cancel_loop-skip n c (i + 1) (cancel_round c i t p) (pre ++ u ∷ []) ts
                (r.0 ∙ at_front.1 ∙ sym (append_assoc pre (u ∷ []) ts))
                (omega (arith, length-append_one pre u)) (inr (omega arith)) (omega arith)
              ∙ append_assoc pre (u ∷ []) (skip c ts))
        | inr e' ↦
            rw (e', round_miss c i t p e')
              (cancel_loop-skip n c (i + 1) p (pre ++ t ∷ []) (u ∷ ts)
                  (e ∙ sym (append_assoc pre (t ∷ []) (u ∷ ts)))
                  (omega (arith, length-append_one pre t)) (inr (omega arith)) (omega arith)
                ∙ append_assoc pre (t ∷ []) (skip c (u ∷ ts)))
      ])

  -- With no task taken `Cancel` leaves what `skip` leaves.
  pub cancel-skip :
      (p : TaskList Job) (c : String) → p.task_taken ≡ false → (cancel p c).tasks ≡ skip c p.tasks
  unfolding cancel
  cancel-skip p c f =
      cancel_loop-skip (length p.tasks) c 0 p [] p.tasks refl refl (inl f) (omega arith)

  abbrev pub marked : String → MinerTask Job → MinerTask Job
  marked c t = if t.id =? c then (cancel_task t).1 else t

  round_front :
      (c : String) (p : TaskList Job) (t : MinerTask Job) (ts : List (MinerTask Job))
      → p.task_taken ≡ true
      → p.tasks ≡ t ∷ ts
      → (cancel_round c 0 t p).tasks ≡ marked c t ∷ ts
  unfolding cancel_round
  round_front c p t ts f e = ground arith

  -- With the front taken `Cancel` marks it, if it is the contract's, and leaves of the others what
  -- `skip` leaves.
  pub cancel-marked :
      (p : TaskList Job) (c : String) (t : MinerTask Job) (ts : List (MinerTask Job))
      → p.task_taken ≡ true
      → p.tasks ≡ t ∷ ts
      → (cancel p c).tasks ≡ marked c t ∷ skip c ts
  unfolding cancel
  cancel-marked p c t ts f e =
      let n : length p.tasks ≡ suc (length ts) = ap length e in
      rw (n, cancel_loop_step (length ts) c 0 p t (ap (λ xs. get_elem? xs 0) e))
        (cancel_loop-skip (length ts) c 1 (cancel_round c 0 t p) (marked c t ∷ []) ts
          (round_front c p t ts f e) refl (inr (omega arith)) (omega arith))

  pub cancel_none : (p : TaskList Job) (c : String) → p.tasks ≡ [] → (cancel p c).tasks ≡ []
  unfolding cancel cancel_loop
  cancel_none p c e = rw e
