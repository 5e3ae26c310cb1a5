-- ===== src/Allocator/Scheduler/Loop/Work.antt =====
-- The callback `onSubmit` of scheduler.go: when a running task counts as done.
use proxy_router.Prelude.{◌≡◌, ◌↔◌, sym, ap, ◌∙◌, Bool, true, false, List, [], ◌∷◌, arith}
use proxy_router.Prelude.Int.{ℤ, pos, ◌+ℤ◌, ◌-ℤ◌, ◌≤ℤ◌, +ℤ_parts, -ℤ_parts, int_laws}
use proxy_router.Floats.{Float64}
use proxy_router.Allocator.TaskList.{MinerTask, cancel_task}
use proxy_router.Allocator.Scheduler.Loop.{on_submit, on_submits, is_negative_or_zero}

module _ (fl : Float64) where
  open fl use {F, to_int64}

  -- The job submitted, in whole units of difficulty.
  abbrev pub total : List F → ℤ
  total [] = pos 0
  total (d ∷ ds) = to_int64 d +ℤ total ds

  abbrev pub NonNegative : List F → Type 0
  NonNegative [] = Unit
  NonNegative (d ∷ ds) = (pos 0 ≤ℤ to_int64 d) × NonNegative ds

  on_submit-remaining :
      (d : F) (t : MinerTask F)
      → (on_submit fl d t).remaining_job_to_submit ≡ t.remaining_job_to_submit -ℤ to_int64 d
  unfolding on_submit cancel_task
  on_submit-remaining d t = ground arith

  on_submits-remaining :
      (ds : List F) (t : MinerTask F)
      → (on_submits fl ds t).remaining_job_to_submit ≡ t.remaining_job_to_submit -ℤ total ds
  unfolding on_submits
  on_submits-remaining [] t = omega int_laws
  on_submits-remaining (d ∷ ds) t =
      on_submits-remaining ds (on_submit fl d t)
      ∙ ap (λ x. x -ℤ total ds) (on_submit-remaining d t)
      ∙ regroup t.remaining_job_to_submit (to_int64 d) (total ds)
    where
      regroup : (a b c : ℤ) → a -ℤ b -ℤ c ≡ a -ℤ (b +ℤ c)
      regroup a b c = omega int_laws

  done_cancels :
      (ds : List F) (d : F) (t : MinerTask F)
      → is_negative_or_zero (on_submits fl (d ∷ ds) t).remaining_job_to_submit ≡ true
      → (on_submits fl (d ∷ ds) t).is_cancelled ≡ true
  unfolding on_submits on_submit cancel_task
  done_cancels [] d t h = ground arith
  done_cancels (e ∷ ds) d t h = done_cancels ds e (on_submit fl d t) h

  total-NonNegative : (ds : List F) → NonNegative ds → pos 0 ≤ℤ total ds
  total-NonNegative [] n = omega arith
  total-NonNegative (d ∷ ds) n =
      omega (arith, +ℤ_parts (to_int64 d) (total ds), total-NonNegative ds n.1)

  positive_before :
      (r s : ℤ) → pos 0 ≤ℤ s → is_negative_or_zero (r -ℤ s) ≡ false → is_negative_or_zero r ≡ false
  positive_before r s p h = ground (arith, -ℤ_parts r s)

  on_submit_open :
      (d : F) (t : MinerTask F)
      → t.is_cancelled ≡ false
      → is_negative_or_zero (on_submit fl d t).remaining_job_to_submit ≡ false
      → (on_submit fl d t).is_cancelled ≡ false
  unfolding on_submit cancel_task
  on_submit_open d t c h = ground arith

  open_keeps :
      (ds : List F) (t : MinerTask F)
      → NonNegative ds
      → t.is_cancelled ≡ false
      → is_negative_or_zero (on_submits fl ds t).remaining_job_to_submit ≡ false
      → (on_submits fl ds t).is_cancelled ≡ false
  unfolding on_submits
  open_keeps [] t n c h = c
  open_keeps (d ∷ ds) t n c h =
      let t' = on_submit fl d t in
      let r : is_negative_or_zero t'.remaining_job_to_submit ≡ false =
        positive_before t'.remaining_job_to_submit (total ds) (total-NonNegative ds n.1)
          (ap is_negative_or_zero (sym (on_submits-remaining ds t')) ∙ h) in
      open_keeps ds t' n.1 (on_submit_open d t c r) h

  -- Shares come off the job that remains, and a task that was not cancelled before is cancelled by
  -- them exactly if no job remains: if there is a share, and no share is negative.
  pub on_submits-cancelled :
      (d : F) (ds : List F) (t : MinerTask F)
      → NonNegative (d ∷ ds)
      → t.is_cancelled ≡ false
      → let t' = on_submits fl (d ∷ ds) t in
        (t'.remaining_job_to_submit ≡ t.remaining_job_to_submit -ℤ total (d ∷ ds))
        × ((t'.is_cancelled ≡ true) ↔ (t'.remaining_job_to_submit ≤ℤ pos 0))
  on_submits-cancelled d ds t n c =
      let t' = on_submits fl (d ∷ ds) t in
      (
        on_submits-remaining (d ∷ ds) t,
        (
          (λ e. sound t'.remaining_job_to_submit t'.is_cancelled (open_keeps (d ∷ ds) t n c) e),
          (λ e. done_cancels ds d t (ground (arith, e))),
        ),
      )
    where
      sound :
          (r : ℤ) (b : Bool) → (is_negative_or_zero r ≡ false → b ≡ false) → b ≡ true → r ≤ℤ pos 0
      sound r b k e = ground arith
