-- ===== src/Seller/Kept.antt =====
-- What the adjustments of a seller's contract (contract_seller_v2.go) leave as it was: its hashrate,
-- its debt and the job that it counts.
use proxy_router.Prelude.{
  ◌≡◌, refl, ◌∙◌, Bool, true, false, String, List, [], ◌∷◌, arith, if◌then◌else◌, string_eq, inl,
  inr, Option-cases,
}
use proxy_router.Prelude.Int.{ℤ, pos}
use proxy_router.Prelude.Assoc.{lookup}
use proxy_router.Floats.{Float64}
use proxy_router.Hashrate.Units.{ghs_to_job_submitted_v2, job_submitted_to_ghs_v2}
use proxy_router.Allocator.Miners.{MinerItem, Sort}
use proxy_router.Seller.{
  Contract, removed_of, drop_full, remove_full_miner, remove_tasks_of, with_proxies, remove_loop,
  remove_full_miners, add_full_miners, add_partial_miners, get_full_miners_sorted, add_full_ids,
  add_partial_ids,
}
use proxy_router.Seller.Cycle.{
  Adjusting, remove_step, full_step, partial_step, note_starving, adjust_hashrate, adjust_target,
}

-- What the debt depends on is the same in both contracts.
pub record Same {F : Type 0} (p q : Contract F) : Type 0 where
  pub same_hashrate : q.hashrate_ghs ≡ p.hashrate_ghs
  pub same_debt : q.stats.global_under_delivery_ghs ≡ p.stats.global_under_delivery_ghs
  pub same_full : q.stats.job_full_miners ≡ p.stats.job_full_miners
  pub same_partial : q.stats.job_partial_miners ≡ p.stats.job_partial_miners

module _ {F : Type 0} where
  Same-refl : (p : Contract F) → Same p p
  Same-refl p = record {
    same_hashrate = refl;
    same_debt = refl;
    same_full = refl;
    same_partial = refl;
  }

  Same-trans : (p q r : Contract F) → Same p q → Same q r → Same p r
  Same-trans p q r a b = record {
    same_hashrate = b.same_hashrate ∙ a.same_hashrate;
    same_debt = b.same_debt ∙ a.same_debt;
    same_full = b.same_full ∙ a.same_full;
    same_partial = b.same_partial ∙ a.same_partial;
  }

  remove_tasks_of-Same : (id : String) (p : Contract F) → Same p (remove_tasks_of id p)
  unfolding remove_tasks_of with_proxies
  remove_tasks_of-Same id p = elim (Option-cases (lookup id p.proxies)) [
    | inl e ↦ rw (e, remove_tasks_of) (Same-refl p)
    | inr (m, e) ↦
        rw (e, remove_tasks_of)
          (record { same_hashrate = refl; same_debt = refl; same_full = refl; same_partial = refl })
  ]

  drop_full-Same : (id : String) (p : Contract F) → Same p (drop_full id p)
  unfolding drop_full remove_full_miner
  drop_full-Same id p = record {
    same_hashrate = refl;
    same_debt = refl;
    same_full = refl;
    same_partial = refl;
  }

module _ (fl : Float64) where
  open fl use {F, of_int, add, sub, abs, lt, to_int64, to_uint64}

  -- A choice between two contracts that are alike.
  if-Same :
      (b : Bool) (p : Contract F) (x y : Adjusting fl)
      → Same p x.0
      → Same p y.0
      → Same p (if b then x else y).0
  if-Same true p x y s t = s
  if-Same false p x y s t = t

  pub sorted-Same :
      (sort : Sort (MinerItem F)) (p : Contract F) → Same p (get_full_miners_sorted fl sort p).0
  unfolding get_full_miners_sorted
  sorted-Same sort p = record {
    same_hashrate = ground arith;
    same_debt = ground arith;
    same_full = ground arith;
    same_partial = ground arith;
  }

  remove_loop-Same :
      (hr : F) (items : List (MinerItem F)) (removed : F) (p : Contract F)
      → Same p (remove_loop fl hr items removed p).0
  unfolding remove_loop
  remove_loop-Same hr [] removed p = Same-refl p
  remove_loop-Same hr (item ∷ items) removed p =
      let removed' : F = removed_of fl (lookup item.id p.proxies) removed in
      let p' : Contract F = drop_full item.id (remove_tasks_of item.id p) in
      let s : Same p p' =
        Same-trans p (remove_tasks_of item.id p) p' (remove_tasks_of-Same item.id p)
          (drop_full-Same item.id (remove_tasks_of item.id p)) in
      if-Same (lt (sub hr removed') (of_int (pos 0))) p (p', removed') _ s
        (Same-trans p p' _ s (remove_loop-Same hr items removed' p'))

  remove_full_miners-Same :
      (sort : Sort (MinerItem F)) (hr : F) (p : Contract F)
      → Same p (remove_full_miners fl sort hr p).0
  unfolding remove_full_miners
  remove_full_miners-Same sort hr p =
      let q = get_full_miners_sorted fl sort p in
      Same-trans p q.0 _ (sorted-Same sort p) (remove_loop-Same hr q.1 (of_int (pos 0)) q.0)

  remove_step-Same :
      (sort : Sort (MinerItem F)) (a : Adjusting fl) → Same a.0 (remove_step fl sort a).0
  unfolding remove_step
  remove_step-Same sort (p, hr) =
      let q = remove_full_miners fl sort hr p in
      if-Same (lt hr (sub (of_int (pos 0)) (of_int (pos 1000)))) p (q.0, add hr q.1) (p, hr)
        (remove_full_miners-Same sort hr p) (Same-refl p)

  full_step-Same :
      (now : ℤ) (sort : Sort (MinerItem F)) (a : Adjusting fl)
      → Same a.0 (full_step fl now sort a).0
  unfolding full_step add_full_miners add_full_ids
  full_step-Same now sort (p, hr) =
      let q = add_full_miners fl now sort hr p in
      if-Same (lt (of_int (pos 1000)) hr) p (q.0, sub hr q.1) (p, hr)
        (record { same_hashrate = refl; same_debt = refl; same_full = refl; same_partial = refl })
        (Same-refl p)

  partial_step-Same :
      (now : ℤ) (sort : Sort (MinerItem F)) (remaining : ℤ) (a : Adjusting fl)
      → Same a.0 (partial_step fl now sort remaining a).0
  unfolding partial_step add_partial_miners add_partial_ids
  partial_step-Same now sort remaining (p, hr) =
      let q =
        add_partial_miners fl now sort (ghs_to_job_submitted_v2 fl hr remaining) remaining p in
      if-Same (lt (of_int (pos 100)) hr) p (q.0, sub hr (job_submitted_to_ghs_v2 fl q.1 remaining))
        (p, hr)
        (record { same_hashrate = refl; same_debt = refl; same_full = refl; same_partial = refl })
        (Same-refl p)

  adjust_hashrate-Same :
      (now : ℤ) (sort : Sort (MinerItem F)) (remaining : ℤ) (hr : F) (p : Contract F)
      → Same p (adjust_hashrate fl now sort remaining hr p).0
  unfolding adjust_hashrate note_starving
  adjust_hashrate-Same now sort remaining hr p =
      let a = remove_step fl sort (p, hr) in
      let b = full_step fl now sort a in
      let c = partial_step fl now sort remaining b in
      let s : Same p c.0 = Same-trans p a.0 c.0 (remove_step-Same sort (p, hr)) (
        Same-trans a.0 b.0 c.0 (full_step-Same now sort a)
          (partial_step-Same now sort remaining b)) in
      if-Same (lt (of_int (pos 100)) (abs hr)) p (note_starving fl c, sub hr c.1)
        (record p { starving_ghs = 0 }, of_int (pos 0))
        (record {
          same_hashrate = s.same_hashrate;
          same_debt = s.same_debt;
          same_full = s.same_full;
          same_partial = s.same_partial;
        })
        (record { same_hashrate = refl; same_debt = refl; same_full = refl; same_partial = refl })

  pub adjust_target-Same :
      (now : ℤ) (sort : Sort (MinerItem F)) (remaining : ℤ) (p : Contract F)
      → Same p (adjust_target fl now sort remaining p)
  unfolding adjust_target
  adjust_target-Same now sort remaining p =
      let s = adjust_hashrate-Same now sort remaining p.stats.delivery_target_ghs p in
      record {
        same_hashrate = s.same_hashrate;
        same_debt = s.same_debt;
        same_full = s.same_full;
        same_partial = s.same_partial;
      }
