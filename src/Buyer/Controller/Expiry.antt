-- ===== src/Buyer/Controller/Expiry.antt =====
-- What a buyer's controller does when the time of the contract is over (contract_buyer.go and
-- controller_buyer.go).
use proxy_router.Prelude.{
  ℕ, ◌≡◌, refl, Bool, true, false, ◌&&◌, List, [], ◌∷◌, ◌++◌, Option, none, some, arith,
  if◌then◌else◌, sym, inl, inr, Bool-cases, append-nil,
}
use proxy_router.Prelude.Options.{Returns, Returns-map}
use proxy_router.Floats.{Float64}
use proxy_router.Terms.{end_time, is_after, is_running, blockchain_state}
use proxy_router.Hashrate.Counters.{Counter}
use proxy_router.Buyer.{
  Buyer, BuyerError, contract_running, contract_finished, is_past, is_validation_started,
}
use proxy_router.Buyer.Loop.{Round, run_rounds, at_round}
use proxy_router.Buyer.Loop.Ending.{Readable, late_round}
use proxy_router.Buyer.Controller.{
  Watch, Action, done_ready, watch_ends, claim_validator_reward, is_over, is_contract_closed,
  fulfilling_ends, on_done, watch_ended, step, run_inputs,
}

past-after : (t : Option ℕ) (now : ℕ) → is_past t now ≡ true → is_after t now ≡ false
past-after none now h = refl
past-after (some t) now h = ground arith

module _ {F E : Type 0} where
  -- The watch ends, and the controller finds that.
  abbrev pub ended_with : Option (BuyerError E) → ℕ → Bool → Watch F E → Watch F E × Bool
  ended_with e now ok w = run_inputs (watch_ends e ∷ done_ready now ok ∷ []) w

  abbrev pub claim_of : Watch F E → List Action
  claim_of w = if w.is_validator && w.auto_claim_reward then claim_validator_reward ∷ [] else []

  finished_quiet :
      (now : ℕ) (ok : Bool) (w : Watch F E)
      → w.state ≡ contract_running
      → is_past (end_time w.terms) now ≡ true
      → ((ended_with (some contract_finished) now ok w).0.actions ≡ w.actions)
        × ((ended_with (some contract_finished) now ok w).1 ≡ true)
  unfolding run_inputs step watch_ended fulfilling_ends on_done is_over is_contract_closed
      blockchain_state is_running
  finished_quiet now ok w s h = rw (s, past-after (end_time w.terms) now h) (refl, refl)

  ended_claims :
      (now : ℕ) (ok : Bool) (w : Watch F E)
      → w.state ≡ contract_running
      → (ended_with none now ok w).0.actions ≡ w.actions ++ claim_of w
  unfolding run_inputs step watch_ended fulfilling_ends on_done
  ended_claims now ok w s = elim (Bool-cases (w.is_validator && w.auto_claim_reward)) [
    | inl claims ↦ rw (s, claims) refl
    | inr none_claimed ↦ rw (s, none_claimed) (sym (append-nil w.actions))
  ]

module _ (fl : Float64) {C : Type 0} (ops : Counter fl.F C) (E : Type 0) where
  open fl use {F}

  -- The contract has run its time and the validation has begun. If the watch ends without an error,
  -- the controller claims the reward of the validator wherever it is to do so by itself. If instead a
  -- round of the watch begins after the end, the watch ends with an error, and the controller returns
  -- without a transaction: no reward is claimed.
  pub late_round_unclaimed :
      (r : Round F C E) (rs : List (Round F C E)) (p : Buyer F) (now : ℕ) (ok : Bool)
      (w : Watch F E)
      → Readable fl ops E r p.id p.hashrate_counter_name
      → is_past (end_time r.terms_then) r.checked_at ≡ true
      → is_validation_started r.checked_at (at_round fl ops r p) ≡ true
      → w.state ≡ contract_running
      → is_past (end_time w.terms) now ≡ true
      → ((ended_with none now ok w).0.actions ≡ w.actions ++ claim_of w)
        × Returns
            (λ d.
              Returns
                (λ e.
                  ((ended_with e now ok w).0.actions ≡ w.actions)
                  × ((ended_with e now ok w).1 ≡ true))
                d.1)
            (run_rounds fl ops (r ∷ rs) p)
  late_round_unclaimed r rs p now ok w k past started s h = (
    ended_claims now ok w s,
    Returns-map (λ d. d.1 ≡ some (some contract_finished)) _ _
        (late_round fl ops E r rs p k past started) (λ d e. rw e (finished_quiet now ok w s h)),
  )
