-- ===== src/Buyer/Controller/Closing.antt =====
-- When a buyer's controller closes the contract on the chain, and when it does not
-- (controller_buyer.go).
use proxy_router.Prelude.{
  ℕ, suc, ◌≡◌, refl, Bool, true, false, List, [], ◌∷◌, ◌++◌, Option, none, some, arith, replicate,
  length, append_assoc, ◌∙◌,
}
use proxy_router.Prelude.Options.{◌>>=◌}
use proxy_router.Terms.{
  BaseTerms, blockchain_state, running, is_running, reset_start_time, end_time,
}
use proxy_router.Buyer.{BuyerError, contract_pending, contract_running}
use proxy_router.Buyer.Controller.{
  Watch, Input, on_event, done_ready, closed_early, early_close, reason_of, is_over,
  is_contract_closed, start_fulfilling, fulfilling_ends, stop_fulfilling, handle_closed_early,
  controller, send, on_done, step, run_inputs,
}

-- The contract runs at every one of the times.
abbrev pub RunsAt : {F : Type 0} → BaseTerms F → List ℕ → Type 0
RunsAt terms [] = Unit {0}
RunsAt terms (now ∷ nows) = (blockchain_state now terms ≡ running) × RunsAt terms nows

module _ {F E : Type 0} where
  -- A watch that goes on.
  pub record Watching (w : Watch F E) : Type 0 where
    pub is_on : w.state ≡ contract_running
    pub can_stop : w.has_cancel ≡ true
    pub not_done : w.done_closed ≡ false

  -- When a contract that is watched is closed early, the watch is stopped, and whatever error it ends
  -- with, the controller then returns, without a transaction.
  pub closed_early_quiet :
      (e : BuyerError E) (now : ℕ) (ok : Bool) (w : Watch F E)
      → Watching w
      → ((run_inputs (on_event closed_early (some e) ∷ done_ready now ok ∷ []) w).0.actions
          ≡ w.actions)
        × ((run_inputs (on_event closed_early (some e) ∷ done_ready now ok ∷ []) w).1 ≡ true)
  unfolding run_inputs step controller handle_closed_early stop_fulfilling on_done is_over
      blockchain_state is_running end_time reset_start_time
  closed_early_quiet e now ok w k = ground arith

  -- A watch that is started again after it has ended panics.
  start_again :
      (e : Option (BuyerError E)) (w : Watch F E)
      → w.state ≡ contract_pending
      → (start_fulfilling w >>= (λ v. start_fulfilling (fulfilling_ends e v))) ≡ none
  unfolding start_fulfilling fulfilling_ends
  start_again e w k = ground arith

  -- Rounds in which the chain refuses the transaction.
  abbrev pub refused : List ℕ → List (Input F E)
  refused [] = []
  refused (now ∷ nows) = done_ready now false ∷ refused nows

  -- A done watch whose error closes the contract.
  pub record ToClose (e : BuyerError E) (w : Watch F E) : Type 0 where
    pub done : w.done_closed ≡ true
    pub error : w.err ≡ some e
    pub open_there : is_contract_closed e ≡ false

  done-Running :
      (e : BuyerError E) (now : ℕ) (ok : Bool) (w : Watch F E)
      → ToClose e w
      → blockchain_state now w.terms ≡ running
      → step (done_ready now ok) w ≡ (send (early_close (reason_of e)) w, ok)
  unfolding step on_done is_over
  done-Running e now ok w k r = rw (k.done, k.error, k.open_there, r) refl

  -- A watch that ended with an error is closed on the chain with the reason of that error. While the
  -- chain refuses the transaction and the contract still runs the controller sends it again, once a
  -- round, and when the chain takes it the controller returns.
  pub early_close_retries :
      (e : BuyerError E) (nows : List ℕ) (last : ℕ) (w : Watch F E)
      → ToClose e w
      → RunsAt w.terms nows
      → blockchain_state last w.terms ≡ running
      → ((run_inputs (refused nows ++ done_ready last true ∷ []) w).0.actions
          ≡ w.actions ++ replicate (suc (length nows)) (early_close (reason_of e)))
        × ((run_inputs (refused nows ++ done_ready last true ∷ []) w).1 ≡ true)
  unfolding run_inputs
  early_close_retries e [] last w k rs r = rw (done-Running e last true w k r) (refl, refl)
  early_close_retries e (now ∷ nows) last w k rs r =
      let ih =
        early_close_retries e nows last (send (early_close (reason_of e)) w)
          (record { done = k.done; error = k.error; open_there = k.open_there }) rs.1 r in
      rw (done-Running e now false w k rs.0) (ih.0 ∙ append_assoc w.actions _ _, ih.1)
