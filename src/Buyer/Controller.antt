-- ===== src/Buyer/Controller.antt =====
-- internal/resources/hashrate/contract/controller_buyer.go and controller_futures_buyer.go: what a
-- buyer's controller does on the events of the contract and when the watch over it ends. The goroutine
-- of the watch ends with the error that `run` returns, which is an argument. What the chain answers is
-- an argument. Closing a closed channel panics, which is `none`.
pub mod Closing
pub mod Expiry
use proxy_router.Prelude.{
  ℕ, Bool, true, false, not, ◌&&◌, List, [], ◌∷◌, ◌++◌, Option, none, some, if◌then◌else◌,
}
use proxy_router.Prelude.Options.{◌>>=◌}
use proxy_router.Terms.{
  BaseTerms, BlockchainState, available, running, blockchain_state, reset_start_time,
}
use proxy_router.Buyer.{
  BuyerError, context_canceled, share_timeout, underdelivery, contract_finished, contract_dest,
  ContractState, contract_pending, contract_running,
}

pub data CloseReason : Type 0 where
  unspecified destination_unavailable share_timeout_reason underdelivery_reason : CloseReason

-- What the controller sends to the chain, in order.
pub data Action : Type 0 where
  early_close : CloseReason → Action
  close_delivery : Bool → Action
  claim_validator_reward : Action

pub record Watch (F E : Type 0) : Type 0 where
  pub terms : BaseTerms F
  pub state : ContractState
  pub started_closed : Bool
  -- `cancel` and `doneCh` of a start
  pub has_cancel : Bool
  pub done_closed : Bool
  pub err : Option (BuyerError E)
  pub is_validator : Bool
  pub auto_claim_reward : Bool
  pub actions : List Action

-- The events of the contract; a purchase with the terms that the chain has, if it answers.
pub data Event (F : Type 0) : Type 0 where
  contract_purchased : Option (BaseTerms F) → Event F
  closed_early destination_updated purchase_info_updated : Event F

-- What `select` finds in a round of the loop: `done_ready` is taken only if the watch is done, at a
-- time, with what the chain answers to a transaction.
pub data Input (F E : Type 0) : Type 0 where
  context_done subscription_error : Input F E
  on_event : Event F → Option (BuyerError E) → Input F E
  done_ready : ℕ → Bool → Input F E
  -- the goroutine ends by itself
  watch_ends : Option (BuyerError E) → Input F E

-- The same for the futures buyer, where the delivery time starts the watch.
pub data FuturesInput (E : Type 0) : Type 0 where
  delivery_reached futures_context_done : FuturesInput E
  futures_done_ready : ℕ → Bool → FuturesInput E
  futures_watch_ends : Option (BuyerError E) → FuturesInput E

abbrev pub is_pending : ContractState → Bool
is_pending contract_pending = true
is_pending contract_running = false

abbrev pub is_available : BlockchainState → Bool
is_available available = true
is_available running = false

module _ {E : Type 0} where
  unfoldable pub reason_of : BuyerError E → CloseReason
  reason_of (contract_dest e) = destination_unavailable
  reason_of share_timeout = share_timeout_reason
  reason_of underdelivery = underdelivery_reason
  reason_of context_canceled = unspecified
  reason_of contract_finished = unspecified

  unfoldable pub blames_seller : BuyerError E → Bool
  blames_seller (contract_dest e) = false
  blames_seller _ = true

  -- `errors.Is(err, ErrContractClosed)`, of the error that `Err` makes of a cancelled context.
  unfoldable pub is_contract_closed : BuyerError E → Bool
  is_contract_closed context_canceled = true
  is_contract_closed _ = false

module _ {F E : Type 0} where
  unfoldable pub start_fulfilling : Watch F E → Option (Watch F E)
  start_fulfilling w =
      if is_pending w.state
      then (if w.started_closed
          then none
          else some (record w {
            state = contract_running;
            started_closed = true;
            has_cancel = true;
            done_closed = false;
          }))
      else some w

  -- The goroutine: `p.err = p.run(ctx)`, `close(p.doneCh)`, and the state.
  unfoldable pub fulfilling_ends : Option (BuyerError E) → Watch F E → Watch F E
  fulfilling_ends e w = record w { err = e; done_closed = true; state = contract_pending }

  -- It cancels and waits until the goroutine has ended; `e` is what `run` returns then.
  unfoldable pub stop_fulfilling : Option (BuyerError E) → Watch F E → Watch F E
  unfolding fulfilling_ends
  stop_fulfilling e w = if w.has_cancel && not w.done_closed then fulfilling_ends e w else w

  unfoldable pub handle_contract_purchased : Option (BaseTerms F) → Watch F E → Watch F E
  handle_contract_purchased none w = w
  handle_contract_purchased (some terms) w = record w { terms = terms }

  unfoldable pub handle_closed_early : Option (BuyerError E) → Watch F E → Watch F E
  unfolding stop_fulfilling
  handle_closed_early e w =
      let w' = record w { terms = reset_start_time w.terms } in
      if is_pending w.state then w' else stop_fulfilling e w'

  unfoldable pub controller : Event F → Option (BuyerError E) → Watch F E → Watch F E
  unfolding handle_contract_purchased handle_closed_early
  controller (contract_purchased terms) e w = handle_contract_purchased terms w
  controller closed_early e w = handle_closed_early e w
  controller destination_updated e w = w
  controller purchase_info_updated e w = w

  abbrev pub send : Action → Watch F E → Watch F E
  send a w = record w { actions = w.actions ++ a ∷ [] }

  -- The contract is closed already, or its time is over.
  unfoldable pub is_over : ℕ → BuyerError E → Watch F E → Bool
  unfolding is_contract_closed
  is_over now e w =
      if is_contract_closed e then true else is_available (blockchain_state now w.terms)

  -- The watch has ended: the state, and whether `Run` returns. Where a transaction fails the loop
  -- goes on, and finds the watch done again.
  unfoldable pub on_done : ℕ → Bool → Option (BuyerError E) → Watch F E → Watch F E × Bool
  unfolding is_over reason_of
  on_done now ok none w =
      (if w.is_validator && w.auto_claim_reward then send claim_validator_reward w else w, true)
  on_done now ok (some e) w =
      if is_over now e w then (w, true) else (send (early_close (reason_of e)) w, ok)

  -- The same in controller_futures_buyer.go.
  unfoldable pub on_futures_done : ℕ → Bool → Option (BuyerError E) → Watch F E → Watch F E × Bool
  unfolding is_over blames_seller
  on_futures_done now ok none w = (w, true)
  on_futures_done now ok (some e) w =
      if is_over now e w then (w, true) else (send (close_delivery (blames_seller e)) w, ok)

  unfoldable pub watch_ended : Option (BuyerError E) → Watch F E → Watch F E
  unfolding fulfilling_ends
  watch_ended e w = if is_pending w.state then w else fulfilling_ends e w

  abbrev pub if_done : Bool → Watch F E × Bool → Watch F E → Watch F E × Bool
  if_done true r w = r
  if_done false r w = (w, false)

  unfoldable pub step : Input F E → Watch F E → Watch F E × Bool
  unfolding controller on_done watch_ended
  step context_done w = (w, true)
  step subscription_error w = (w, true)
  step (on_event ev e) w = (controller ev e w, false)
  step (done_ready now ok) w = if_done w.done_closed (on_done now ok w.err w) w
  step (watch_ends e) w = (watch_ended e w, false)

  unfoldable pub futures_step : FuturesInput E → Watch F E → Option (Watch F E × Bool)
  unfolding start_fulfilling on_futures_done watch_ended
  futures_step delivery_reached w = do w' ← start_fulfilling w; some (w', false)
  futures_step futures_context_done w = some (w, true)
  futures_step (futures_done_ready now ok) w =
      some (if_done w.done_closed (on_futures_done now ok w.err w) w)
  futures_step (futures_watch_ends e) w = some (watch_ended e w, false)

  abbrev pub unless_returned : Watch F E × Bool → Watch F E × Bool → Watch F E × Bool
  unless_returned (w, true) rest = (w, true)
  unless_returned (w, false) rest = rest

  -- The loop of `Run` after StartFulfilling, and whether it has returned.
  unfoldable pub run_inputs : List (Input F E) → Watch F E → Watch F E × Bool
  run_inputs [] w = (w, false)
  run_inputs (i ∷ is) w = let r = step i w in unless_returned r (run_inputs is r.0)

  abbrev pub unless_futures_returned :
      Watch F E × Bool → Option (Watch F E × Bool) → Option (Watch F E × Bool)
  unless_futures_returned (w, true) rest = some (w, true)
  unless_futures_returned (w, false) rest = rest

  unfoldable pub run_futures : List (FuturesInput E) → Watch F E → Option (Watch F E × Bool)
  run_futures [] w = some (w, false)
  run_futures (i ∷ is) w = do r ← futures_step i w; unless_futures_returned r (run_futures is r.0)
