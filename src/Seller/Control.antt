-- ===== src/Seller/Control.antt =====
-- How a seller's contract starts and stops (StartFulfilling, StopFulfilling, Reset and SetTerms of
-- contract_seller_v2.go), and what controller_seller.go does on the contract's events. A channel is
-- whether it is closed; closing it twice panics, which is `none`. The goroutine of StartFulfilling
-- ends in two steps, `run_returns` and `run_ends`, which the controller may come between. What the
-- chain answers is an argument. The stats, which Reset clears, are in the parent module and left out
-- here.
pub mod Single
pub mod Race
use proxy_router.Prelude.{
  ℕ, suc, ◌+◌, ◌-◌, Bool, true, false, not, String, Option, none, some, if◌then◌else◌, ◌=?◌,
  string_eq,
}
use proxy_router.Prelude.Options.{◌>>=◌}

pub record Life (T E : Type 0) : Type 0 where
  pub terms : T
  pub is_running : Bool
  pub start_closed : Bool
  pub stop_closed : Bool
  pub done_closed : Bool
  pub err : Option E
  -- the goroutines that have not ended
  pub workers : ℕ

-- What loading the terms gives: the terms come with an error where they cannot be decrypted.
pub data Fetched (T E : Type 0) : Type 0 where
  fetch_failed : E → Fetched T E
  fetched : T → Option E → Fetched T E

module _ {T E : Type 0} where
  unfoldable pub reset : Life T E → Life T E
  reset s = record s {
    is_running = false;
    start_closed = false;
    stop_closed = false;
    done_closed = false;
    err = none;
  }

  unfoldable pub start_fulfilling : Life T E → Life T E
  unfolding reset
  start_fulfilling s = record (reset s) {
    is_running = true;
    start_closed = true;
    workers = s.workers + 1;
  }

  unfoldable pub stop_fulfilling : Life T E → Option (Life T E)
  stop_fulfilling s =
      if not s.is_running
      then some s
      else if s.stop_closed
      then none
      else some (record s { stop_closed = true })

  -- `p.err.Store(err)` and `close(p.doneCh)`.
  unfoldable pub run_returns : Option E → Life T E → Option (Life T E)
  run_returns err s =
      if s.done_closed then none else some (record s { err = err; done_closed = true })

  -- `p.isRunning = false`, and the goroutine is gone.
  unfoldable pub run_ends : Life T E → Life T E
  run_ends s = record s { is_running = false; workers = s.workers - 1 }

  unfoldable pub set_terms : T → Life T E → Life T E
  set_terms terms s = if s.is_running then s else record s { terms = terms }

  -- The case of `Run` in which the contract is done.
  unfoldable pub on_done : Life T E → Life T E
  unfolding reset
  on_done s = reset s

module _ {T E : Type 0} (should_be_running : T → Bool) (current_dest : T → String)
    (new_dest : T → Option String) (outcome : Option E) where
  -- The state after `LoadTermsFromBlockchain`, and its error.
  unfoldable pub load_terms : Fetched T E → Life T E → Life T E × Option E
  load_terms (fetch_failed e) s = (s, some e)
  load_terms (fetched terms err) s = (set_terms terms s, err)

  -- `if c.IsRunning() { StopFulfilling(); <-Done() }`: the goroutine returns what `run` gives it
  -- (`outcome`), if it has not before, and has ended or not (`ends`) when the controller goes on.
  unfoldable pub stop_and_wait : Bool → Life T E → Option (Life T E)
  stop_and_wait ends s = if not s.is_running then some s else do
    s1 ← stop_fulfilling s
    s2 ← if s1.done_closed then some s1 else run_returns outcome s1
    some (if ends then run_ends s2 else s2)

  unfoldable pub start_if : Life T E × Option E → Life T E × Option E
  start_if (s, some e) = (s, some e)
  start_if (s, none) =
      if should_be_running s.terms then (start_fulfilling (reset s), none) else (s, none)

  unfoldable pub handle_contract_purchased : Fetched T E → Life T E → Life T E × Option E
  unfolding start_if load_terms
  handle_contract_purchased f s = if s.is_running then (s, none) else start_if (load_terms f s)

  unfoldable pub handle_closed_early : Bool → Fetched T E → Life T E → Option (Life T E × Option E)
  handle_closed_early ends f s = do s' ← stop_and_wait ends s; some (load_terms f s')

  -- `SetTerms` of the nil terms that come with an error of the chain: while the contract is not
  -- running it takes them and then reads their hashrate.
  abbrev pub set_nil_terms : E → Life T E → Option (Life T E × Option E)
  set_nil_terms e s = if s.is_running then some (s, some e) else none

  -- The new terms are in force at once, and fulfilment starts anew.
  abbrev pub restart : T → Life T E → Life T E × Option E
  restart terms s = (start_fulfilling (set_terms terms s), none)

  -- `terms.Dest().String()` panics where there is no destination.
  with_new_dest : Bool → T → Option String → Life T E → Option (Life T E × Option E)
  with_new_dest ends terms none s = none
  with_new_dest ends terms (some d) s =
      if current_dest s.terms =? d
      then some (s, none)
      else (do s' ← stop_and_wait ends s; some (restart terms s'))

  unfoldable pub handle_destination_updated :
      Bool → Fetched T E → Life T E → Option (Life T E × Option E)
  unfolding with_new_dest
  handle_destination_updated ends (fetch_failed e) s = do
    s' ← stop_and_wait ends s
    set_nil_terms e s'
  handle_destination_updated ends (fetched terms (some e)) s = do
    s' ← stop_and_wait ends s
    some (set_terms terms s', some e)
  handle_destination_updated ends (fetched terms none) s =
      with_new_dest ends terms (new_dest terms) s

  unfoldable pub handle_purchase_info_updated : Fetched T E → Life T E → Life T E × Option E
  unfolding load_terms
  handle_purchase_info_updated f s = load_terms f s

-- The contract's events, with what the chain answers when it is asked.
pub data Event (T E : Type 0) : Type 0 where
  contract_purchased : Fetched T E → Event T E
  closed_early : Fetched T E → Event T E
  destination_updated : Fetched T E → Event T E
  purchase_info_updated : Fetched T E → Event T E

module _ {T E : Type 0} (should_be_running : T → Bool) (current_dest : T → String)
    (new_dest : T → Option String) (outcome : Option E) where
  unfoldable pub controller : Bool → Event T E → Life T E → Option (Life T E × Option E)
  controller ends (contract_purchased f) s =
      some (handle_contract_purchased should_be_running current_dest new_dest outcome f s)
  controller ends (closed_early f) s =
      handle_closed_early should_be_running current_dest new_dest outcome ends f s
  controller ends (destination_updated f) s =
      handle_destination_updated should_be_running current_dest new_dest outcome ends f s
  controller ends (purchase_info_updated f) s =
      some (handle_purchase_info_updated should_be_running current_dest new_dest outcome f s)
