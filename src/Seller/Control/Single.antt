-- ===== src/Seller/Control/Single.antt =====
-- No two fulfilments at once (controller_seller.go).
use proxy_router.Prelude.{
  ◌≡◌, Bool, true, false, String, Option, none, some, ◌⊎◌, inl, inr, arith, if◌then◌else◌, ◌=?◌,
  string_eq, Bool-cases,
}
use proxy_router.Prelude.Options.{Returns, Returns-bind}
use proxy_router.Seller.Control.{
  Life, Fetched, Event, contract_purchased, closed_early, destination_updated,
  purchase_info_updated, controller, fetch_failed, fetched, reset, start_fulfilling,
  stop_fulfilling, run_returns, run_ends, set_terms, load_terms, stop_and_wait, start_if,
  handle_contract_purchased, handle_closed_early, with_new_dest, handle_destination_updated,
  handle_purchase_info_updated,
}

module _ {T E : Type 0} where
  -- The contract runs with one goroutine that nobody has stopped, or with none.
  pub record Sound (s : Life T E) : Type 0 where
    pub counted : s.workers ≡ (if s.is_running then 1 else 0)
    pub stoppable : (s.is_running ≡ false) ⊎ ((s.stop_closed ≡ false) × (s.done_closed ≡ false))

module _ {T E : Type 0} (new_dest : T → Option String) where
  -- The events that the controller does not panic on: when the destination has changed, the chain
  -- answers, and terms that decrypt have a destination.
  pub data Handled : Event T E → Type 0 where
    on_purchase : (f : Fetched T E) → Handled (contract_purchased f)
    on_close : (f : Fetched T E) → Handled (closed_early f)
    on_undecryptable : (terms : T) (e : E) → Handled (destination_updated (fetched terms (some e)))
    on_destination :
        (terms : T) (d : String)
        → new_dest terms ≡ some d
        → Handled (destination_updated (fetched terms none))
    on_info : (f : Fetched T E) → Handled (purchase_info_updated f)

module _ {T E : Type 0} (should_be_running : T → Bool) (current_dest : T → String)
    (new_dest : T → Option String) (outcome : Option E) where
  stop_and_wait-Sound :
      (s : Life T E)
      → Sound s
      → Returns
          (λ s'. Sound s' × (s'.is_running ≡ false))
          (stop_and_wait should_be_running current_dest new_dest outcome true s)
  unfolding stop_and_wait stop_fulfilling run_returns run_ends
  stop_and_wait-Sound s k = ground arith

  set_terms-Sound : (terms : T) (s : Life T E) → Sound s → Sound (set_terms terms s)
  unfolding set_terms
  set_terms-Sound terms s k = ground arith

  load_terms-Sound :
      (f : Fetched T E) (s : Life T E)
      → Sound s
      → Sound (load_terms should_be_running current_dest new_dest outcome f s).0
  unfolding load_terms
  load_terms-Sound (fetch_failed e) s k = k
  load_terms-Sound (fetched terms err) s k = set_terms-Sound terms s k

  start_fulfilling-Sound :
      (s : Life T E) → s.is_running ≡ false → Sound s → Sound (start_fulfilling s)
  unfolding start_fulfilling reset
  start_fulfilling-Sound s r k = ground (arith, r)

  purchased-Sound :
      (f : Fetched T E) (s : Life T E)
      → Sound s
      → Sound (handle_contract_purchased should_be_running current_dest new_dest outcome f s).0
  unfolding handle_contract_purchased load_terms set_terms start_if start_fulfilling reset
  purchased-Sound (fetch_failed e) s k = ground arith
  purchased-Sound (fetched terms none) s k = ground arith
  purchased-Sound (fetched terms (some e)) s k = ground arith

  restart-Sound :
      (terms : T) (s : Life T E)
      → Sound s
      → s.is_running ≡ false
      → Sound (start_fulfilling (set_terms terms s))
  unfolding set_terms
  restart-Sound terms s k r =
      start_fulfilling-Sound (set_terms terms s) (ground (arith, r)) (set_terms-Sound terms s k)

  closed_early-Sound :
      (f : Fetched T E) (s : Life T E)
      → Sound s
      → Returns
          (λ r. Sound r.0)
          (handle_closed_early should_be_running current_dest new_dest outcome true f s)
  unfolding handle_closed_early
  closed_early-Sound f s k =
      Returns-bind (λ s'. Sound s' × (s'.is_running ≡ false)) (λ r. Sound r.0)
        (stop_and_wait should_be_running current_dest new_dest outcome true s) _
        (stop_and_wait-Sound s k) (λ s' q. load_terms-Sound f s' q.0)

  undecryptable-Sound :
      (terms : T) (e : E) (s : Life T E)
      → Sound s
      → Returns
          (λ r. Sound r.0)
          (handle_destination_updated should_be_running current_dest new_dest outcome true
            (fetched terms (some e))
            s)
  unfolding handle_destination_updated
  undecryptable-Sound terms e s k =
      Returns-bind (λ s'. Sound s' × (s'.is_running ≡ false)) (λ r. Sound r.0)
        (stop_and_wait should_be_running current_dest new_dest outcome true s) _
        (stop_and_wait-Sound s k) (λ s' q. set_terms-Sound terms s' q.0)

  with_new_dest-Sound :
      (terms : T) (d : String) (s : Life T E)
      → Sound s
      → Returns
          (λ r. Sound r.0)
          (with_new_dest should_be_running current_dest new_dest outcome true terms (some d) s)
  unfolding with_new_dest
  with_new_dest-Sound terms d s k = elim (Bool-cases (current_dest s.terms =? d)) [
    | inl same ↦ ground (arith, same, k)
    | inr other ↦ rw other (
        Returns-bind (λ s'. Sound s' × (s'.is_running ≡ false)) (λ r. Sound r.0)
          (stop_and_wait should_be_running current_dest new_dest outcome true s) _
          (stop_and_wait-Sound s k) (λ s' q. restart-Sound terms s' q.0 q.1))
  ]

  -- A contract that is not fulfilled, or is fulfilled by one goroutine that nobody has stopped, is so
  -- again after each event that the controller handles without a panic, if a goroutine that it waits
  -- for has ended when it goes on. An event for which the chain does not answer after a change of the
  -- destination, or answers terms without a destination, is left out.
  pub controller-Sound :
      (ev : Event T E) (s : Life T E)
      → Handled new_dest ev
      → Sound s
      → Returns
          (λ r. Sound r.0)
          (controller should_be_running current_dest new_dest outcome true ev s)
  unfolding controller handle_destination_updated handle_purchase_info_updated
  controller-Sound ev s (on_purchase f) k = purchased-Sound f s k
  controller-Sound ev s (on_close f) k = closed_early-Sound f s k
  controller-Sound ev s (on_undecryptable terms e) k = undecryptable-Sound terms e s k
  controller-Sound ev s (on_destination terms d n) k = rw n (with_new_dest-Sound terms d s k)
  controller-Sound ev s (on_info f) k = load_terms-Sound f s k
