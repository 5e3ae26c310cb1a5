-- ===== src/Seller/Control/Race.antt =====
-- What comes of it when the controller goes on between the two last steps of the goroutine
-- (`close(p.doneCh)` and `p.isRunning = false` in contract_seller_v2.go), and when it stops a contract
-- twice.
use proxy_router.Prelude.{
  ◌≡◌, ◌≢◌, Bool, true, false, String, Option, none, some, arith, if◌then◌else◌, string_eq,
}
use proxy_router.Prelude.Options.{◌>>=◌, Returns}
use proxy_router.Seller.Control.{
  Life, fetched, start_fulfilling, stop_fulfilling, run_returns, run_ends, set_terms, stop_and_wait,
  handle_destination_updated,
}

module _ {T E : Type 0} (should_be_running : T → Bool) (current_dest : T → String)
    (new_dest : T → Option String) (outcome : Option E) where
  -- A running contract, whose stop and done channels are open, with one goroutine, gets terms with a new
  -- destination. The contract is started afresh: it is running, its start channel is closed, the stop and
  -- done channels are open. If the goroutine has ended by the time that the controller goes on, the new
  -- terms are in force, and one goroutine fulfils them. If it has not, the new terms are ignored, there
  -- are two goroutines, and when the first of them ends the contract counts as not running although the
  -- second fulfils it.
  pub destination_updated_race :
      (ends : Bool) (terms : T) (d : String) (s : Life T E)
      → s.is_running ≡ true
      → s.stop_closed ≡ false
      → s.done_closed ≡ false
      → s.workers ≡ 1
      → new_dest terms ≡ some d
      → current_dest s.terms ≢ d
      → Returns
          (λ r.
            (r.0.terms ≡ (if ends then terms else s.terms))
            × (r.0.workers ≡ (if ends then 1 else 2))
            × (r.0.is_running ≡ true)
            × (r.0.start_closed ≡ true)
            × (r.0.stop_closed ≡ false)
            × (r.0.done_closed ≡ false)
            × ((if ends then r.0 else run_ends r.0).is_running ≡ ends)
            × ((if ends then r.0 else run_ends r.0).workers ≡ 1))
          (handle_destination_updated should_be_running current_dest new_dest outcome ends
            (fetched terms none)
            s)
  unfolding handle_destination_updated stop_and_wait stop_fulfilling run_returns run_ends set_terms
      start_fulfilling
  destination_updated_race ends terms d s r c f w n h =
      ground (arith, r, c, f, w, n, string_eq.beq_iff (current_dest s.terms) d, h)

module _ {T E : Type 0} where
  -- A second stop of a running contract, before the goroutine has ended, panics.
  pub stop_fulfilling_twice :
      (s : Life T E) → s.is_running ≡ true → (stop_fulfilling s >>= stop_fulfilling) ≡ none
  unfolding stop_fulfilling
  stop_fulfilling_twice s r = ground (arith, r)
