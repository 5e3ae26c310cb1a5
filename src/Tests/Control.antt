-- ===== src/Tests/Control.antt =====
-- The events of a seller's contract (contract_seller_v2.go and controller_seller.go of
-- internal/resources/hashrate/contract). The terms are the destination.
use proxy_router.Prelude.{
  ◌≡◌, ◌≢◌, refl, Bool, true, false, String, none, some, inr, ap, string_eq, ◌=?◌,
}
use mathlib.Core.Bool.{false≢true}
use proxy_router.Prelude.Options.{Returns}
use proxy_router.Seller.Control.{
  Life, handle_contract_purchased, load_terms, set_terms, start_if, start_fulfilling, reset,
  fetched, destination_updated, contract_purchased, controller, run_ends,
  handle_destination_updated,
}
use proxy_router.Seller.Control.Single.{Sound, on_destination, controller-Sound}
use proxy_router.Seller.Control.Race.{destination_updated_race}

abbrev always : String → Bool
always d = true

abbrev idle : Life String String
idle = record {
  terms = "pool1";
  is_running = false;
  start_closed = false;
  stop_closed = false;
  done_closed = false;
  err = none;
  workers = 0;
}

abbrev running : Life String String
running = record {
  terms = "pool1";
  is_running = true;
  start_closed = true;
  stop_closed = false;
  done_closed = false;
  err = none;
  workers = 1;
}

running-Sound : Sound running
running-Sound = record { counted = refl; stoppable = inr (refl, refl) }

differs : ◌≢◌ {A = String} "pool1" "pool2"
differs e = false≢true (ap (λ d. d =? "pool2") e)

purchased_starts :
    controller always (λ d. d) some none true (contract_purchased (fetched "pool1" none)) idle
    ≡ some (running, none)
unfolding controller handle_contract_purchased load_terms set_terms start_if start_fulfilling reset
purchased_starts = refl

controller-Sound_example :
    Returns
      (λ r. Sound r.0)
      (controller always
        (λ d. d)
        some
        (some "stopped")
        true
        (destination_updated (fetched "pool2" none))
        running)
controller-Sound_example =
    controller-Sound always (λ d. d) some (some "stopped")
      (destination_updated (fetched "pool2" none)) running (on_destination "pool2" "pool2" refl)
      running-Sound

destination_updated_race_example :
    Returns
      (λ r.
        (r.0.terms ≡ "pool1")
        × (r.0.workers ≡ 2)
        × (r.0.is_running ≡ true)
        × (r.0.start_closed ≡ true)
        × (r.0.stop_closed ≡ false)
        × (r.0.done_closed ≡ false)
        × ((run_ends r.0).is_running ≡ false)
        × ((run_ends r.0).workers ≡ 1))
      (handle_destination_updated always
        (λ d. d)
        some
        (some "stopped")
        false
        (fetched "pool2" none)
        running)
destination_updated_race_example =
    destination_updated_race always (λ d. d) some (some "stopped") false "pool2" "pool2" running
      refl refl refl refl refl differs
