-- ===== src/Tests/Buying.antt =====
-- A buyer of internal/resources/hashrate/contract (contract_buyer.go, controller_buyer.go) on small
-- inputs, with whole numbers for floats.
use proxy_router.Prelude.{
  ℕ, suc, ◌≡◌, ◌≢◌, refl, inl, inr, true, false, String, List, [], ◌∷◌, ◌++◌, none, some, arith,
  length, replicate, string_eq,
}
use proxy_router.Prelude.Options.{Returns}
use proxy_router.Prelude.Int.{ℤ, pos, ltb_ℤ}
use proxy_router.Floats.Exact.{exact}
use proxy_router.Terms.{BaseTerms, running, blockchain_state, is_running, end_time}
use proxy_router.Prelude.Assoc.{lookup}
use proxy_router.Containers.Collection.{load}
use proxy_router.Hashrate.Counters.{Counter}
use proxy_router.Hashrate.Global as Global
use proxy_router.Hashrate.Global.{GlobalHashrate}
use proxy_router.Buyer.{
  Buyer, validating, underdelivery, contract_running, contract_pending, allowed_error,
  is_validation_started,
}
use proxy_router.Buyer.Bounds.{allowed_error_bounds}
use proxy_router.Buyer.Loop.{Round, tick, run_rounds}
use proxy_router.Buyer.Loop.Ending.{Readable, run_rounds_end}
use proxy_router.Buyer.Controller.{
  Watch, done_ready, early_close, reason_of, run_inputs, is_contract_closed,
}
use proxy_router.Buyer.Controller.Closing.{refused, early_close_retries}
use proxy_router.Buyer.Controller.Expiry.{ended_with, claim_of, late_round_unclaimed}

abbrev no_counter : Counter ℤ Unit
no_counter = record {
  start = λ now c. c;
  add = λ now x c. c;
  value = λ now c. (pos 0, c);
  value_per = λ now per c. (pos 0, c);
  reset = λ c. c;
}

abbrev terms : BaseTerms ℤ
terms = record {
  contract_id = "0x1";
  seller = "s";
  buyer = "b";
  validator = "v";
  starts_at = some 5;
  duration = 10;
  hashrate = pos 100;
  price = pos 1;
  profit_target = pos 0;
  is_deleted = false;
  balance = pos 0;
  has_future_terms = false;
  version = 1;
}

abbrev buyer : Buyer ℤ
buyer = record {
  id = "0x1";
  share_timeout = 100;
  hr_error_threshold = pos 0;
  hashrate_counter_name = "mean";
  hr_validation_flatness = 20;
  validator_start_time = 0;
  terms = terms;
  validation_stage = validating;
  fulfillment_started_at = 5;
  starving_ghs = 0;
}

-- A round of a buyer who sees no share at all, at a time.
abbrev round : ℕ → Round ℤ Unit String
round now = record {
  checked_at = now;
  waits_at = now;
  hashrates = [];
  terms_then = terms;
  wake = tick;
}

irreflexive : (x : ℤ) → ltb_ℤ x x ≡ false
irreflexive x = ground arith

allowed_error_bounds_example :
    (ltb_ℤ (allowed_error exact 9 buyer) (pos 0) ≡ false)
    × (ltb_ℤ (pos 1) (allowed_error exact 9 buyer) ≡ false)
allowed_error_bounds_example = allowed_error_bounds exact 9 buyer irreflexive refl

round-Readable : (now : ℕ) → Readable exact no_counter String (round now) "0x1" "mean"
unfolding Global.get_hash_rate_ghs Global.get_last_submit_time load lookup
round-Readable now = tt

run_rounds_end_example :
    Returns (λ c. c.1 ≢ none) (run_rounds exact no_counter (round 9 ∷ round 15 ∷ []) buyer)
unfolding end_time
run_rounds_end_example =
    run_rounds_end exact no_counter String (round 9 ∷ round 15 ∷ []) buyer
      (round-Readable 9, (round-Readable 15, tt)) (inr (inl refl))

abbrev watch : Watch ℤ String
watch = record {
  terms = terms;
  state = contract_running;
  started_closed = true;
  has_cancel = true;
  done_closed = false;
  err = none;
  is_validator = true;
  auto_claim_reward = true;
  actions = [];
}

abbrev nows : List ℕ
nows = 9 ∷ 9 ∷ []

abbrev failed : Watch ℤ String
failed = record watch { state = contract_pending; done_closed = true; err = some underdelivery }

runs_at_9 : blockchain_state 9 terms ≡ running
unfolding blockchain_state is_running end_time
runs_at_9 = refl

early_close_retries_example :
    ((run_inputs (refused nows ++ done_ready 9 true ∷ []) failed).0.actions
      ≡ [] ++ replicate (suc (length nows)) (early_close (reason_of {E = String} underdelivery)))
    × ((run_inputs (refused nows ++ done_ready 9 true ∷ []) failed).1 ≡ true)
unfolding is_contract_closed
early_close_retries_example =
    early_close_retries underdelivery nows 9 failed
      (record { done = refl; error = refl; open_there = refl }) (runs_at_9, (runs_at_9, tt))
      runs_at_9

late_round_unclaimed_example :
    ((ended_with none 30 true watch).0.actions ≡ [] ++ claim_of watch)
    × Returns
        (λ d.
          Returns
            (λ e.
              ((ended_with e 30 true watch).0.actions ≡ [])
              × ((ended_with e 30 true watch).1 ≡ true))
            d.1)
        (run_rounds exact no_counter (round 20 ∷ []) buyer)
unfolding is_validation_started end_time
late_round_unclaimed_example =
    late_round_unclaimed exact no_counter String (round 20) [] buyer 30 true watch
      (round-Readable 20) refl refl refl refl
