-- ===== src/Buyer/Loop.antt =====
-- The loop of `run` in internal/resources/hashrate/contract/contract_buyer.go. A round gets the times
-- at which it reads the clock, the hashrates and the terms as they are then, and what ends its wait.
pub mod Ending
use proxy_router.Prelude.{
  ℕ, ◌≡◌, ◌≢◌, ◌⊎◌, inl, inr, refl, Bool, true, false, String, List, [], ◌∷◌, Option, none, some,
  arith, if◌then◌else◌, ltb, leb, Bool-cases, Option-cases,
}
use proxy_router.Prelude.Options.{◌>>=◌, Returns, Returns-bind, Returns-map}
use proxy_router.Floats.{Float64}
use proxy_router.Terms.{BaseTerms, end_time}
use proxy_router.Hashrate.Counters.{Counter, Hashrate}
use proxy_router.Hashrate.Global as Global
use proxy_router.Hashrate.Global.{GlobalHashrate}
use proxy_router.Buyer.{
  Buyer, BuyerError, ValidationStage, validating, finished, context_canceled, contract_finished,
  contract_dest, is_past, is_reached, has_ended, is_contract_expired, is_validation_started,
  proceed_to_next_stage, is_receiving_acceptable_hashrate, is_acceptable, note_starving, or_zero,
  verdict, check_incoming_hashrate,
}

-- What ends the wait of a round.
pub data Wake (E : Type 0) : Type 0 where
  context_done : Wake E
  end_timer : Wake E
  contract_error : Option E → Wake E
  tick : Wake E

pub record Round (F C E : Type 0) : Type 0 where
  pub checked_at : ℕ
  pub waits_at : ℕ
  pub hashrates : GlobalHashrate C
  pub terms_then : BaseTerms F
  pub wake : Wake E

-- How `run` ends: `none` inside is no error. The outer `none` is that it goes on.
abbrev pub End : Type 0 → Type 0
End E = Option (Option (BuyerError E))

module _ {F C : Type 0} where
  -- The first lines of `run`.
  unfoldable pub begin : Hashrate C → ℕ → Buyer F → GlobalHashrate C → Buyer F × GlobalHashrate C
  begin hr_factory now p g = (
    record p { fulfillment_started_at = now },
    Global.initialize hr_factory p.id (Global.reset p.id g),
  )

abbrev pub woken : {E : Type 0} → Wake E → End E
woken context_done = some (some context_canceled)
woken end_timer = some none
woken (contract_error e) = some (some (contract_dest e))
woken tick = none

module _ (fl : Float64) {C : Type 0} (ops : Counter fl.F C) {E : Type 0} where
  open fl use {F}

  abbrev pub at_round : Round F C E → Buyer F → Buyer F
  at_round r p = record p { terms = r.terms_then }

  -- What follows the check.
  abbrev pub after_check :
      Round F C E → Buyer F × GlobalHashrate C × Option (BuyerError E) → Buyer F × End E
  after_check r (p, g, some e) = (p, some (some e))
  after_check r (p, g, none) = (p, if has_ended r.waits_at p then some none else woken r.wake)

  unfoldable pub run_round : Round F C E → Buyer F → Option (Buyer F × End E)
  run_round r p = do
    c ← check_incoming_hashrate fl ops r.checked_at r.hashrates (at_round r p)
    some (after_check r c)

  abbrev pub unless_ended : Buyer F × End E → Option (Buyer F × End E) → Option (Buyer F × End E)
  unless_ended (p, some e) rest = some (p, some e)
  unless_ended (p, none) rest = rest

  unfoldable pub run_rounds : List (Round F C E) → Buyer F → Option (Buyer F × End E)
  run_rounds [] p = some (p, none)
  run_rounds (r ∷ rs) p = do c ← run_round r p; unless_ended c (run_rounds rs c.0)

  -- `run`, with the times at which it starts and at which it first reads the clock for the end.
  unfoldable pub run_watch :
      Hashrate C
      → ℕ
      → ℕ
      → List (Round F C E)
      → GlobalHashrate C
      → Buyer F
      → Option (Buyer F × End E)
  unfolding begin has_ended
  run_watch hr_factory started checked rs g p =
      let b = begin hr_factory started p g in
      if has_ended checked b.0 then some (b.0, some none) else run_rounds rs b.0
