-- ===== src/Buyer.antt =====
-- internal/resources/hashrate/contract/contract_buyer.go and buyer_validation.go: how a buyer watches
-- the hashrate that a contract delivers. Times and durations are numbers of nanoseconds; the end of a
-- contract that has not started is the zero time, which has passed. A call reads the clock once, and
-- the hashrate is looked up by the contract's ID.
pub mod Loop
pub mod Bounds
pub mod Controller
use proxy_router.Prelude.{
  ℕ, ◌+◌, Bool, true, false, String, Option, none, some, if◌then◌else◌, ltb, leb,
}
use proxy_router.Prelude.Options.{◌>>=◌}
use proxy_router.Prelude.Int.{ℤ, pos, ◌+ℤ◌, ◌-ℤ◌, ltb_ℤ}
use proxy_router.Floats.{Float64}
use proxy_router.Terms.{BaseTerms, end_time}
use proxy_router.Hashrate.Counters.{Counter, Hashrate}
use proxy_router.Hashrate.Global as Global
use proxy_router.Hashrate.Global.{GlobalHashrate}

pub data ContractState : Type 0 where
  contract_pending contract_running : ContractState

pub data ValidationStage : Type 0 where
  validating finished : ValidationStage

-- The errors that `run` returns; `contract_dest` holds what `SetError` has noted.
pub data BuyerError (E : Type 0) : Type 0 where
  context_canceled share_timeout underdelivery contract_finished : BuyerError E
  contract_dest : Option E → BuyerError E

pub record Buyer (F : Type 0) : Type 0 where
  pub id : String
  pub share_timeout : ℕ
  pub hr_error_threshold : F
  pub hashrate_counter_name : String
  pub hr_validation_flatness : ℕ
  pub validator_start_time : ℕ
  pub terms : BaseTerms F
  pub validation_stage : ValidationStage
  pub fulfillment_started_at : ℕ
  pub starving_ghs : ℕ

-- Whether the end of the contract has passed, `After` (strictly) and `time.Until(...) <= 0`.
abbrev pub is_past : Option ℕ → ℕ → Bool
is_past none now = true
is_past (some t) now = ltb t now

abbrev pub is_reached : Option ℕ → ℕ → Bool
is_reached none now = true
is_reached (some t) now = leb t now

abbrev pub time_or : Option ℕ → ℕ → ℕ
time_or none t = t
time_or (some u) t = u

module _ {F : Type 0} where
  unfoldable pub is_contract_expired : ℕ → Buyer F → Bool
  is_contract_expired now p = is_past (end_time p.terms) now

  unfoldable pub has_ended : ℕ → Buyer F → Bool
  has_ended now p = is_reached (end_time p.terms) now

  unfoldable pub is_validation_started : ℕ → Buyer F → Bool
  is_validation_started now p = ltb p.validator_start_time now

  unfoldable pub proceed_to_next_stage : ℕ → Buyer F → Buyer F
  unfolding is_contract_expired
  proceed_to_next_stage now p = record p {
    validation_stage = if is_contract_expired now p then finished else p.validation_stage;
  }

  -- `time.Since(lastShareTime) > p.shareTimeout`
  abbrev pub is_silent : ℕ → Option ℕ → Buyer F → Bool
  is_silent now last p =
      ltb_ℤ (pos p.share_timeout) (pos now -ℤ pos (time_or last p.fulfillment_started_at))

module _ (fl : Float64) where
  open fl use {F, of_int, sub, div, abs, max, lt, le, to_uint64}

  -- internal/lib/number.go
  unfoldable pub relative_error : F → F → F
  relative_error target actual = div (abs (sub actual target)) (abs target)

  unfoldable pub get_max_global_error : ℤ → F → ℤ → ℤ → F
  get_max_global_error elapsed min_error flatness skip_period =
      let max_err = div (of_int flatness) (of_int (elapsed +ℤ flatness -ℤ skip_period)) in
      if lt (of_int (pos 1)) max_err
      then of_int (pos 1)
      else if lt max_err min_error
      then min_error
      else max_err

  abbrev pub five_minutes : ℕ
  five_minutes = 300000000000

  abbrev pub or_zero : Option F → F
  or_zero none = of_int (pos 0)
  or_zero (some x) = x

  -- The error that the code allows at a time.
  unfoldable pub allowed_error : ℕ → Buyer F → F
  unfolding get_max_global_error
  allowed_error now p =
      get_max_global_error (pos now -ℤ pos p.fulfillment_started_at) p.hr_error_threshold
        (pos p.hr_validation_flatness) (pos five_minutes)

  -- The verdict on a hashrate.
  unfoldable pub is_acceptable : ℕ → F → Buyer F → Bool
  unfolding relative_error allowed_error
  is_acceptable now actual p =
      if le (relative_error p.terms.hashrate actual) (allowed_error now p)
      then true
      else lt p.terms.hashrate actual

  unfoldable pub note_starving : F → Buyer F → Buyer F
  note_starving actual p = record p {
    starving_ghs = to_uint64 (max (sub p.terms.hashrate actual) (of_int (pos 0)));
  }

module _ (fl : Float64) {C : Type 0} (ops : Counter fl.F C) where
  open fl use {F}

  unfoldable pub is_receiving_acceptable_hashrate :
      ℕ → GlobalHashrate C → Buyer F → Option (Buyer F × GlobalHashrate C × Bool)
  unfolding is_acceptable note_starving
  is_receiving_acceptable_hashrate now g p = do
    r ← Global.get_hash_rate_ghs fl ops now p.id p.hashrate_counter_name g
    some (note_starving fl (or_zero fl r.0) p, r.1, is_acceptable fl now (or_zero fl r.0) p)

module _ {F : Type 0} {E : Type 0} where
  -- The switch on the stage, with the time of the last share.
  abbrev pub verdict : ℕ → ValidationStage → Option ℕ → Bool → Buyer F → Option (BuyerError E)
  verdict now validating last ok p =
      if is_silent now last p then some share_timeout else if ok then none else some underdelivery
  verdict now finished last ok p = some contract_finished

module _ (fl : Float64) {C : Type 0} (ops : Counter fl.F C) {E : Type 0} where
  open fl use {F}

  unfoldable pub check_incoming_hashrate :
      ℕ → GlobalHashrate C → Buyer F → Option (Buyer F × GlobalHashrate C × Option (BuyerError E))
  unfolding proceed_to_next_stage is_receiving_acceptable_hashrate is_validation_started
  check_incoming_hashrate now g p = do
    r ← is_receiving_acceptable_hashrate fl ops now g (proceed_to_next_stage now p)
    last ← Global.get_last_submit_time p.id r.1
    some (
      r.0,
      r.1,
      if is_validation_started now p then verdict now r.0.validation_stage last r.2 r.0 else none,
    )
