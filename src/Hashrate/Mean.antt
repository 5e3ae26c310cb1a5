-- ===== src/Hashrate/Mean.antt =====
-- internal/resources/hashrate/hashrate/mean.go. A time is a number of nanoseconds, `t.Unix()` the
-- whole seconds of it. The atomic counters wrap at 2^64 and 2^32.
pub mod Totals
use proxy_router.Prelude.{
  ℕ, ◌+◌, ◌*◌, ◌/◌, ◌%◌, ◌^◌, Bool, true, false, List, [], ◌∷◌, Option, none, some, if◌then◌else◌,
  ◌==◌,
}
use proxy_router.Prelude.Int.{ℤ, pos, negsuc, pos_part, neg_part, ◌-ℤ◌, ◌*ℤ◌}
use proxy_router.Floats.{Float64}
use proxy_router.Floats.Exact.{quotient}

pub record Mean : Type 0 where
  pub total_work : ℕ
  pub first_submit_time : ℕ
  pub last_submit_time : ℕ
  pub total_shares : ℕ

abbrev pub unix : ℕ → ℕ
unix t = t / 1000000000

unfoldable pub new_mean : Mean
new_mean = record { total_work = 0; first_submit_time = 0; last_submit_time = 0; total_shares = 0 }

-- `CompareAndSwap` from 0.
unfoldable pub maybe_set_first_submit_time : ℕ → Mean → Mean
maybe_set_first_submit_time t h =
    if h.first_submit_time == 0 then record h { first_submit_time = unix t } else h

unfoldable pub set_last_submit_time : ℕ → Mean → Mean
set_last_submit_time t h = record h { last_submit_time = unix t }

unfoldable pub start : ℕ → Mean → Mean
unfolding maybe_set_first_submit_time
start now h = maybe_set_first_submit_time now h

-- `totalShares` stays as it is.
unfoldable pub reset : Mean → Mean
reset h = record h { total_work = 0; first_submit_time = 0; last_submit_time = 0 }

-- `none` is the zero time.
unfoldable pub get_last_submit_time : Mean → Option ℕ
get_last_submit_time h =
    if h.last_submit_time == 0 then none else some (h.last_submit_time * 1000000000)

-- In nanoseconds; Go's multiplication may wrap, which needs centuries.
unfoldable pub get_total_duration : ℕ → Mean → ℤ
get_total_duration now h = (pos (unix now) -ℤ pos h.first_submit_time) *ℤ pos 1000000000

abbrev pub is_zero : ℤ → Bool
is_zero (pos n) = n == 0
is_zero (negsuc n) = false

module _ (fl : Float64) where
  open fl use {F, of_int, div, to_uint64}

  unfoldable pub add : ℕ → F → Mean → Mean
  unfolding maybe_set_first_submit_time set_last_submit_time
  add now diff h = set_last_submit_time now (
      maybe_set_first_submit_time now (record h {
        total_work = (h.total_work + to_uint64 diff) % 2 ^ 64;
        total_shares = (h.total_shares + 1) % 2 ^ 32;
      }))

  unfoldable pub value : Mean → F
  value h = of_int (pos h.total_work)

  -- The quotient of the durations is a whole number; `t` of 0 panics.
  unfoldable pub value_per : ℕ → ℤ → Mean → Option F
  unfolding get_total_duration
  value_per now t h =
      let total = get_total_duration now h in
      if is_zero total
      then some (of_int (pos 0))
      else if is_zero t
      then none
      else some (div (of_int (pos h.total_work)) (of_int (quotient total t)))
