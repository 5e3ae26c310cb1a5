-- ===== src/Hashrate/Units.antt =====
-- The conversions at the end of internal/resources/hashrate/hashrate/hashrate.go. A duration is a
-- number of nanoseconds. `math.Pow(2, 32)` and `math.Pow10(9)` are whole numbers.
use proxy_router.Prelude.{◌/◌, ◌%◌}
use proxy_router.Prelude.Int.{ℤ, pos, negsuc, neg_part, ◌-ℤ◌}
use proxy_router.Floats.{Float64}

module _ (fl : Float64) where
  open fl use {F, of_int, add, mul, div, to_int64}

  abbrev pub two_to_32 : F
  two_to_32 = of_int (pos 4294967296)

  abbrev pub ten_to_9 : F
  ten_to_9 = of_int (pos 1000000000)

  unfoldable pub job_submitted_to_hs : F → F
  job_submitted_to_hs job_submitted = mul job_submitted two_to_32

  unfoldable pub hs_to_job_submitted : F → F
  hs_to_job_submitted hr_hs = div hr_hs two_to_32

  unfoldable pub hs_to_ghs : F → ℤ
  hs_to_ghs hashrate_hs = to_int64 (div hashrate_hs ten_to_9)

  unfoldable pub ghs_to_hs : ℤ → F
  ghs_to_hs hr_ghs = mul (of_int hr_ghs) ten_to_9

  unfoldable pub ghs_to_job_submitted : F → F
  unfolding hs_to_job_submitted
  ghs_to_job_submitted hr_ghs = hs_to_job_submitted (mul hr_ghs ten_to_9)

  unfoldable pub job_submitted_to_ghs : F → F
  unfolding job_submitted_to_hs
  job_submitted_to_ghs job_submitted = div (job_submitted_to_hs job_submitted) ten_to_9

  -- The quotient and the remainder of Go's integer division, which rounds towards zero.
  whole_seconds : ℤ → ℤ
  unfolding ◌-ℤ◌
  whole_seconds (pos n) = pos (n / 1000000000)
  whole_seconds (negsuc n) = pos 0 -ℤ pos (neg_part (negsuc n) / 1000000000)

  rest_nanos : ℤ → ℤ
  unfolding ◌-ℤ◌
  rest_nanos (pos n) = pos (n % 1000000000)
  rest_nanos (negsuc n) = pos 0 -ℤ pos (neg_part (negsuc n) % 1000000000)

  -- `time.Duration.Seconds`
  unfoldable pub seconds : ℤ → F
  unfolding whole_seconds rest_nanos
  seconds d = add (of_int (whole_seconds d)) (div (of_int (rest_nanos d)) ten_to_9)

  unfoldable pub ghs_to_job_submitted_v2 : F → ℤ → F
  unfolding hs_to_job_submitted seconds
  ghs_to_job_submitted_v2 hr_ghs duration =
      mul (hs_to_job_submitted (mul hr_ghs ten_to_9)) (seconds duration)

  unfoldable pub job_submitted_to_ghs_v2 : F → ℤ → F
  unfolding job_submitted_to_hs seconds
  job_submitted_to_ghs_v2 job_submitted duration =
      div (div (job_submitted_to_hs job_submitted) ten_to_9) (seconds duration)
