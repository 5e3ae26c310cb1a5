-- ===== src/Buyer/Bounds.antt =====
-- The error that a buyer allows (buyer_validation.go and contract_buyer.go).
use proxy_router.Prelude.{ℕ, ◌≡◌, false, if◌then◌else◌, inl, inr, Bool-cases}
use proxy_router.Prelude.Int.{pos, ◌+ℤ◌, ◌-ℤ◌}
use proxy_router.Floats.{Float64}
use proxy_router.Buyer.{Buyer, get_max_global_error, allowed_error, five_minutes}

module _ (fl : Float64) where
  open fl use {F, of_int, div, lt}

  clamp_bounds :
      (one m e : F)
      → lt one one ≡ false
      → lt m m ≡ false
      → lt one m ≡ false
      → (lt (if lt one e then one else if lt e m then m else e) m ≡ false)
        × (lt one (if lt one e then one else if lt e m then m else e) ≡ false)
  clamp_bounds one m e i j t = elim (Bool-cases (lt one e)) [
    | inl above ↦ rw above (t, i)
    | inr within ↦ elim (Bool-cases (lt e m)) [
      | inl below ↦ rw (within, below) (j, t)
      | inr over ↦ rw (within, over) (over, within)
    ]
  ]

  -- At any time, also while the divisor is zero or below, the error that the buyer allows is neither
  -- below the threshold that is configured nor above one, if no number is below itself and the
  -- threshold is not above one.
  pub allowed_error_bounds :
      (now : ℕ) (p : Buyer F)
      → ((x : F) → lt x x ≡ false)
      → lt (of_int (pos 1)) p.hr_error_threshold ≡ false
      → (lt (allowed_error fl now p) p.hr_error_threshold ≡ false)
        × (lt (of_int (pos 1)) (allowed_error fl now p) ≡ false)
  unfolding allowed_error get_max_global_error
  allowed_error_bounds now p irreflexive t =
      clamp_bounds (of_int (pos 1)) p.hr_error_threshold
        (div (of_int (pos p.hr_validation_flatness)) (
          of_int (
            pos now
            -ℤ pos p.fulfillment_started_at
            +ℤ pos p.hr_validation_flatness
            -ℤ pos (five_minutes fl))))
        (irreflexive (of_int (pos 1))) (irreflexive p.hr_error_threshold) t
