-- ===== src/Validator/Diff/Target.antt =====
-- The test of `ValidateDiff` in validator_diff.go against the target that a difficulty stands for.
use proxy_router.Prelude.{ℕ, ◌*◌, ◌/◌, ◌^◌, ◌≤◌, ◌<◌, ◌≡◌, ◌↔◌, true, String, List, some, arith}
use proxy_router.Prelude.Options.{Returns}
use proxy_router.Stratum.{MiningNotify, MiningSubmit}
use proxy_router.Validator.Diff.{diff_one, check_result, header_hash, validate_diff}

le_div : (d b h : ℕ) → 0 < h → (d ≤ b / h) ↔ (d * h ≤ b)
le_div d b h p = grind arith

check_result_target :
    (d h : ℕ)
    → 0 < h
    → diff_one / h < 2 ^ 64
    → Returns (λ r. (r.0 ≡ diff_one / h) × ((r.1 ≡ true) ↔ (d * h ≤ diff_one))) (check_result d h)
unfolding check_result
check_result_target d h p q = ground (arith, le_div d diff_one h p)

-- A share whose header hashes to the number `h` passes exactly if `h` times the job's difficulty is
-- within 0xffff shifted by 208 bits, and the difficulty reported is that bound divided by `h`: where
-- `h` is not 0 and the quotient fits 64 bits.
pub validate_diff_target :
    (sha256 : List ℕ → List ℕ) (en1 : String) (job_diff : ℕ) (mask : String) (job : MiningNotify)
    (submit : MiningSubmit) (h : ℕ)
    → header_hash sha256 en1 mask job submit ≡ some h
    → 0 < h
    → diff_one / h < 2 ^ 64
    → Returns
        (λ r. (r.0 ≡ diff_one / h) × ((r.1 ≡ true) ↔ (job_diff * h ≤ diff_one)))
        (validate_diff sha256 en1 job_diff mask job submit)
unfolding validate_diff
validate_diff_target sha256 en1 job_diff mask job submit h e p q =
    rw e (check_result_target job_diff h p q)
