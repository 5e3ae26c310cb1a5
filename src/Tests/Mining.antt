-- ===== src/Tests/Mining.antt =====
-- The handling of shares in internal/resources/hashrate/proxy/handler_mining.go on small inputs.
use proxy_router.Prelude.{
  ℕ, ◌+◌, ◌-◌, ◌%◌, ◌^◌, ◌≤◌, ◌<◌, ◌≡◌, ◌↔◌, refl, true, false, String, List, [], ◌∷◌, none, some,
  arith, length, ◌++◌, if◌then◌else◌, ◌==◌,
}
use proxy_router.Validator.{job_not_found, duplicate_share, low_difficulty}
use proxy_router.Proxy.Mining.{
  Mining, Pending, Exchange, pool_accepts, pool_write_fails, success, decide,
}
use proxy_router.Proxy.Mining.Counts.{Share, accepted_diffs, finish, run, run_counts, run_cancels}

abbrev mining : Mining ℕ
mining = record {
  dest = "pool";
  dest_stats =
      (
        "pool",
        record {
          we_accepted_they_accepted = 0;
          we_accepted_they_rejected = 0;
          we_rejected_they_accepted = 0;
        },
      )
      ∷ [];
  source_stats = record {
    we_accepted_shares = 0;
    we_rejected_shares = 0;
    we_accepted_they_rejected = 0;
    we_rejected_they_accepted = 0;
  };
  consequent_invalid_share_count = 0;
  unanswered_msg = 0;
  run_cancelled = false;
  hashrate = [];
  total_shares = 0;
  vetting_shares = 2;
  vetting_done = false;
}

abbrev diff : String → ℕ
diff d = 7

-- One that is accepted, one that an earlier destination accepts, a duplicate.
abbrev mixed : List Share
mixed = (none, none) ∷ (some job_not_found, some "old") ∷ (some duplicate_share, none) ∷ []

abbrev any_way : ℕ → Exchange
any_way n = if n == 0 then pool_accepts else pool_write_fails

run_counts_example :
    let (q, ps) = run diff mixed mining in
    let r = finish diff any_way ps q in
    let diffs = accepted_diffs diff "pool" mixed in
    (r.source_stats.we_accepted_shares ≡ (0 + length diffs) % 2 ^ 64)
    × (r.source_stats.we_rejected_shares ≡ (0 + (length ps - length diffs)) % 2 ^ 64)
    × (length diffs ≤ length ps)
    × (length ps ≤ 3)
    × (r.hashrate ≡ [] ++ diffs)
    × (r.unanswered_msg ≡ 0 + (3 - length ps))
run_counts_example =
    run_counts diff mixed any_way mining
      (record { accepted_fits = omega arith; rejected_fits = omega arith })

abbrev bad : List Share
bad = (some low_difficulty, none) ∷ (some duplicate_share, some "old") ∷ []

run_cancels_example : ((run diff bad mining).0.run_cancelled ≡ true) ↔ (100 < length bad)
unfolding decide
run_cancels_example = run_cancels diff bad mining (refl, (refl, tt)) refl refl (omega arith)

abbrev pending : Pending
pending = record { result = success; we_accepted = true; to = "pool" }
