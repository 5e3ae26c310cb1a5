-- ===== src/Proxy/Mining.antt =====
-- internal/resources/hashrate/proxy/handler_mining.go: what becomes of a share that the miner
-- submits. A step gets what the calls below it answer: the verdict of the current destination's
-- validator, the earlier destination that accepts the share, if one does, and how the exchange with
-- the miner and the pool goes. The goroutine that carries the exchange out is a step of its own.
pub mod Counts
use proxy_router.Prelude.{
  ℕ, ◌+◌, ◌-◌, ◌%◌, ◌^◌, Bool, true, false, String, List, [], ◌∷◌, ◌++◌, Option, none, some,
  if◌then◌else◌, ltb, ◌=?◌, string_eq,
}
use proxy_router.Prelude.Assoc.{Assoc}
use proxy_router.Validator.{ShareError, job_not_found, duplicate_share, low_difficulty}
use proxy_router.Proxy.Stats.{
  DestStats, SourceStats, dest_inc_both_accepted, dest_inc_they_accepted, inc_we_accepted_shares,
  inc_we_rejected_shares, inc_they_rejected, inc_they_accepted,
}

-- What the handler reads and changes of the proxy.
pub record Mining (F : Type 0) : Type 0 where
  pub dest : String
  pub dest_stats : Assoc String DestStats
  pub source_stats : SourceStats
  pub consequent_invalid_share_count : ℕ
  pub unanswered_msg : ℕ
  pub run_cancelled : Bool
  -- the difficulties that went to the counters of hashrate, latest last
  pub hashrate : List F
  pub total_shares : ℕ
  pub vetting_shares : ℕ
  pub vetting_done : Bool

-- The result that is written to the miner.
pub data MiningResult : Type 0 where
  success duplicated_share_result low_difficulty_result job_not_found_result : MiningResult

-- What the goroutine holds.
pub record Pending : Type 0 where
  pub result : MiningResult
  pub we_accepted : Bool
  pub to : String

-- How the goroutine's exchange goes.
pub data Exchange : Type 0 where
  miner_write_fails pool_write_fails pool_rejects pool_accepts : Exchange

abbrev pub max_consequent_invalid_shares : ℕ
max_consequent_invalid_shares = 100

abbrev pub or_previous : String → Option String → String × Bool
or_previous dest none = (dest, false)
or_previous dest (some d) = (d, true)

-- The destination that the share counts for, and whether it is accepted.
unfoldable pub decide : String → Option ShareError → Option String → String × Bool
decide dest none previous = (dest, true)
decide dest (some duplicate_share) previous = (dest, false)
decide dest (some job_not_found) previous = or_previous dest previous
decide dest (some low_difficulty) previous = or_previous dest previous

unfoldable pub result_of : Option ShareError → MiningResult
result_of (some duplicate_share) = duplicated_share_result
result_of (some low_difficulty) = low_difficulty_result
result_of _ = job_not_found_result

-- The stats of one destination.
abbrev pub at_dest :
    String → (DestStats → DestStats) → Assoc String DestStats → Assoc String DestStats
at_dest d f [] = []
at_dest d f ((k, s) ∷ m) = if k =? d then (k, f s) ∷ at_dest d f m else (k, s) ∷ at_dest d f m

module _ {F : Type 0} (get_diff : String → F) where
  unfoldable pub reject : Option ShareError → String → Mining F → Mining F × Option Pending
  unfolding result_of
  reject err dest p =
      let count = (p.consequent_invalid_share_count + 1) % 2 ^ 32 in
      let p' = record p { consequent_invalid_share_count = count } in
      if ltb max_consequent_invalid_shares count
      then (record p' { run_cancelled = true }, none)
      else (
        record p' { source_stats = inc_we_rejected_shares p.source_stats },
        some (record { result = result_of err; we_accepted = false; to = dest }),
      )

  unfoldable pub accept : String → Mining F → Mining F × Option Pending
  accept dest p =
      let shares = (p.total_shares + 1) % 2 ^ 32 in
      (
        record p {
          consequent_invalid_share_count = 0;
          source_stats = inc_we_accepted_shares p.source_stats;
          hashrate = p.hashrate ++ get_diff dest ∷ [];
          total_shares = shares;
          vetting_done = if ltb p.vetting_shares shares then true else p.vetting_done;
        },
        some (record { result = success; we_accepted = true; to = dest }),
      )

  unfoldable pub on_mining_submit :
      Option ShareError → Option String → Mining F → Mining F × Option Pending
  unfolding decide reject accept
  on_mining_submit err previous p =
      let (dest, we_accepted) = decide p.dest err previous in
      let p' = record p { unanswered_msg = p.unanswered_msg + 1 } in
      if we_accepted then accept dest p' else reject err dest p'

module _ {F : Type 0} where
  pool_answers : Bool → Bool → String → Mining F → Mining F
  pool_answers true true dest p = record p {
    source_stats = inc_they_rejected p.source_stats;
    dest_stats = at_dest dest dest_inc_both_accepted p.dest_stats;
  }
  pool_answers true false dest p = p
  pool_answers false true dest p = record p {
    dest_stats = at_dest dest dest_inc_both_accepted p.dest_stats;
  }
  pool_answers false false dest p = record p {
    dest_stats = at_dest dest dest_inc_they_accepted p.dest_stats;
    source_stats = inc_they_accepted p.source_stats;
  }

  -- The goroutine. The first argument of `pool_answers` says whether the pool's result is an error.
  unfoldable pub exchange : Exchange → Pending → Mining F → Mining F
  unfolding pool_answers
  exchange how pending p =
      let p' = record p { unanswered_msg = p.unanswered_msg - 1 } in
      elim how [
        | miner_write_fails ↦ record p' { run_cancelled = true }
        | pool_write_fails ↦ record p' { run_cancelled = true }
        | pool_rejects ↦ pool_answers true pending.we_accepted pending.to p'
        | pool_accepts ↦ pool_answers false pending.we_accepted pending.to p'
      ]
