-- ===== src/Stratum.antt =====
-- internal/resources/hashrate/proxy/stratumv1_message: the two messages that shares are checked on.
pub mod Hex
use proxy_router.Prelude.{
  ℕ, ◌+◌, ◌<◌, Bool, String, List, [], ◌∷◌, Option, none, some, if◌then◌else◌, length, ltb,
  get_elem?, set,
}

-- mining_notify.go. The parameters are raw JSON there, and are read through `json.Unmarshal`; here
-- they are the values read.
pub record MiningNotify : Type 0 where
  pub job_id : String
  pub prev_block_hash : String
  pub gen1 : String
  pub gen2 : String
  pub merkel : List String
  pub version : String
  pub nbits : String
  pub ntime : String
  pub clean_jobs : Bool

unfoldable pub set_job_id : MiningNotify → String → MiningNotify
set_job_id m id = record m { job_id = id }

unfoldable pub set_clean_jobs : MiningNotify → Bool → MiningNotify
set_clean_jobs m should_clean = record m { clean_jobs = should_clean }

-- mining_submit.go: the worker's name, the job's ID, extranonce2, ntime, nonce, and the version
-- bits where there are some. An index past the end panics, which is `none`.
pub record MiningSubmit : Type 0 where
  pub id : ℕ
  pub params : List String

unfoldable pub new_mining_submit : String → String → String → String → String → MiningSubmit
new_mining_submit worker_name job_id extranonce2 ntime nonce = record {
  id = 0;
  params = worker_name ∷ job_id ∷ extranonce2 ∷ ntime ∷ nonce ∷ [];
}

unfoldable pub get_user_name : MiningSubmit → Option String
get_user_name m = get_elem? m.params 0

unfoldable pub get_job_id : MiningSubmit → Option String
get_job_id m = get_elem? m.params 1

unfoldable pub get_extra_nonce2 : MiningSubmit → Option String
get_extra_nonce2 m = get_elem? m.params 2

unfoldable pub get_ntime : MiningSubmit → Option String
get_ntime m = get_elem? m.params 3

unfoldable pub get_nonce : MiningSubmit → Option String
get_nonce m = get_elem? m.params 4

unfoldable pub get_vmask : MiningSubmit → Option String
get_vmask m = if ltb (length m.params) 6 then some "00000000" else get_elem? m.params 5

-- A write past the end panics.
set_param : ℕ → String → MiningSubmit → Option MiningSubmit
set_param i s m =
    if ltb i (length m.params) then some (record m { params = set m.params i s }) else none

unfoldable pub set_user_name : MiningSubmit → String → Option MiningSubmit
unfolding set_param
set_user_name m name = set_param 0 name m

unfoldable pub set_extra_nonce2 : MiningSubmit → String → Option MiningSubmit
unfolding set_param
set_extra_nonce2 m xnonce2 = set_param 2 xnonce2 m
