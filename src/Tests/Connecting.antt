-- ===== src/Tests/Connecting.antt =====
-- The handshake with a further pool (internal/resources/hashrate/proxy/handler_change_dest.go) on small
-- inputs.
use proxy_router.Prelude.{
  ℕ, ◌≡◌, ◌≢◌, refl, zero, suc, Bool, true, false, String, List, [], ◌∷◌, Option, none, some, arith,
  if◌then◌else◌, string_eq, nat_eq,
}
use proxy_router.Prelude.Options.{Returns}
use proxy_router.Prelude.Int.{ℤ, pos}
use proxy_router.Prelude.Assoc.{lookup, insert, delete}
use proxy_router.Floats.Exact.{exact}
use proxy_router.Stratum.{MiningNotify}
use proxy_router.Containers.BoundStackMap as B
use proxy_router.Containers.BoundStackMap.Counts.{IsWellFormed}
use proxy_router.Validator.{Validator, add_new_job, schedule_clean_jobs, set_version_rolling_mask}
use proxy_router.Proxy.Dest.{ConnDest, notify, set_difficulty, result, read_interceptor}
use proxy_router.Proxy.Change.{runs, in_time, Proxy, Writes}
use proxy_router.Proxy.Handshake.{
  Handler, subscribed, Results, Greeting, Handshake, subscribing, connected, Move, reads, proceeds,
  times_out, begin_handshake, run_handshake, handshake_move, run_handler, connected_dest,
}
use proxy_router.Proxy.Handshake.Reading.{NoPanic}
use proxy_router.Proxy.Handshake.Ready.{Usable, handshake-Usable}
use proxy_router.Proxy.Handshake.Stuck.{subscribe_hangs}

abbrev read_ok : Bool → Option (Option (String × ℕ))
read_ok true = some (some ("ab", 4))
read_ok false = none

-- Results are texts: "mask" configures, "ok" is taken, anything else is an error.
abbrev results : Results String
results = record {
  is_error = λ r. if string_eq.beq r "ok" then false else true;
  to_configure = λ r. if string_eq.beq r "mask" then some (true, "1fffe000") else none;
  to_subscribe = λ r. read_ok (string_eq.beq r "ok");
}

read_ok-NoPanic : (b : Bool) → read_ok b ≢ some none
read_ok-NoPanic true e = cc
read_ok-NoPanic false e = cc

results-NoPanic : NoPanic exact results
results-NoPanic r = read_ok-NoPanic (string_eq.beq r "ok")

abbrev job : MiningNotify
job = record {
  job_id = "j1";
  prev_block_hash = "00";
  gen1 = "01";
  gen2 = "02";
  merkel = [];
  version = "20000004";
  nbits = "1709a7af";
  ntime = "62cea7e2";
  clean_jobs = true;
}

abbrev valid : Validator ℤ
valid = record {
  jobs = record { capacity = 30; data_map = []; ordered_keys = []; cc = 0 };
  version_rolling_mask = "00000000";
  clean_job_timeout = 120;
}

valid-IsWellFormed : IsWellFormed valid.jobs
valid-IsWellFormed = record { counted = refl; bounded = omega arith }

abbrev greeting : Greeting
greeting = record { mask = "1fffe000"; min_bits = 2; user = "user"; password = "x" }

abbrev moves : List (Move ℤ String)
moves =
    proceeds true
    ∷ reads 1 (result 1 "mask")
    ∷ proceeds true
    ∷ reads 2 (set_difficulty (pos 4))
    ∷ reads 3 (result 2 "ok")
    ∷ proceeds true
    ∷ reads 4 (result 3 "ok")
    ∷ proceeds true
    ∷ reads 5 (notify job)
    ∷ proceeds true
    ∷ []

handshake-Usable_example :
    Returns
      (λ s. (c : ConnDest ℤ Handler) → connected_dest s ≡ some c → Usable exact results "c" c)
      (run_handshake exact results greeting moves (begin_handshake "c" "user" valid))
handshake-Usable_example =
    handshake-Usable exact results "c" "user" valid greeting moves results-NoPanic
      valid-IsWellFormed (omega arith)

abbrev conn : String → ConnDest ℤ Handler
conn url = record {
  id = url;
  user_name = "user";
  dest_url = url;
  diff = 0;
  extra_nonce1 = "";
  extra_nonce2_size = 0;
  version_rolling = false;
  version_rolling_mask = "";
  validator = valid;
  first_job = false;
  result_handlers = [];
  auto_read = none;
  closed = false;
  idle_close_at = 0;
}

abbrev waiting : Handshake ℤ String
waiting = record {
  conn = record (conn "c") { result_handlers = (2, subscribed) ∷ [] };
  stage = subscribing;
  answer = none;
  sent = [];
}

-- The answer comes too late.
abbrev late : List (Move ℤ String)
late = reads 9 (result 2 "ok") ∷ proceeds true ∷ reads 10 (notify job) ∷ proceeds true ∷ []

subscribe_hangs_example :
    Returns
      (λ s. s.stage ≡ subscribing)
      (run_handshake exact results greeting (times_out ∷ late) waiting)
subscribe_hangs_example =
    subscribe_hangs exact results greeting late waiting refl refl refl valid-IsWellFormed
      (omega arith) tt

abbrev proxy : Proxy ℤ Handler String
proxy = record {
  source = record { extra_nonce = ""; extra_nonce_size = 0; written = [] };
  conns = λ d. elim d [ zero ↦ conn "a" | suc _ ↦ conn "b" ];
  next = 2;
  dest = 0;
  dest_url = "a";
  dest_map = ("a", 0) ∷ ("b", 1) ∷ [];
  max_cached_dests = 2;
  on_submit = none;
  pipe_dest = 0;
  directions = record { source_to_dest = runs; dest_to_source = runs };
}

abbrev writes : Writes
writes = record {
  source_to_dest_exit = in_time;
  dest_to_source_exit = in_time;
  mask_ok = true;
  extranonce_ok = true;
  difficulty_ok = true;
  notify_ok = true;
}

-- The handshake gets through.
moves_run :
    Returns
      (λ s. s.stage ≡ connected)
      (run_handshake exact results greeting moves (begin_handshake "c" "user" valid))
unfolding begin_handshake run_handshake handshake_move connected_dest read_interceptor run_handler
    lookup insert delete add_new_job B.push schedule_clean_jobs set_version_rolling_mask
moves_run = refl
