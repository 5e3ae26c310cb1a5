-- ===== src/Tests/Changing.antt =====
-- The destinations of internal/resources/hashrate/proxy on small inputs: the messages of a pool, and
-- a change from one pool to another.
use proxy_router.Prelude.{
  Option, ℕ, zero, suc, sym, subst, ◌≡◌, refl, true, false, String, List, [], ◌∷◌, none, some,
  arith, if◌then◌else◌, string_eq, ap,
}
use proxy_router.Prelude.Options.{◌>>=◌, Returns, some_inj}
use proxy_router.Prelude.Int.{ℤ, pos}
use proxy_router.Floats.Exact.{exact}
use proxy_router.Stratum.{MiningNotify}
use proxy_router.Containers.BoundStackMap as B
use proxy_router.Validator.{new_validator, get_latest_job}
use proxy_router.Proxy.Pipe.{Intercepted, swallowed}
use proxy_router.Proxy.Dest.{
  ConnDest, PoolMessage, notify, set_difficulty, set_extranonce, other, new_dest_conn,
  read_interceptor, auto_read,
}
use proxy_router.Proxy.Dest.Kept.{work_of, last_set, Kept, HasRoom}
use proxy_router.Proxy.Dest.InForce.{notify_in_force}
use proxy_router.Proxy.Change.{runs, in_time, Proxy, Writes, set_dest}
use proxy_router.Proxy.Change.Kept.{Sound}
use proxy_router.Proxy.Change.Obtained.{AllKept, JobKept, Outcome}
use proxy_router.Proxy.Change.Outcome.{set_dest-Outcome}
use proxy_router.Proxy.Change.Reconnected.{Reconnected}

abbrev job : MiningNotify
job = record {
  job_id = "j1";
  prev_block_hash = "00";
  gen1 = "01";
  gen2 = "02";
  merkel = [];
  version = "20000004";
  nbits = "1709a7af";
  ntime = "62cea7e2";
  clean_jobs = true;
}

abbrev fresh : String → ConnDest ℤ String
fresh url = record {
  id = url;
  user_name = "user";
  dest_url = url;
  diff = 0;
  extra_nonce1 = "";
  extra_nonce2_size = 0;
  version_rolling = false;
  version_rolling_mask = "";
  validator = record {
    jobs = record { capacity = 30; data_map = []; ordered_keys = []; cc = 0 };
    version_rolling_mask = "00000000";
    clean_job_timeout = 120;
  };
  first_job = false;
  result_handlers = [];
  auto_read = none;
  closed = false;
  idle_close_at = 0;
}

fresh_runs : new_dest_conn "pool" "user" (new_validator 120) "pool" ≡ fresh "pool"
unfolding new_dest_conn new_validator B.new
fresh_runs = refl

abbrev keep_back :
    String
    → ℕ
    → String
    → ConnDest ℤ String
    → Option (ConnDest ℤ String × Intercepted (PoolMessage ℤ String) String)
keep_back h id r c = some (c, swallowed)

abbrev messages : List (ℕ × PoolMessage ℤ String)
messages =
    (1, set_difficulty (pos 4))
    ∷ (2, set_extranonce "ab" 4)
    ∷ (3, notify job)
    ∷ (4, set_difficulty (pos 8))
    ∷ (5, other)
    ∷ []

fresh-HasRoom : HasRoom (fresh "pool")
fresh-HasRoom = record {
  formed = record { counted = refl; bounded = omega arith };
  some_room = omega arith;
}

notify_in_force_example :
    Returns
      (Kept exact keep_back job (last_set (exact).to_uint64 messages (work_of (fresh "pool"))))
      (do
        c1 ← auto_read exact keep_back messages (fresh "pool")
        r ← read_interceptor exact keep_back 6 (notify job) c1
        some r.0)
notify_in_force_example =
    notify_in_force exact keep_back messages 6 job (fresh "pool") tt fresh-HasRoom

-- A proxy that is at the pool "a" and has one cached connection more, to "b".
abbrev proxy : Proxy ℤ String String
proxy = record {
  source = record { extra_nonce = ""; extra_nonce_size = 0; written = [] };
  conns = λ d. elim d [ zero ↦ fresh "a" | suc _ ↦ fresh "b" ];
  next = 2;
  dest = 0;
  dest_url = "a";
  dest_map = ("a", 0) ∷ ("b", 1) ∷ [];
  max_cached_dests = 2;
  on_submit = none;
  pipe_dest = 0;
  directions = record { source_to_dest = runs; dest_to_source = runs };
}

abbrev writes : Writes
writes = record {
  source_to_dest_exit = in_time;
  dest_to_source_exit = in_time;
  mask_ok = true;
  extranonce_ok = true;
  difficulty_ok = true;
  notify_ok = true;
}

proxy-Sound : Sound proxy
proxy-Sound = record {
  keyed = (refl, omega arith, (refl, omega arith, tt));
  bounded = omega arith;
  some_room = omega arith;
  in_store = omega arith;
}

fresh-JobKept : (url : String) → JobKept (fresh url)
unfolding get_latest_job B.at
fresh-JobKept url = tt

proxy-AllKept : AllKept proxy
proxy-AllKept zero = fresh-JobKept "a"
proxy-AllKept (suc _) = fresh-JobKept "b"

connected-Made : (x : ConnDest ℤ String) → some (fresh "c") ≡ some x → (x.id ≡ "c") × JobKept x
connected-Made x e =
    (ap (λ c. c.id) (sym (some_inj _ _ e)), subst JobKept (some_inj _ _ e) (fresh-JobKept "c"))

set_dest-Outcome_example :
    Returns
      (λ r.
        Sound r.0
        × (if string_eq.beq "a" "c"
            then r ≡ (proxy, none)
            else Outcome writes "c" (some "task") proxy r))
      (set_dest true 9 (some (fresh "c")) writes "c" (some "task") proxy)
set_dest-Outcome_example =
    set_dest-Outcome true 9 (some (fresh "c")) writes "c" (some "task") proxy proxy-Sound
      proxy-AllKept connected-Made
