-- ===== src/Tests/Validation.antt =====
-- The validator of internal/resources/hashrate/validator on small inputs. The hash function is a
-- constant one.
use proxy_router.Prelude.{
  zero, suc, String, sym, subst, inl, inr, ℕ, ◌*◌, ◌/◌, ◌≤◌, ◌≡◌, ◌↔◌, ◌⊎◌, refl, true, false, List,
  [], ◌∷◌, none, some, arith, replicate, string_eq,
}
use proxy_router.Prelude.Options.{Returns}
use proxy_router.Prelude.Int.{ℤ, pos}
use proxy_router.Prelude.Assoc.{lookup, insert}
use proxy_router.Floats.Exact.{exact}
use proxy_router.Stratum.{
  MiningNotify, MiningSubmit, new_mining_submit, get_job_id, get_extra_nonce2, get_ntime, get_nonce,
  get_vmask,
}
use proxy_router.Stratum.Hex.{decode}
use proxy_router.Containers.BoundStackMap as B
use proxy_router.Validator.{
  Validator, MiningJob, ShareResult, job_not_found, duplicate_share, add_new_job, share_of,
  serialize_share, first_four, validate_and_add_share, new_mining_job, set_version_rolling_mask,
  schedule_clean_jobs, with_job, check_share, after_check, check_duplicate_and_add_share, put_job,
}
use proxy_router.Validator.Diff.{
  diff_one, validate_diff, header_hash, header, decode_swap_words, merkle_loop, version_bytes,
  check_result,
}
use proxy_router.Validator.Diff.Target.{validate_diff_target}
use proxy_router.Validator.Shares.{serialize_share_injective}
use proxy_router.Validator.Seen.{Call, adds, sets_mask}
use proxy_router.Validator.Seen.Once.{run, validate_once}
use proxy_router.Validator.Expiry.{add_jobs, add_new_job_expires}
use proxy_router.Proxy.Dest.{ConnDest}
use proxy_router.Proxy.Change.{runs, Proxy}
use proxy_router.Proxy.Jobs.{get_dest_by_job_id_and_validate}
use proxy_router.Proxy.Jobs.Search.{Held, Total, Right, get_dest_by_job_id_and_validate-Right}

abbrev hash : List ℕ → List ℕ
hash bytes = replicate 24 1

abbrev notify : MiningNotify
notify = record {
  job_id = "j1";
  prev_block_hash = "0011223344556677";
  gen1 = "01";
  gen2 = "02";
  merkel = "aa" ∷ [];
  version = "20000004";
  nbits = "1709a7af";
  ntime = "62cea7e2";
  clean_jobs = true;
}

abbrev submit : MiningSubmit
submit = new_mining_submit "worker" "j1" "0000" "62cea7a6" "f9b40000"

abbrev share : List ℕ
share =
    0 ∷ 0 ∷ 0 ∷ 0 ∷ 0 ∷ 0 ∷ 0 ∷ 0 ∷ 98 ∷ 206 ∷ 167 ∷ 166 ∷ 249 ∷ 180 ∷ 0 ∷ 0 ∷ 0 ∷ 0 ∷ 0 ∷ 0 ∷ []

abbrev job : MiningJob ℤ
job = record {
  notify = notify;
  diff = pos 5;
  extra_nonce1 = "ab";
  extra_nonce2_size = 2;
  shares = [];
  expiration_time = none;
}

abbrev start : Validator ℤ
start = record {
  jobs = record { capacity = 30; data_map = ("j1", job) ∷ []; ordered_keys = "j1" ∷ []; cc = 1 };
  version_rolling_mask = "00000000";
  clean_job_timeout = 120;
}

share_runs : share_of submit ≡ some share
unfolding share_of new_mining_submit get_extra_nonce2 get_ntime get_nonce get_vmask serialize_share
    first_four decode
share_runs = refl

abbrev hash_number : ℕ
hash_number = 24616085236810512799356036953755554572950413507702096129

hash_runs : header_hash hash "ab" "00000000" notify submit ≡ some hash_number
unfolding header_hash header new_mining_submit version_bytes decode_swap_words merkle_loop decode
hash_runs = refl

validate_diff_target_example :
    Returns
      (λ r. (r.0 ≡ diff_one / hash_number) × ((r.1 ≡ true) ↔ (5 * hash_number ≤ diff_one)))
      (validate_diff hash "ab" 5 "00000000" notify submit)
validate_diff_target_example =
    validate_diff_target hash "ab" 5 "00000000" notify submit hash_number hash_runs (omega arith)
      (omega arith)

same_bytes :
    serialize_share "0000" "62cea7a6" "f9b40000" "00e00000"
    ≡ serialize_share "0000" "62CEA7A6" "f9b40000" "00E00000"
unfolding serialize_share first_four decode
same_bytes = refl

serialize_share_injective_example :
    (decode "0000" ≡ decode "0000")
    × (decode "62cea7a6" ≡ decode "62CEA7A6")
    × (decode "f9b40000" ≡ decode "f9b40000")
    × (decode "00e00000" ≡ decode "00E00000")
unfolding decode
serialize_share_injective_example =
    serialize_share_injective 2 "0000" "62cea7a6" "f9b40000" "00e00000" "0000" "62CEA7A6" "f9b40000"
      "00E00000" (omega arith)
      (record { enonce2_size = refl; ntime_size = refl; nonce_size = refl; vmask_size = refl })
      (record { enonce2_size = refl; ntime_size = refl; nonce_size = refl; vmask_size = refl })
      same_bytes

-- The validator after the share.
abbrev shared : Validator ℤ
shared = record start {
  jobs = record start.jobs { data_map = ("j1", record job { shares = share ∷ [] }) ∷ [] };
}

abbrev passed : ShareResult
passed = record { diff = 1095199948800; error = none }

validate_runs : validate_and_add_share exact hash 10 submit start ≡ some (shared, passed)
unfolding validate_and_add_share with_job check_share share_of new_mining_submit serialize_share
    decode get_job_id B.get lookup get_extra_nonce2 get_ntime get_nonce get_vmask insert after_check
    check_duplicate_and_add_share put_job validate_diff header_hash header version_bytes
    decode_swap_words merkle_loop check_result
validate_runs = refl

abbrev later : List (Call ℤ)
later =
    sets_mask "ffffffff"
    ∷ adds 11 (record notify { job_id = "j2"; clean_jobs = false }) (pos 7) "ab" 2
    ∷ []

abbrev ended : Validator ℤ
ended = record {
  jobs = record {
    capacity = 30;
    data_map =
        ("j1", record job { shares = share ∷ [] })
        ∷ (
          "j2",
          record job { notify = record notify { job_id = "j2"; clean_jobs = false }; diff = pos 7 },
        )
        ∷ [];
    ordered_keys = "j1" ∷ "j2" ∷ [];
    cc = 2;
  };
  version_rolling_mask = "ffffffff";
  clean_job_timeout = 120;
}

run_runs : run exact hash later shared ≡ some ended
unfolding add_new_job B.push set_version_rolling_mask insert new_mining_job
run_runs = refl

validate_once_example :
    Returns
      (λ x. (x.0 ≡ ended) × ((x.1.error ≡ some job_not_found) ⊎ (x.1.error ≡ some duplicate_share)))
      (validate_and_add_share exact hash 12 submit ended)
unfolding new_mining_submit get_job_id
validate_once_example =
    validate_once exact hash "j1" share 10 12 submit submit later start shared ended passed refl
      share_runs validate_runs (λ e. ground (arith, e))
      ((λ e. ground (arith, e, string_eq.beq_iff "j2" "j1")), tt) run_runs refl share_runs

abbrev replaced : Validator ℤ
replaced = record {
  jobs = record {
    capacity = 30;
    data_map =
        ("j1", record job { expiration_time = some 220 })
        ∷ ("j2", record job { notify = record notify { job_id = "j2" }; diff = pos 7 })
        ∷ [];
    ordered_keys = "j1" ∷ "j2" ∷ [];
    cc = 2;
  };
  version_rolling_mask = "00000000";
  clean_job_timeout = 120;
}

add_runs : add_new_job 100 (record notify { job_id = "j2" }) (pos 7) "ab" 2 start ≡ some replaced
unfolding add_new_job B.push schedule_clean_jobs insert new_mining_job
add_runs = refl

-- A third job comes, without the flag.
abbrev third : MiningNotify
third = record notify { job_id = "j3"; clean_jobs = false }

abbrev extended : Validator ℤ
extended = record replaced {
  jobs = record {
    capacity = 30;
    data_map =
        ("j1", record job { expiration_time = some 220 })
        ∷ ("j2", record job { notify = record notify { job_id = "j2" }; diff = pos 7 })
        ∷ ("j3", new_mining_job third (pos 7) "ab" 2)
        ∷ [];
    ordered_keys = "j1" ∷ "j2" ∷ "j3" ∷ [];
    cc = 3;
  };
}

later_runs : add_jobs exact hash ((150, third, pos 7, "ab", 2) ∷ []) replaced ≡ some extended
unfolding add_new_job B.push schedule_clean_jobs insert new_mining_job
later_runs = refl

add_new_job_expires_example :
    validate_and_add_share exact hash 221 submit extended
    ≡ some (extended, record { diff = 0; error = some job_not_found })
unfolding new_mining_submit get_job_id
add_new_job_expires_example =
    add_new_job_expires exact hash "j1" 100 221 (record notify { job_id = "j2" }) (pos 7) "ab" 2
      ((150, third, pos 7, "ab", 2) ∷ []) replaced start extended submit refl add_runs
      (refl, (λ e. ground (arith, e, string_eq.beq_iff "j3" "j1")), tt) later_runs refl
      (λ e. ground (arith, e, string_eq.beq_iff "j1" "j2")) (omega arith)

abbrev no_jobs : Validator ℤ
no_jobs = record start { jobs = record { capacity = 30; data_map = []; ordered_keys = []; cc = 0 } }

abbrev conn : String → Validator ℤ → ConnDest ℤ String
conn url v = record {
  id = url;
  user_name = "user";
  dest_url = url;
  diff = 0;
  extra_nonce1 = "";
  extra_nonce2_size = 0;
  version_rolling = false;
  version_rolling_mask = "";
  validator = v;
  first_job = true;
  result_handlers = [];
  auto_read = none;
  closed = false;
  idle_close_at = 0;
}

-- The second of two connections has the job.
abbrev proxy : Proxy ℤ String String
proxy = record {
  source = record { extra_nonce = ""; extra_nonce_size = 0; written = [] };
  conns = λ d. elim d [ zero ↦ conn "a" no_jobs | suc _ ↦ conn "b" start ];
  next = 2;
  dest = 0;
  dest_url = "a";
  dest_map = ("a", 0) ∷ ("b", 1) ∷ [];
  max_cached_dests = 2;
  on_submit = none;
  pipe_dest = 0;
  directions = record { source_to_dest = runs; dest_to_source = runs };
}

no_jobs_run : Returns (λ _. Unit {0}) (validate_and_add_share exact hash 10 submit no_jobs)
unfolding validate_and_add_share with_job new_mining_submit get_job_id B.get lookup
no_jobs_run = tt

proxy-Total : Total exact hash 10 submit "j1" proxy.conns proxy.dest_map
proxy-Total d (inl q) =
    subst
      (λ i.
        Returns (λ _. Unit {0})
          (validate_and_add_share exact hash 10 submit (proxy.conns i).validator))
      (sym q) no_jobs_run
proxy-Total d (inr (inl q)) =
    subst
      (λ i.
        Returns (λ _. Unit {0})
          (validate_and_add_share exact hash 10 submit (proxy.conns i).validator))
      (sym q) (rw validate_runs tt)
proxy-Total d (inr (inr z)) = absurd z

apart_0_1 : ¬ (Held 0 (("b", 1) ∷ []))
apart_0_1 (inl q) = omega (arith, q)
apart_0_1 (inr z) = z

get_dest_by_job_id_and_validate-Right_example :
    Returns
      (λ r.
        Right exact hash 10 submit "j1" proxy.conns r.0.conns r.1 proxy.dest_map
        × ((e : ℕ) → ¬ (Held e proxy.dest_map) → r.0.conns e ≡ proxy.conns e)
        × (r.0 ≡ record proxy { conns = r.0.conns }))
      (get_dest_by_job_id_and_validate exact hash 10 submit proxy)
unfolding new_mining_submit get_job_id
get_dest_by_job_id_and_validate-Right_example =
    get_dest_by_job_id_and_validate-Right exact hash 10 submit "j1" proxy refl
      (apart_0_1, ((λ z. z), tt)) proxy-Total
