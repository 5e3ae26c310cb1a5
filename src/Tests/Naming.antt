-- ===== src/Tests/Naming.antt =====
-- The user names of internal/resources/hashrate/proxy/handler_first_connect.go on small inputs.
use proxy_router.Prelude.{◌≡◌, refl, Bool, false, String, some}
use proxy_router.Proxy.Names.{
  Url, or_empty, get_dest_user_name, authorize_as, should_propagate_worker_name, split_username,
  set_worker_name,
}
use proxy_router.Proxy.Names.Authorized.{authorize_as_lem}

abbrev no_address : String → Bool
no_address s = false

abbrev pool : Url
pool = record {
  user_name = "acc.w0";
  password = some "x";
  host = "pool.example:3333";
  rest = "stratum+tcp";
}

authorize_as_lem_example :
    ((authorize_as no_address false "miner.rig7" pool).2
      ≡ get_dest_user_name no_address false "miner.rig7" pool)
    × ((authorize_as no_address false "miner.rig7" pool).1
        ≡ (authorize_as no_address false "miner.rig7" pool).2)
    × ((authorize_as no_address false "miner.rig7" pool).3 ≡ or_empty pool.password)
    × ((authorize_as no_address false "miner.rig7" pool).0.host ≡ pool.host)
authorize_as_lem_example = authorize_as_lem no_address false "miner.rig7" pool

authorize_runs : (authorize_as no_address false "miner.rig7" pool).2 ≡ "acc.rig7"
unfolding authorize_as should_propagate_worker_name split_username set_worker_name
authorize_runs = refl
