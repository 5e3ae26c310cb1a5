-- ===== src/Tests/Selling.antt =====
-- The seller's contract (internal/resources/hashrate/contract) on whole numbers.
use proxy_router.Prelude.{◌≡◌, refl, false, String, List, [], ◌∷◌, some}
use proxy_router.Prelude.Int.{ℤ, pos, negsuc}
use proxy_router.Prelude.Assoc.{lookup}
use proxy_router.Floats.Exact.{exact}
use proxy_router.Containers.Set as Set
use proxy_router.Allocator.Scheduler.{Scheduler}
use proxy_router.Allocator.Miners.{MinerItem, Sort}
use proxy_router.Seller.{Contract, remove_full_miners, get_full_miners_sorted}
use proxy_router.Seller.Delivery.{
  Cycle, full_share, partial_share, adjusts, run_cycles, owed_after, run_cycles-owed,
}
use proxy_router.Seller.Removal.{remove_full_miners_once}

abbrev miner : ℤ → Scheduler ℤ
miner hr = record {
  primary_dest = "default";
  tasks = record { tasks = []; size = 0; task_taken = false };
  new_task_signal = false;
  is_disconnecting = false;
  hashrate_ghs = hr;
  is_vetting = false;
}

abbrev contract : Contract ℤ
contract = record {
  id = "c";
  dest = some "pool";
  hashrate_ghs = pos 9000;
  duration = pos 3600000000000;
  stats = record {
    job_full_miners = 0;
    job_partial_miners = 0;
    shares_full_miners = 0;
    shares_partial_miners = 0;
    global_under_delivery_ghs = pos 0;
    full_miners = "m1" ∷ "m2" ∷ [];
    partial_miners = [];
    delivery_target_ghs = pos 0;
  };
  starving_ghs = 0;
  proxies = ("m1", miner (pos 2000)) ∷ ("m2", miner (pos 3000)) ∷ [];
}

abbrev as_is : {A : Type 0} → Sort A
as_is f l = l

abbrev item : String → ℤ → MinerItem ℤ
item id hr = record {
  id = id;
  hr_ghs = hr;
  job_remaining = pos 0;
  time_remaining = pos 0;
  is_full_miner = false;
}

sorted_runs :
    get_full_miners_sorted exact as_is contract
    ≡ (contract, item "m1" (pos 2000) ∷ item "m2" (pos 3000) ∷ [])
unfolding get_full_miners_sorted lookup Set.len
sorted_runs = refl

remove_full_miners_once_example :
    ((remove_full_miners exact as_is (negsuc 5999) contract).0.stats.full_miners
      ≡ (Set.remove (get_full_miners_sorted exact as_is contract).0.stats.full_miners "m1").1)
    × ((remove_full_miners exact as_is (negsuc 5999) contract).1 ≡ pos 2000)
unfolding get_full_miners_sorted lookup Set.len
remove_full_miners_once_example =
    remove_full_miners_once as_is 5999 2000 contract (item "m1" (pos 2000))
      (item "m2" (pos 3000) ∷ []) (miner (pos 2000)) refl refl refl

-- Two cycles, the first of them with an adjustment between its shares.
abbrev cycles : List (Cycle exact)
cycles =
    record {
      starts_at = pos 0;
      planned = pos 600000000000;
      events =
          full_share (pos 1000000)
          ∷ adjusts (pos 10) (pos 300000000000)
          ∷ partial_share (pos 20000)
          ∷ full_share (pos 7)
          ∷ [];
      duration = pos 600000000000;
    }
    ∷ record {
      starts_at = pos 600000000000;
      planned = pos 600000000000;
      events = partial_share (pos 900000) ∷ [];
      duration = pos 600000000000;
    }
    ∷ []

run_cycles-owed_example :
    ((run_cycles exact as_is cycles contract).stats.global_under_delivery_ghs
      ≡ owed_after exact (pos 9000) cycles (pos 0))
    × ((run_cycles exact as_is cycles contract).hashrate_ghs ≡ pos 9000)
run_cycles-owed_example = run_cycles-owed exact as_is cycles contract
