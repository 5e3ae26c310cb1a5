-- ===== src/Seller/Removal.antt =====
-- How many full miners `removeFullMiners` of contract_seller_v2.go takes off.
use proxy_router.Prelude.{ℕ, ◌≡◌, refl, ap, ◌∙◌, true, String, List, ◌∷◌, some, arith, string_eq}
use proxy_router.Prelude.Int.{ℤ, pos, negsuc, ◌-ℤ◌}
use proxy_router.Prelude.Assoc.{lookup}
use proxy_router.Floats.Exact.{exact}
use proxy_router.Containers.Set as Set
use proxy_router.Allocator.Scheduler.{Scheduler}
use proxy_router.Allocator.Miners.{MinerItem, Sort}
use proxy_router.Seller.{
  Stats, Contract, get_full_miners_sorted, remove_full_miners, remove_loop, drop_full,
  remove_full_miner, remove_tasks_of, removed_of,
}

below_zero : (k n : ℕ) → exact.lt (negsuc k -ℤ pos n) (pos 0) ≡ true
unfolding ◌-ℤ◌
below_zero k n = ground arith

keeps_stats : (id : String) (p : Contract ℤ) → (remove_tasks_of id p).stats ≡ p.stats
unfolding remove_tasks_of
keeps_stats id p = ground arith

drop_full-miners :
    (id : String) (p : Contract ℤ)
    → (drop_full id p).stats.full_miners ≡ (Set.remove p.stats.full_miners id).1
unfolding drop_full remove_full_miner
drop_full-miners id p = refl

remove_loop_once :
    (k n : ℕ) (item : MinerItem ℤ) (items : List (MinerItem ℤ)) (removed : ℤ) (p : Contract ℤ)
    → removed_of exact (lookup item.id p.proxies) removed ≡ pos n
    → remove_loop exact (negsuc k) (item ∷ items) removed p
      ≡ (drop_full item.id (remove_tasks_of item.id p), pos n)
unfolding remove_loop
remove_loop_once k n item items removed p e = rw (e, below_zero k n)

-- On whole numbers: however much hashrate is to be removed (an amount below 0), and however many
-- full miners the contract has, the call removes the first of them in the order of their hashrates
-- and no other, if that miner is connected with a hashrate not below 0. It returns the hashrate of
-- that one miner.
pub remove_full_miners_once :
    (sort : Sort (MinerItem ℤ)) (k n : ℕ) (p : Contract ℤ) (item : MinerItem ℤ)
    (items : List (MinerItem ℤ)) (m : Scheduler ℤ)
    → (get_full_miners_sorted exact sort p).1 ≡ item ∷ items
    → lookup item.id (get_full_miners_sorted exact sort p).0.proxies ≡ some m
    → m.hashrate_ghs ≡ pos n
    → ((remove_full_miners exact sort (negsuc k) p).0.stats.full_miners
        ≡ (Set.remove (get_full_miners_sorted exact sort p).0.stats.full_miners item.id).1)
      × ((remove_full_miners exact sort (negsuc k) p).1 ≡ pos n)
unfolding remove_full_miners
remove_full_miners_once sort k n p item items m s l h =
    let p' = (get_full_miners_sorted exact sort p).0 in
    let r =
      ap (λ is. remove_loop exact (negsuc k) is (pos 0) p') s
      ∙ remove_loop_once k n item items (pos 0) p' (ap (λ o. removed_of exact o (pos 0)) l ∙ h) in
    (
      ap (λ (x : Contract ℤ × ℤ). x.0.stats.full_miners) r
          ∙ drop_full-miners item.id (remove_tasks_of item.id p')
          ∙ ap (λ (x : Stats ℤ). (Set.remove x.full_miners item.id).1) (keeps_stats item.id p'),
      ap (λ (x : Contract ℤ × ℤ). x.1) r,
    )
