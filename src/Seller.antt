-- ===== src/Seller.antt =====
-- internal/resources/hashrate/contract: what a seller's contract does to deliver its hashrate
-- (seller_stats.go, and the adjustments of contract_seller_v2.go). The schedulers of the miners are
-- those of the allocator, a map in the order of one iteration. A call reads the clock once.
pub mod Cycle
pub mod Control
pub mod Removal
pub mod Kept
pub mod Delivery
use proxy_router.Prelude.{
  ℕ, ◌+◌, ◌%◌, ◌^◌, Bool, true, false, not, ◌&&◌, String, List, [], ◌∷◌, ◌++◌, Option, none, some,
  if◌then◌else◌, length, ltb, ◌==◌, string_eq,
}
use proxy_router.Prelude.Int.{ℤ, pos, ◌+ℤ◌, ◌-ℤ◌}
use proxy_router.Prelude.Assoc.{Assoc, lookup, insert}
use proxy_router.Floats.{Float64}
use proxy_router.Containers.Set as Set
use proxy_router.Containers.Set.{filter_value}
use proxy_router.Hashrate.Units.{ghs_to_job_submitted_v2, job_submitted_to_ghs_v2}
use proxy_router.Allocator.Scheduler.{Scheduler, remove_tasks_by_id}
use proxy_router.Allocator.Miners.{MinerItem, Proxies, Sort}
use proxy_router.Allocator.Miners.Full.{allocate_full_miners_for_hr}
use proxy_router.Allocator.Miners.Partial.{allocate_partial_for_job}

-- seller_stats.go; the counter of hashrate has a module of its own.
pub record Stats (F : Type 0) : Type 0 where
  pub job_full_miners : ℕ
  pub job_partial_miners : ℕ
  pub shares_full_miners : ℕ
  pub shares_partial_miners : ℕ
  pub global_under_delivery_ghs : ℤ
  pub full_miners : List String
  pub partial_miners : List String
  pub delivery_target_ghs : F

-- The contract: its terms, its state, and the miners of the allocator.
pub record Contract (F : Type 0) : Type 0 where
  pub id : String
  pub dest : Option String
  pub hashrate_ghs : F
  pub duration : ℤ
  pub stats : Stats F
  pub starving_ghs : ℕ
  pub proxies : Proxies F

module _ {F : Type 0} where
  unfoldable pub add_full_ids : List String → Stats F → Stats F
  add_full_ids ids s = record s { full_miners = Set.add s.full_miners ids }

  unfoldable pub remove_full_miner : String → Stats F → Bool × Stats F
  remove_full_miner id s =
      let (ok, m) = Set.remove s.full_miners id in (ok, record s { full_miners = m })

  unfoldable pub add_partial_ids : List String → Stats F → Stats F
  add_partial_ids ids s = record s { partial_miners = s.partial_miners ++ ids }

  unfoldable pub remove_partial_miner : String → Stats F → Bool × Stats F
  remove_partial_miner id s =
      let miners = filter_value id s.partial_miners in
      (not (length s.partial_miners == length miners), record s { partial_miners = miners })

  -- The keys of the map that the allocator returns.
  abbrev pub ids_of : Assoc String F → List String
  ids_of [] = []
  ids_of ((id, _) ∷ m) = id ∷ ids_of m

  with_proxies : Proxies F → Contract F → Contract F
  with_proxies proxies p = record p { proxies = proxies }

  -- `RemoveTasksByID` on a miner, if the allocator has it.
  unfoldable pub remove_tasks_of : String → Contract F → Contract F
  unfolding with_proxies
  remove_tasks_of miner_id p = elim (lookup miner_id p.proxies) [
    | none ↦ p
    | some m ↦ with_proxies (insert miner_id (remove_tasks_by_id m p.id) p.proxies) p
  ]

  unfoldable pub remove_tasks_of_all : List String → Contract F → Contract F
  unfolding remove_tasks_of
  remove_tasks_of_all [] p = p
  remove_tasks_of_all (id ∷ ids) p = remove_tasks_of_all ids (remove_tasks_of id p)

  -- `removeFullMiner`, on the contract.
  unfoldable pub drop_full : String → Contract F → Contract F
  drop_full id p = record p { stats = (remove_full_miner id p.stats).1 }

  -- The IDs that the allocator has.
  abbrev pub present : Proxies F → List String → List String
  present proxies [] = []
  present proxies (id ∷ ids) = elim (lookup id proxies) [
    | none ↦ present proxies ids
    | some _ ↦ id ∷ present proxies ids
  ]

  -- The contract, with the IDs that are left in its set.
  unfoldable pub get_available_full_miners : Contract F → Contract F × List String
  get_available_full_miners p =
      let s = Set.new_set_from_slice (present p.proxies p.stats.full_miners) in
      if Set.len s == Set.len p.stats.full_miners
      then (p, p.stats.full_miners)
      else (record p { stats = record p.stats { full_miners = s } }, s)

  unfoldable pub remove_all_miners : Contract F → Contract F
  remove_all_miners p =
      let (p', full) = get_available_full_miners p in
      let q = remove_tasks_of_all full p' in remove_tasks_of_all q.stats.partial_miners q

module _ (fl : Float64) where
  open fl use {F, of_int, add, sub, abs, lt, to_int64, to_uint64}

  unfoldable pub on_full_miner_share : F → Stats F → Stats F
  on_full_miner_share diff s = record s {
    job_full_miners = (s.job_full_miners + to_uint64 diff) % 2 ^ 64;
    shares_full_miners = (s.shares_full_miners + 1) % 2 ^ 64;
  }

  unfoldable pub on_partial_miner_share : F → Stats F → Stats F
  on_partial_miner_share diff s = record s {
    job_partial_miners = (s.job_partial_miners + to_uint64 diff) % 2 ^ 64;
    shares_partial_miners = (s.shares_partial_miners + 1) % 2 ^ 64;
  }

  unfoldable pub total_job : Stats F → F
  total_job s = add (of_int (pos s.job_full_miners)) (of_int (pos s.job_partial_miners))

  -- A full miner, as `getFullMinersSorted` lists it.
  full_item : String → Scheduler F → MinerItem F
  full_item id m = record {
    id = id;
    hr_ghs = m.hashrate_ghs;
    job_remaining = of_int (pos 0);
    time_remaining = pos 0;
    is_full_miner = false;
  }

  unfoldable pub full_items : Proxies F → List String → List (MinerItem F)
  unfolding full_item
  full_items proxies [] = []
  full_items proxies (id ∷ ids) = elim (lookup id proxies) [
    | none ↦ full_items proxies ids
    | some m ↦ full_item id m ∷ full_items proxies ids
  ]

  abbrev pub item_ids : List (MinerItem F) → List String
  item_ids [] = []
  item_ids (m ∷ ms) = m.id ∷ item_ids ms

  -- Miners that are gone from the allocator leave the contract's set.
  unfoldable pub get_full_miners_sorted :
      Sort (MinerItem F) → Contract F → Contract F × List (MinerItem F)
  unfolding full_items
  get_full_miners_sorted sort p =
      let items = sort (λ a b. lt a.hr_ghs b.hr_ghs) (full_items p.proxies p.stats.full_miners) in
      if ltb (length items) (Set.len p.stats.full_miners)
      then (
        record p {
          stats = record p.stats { full_miners = Set.new_set_from_slice (item_ids items) };
        },
        items,
      )
      else (p, items)

  -- `totalGHS += miner.HrGHS`
  abbrev pub sum_ghs : F → List (MinerItem F) → F
  sum_ghs total [] = total
  sum_ghs total (m ∷ ms) = sum_ghs (add total m.hr_ghs) ms

  unfoldable pub get_full_miners_hr : Sort (MinerItem F) → Contract F → Contract F × F
  get_full_miners_hr sort p =
      let (p', items) = get_full_miners_sorted sort p in (p', sum_ghs (of_int (pos 0)) items)

  -- The hashrate of a miner that is there replaces what was noted before: `removedGHS = +...`.
  abbrev pub removed_of : Option (Scheduler F) → F → F
  removed_of none removed = removed
  removed_of (some m) removed = m.hashrate_ghs

  -- The loop of `removeFullMiners`.
  unfoldable pub remove_loop : F → List (MinerItem F) → F → Contract F → Contract F × F
  unfolding drop_full
  remove_loop hr [] removed p = (p, removed)
  remove_loop hr (item ∷ items) removed p =
      let removed' = removed_of (lookup item.id p.proxies) removed in
      let p' = drop_full item.id (remove_tasks_of item.id p) in
      let rest = remove_loop hr items removed' p' in
      if lt (sub hr removed') (of_int (pos 0)) then (p', removed') else rest

  unfoldable pub remove_full_miners : Sort (MinerItem F) → F → Contract F → Contract F × F
  remove_full_miners sort hr p =
      let (p', items) = get_full_miners_sorted sort p in remove_loop hr items (of_int (pos 0)) p'

  unfoldable pub add_full_miners : ℤ → Sort (MinerItem F) → F → Contract F → Contract F × F
  add_full_miners now sort hr p =
      let r = allocate_full_miners_for_hr fl p.id p.dest p.duration now sort p.proxies hr in
      (record p { stats = add_full_ids r.miner_ids p.stats; proxies = r.proxies }, sub hr r.hr_ghs)

  unfoldable pub add_partial_miners : ℤ → Sort (MinerItem F) → F → ℤ → Contract F → Contract F × F
  add_partial_miners now sort job cycle_end_timeout p =
      let (s, remainder) =
        allocate_partial_for_job fl p.id p.dest cycle_end_timeout now sort p.proxies job in
      (
        record p { stats = add_partial_ids (ids_of s.miner_id_job) p.stats; proxies = s.proxies },
        sub job remainder,
      )
