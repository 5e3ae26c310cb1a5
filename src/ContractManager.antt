-- ===== src/ContractManager.antt =====
-- internal/contractmanager/contract_manager.go: which contracts are watched. The contract factory
-- and what the chain answers are parameters; a contract is told from another by its ID. Of a
-- contract's goroutine the end is a step, in which it leaves the collection.
pub mod Watched
use proxy_router.Prelude.{
  ℕ, suc, Bool, true, false, not, ◌||◌, String, List, [], ◌∷◌, Option, none, some, ◌⊎◌, inl, inr,
  if◌then◌else◌, ◌==◌, ◌=?◌, string_eq,
}
use proxy_router.Prelude.Assoc.{Assoc}
use proxy_router.Containers.Collection as Collection
use proxy_router.Terms.{BaseTerms, EncryptedTerms}

pub record Manager (C : Type 0) : Type 0 where
  pub contracts : Assoc String C
  -- the IDs of the contracts that `contractsWG` runs
  pub running : List String
  -- those whose state it has asked to be loaded anew
  pub synced : List String

abbrev pub count : String → List String → ℕ
count i [] = 0
count i (x ∷ xs) = let n = count i xs in if x =? i then suc n else n

abbrev pub remove_one : String → List String → List String
remove_one i [] = []
remove_one i (x ∷ xs) = let rest = remove_one i xs in if x =? i then xs else x ∷ rest

-- The events of the clone factory, with what `GetContract` answers, and the end of a goroutine.
pub data Event (F E : Type 0) : Type 0 where
  contract_created : E ⊎ EncryptedTerms F → Event F E
  contract_purchased : E ⊎ EncryptedTerms F → Event F E
  contract_delete_updated : String → Event F E
  contract_exited : String → Event F E

module _ {C : Type 0} where
  unfoldable pub exited : String → Manager C → Manager C
  exited i cm = if count i cm.running == 0 then cm else record cm {
    contracts = Collection.delete_item cm.contracts i;
    running = remove_one i cm.running;
  }

module _ {F : Type 0} (owner_addr : String) where
  unfoldable pub is_our_contract : BaseTerms F → Bool
  is_our_contract t =
      (t.seller =? owner_addr) || ((t.buyer =? owner_addr) || (t.validator =? owner_addr))

module _ {F C : Type 0} (id : C → String) (create_contract : EncryptedTerms F → Option C) where
  -- The contract is stored and its goroutine runs, unless the factory fails.
  unfoldable pub start_contract : Option C → Manager C → Manager C
  start_contract none cm = cm
  start_contract (some c) cm = record cm {
    contracts = Collection.store id cm.contracts c;
    running = id c ∷ cm.running;
  }

  -- A contract that is there already is left alone.
  abbrev pub start_if_absent : Option C → Option C → Manager C → Manager C
  start_if_absent none created cm = start_contract created cm
  start_if_absent (some _) created cm = cm

  unfoldable pub add_contract : EncryptedTerms F → Manager C → Manager C
  add_contract data_ cm =
      start_if_absent (Collection.load cm.contracts data_.base.contract_id) (create_contract data_)
        cm

module _ {C E : Type 0} where
  abbrev pub sync : Option C → String → Manager C → Manager C × Option E
  sync none i cm = (cm, none)
  sync (some _) i cm = (record cm { synced = i ∷ cm.synced }, none)

  -- What comes next, unless there is an error.
  abbrev pub unless_failed : Manager C × Option E → Manager C × Option E → Manager C × Option E
  unless_failed (cm, none) rest = rest
  unless_failed (cm, some e) rest = (cm, some e)

module _ {F C E : Type 0} (id : C → String) (create_contract : EncryptedTerms F → Option C)
    (owner_addr : String) where
  unfoldable pub handle_contract_created : E ⊎ EncryptedTerms F → Manager C → Manager C × Option E
  handle_contract_created (inl e) cm = (cm, some e)
  handle_contract_created (inr terms) cm = (
    if is_our_contract owner_addr terms.base then add_contract id create_contract terms cm else cm,
    none,
  )

  unfoldable pub handle_contract_purchased : E ⊎ EncryptedTerms F → Manager C → Manager C × Option E
  handle_contract_purchased (inl e) cm = (cm, some e)
  handle_contract_purchased (inr terms) cm = (
    if (terms.base.buyer =? owner_addr) || (terms.base.validator =? owner_addr)
        then add_contract id create_contract terms cm
        else cm,
    none,
  )

  unfoldable pub handle_contract_delete_updated : String → Manager C → Manager C × Option E
  handle_contract_delete_updated i cm = sync (Collection.load cm.contracts i) i cm

  unfoldable pub clone_factory_controller : Event F E → Manager C → Manager C × Option E
  clone_factory_controller (contract_created a) cm = handle_contract_created a cm
  clone_factory_controller (contract_purchased a) cm = handle_contract_purchased a cm
  clone_factory_controller (contract_delete_updated i) cm = handle_contract_delete_updated i cm
  clone_factory_controller (contract_exited i) cm = (exited i cm, none)

  -- The loop of `Run` over its events; an error ends it.
  unfoldable pub run_events : List (Event F E) → Manager C → Manager C × Option E
  run_events [] cm = (cm, none)
  run_events (ev ∷ evs) cm =
      let handled = clone_factory_controller ev cm in
      unless_failed handled (run_events evs handled.0)

  -- The loop of `Run` over the contracts that there are.
  unfoldable pub load_contracts : List (E ⊎ EncryptedTerms F) → Manager C → Manager C × Option E
  load_contracts [] cm = (cm, none)
  load_contracts (inl e ∷ answers) cm = (cm, some e)
  load_contracts (inr terms ∷ answers) cm = load_contracts answers (
      if is_our_contract owner_addr terms.base
      then add_contract id create_contract terms cm
      else cm)

  -- `Run`, once the IDs are there and the subscription stands.
  unfoldable pub run :
      List (E ⊎ EncryptedTerms F) → List (Event F E) → Manager C → Manager C × Option E
  run answers evs cm =
      let loaded = load_contracts answers cm in unless_failed loaded (run_events evs loaded.0)
