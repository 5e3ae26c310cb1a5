-- ===== src/Tests/Watching.antt =====
-- The contracts of a manager (internal/contractmanager/contract_manager.go). A contract is its ID.
use proxy_router.Prelude.{ℕ, ◌≡◌, refl, sym, false, String, List, [], ◌∷◌, Option, none, some, inr}
use proxy_router.Prelude.Options.{some_inj}
use proxy_router.Prelude.Int.{pos}
use proxy_router.Prelude.Assoc.{lookup, insert, delete}
use proxy_router.Containers.Collection.{load, store, delete_item}
use proxy_router.Terms.{EncryptedTerms}
use proxy_router.ContractManager.{
  Manager, Event, contract_created, contract_purchased, contract_exited, run, load_contracts,
  run_events, clone_factory_controller, handle_contract_created, handle_contract_purchased,
  is_our_contract, add_contract, start_contract, exited,
}
use proxy_router.ContractManager.Watched.{Watched, run-Watched}

abbrev terms : String → String → EncryptedTerms ℕ
terms id buyer = record {
  base = record {
    contract_id = id;
    seller = "seller";
    buyer = buyer;
    validator = "validator";
    starts_at = none;
    duration = 3600;
    hashrate = 100;
    price = pos 1;
    profit_target = pos 0;
    is_deleted = false;
    balance = pos 0;
    has_future_terms = false;
    version = 0;
  };
  validator_url_encrypted = "";
  dest_encrypted = "";
}

abbrev factory : EncryptedTerms ℕ → Option String
factory data_ = some data_.base.contract_id

factory_keeps_id :
    (data_ : EncryptedTerms ℕ) (c : String) → factory data_ ≡ some c → c ≡ data_.base.contract_id
factory_keeps_id data_ c e = sym (some_inj data_.base.contract_id c e)

abbrev empty : Manager String
empty = record { contracts = []; running = []; synced = [] }

empty-Watched : Watched empty
unfolding Watched load lookup
empty-Watched i = refl

abbrev events : List (Event ℕ String)
events =
    contract_created (inr (terms "c1" "we"))
    ∷ contract_purchased (inr (terms "c2" "other"))
    ∷ contract_purchased (inr (terms "c3" "we"))
    ∷ contract_exited "c1"
    ∷ []

run-Watched_example :
    Watched (run (λ c. c) factory "we" (inr (terms "c1" "we") ∷ []) events empty).0
run-Watched_example =
    run-Watched (λ c. c) factory "we" factory_keeps_id (inr (terms "c1" "we") ∷ []) events empty
      empty-Watched

run_leaves_one :
    (run {E = String} (λ c. c) factory "we" (inr (terms "c1" "we") ∷ []) events empty).0
    ≡ record { contracts = ("c3", "c3") ∷ []; running = "c3" ∷ []; synced = [] }
unfolding run load_contracts run_events clone_factory_controller handle_contract_created
    handle_contract_purchased is_our_contract add_contract start_contract exited load store
    delete_item lookup insert delete
run_leaves_one = refl
