-- ===== src/ContractManager/Watched.antt =====
-- Each contract of the manager is run by one goroutine (contract_manager.go).
use proxy_router.Prelude.{
  ℕ, ap, subst, sym, ◌-◌, ◌≡◌, refl, Bool, true, false, ◌||◌, String, List, [], ◌∷◌, Option, none,
  some, ◌⊎◌, inl, inr, arith, if◌then◌else◌, ◌==◌, ◌=?◌, string_eq, Bool-cases,
}
use proxy_router.Prelude.Assoc.{lookup-insert, lookup-delete}
use proxy_router.Containers.Collection as Collection
use proxy_router.Terms.{EncryptedTerms}
use proxy_router.ContractManager.{
  Manager, count, remove_one, Event, contract_created, contract_purchased, contract_delete_updated,
  contract_exited, is_our_contract, start_contract, start_if_absent, sync, unless_failed,
  add_contract, exited, handle_contract_created, handle_contract_purchased,
  handle_contract_delete_updated, clone_factory_controller, run_events, load_contracts, run,
}

abbrev pub one_if : {C : Type 0} → Option C → ℕ
one_if none = 0
one_if (some c) = 1

-- A contract in the collection has one goroutine, and an ID that is not there none.
unfoldable pub Watched : {C : Type 0} → Manager C → Type 0
Watched cm = (i : String) → count i cm.running ≡ one_if (Collection.load cm.contracts i)

count-remove_one :
    (i j : String) (xs : List String)
    → count j (remove_one i xs) ≡ (if i =? j then count j xs - 1 else count j xs)
count-remove_one i j [] = ground arith
count-remove_one i j (x ∷ xs) = grind (
  arith,
  count-remove_one i j xs,
  string_eq.beq_iff x i,
  string_eq.beq_iff x j,
  string_eq.beq_iff i j,
)

-- How the two sides of `Watched` move together when an ID is put in or taken off.
one_if-if :
    {C : Type 0} (b : Bool) (o p : Option C)
    → one_if (if b then o else p) ≡ (if b then one_if o else one_if p)
one_if-if true o p = refl
one_if-if false o p = refl

at_same :
    {C : Type 0} (f : String → Option C) (k i : String)
    → f k ≡ none
    → (k =? i) ≡ true
    → one_if (f i) ≡ 0
at_same f k i n e = ap one_if (subst (λ x. f x ≡ none) ((string_eq.beq_iff k i).0 e) n)

module _ {F C : Type 0} (id : C → String) (create_contract : EncryptedTerms F → Option C) where
  start_contract-Watched :
      (c : C) (cm : Manager C)
      → Collection.load cm.contracts (id c) ≡ none
      → Watched cm
      → Watched (start_contract id create_contract (some c) cm)
  unfolding start_contract Collection.load Collection.store Watched
  start_contract-Watched c cm n w i =
      rw
        (
          lookup-insert (id c) i c cm.contracts,
          one_if-if (id c =? i) (some c) (Collection.load cm.contracts i),
        )
        (elim (Bool-cases (id c =? i)) [
          | inl same ↦
              ground (arith, same, w i, at_same (Collection.load cm.contracts) (id c) i n same)
          | inr other ↦ ground (arith, other, w i)
        ])

taken_off :
    {C : Type 0} (b : Bool) (n : ℕ) (o : Option C)
    → n ≡ one_if o
    → (if b then n - 1 else n) ≡ one_if (if b then none else o)
taken_off true n none e = ground (arith, e)
taken_off true n (some c) e = ground (arith, e)
taken_off false n o e = e

module _ {C : Type 0} where
  taken_off-Watched :
      (j i : String) (cm : Manager C)
      → Watched cm
      → count i (remove_one j cm.running)
        ≡ one_if (Collection.load (Collection.delete_item cm.contracts j) i)
  unfolding Collection.load Collection.delete_item Watched
  taken_off-Watched j i cm w =
      rw (count-remove_one j i cm.running, lookup-delete j i cm.contracts)
        (taken_off (j =? i) (count i cm.running) (Collection.load cm.contracts i) (w i))

  exited-Watched : (j : String) (cm : Manager C) → Watched cm → Watched (exited j cm)
  unfolding exited Collection.load Collection.delete_item Watched
  exited-Watched j cm w i = elim (Bool-cases (count j cm.running == 0)) [
    | inl none_left ↦ rw none_left (w i)
    | inr runs ↦ rw runs (taken_off-Watched j i cm w)
  ]

module _ {F C : Type 0} (id : C → String) (create_contract : EncryptedTerms F → Option C)
    (keeps_id : (data_ : EncryptedTerms F) (c : C)
      → create_contract data_ ≡ some c
      → id c ≡ data_.base.contract_id) where
  created-Watched :
      (data_ : EncryptedTerms F) (cm : Manager C) (o : Option C)
      → create_contract data_ ≡ o
      → Collection.load cm.contracts data_.base.contract_id ≡ none
      → Watched cm
      → Watched (start_contract id create_contract o cm)
  unfolding start_contract
  created-Watched data_ cm none e n w = w
  created-Watched data_ cm (some c) e n w =
      start_contract-Watched id create_contract c cm
        (subst (λ k. Collection.load cm.contracts k ≡ none) (sym (keeps_id data_ c e)) n) w

  start_if_absent-Watched :
      (data_ : EncryptedTerms F) (cm : Manager C) (o : Option C)
      → Collection.load cm.contracts data_.base.contract_id ≡ o
      → Watched cm
      → Watched (start_if_absent id create_contract o (create_contract data_) cm)
  start_if_absent-Watched data_ cm none n w =
      created-Watched data_ cm (create_contract data_) refl n w
  start_if_absent-Watched data_ cm (some c) n w = w

  add_contract-Watched :
      (data_ : EncryptedTerms F) (cm : Manager C)
      → Watched cm
      → Watched (add_contract id create_contract data_ cm)
  unfolding add_contract
  add_contract-Watched data_ cm w = start_if_absent-Watched data_ cm _ refl w

  add_if-Watched :
      (b : Bool) (data_ : EncryptedTerms F) (cm : Manager C)
      → Watched cm
      → Watched (if b then add_contract id create_contract data_ cm else cm)
  add_if-Watched true data_ cm w = add_contract-Watched data_ cm w
  add_if-Watched false data_ cm w = w

module _ {C : Type 0} (E : Type 0) where
  sync-Watched :
      (o : Option C) (i : String) (cm : Manager C) → Watched cm → Watched (sync {E = E} o i cm).0
  unfolding Watched
  sync-Watched none i cm w = w
  sync-Watched (some c) i cm w = w

module _ {C E : Type 0} where
  unless_failed-Watched :
      (first rest : Manager C × Option E)
      → Watched first.0
      → Watched rest.0
      → Watched (unless_failed first rest).0
  unless_failed-Watched (cm, none) rest w k = k
  unless_failed-Watched (cm, some e) rest w k = w

module _ {F C E : Type 0} (id : C → String) (create_contract : EncryptedTerms F → Option C)
    (owner_addr : String)
    (keeps_id : (data_ : EncryptedTerms F) (c : C)
      → create_contract data_ ≡ some c
      → id c ≡ data_.base.contract_id) where
  controller-Watched :
      (ev : Event F E) (cm : Manager C)
      → Watched cm
      → Watched (clone_factory_controller id create_contract owner_addr ev cm).0
  unfolding clone_factory_controller handle_contract_delete_updated handle_contract_created
      handle_contract_purchased
  controller-Watched (contract_created (inl e)) cm w = w
  controller-Watched (contract_created (inr t)) cm w =
      add_if-Watched id create_contract keeps_id (is_our_contract owner_addr t.base) t cm w
  controller-Watched (contract_purchased (inl e)) cm w = w
  controller-Watched (contract_purchased (inr t)) cm w =
      add_if-Watched id create_contract keeps_id
        ((t.base.buyer =? owner_addr) || (t.base.validator =? owner_addr)) t cm w
  controller-Watched (contract_delete_updated i) cm w =
      sync-Watched E (Collection.load cm.contracts i) i cm w
  controller-Watched (contract_exited i) cm w = exited-Watched i cm w

  run_events-Watched :
      (evs : List (Event F E)) (cm : Manager C)
      → Watched cm
      → Watched (run_events id create_contract owner_addr evs cm).0
  unfolding run_events
  run_events-Watched [] cm w = w
  run_events-Watched (ev ∷ evs) cm w =
      let q = controller-Watched ev cm w in unless_failed-Watched _ _ q (run_events-Watched evs _ q)

  load_contracts-Watched :
      (answers : List (E ⊎ EncryptedTerms F)) (cm : Manager C)
      → Watched cm
      → Watched (load_contracts id create_contract owner_addr answers cm).0
  unfolding load_contracts
  load_contracts-Watched [] cm w = w
  load_contracts-Watched (inl e ∷ answers) cm w = w
  load_contracts-Watched (inr t ∷ answers) cm w =
      load_contracts-Watched answers _
        (add_if-Watched id create_contract keeps_id (is_our_contract owner_addr t.base) t cm w)

  -- Whatever the chain answers and in whatever order events and ends of contracts come, when `Run`
  -- has dealt with them each contract of the collection is run by exactly one goroutine, and a contract
  -- that is not in the collection by none, if that held at the start and the factory keeps the ID of
  -- the terms.
  pub run-Watched :
      (answers : List (E ⊎ EncryptedTerms F)) (evs : List (Event F E)) (cm : Manager C)
      → Watched cm
      → Watched (run id create_contract owner_addr answers evs cm).0
  unfolding run
  run-Watched answers evs cm w =
      let q = load_contracts-Watched answers cm w in
      unless_failed-Watched _ _ q (run_events-Watched evs _ q)
