-- ===== src/Containers/Collection.antt =====
-- internal/lib/collection.go: models by their IDs. `id` is the method `ID` of a model, and the
-- `sync.Map` an association list in the order of one iteration.
use proxy_router.Prelude.{
  ℕ, ◌≡◌, refl, Bool, true, false, String, [], ◌∷◌, Option, none, some, arith, if◌then◌else◌,
  length, ◌=?◌, string_eq, subst,
}
use proxy_router.Prelude.Assoc.{Assoc, lookup, insert, delete, lookup-insert}

module _ {T : Type 0} where
  unfoldable pub new_collection : Assoc String T
  new_collection = []

  unfoldable pub load : Assoc String T → String → Option T
  load p id = lookup id p

  unfoldable pub len : Assoc String T → ℕ
  len p = length p

  unfoldable pub delete_item : Assoc String T → String → Assoc String T
  delete_item p id = delete id p

  -- `Range` with a visitor that carries a state; `false` stops it.
  unfoldable pub range {κ} : {S : Type κ} → (T → S → S × Bool) → Assoc String T → S → S
  range f [] s = s
  range f ((_, v) ∷ vs) s =
      let (s', goes_on) = f v s in let rest = range f vs s' in if goes_on then rest else s'

module _ {T : Type 0} (id : T → String) where
  unfoldable pub store : Assoc String T → T → Assoc String T
  store p item = insert (id item) item p

  stored : Option T → Assoc String T → T → Assoc String T × T × Bool
  stored none p item = (insert (id item) item p, item, false)
  stored (some v) p item = (p, v, true)

  -- The collection, with the item that is in it then and whether it was there.
  unfoldable pub load_or_store : Assoc String T → T → Assoc String T × T × Bool
  unfolding stored
  load_or_store p item = stored (lookup (id item) p) p item

  stored-load :
      (o : Option T) (p : Assoc String T) (item : T) (j : String)
      → lookup (id item) p ≡ o
      → load (stored o p item).0 j ≡ (if id item =? j then some (stored o p item).1 else load p j)
  unfolding stored load
  stored-load none p item j e = lookup-insert (id item) j item p
  stored-load (some v) p item j e = ground (arith, e, string_eq.beq_iff (id item) j, moved j e)
    where
      moved : (j : String) → lookup (id item) p ≡ some v → id item ≡ j → lookup j p ≡ some v
      moved j e q = subst (λ k. lookup k p ≡ some v) q e

  -- After `LoadOrStore` the ID holds the item that the call returned, and every other ID what it
  -- held before.
  pub load_or_store-load :
      (p : Assoc String T) (item : T) (j : String)
      → load (load_or_store p item).0 j
        ≡ (if id item =? j then some (load_or_store p item).1 else load p j)
  unfolding load_or_store
  load_or_store-load p item j = stored-load (lookup (id item) p) p item j refl

  abbrev pub or_else : Option T → T → T
  or_else none item = item
  or_else (some v) item = v

  stored-item :
      (o : Option T) (p : Assoc String T) (item : T) → (stored o p item).1 ≡ or_else o item
  unfolding stored
  stored-item none p item = refl
  stored-item (some v) p item = refl

  -- The item that `LoadOrStore` returns: what was there, or else the new one.
  pub load_or_store-item :
      (p : Assoc String T) (item : T) → (load_or_store p item).1 ≡ or_else (load p (id item)) item
  unfolding load_or_store load
  load_or_store-item p item = stored-item (lookup (id item) p) p item
