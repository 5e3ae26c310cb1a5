-- ===== src/Containers/BoundStackMap/Duplicates.antt =====
-- What `Push` does to a key that is held twice (internal/lib/bstackmap.go).
use proxy_router.Prelude.{
  ◌≡◌, ◌≢◌, refl, ◌⊎◌, true, String, List, [], ◌∷◌, none, some, arith, Among, Among-append, ◌==◌,
  string_eq, ==_iff,
}
use proxy_router.Prelude.Options.{Returns}
use proxy_router.Prelude.Assoc.{delete, lookup-insert, lookup-delete}
use proxy_router.Containers.BoundStackMap.{BoundStackMap, push, get, append_key, evict}

module _ {V : Type 0} where
  -- At capacity, when the oldest key is held a second time, pushing any other key loses the item
  -- of that key: `Get` misses it although the key is still held.
  pub push-loses_duplicate :
      (bs : BoundStackMap V) (k j : String) (ks : List String) (item : V)
      → bs.ordered_keys ≡ k ∷ ks
      → bs.cc ≡ bs.capacity
      → Among k ks
      → j ≢ k
      → Returns (λ b. Among k b.ordered_keys × (get b k ≡ none)) (push bs j item)
  unfolding push append_key evict get
  push-loses_duplicate bs k j ks item o full m ne =
      let e : bs.cc == bs.capacity ≡ true = (==_iff bs.cc bs.capacity).1 full in
      rw (e, o, push)
        (
          Among-append k j ks m,
          rw (lookup-insert j k item (delete k bs.data_map), lookup-delete k k bs.data_map)
              (ground (arith, string_eq.beq_iff j k, string_eq.beq_iff k k)),
        )

module _ {V : Type 0} where
  -- A push that returns keeps the value of another key, or evicts it.
  pub get-push :
      (bs b : BoundStackMap V) (k id : String) (v : V)
      → k ≢ id
      → push bs k v ≡ some b
      → (get b id ≡ none) ⊎ (get b id ≡ get bs id)
  unfolding push get append_key evict
  get-push bs b k id v n e = go bs.ordered_keys refl e
    where
      go :
          (ks : List String)
          → bs.ordered_keys ≡ ks
          → push bs k v ≡ some b
          → (get b id ≡ none) ⊎ (get b id ≡ get bs id)
      go [] f h = ground (arith, string_eq.beq_iff k id, lookup-insert k id v bs.data_map)
      go (q ∷ ks) f h = ground (
        arith,
        string_eq.beq_iff k id,
        lookup-insert k id v bs.data_map,
        lookup-insert k id v (delete q bs.data_map),
        lookup-delete q id bs.data_map,
      )

  pub get-push_self :
      (bs b : BoundStackMap V) (k : String) (v : V) → push bs k v ≡ some b → get b k ≡ some v
  unfolding push get append_key evict
  get-push_self bs b k v e = go bs.ordered_keys refl e
    where
      go : (ks : List String) → bs.ordered_keys ≡ ks → push bs k v ≡ some b → get b k ≡ some v
      go [] f h = ground (arith, string_eq.beq_iff k k, lookup-insert k k v bs.data_map)
      go (q ∷ ks) f h = ground (
        arith,
        string_eq.beq_iff k k,
        lookup-insert k k v bs.data_map,
        lookup-insert k k v (delete q bs.data_map),
      )
