-- ===== src/Containers/BoundStackMap/Last.antt =====
-- The last entry after a push (internal/lib/bstackmap.go), which `At(-1)` reads.
use proxy_router.Prelude.{
  ◌≡◌, ◌<◌, refl, ap, sym, true, false, String, ◌==◌, ◌⊎◌, inl, inr, Bool-cases, List, [], ◌∷◌,
  ◌++◌, some, arith, length, length-append, get_elem?, string_eq,
}
use proxy_router.Prelude.Options.{some_inj, Returns, Returns-map, Returns-and}
use proxy_router.Prelude.Int.{negsuc, ◌+ℤ◌}
use proxy_router.Containers.BoundStackMap.{
  BoundStackMap, append_key, evict, push, get, at, at_index,
}
use proxy_router.Containers.BoundStackMap.Counts.{IsWellFormed, push-IsWellFormed}
use proxy_router.Containers.BoundStackMap.Duplicates.{get-push_self}

get_elem?-append_end :
    {A : Type 0} (xs : List A) (a : A) → get_elem? (xs ++ a ∷ []) (length xs) ≡ some a
get_elem?-append_end [] a = refl
get_elem?-append_end (x ∷ xs) a = get_elem?-append_end xs a

module _ {V : Type 0} where
  -- The keys end with one.
  abbrev EndsWith : String → BoundStackMap V → Type 0
  EndsWith k b = (ks : List String) × (b.ordered_keys ≡ ks ++ k ∷ [])

  push-EndsWith :
      (bs b : BoundStackMap V) (k : String) (v : V) → push bs k v ≡ some b → EndsWith k b
  unfolding push append_key evict
  push-EndsWith bs b k v e = go bs.ordered_keys refl (Bool-cases (bs.cc == bs.capacity))
    where
      go :
          (ks : List String)
          → bs.ordered_keys ≡ ks
          → (bs.cc == bs.capacity ≡ true) ⊎ (bs.cc == bs.capacity ≡ false)
          → EndsWith k b
      go ks f (inr below) = (ks, ap (λ c. c.ordered_keys) (sym (some_inj _ _ (rw (below, f) at e))))
      go [] f (inl full) = absurd (ground (arith, e, f, full))
      go (q ∷ ks) f (inl full) =
          (ks, ap (λ c. c.ordered_keys) (sym (some_inj _ _ (rw (full, f) at e))))

  at-EndsWith :
      (b : BoundStackMap V) (k : String) (v : V)
      → IsWellFormed b
      → EndsWith k b
      → get b k ≡ some v
      → at b (negsuc 0) ≡ some (some v)
  unfolding at at_index get ◌+ℤ◌
  at-EndsWith b k v w (ks, e) g =
      ground (arith, e, w.counted, length-append ks (k ∷ []), get_elem?-append_end ks k, g)

  -- A push that does not panic is read back as the last entry.
  pub at-push_last :
      (bs : BoundStackMap V) (k : String) (v : V)
      → IsWellFormed bs
      → 0 < bs.capacity
      → Returns
          (λ b. (IsWellFormed b × (b.capacity ≡ bs.capacity)) × (at b (negsuc 0) ≡ some (some v)))
          (push bs k v)
  at-push_last bs k v w p =
      Returns-map
        (λ b. (IsWellFormed b × (b.capacity ≡ bs.capacity)) × (EndsWith k b × (get b k ≡ some v))) _
        _
        (Returns-and (λ b. IsWellFormed b × (b.capacity ≡ bs.capacity))
          (λ b. EndsWith k b × (get b k ≡ some v)) _ (push-IsWellFormed bs k v w p)
          (λ b e. (push-EndsWith bs b k v e, get-push_self bs b k v e)))
        (λ b q. (q.0, at-EndsWith b k v q.0.0 q.1.0 q.1.1))
