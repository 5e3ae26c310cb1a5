-- ===== src/Containers/BoundStackMap/Counts.antt =====
-- What `cc` counts, through every method of internal/lib/bstackmap.go.
use proxy_router.Prelude.{
  ℕ, zero, suc, ◌+◌, ◌≤◌, ◌<◌, ◌≡◌, refl, Bool, String, List, [], ◌∷◌, ◌++◌, Option, some, inl, inr,
  arith, length, get_elem?, length-append, Option-cases, remove_at, string_eq,
}
use proxy_router.Prelude.Options.{Returns}
use proxy_router.Containers.BoundStackMap.{
  BoundStackMap, new, push, clear, filter, filter_round, filter_loop,
}

length-append_one : (ks : List String) (k : String) → length (ks ++ k ∷ []) ≡ suc (length ks)
length-append_one ks k = omega (arith, length-append ks (k ∷ []))

length-remove_at :
    (i : ℕ) (ks : List String) (k : String)
    → get_elem? ks i ≡ some k
    → suc (length (remove_at i ks)) ≡ length ks
length-remove_at i [] k h = cc
length-remove_at zero (x ∷ ks) k h = refl
length-remove_at (suc i) (x ∷ ks) k h = omega (arith, length-remove_at i ks k h)

module _ {ℓ} {V : Type ℓ} where
  -- `cc` is the number of keys held, and stays within the capacity.
  pub record IsWellFormed (bs : BoundStackMap V) : Type 0 where
    pub counted : bs.cc ≡ length bs.ordered_keys
    pub bounded : bs.cc ≤ bs.capacity

  pub new-IsWellFormed : (size : ℕ) → IsWellFormed (new size)
  unfolding new
  new-IsWellFormed size = ground arith

  -- On a well-formed map with some capacity `Push` does not panic, and leaves it well formed.
  pub push-IsWellFormed :
      (bs : BoundStackMap V) (key : String) (item : V)
      → IsWellFormed bs
      → 0 < bs.capacity
      → Returns (λ b. IsWellFormed b × (b.capacity ≡ bs.capacity)) (push bs key item)
  unfolding push
  push-IsWellFormed bs key item w pos = go bs.ordered_keys refl
    where
      go :
          (ks : List String)
          → bs.ordered_keys ≡ ks
          → Returns (λ b. IsWellFormed b × (b.capacity ≡ bs.capacity)) (push bs key item)
      go [] e = ground (arith, length-append_one [] key)
      go (k ∷ ks) e = ground (arith, length-append_one ks key, length-append_one (k ∷ ks) key)

  filter_loop-IsWellFormed :
      (n : ℕ) (f : String → Option V → Bool) (i : ℕ) (bs : BoundStackMap V)
      → IsWellFormed bs
      → IsWellFormed (filter_loop n f i bs)
  unfolding filter_loop filter_round
  filter_loop-IsWellFormed zero f i bs w = w
  filter_loop-IsWellFormed (suc n) f i bs w = elim (Option-cases (get_elem? bs.ordered_keys i)) [
    | inl e ↦ rw (e, filter_loop) w
    | inr (k, e) ↦
        rw (e, filter_loop)
          (filter_loop-IsWellFormed n f (i + 1) (filter_round f i k bs)
            (ground (arith, length-remove_at i bs.ordered_keys k e)))
  ]

  pub filter-IsWellFormed :
      (f : String → Option V → Bool) (bs : BoundStackMap V)
      → IsWellFormed bs
      → IsWellFormed (filter f bs)
  unfolding filter
  filter-IsWellFormed f bs w = filter_loop-IsWellFormed (length bs.ordered_keys) f 0 bs w

  pub clear-IsWellFormed : (bs : BoundStackMap V) → IsWellFormed (clear bs)
  unfolding clear
  clear-IsWellFormed bs = ground arith
