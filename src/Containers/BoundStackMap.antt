-- ===== src/Containers/BoundStackMap.antt =====
-- internal/lib/bstackmap.go. The mutex is left out: each method holds it for its whole body. The
-- Go integer `cc` never falls below 0 while the map is well formed (`IsWellFormed`), so it is a
-- natural number; an index may be negative. `none` stands for a panic in `push`, and for the zero
-- value that Go's maps give for a key that is not there.
pub mod Counts
pub mod Window
pub mod Latest
pub mod Last
pub mod Duplicates
use proxy_router.Prelude.{
  ℕ, zero, suc, ◌+◌, ◌-◌, Bool, true, false, String, List, [], ◌∷◌, ◌++◌, Option, none, some, ◌||◌,
  if◌then◌else◌, length, ltb, ◌==◌, get_elem?, remove_at, string_eq,
}
use proxy_router.Prelude.Options.{◌>>=◌}
use proxy_router.Prelude.Int.{ℤ, pos, negsuc, ◌+ℤ◌, ltb_ℤ}
use proxy_router.Prelude.Assoc.{Assoc, lookup, insert, delete}

pub record BoundStackMap {ℓ} (V : Type ℓ) : Type ℓ where
  pub capacity : ℕ
  pub data_map : Assoc String V
  pub ordered_keys : List String
  pub cc : ℕ

module _ {ℓ} {V : Type ℓ} where
  unfoldable pub new : ℕ → BoundStackMap V
  new size = record { capacity = size; data_map = []; ordered_keys = []; cc = 0 }

  -- The last two lines of `Push`.
  append_key : String → V → BoundStackMap V → BoundStackMap V
  append_key key item bs = record bs {
    ordered_keys = bs.ordered_keys ++ key ∷ [];
    data_map = insert key item bs.data_map;
  }

  -- At capacity the oldest key goes first; with no key there, `orderedKeys[0]` panics.
  evict : List String → BoundStackMap V → Option (BoundStackMap V)
  evict [] bs = none
  evict (k ∷ ks) bs = some (record bs { data_map = delete k bs.data_map; ordered_keys = ks })

  unfoldable pub push : BoundStackMap V → String → V → Option (BoundStackMap V)
  unfolding append_key evict
  push bs key item =
      if bs.cc == bs.capacity
      then (do b ← evict bs.ordered_keys bs; some (append_key key item b))
      else some (append_key key item (record bs { cc = bs.cc + 1 }))

  unfoldable pub get : BoundStackMap V → String → Option V
  get bs key = lookup key bs.data_map

  -- What `At` reads once the index is adjusted. `some none` is a zero value with `true`.
  at_index : BoundStackMap V → ℤ → Option (Option V)
  at_index bs (negsuc i) = none
  at_index bs (pos i) =
      if ltb (bs.cc - 1) i || (bs.cc == 0)
      then none
      else (do k ← get_elem? bs.ordered_keys i; some (lookup k bs.data_map))

  unfoldable pub at : BoundStackMap V → ℤ → Option (Option V)
  unfolding at_index ◌+ℤ◌
  at bs index = at_index bs (if ltb_ℤ index (pos 0) then pos bs.cc +ℤ index else index)

  unfoldable pub clear : BoundStackMap V → BoundStackMap V
  clear bs = record bs { cc = 0; data_map = []; ordered_keys = [] }

  unfoldable pub count : BoundStackMap V → ℕ
  count bs = bs.cc

  -- One round of `Filter` at the index `i`, where the key is `k`.
  filter_round : (String → Option V → Bool) → ℕ → String → BoundStackMap V → BoundStackMap V
  filter_round f i k bs = if f k (lookup k bs.data_map) then bs else record bs {
    data_map = delete k bs.data_map;
    ordered_keys = remove_at i bs.ordered_keys;
    cc = bs.cc - 1;
  }

  -- `i` rises in each round, so as many rounds as there are keys are enough.
  unfoldable pub filter_loop :
      ℕ → (String → Option V → Bool) → ℕ → BoundStackMap V → BoundStackMap V
  unfolding filter_round
  filter_loop zero f i bs = bs
  filter_loop (suc n) f i bs = elim (get_elem? bs.ordered_keys i) [
    | none ↦ bs
    | some k ↦ filter_loop n f (i + 1) (filter_round f i k bs)
  ]

  unfoldable pub filter : (String → Option V → Bool) → BoundStackMap V → BoundStackMap V
  unfolding filter_loop
  filter f bs = filter_loop (length bs.ordered_keys) f 0 bs
