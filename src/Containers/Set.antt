-- ===== src/Containers/Set.antt =====
-- internal/lib/set.go and internal/lib/array.go. The `sync.Map` behind a set is the list of its keys
-- in the order of one iteration.
pub mod Members
use proxy_router.Prelude.{
  ℕ, Bool, true, false, not, ◌||◌, String, List, [], ◌∷◌, ◌++◌, if◌then◌else◌, length, ◌=?◌,
  string_eq, Eq,
}

abbrev pub Set : Type 0
Set = List String

unfoldable pub new_set : Set
new_set = []

unfoldable pub contains : Set → String → Bool
contains [] value = false
contains (v ∷ s) value = (v =? value) || contains s value

-- `Store` of one key.
unfoldable pub store : String → Set → Set
unfolding contains
store v s = if contains s v then s else s ++ v ∷ []

unfoldable pub add : Set → List String → Set
unfolding store
add s [] = s
add s (v ∷ values) = add (store v s) values

unfoldable pub new_set_from_slice : List String → Set
unfolding add new_set
new_set_from_slice slice = add new_set slice

unfoldable pub without : String → Set → Set
without value [] = []
without value (v ∷ s) = if v =? value then without value s else v ∷ without value s

-- Whether the key was there, and the set after it.
unfoldable pub remove : Set → String → Bool × Set
unfolding contains without
remove s value = (contains s value, without value s)

unfoldable pub len : Set → ℕ
len s = length s

unfoldable pub to_slice : Set → List String
to_slice s = s

unfoldable pub clear : Set → Set
clear s = []

-- array.go; `ret` is the slice that the loop appends to.
module _ {A : Type 0} where
  unfoldable pub filter_loop : (A → Bool) → List A → List A → List A
  filter_loop f ret [] = ret
  filter_loop f ret (v ∷ arr) = filter_loop f (if f v then ret ++ v ∷ [] else ret) arr

  unfoldable pub filter : (A → Bool) → List A → List A
  unfolding filter_loop
  filter f arr = filter_loop f [] arr

  unfoldable pub filter_value : ⦃e : Eq A⦄ → A → List A → List A
  unfolding filter_loop
  filter_value val arr = filter_loop (λ v. not (v =? val)) [] arr
