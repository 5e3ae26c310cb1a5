-- ===== src/Containers/Stack.antt =====
-- internal/lib/stack.go. The list holds the slice in its order, so the top of the stack is its
-- last element. A zero value that comes with `false` is `none`.
pub mod Order
use proxy_router.Prelude.{
  ℕ, ◌-◌, Bool, List, [], ◌∷◌, ◌++◌, Option, none, some, if◌then◌else◌, length, ◌==◌, get_elem?,
  take,
}

module _ {ℓ} {A : Type ℓ} where
  unfoldable pub is_empty : List A → Bool
  is_empty s = length s == 0

  unfoldable pub push : List A → A → List A
  push s a = s ++ a ∷ []

  unfoldable pub peek : List A → Option A
  unfolding is_empty
  peek s = if is_empty s then none else get_elem? s (length s - 1)

  -- The element popped, and the stack that is left.
  unfoldable pub pop : List A → Option A × List A
  unfolding is_empty
  pop s = if is_empty s then (none, s) else (get_elem? s (length s - 1), take (length s - 1) s)

  unfoldable pub size : List A → ℕ
  size s = length s

  unfoldable pub clear : List A → List A
  clear s = []

  -- The loop of `Remove`: `new` is `newStack`.
  unfoldable pub remove_loop : (A → Bool) → List A → List A → List A
  unfolding push
  remove_loop f new [] = new
  remove_loop f new (v ∷ s) = remove_loop f (if f v then new else push new v) s

  unfoldable pub remove : (A → Bool) → List A → List A
  unfolding remove_loop
  remove f s = remove_loop f [] s

  -- `Range` with a visitor that carries a state; `false` from the visitor stops it.
  unfoldable pub range {κ} : {S : Type κ} → (A → S → S × Bool) → List A → S → S
  range f [] s = s
  range f (v ∷ vs) s =
      let (s', goes_on) = f v s in let rest = range f vs s' in if goes_on then rest else s'
