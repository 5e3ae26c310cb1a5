-- ===== src/Containers/Stack/Order.antt =====
-- Last in, first out, and the order that `Remove` keeps (internal/lib/stack.go).
use proxy_router.Prelude.{
  ◌+◌, ◌≡◌, refl, Bool, List, [], ◌∷◌, ◌++◌, some, arith, if◌then◌else◌, length, get_elem?, take,
  length-append, append_assoc, append-nil, ap, ◌∙◌, Bool-cases, inl, inr,
}
use proxy_router.Containers.Stack.{push, pop, peek, remove, remove_loop}

module _ {ℓ} {A : Type ℓ} where
  get_elem?-append_end : (s : List A) (a : A) → get_elem? (s ++ a ∷ []) (length s) ≡ some a
  get_elem?-append_end [] a = refl
  get_elem?-append_end (x ∷ s) a = get_elem?-append_end s a

  take-append : (s t : List A) → take (length s) (s ++ t) ≡ s
  take-append [] t = refl
  take-append (x ∷ s) t = ap (◌∷◌ x) (take-append s t)

  pub length-push : (s : List A) (a : A) → length (push s a) ≡ length s + 1
  unfolding push
  length-push s a = omega (arith, length-append s (a ∷ []))

  -- A push is what the next `Pop` and `Peek` return, and `Pop` brings the stack back as it was.
  pub pop-push : (s : List A) (a : A) → (pop (push s a) ≡ (some a, s)) × (peek (push s a) ≡ some a)
  unfolding pop peek push
  pop-push s a =
      ground (arith, length-append s (a ∷ []), get_elem?-append_end s a, take-append s (a ∷ []))

  -- The elements that fail the test, in their order.
  abbrev pub rejects : (A → Bool) → List A → List A
  rejects f [] = []
  rejects f (v ∷ s) = if f v then rejects f s else v ∷ rejects f s

  remove_loop-eq-append : (f : A → Bool) (new s : List A) → remove_loop f new s ≡ new ++ rejects f s
  unfolding remove_loop push
  remove_loop-eq-append f new [] = simp append-nil
  remove_loop-eq-append f new (v ∷ s) = elim (Bool-cases (f v)) [
    | inl e ↦ rw e (remove_loop-eq-append f new s)
    | inr e ↦
        rw e (remove_loop-eq-append f (new ++ v ∷ []) s ∙ append_assoc new (v ∷ []) (rejects f s))
  ]

  pub remove-rejects : (f : A → Bool) (s : List A) → remove f s ≡ rejects f s
  unfolding remove
  remove-rejects f s = remove_loop-eq-append f [] s
