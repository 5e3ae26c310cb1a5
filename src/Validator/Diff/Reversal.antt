-- ===== src/Validator/Diff/Reversal.antt =====
-- The loop of `reverse` in validator_diff.go swaps in place: what it leaves at each position.
use proxy_router.Prelude.{
  ℕ, zero, suc, ◌+◌, ◌-◌, ◌≤◌, ◌<◌, ◌≡◌, ◌≢◌, ◌⊎◌, inl, inr, refl, sym, ap, ◌∙◌, List, [], ◌∷◌,
  some, arith, ltb, length, get_elem?, get_or, set, length-set, get_elem?-set_self,
  get_elem?-set_ne, Bool-cases, ℕ_discrete,
}
use proxy_router.Validator.Diff.{reverse, reverse_loop, swap}

get_elem?-get_or : (xs : List ℕ) (i : ℕ) → i < length xs → get_elem? xs i ≡ some (get_or xs i 0)
get_elem?-get_or [] i h = elim h [ ]
get_elem?-get_or (x ∷ xs) zero h = refl
get_elem?-get_or (x ∷ xs) (suc i) h = get_elem?-get_or xs i (omega arith)

length-swap : (i j : ℕ) (xs : List ℕ) → length (swap i j xs) ≡ length xs
length-swap i j xs =
    length-set (set xs i (get_or xs j 0)) j (get_or xs i 0) ∙ length-set xs i (get_or xs j 0)

swap_left :
    (i j : ℕ) (xs : List ℕ) → i < j → j < length xs → get_elem? (swap i j xs) i ≡ get_elem? xs j
swap_left i j xs h l =
    get_elem?-set_ne (set xs i (get_or xs j 0)) (get_or xs i 0) (λ e. omega (arith, e))
    ∙ get_elem?-set_self xs i (get_or xs j 0) (omega arith)
    ∙ sym (get_elem?-get_or xs j l)

swap_right :
    (i j : ℕ) (xs : List ℕ) → i < j → j < length xs → get_elem? (swap i j xs) j ≡ get_elem? xs i
swap_right i j xs h l =
    get_elem?-set_self (set xs i (get_or xs j 0)) j (get_or xs i 0)
      (omega (arith, length-set xs i (get_or xs j 0)))
    ∙ sym (get_elem?-get_or xs i (omega arith))

swap_other : (i j k : ℕ) (xs : List ℕ) → i ≢ k → j ≢ k → get_elem? (swap i j xs) k ≡ get_elem? xs k
swap_other i j k xs h l =
    get_elem?-set_ne (set xs i (get_or xs j 0)) (get_or xs i 0) l
    ∙ get_elem?-set_ne xs (get_or xs j 0) h

length-reverse_loop : (n i j : ℕ) (xs : List ℕ) → length (reverse_loop n i j xs) ≡ length xs
unfolding reverse_loop
length-reverse_loop zero i j xs = refl
length-reverse_loop (suc n) i j xs =
    ground (arith, length-reverse_loop n (i + 1) (j - 1) (swap i j xs), length-swap i j xs)

-- Outside of `i` to `j` nothing moves.
loop_outside :
    (n i j k : ℕ) (xs : List ℕ)
    → (k < i) ⊎ (j < k)
    → get_elem? (reverse_loop n i j xs) k ≡ get_elem? xs k
unfolding reverse_loop
loop_outside zero i j k xs o = refl
loop_outside (suc n) i j k xs o = elim (Bool-cases (ltb i j)) [
  | inr e ↦ rw (e, reverse_loop)
  | inl e ↦
      rw (e, reverse_loop)
        (loop_outside n (i + 1) (j - 1) k (swap i j xs) (ground arith)
          ∙ swap_other i j k xs (λ e'. ground (arith, e')) (λ e'. ground (arith, e')))
]

-- One round, whatever the rounds within it do to the positions between.
mirror_round :
    (i j k : ℕ) (xs ys : List ℕ)
    → i < j
    → j < length xs
    → ((m : ℕ) → (m < i + 1) ⊎ (j - 1 < m) → get_elem? ys m ≡ get_elem? (swap i j xs) m)
    → (i + 1 ≤ k → k ≤ j - 1 → get_elem? ys k ≡ get_elem? (swap i j xs) (i + 1 + (j - 1) - k))
    → i ≤ k
    → k ≤ j
    → Dec (i ≡ k)
    → Dec (j ≡ k)
    → get_elem? ys k ≡ get_elem? xs (i + j - k)
mirror_round i j k xs ys h l out within a b (yes p) _ =
    out k (inl (omega (arith, p)))
    ∙ ap (get_elem? (swap i j xs)) (sym p)
    ∙ swap_left i j xs h l
    ∙ ap (get_elem? xs) (omega (arith, p))
mirror_round i j k xs ys h l out within a b (no _) (yes p) =
    out k (inr (omega (arith, p)))
    ∙ ap (get_elem? (swap i j xs)) (sym p)
    ∙ swap_right i j xs h l
    ∙ ap (get_elem? xs) (omega (arith, p))
mirror_round i j k xs ys h l out within a b (no p) (no q) =
    within (ground (arith, p)) (ground (arith, q))
    ∙ swap_other i j (i + 1 + (j - 1) - k) xs (λ e. q (omega (arith, e)))
        (λ e. p (omega (arith, e)))
    ∙ ap (get_elem? xs) (omega (arith, h))

-- From `i` to `j` the positions change places about the middle.
loop_inside :
    (n i j k : ℕ) (xs : List ℕ)
    → j < length xs
    → j < i + n
    → i ≤ k
    → k ≤ j
    → get_elem? (reverse_loop n i j xs) k ≡ get_elem? xs (i + j - k)
unfolding reverse_loop
loop_inside zero i j k xs l f a b = absurd (omega arith)
loop_inside (suc n) i j k xs l f a b = elim (Bool-cases (ltb i j)) [
  | inr e ↦ rw (e, reverse_loop) (ap (get_elem? xs) (ground arith))
  | inl e ↦
      let h : i < j = ground (arith, e) in
      rw (e, reverse_loop)
        (mirror_round i j k xs (reverse_loop n (i + 1) (j - 1) (swap i j xs)) h l
          (λ m o. loop_outside n (i + 1) (j - 1) m (swap i j xs) o)
          (λ c d.
            loop_inside n (i + 1) (j - 1) k (swap i j xs) (omega (arith, length-swap i j xs))
              (omega arith) c d)
          a b (ℕ_discrete i k) (ℕ_discrete j k))
]

-- `reverse` keeps the length, and the byte at each position is the one that stood as far from the
-- other end.
pub reverse_mirror :
    (xs : List ℕ) (k : ℕ)
    → k < length xs
    → (length (reverse xs) ≡ length xs)
      × (get_elem? (reverse xs) k ≡ get_elem? xs (length xs - 1 - k))
unfolding reverse
reverse_mirror xs k h = (
  length-reverse_loop (length xs) 0 (length xs - 1) xs,
  loop_inside (length xs) 0 (length xs - 1) k xs (omega arith) (omega arith) (omega arith)
        (omega arith)
      ∙ ap (get_elem? xs) (omega arith),
)
