-- ===== src/Hashrate/Sma/Window.antt =====
-- What the check of sma.go leaves in the deque.
use proxy_router.Prelude.{
  ℕ, zero, suc, ◌+◌, ◌≤◌, ◌≡◌, refl, sym, ap, ◌∙◌, subst, List, [], ◌∷◌, ◌++◌, arith, if◌then◌else◌,
  length, length-append, Bool-cases, inl, inr, if_true, if_false,
}
use proxy_router.Prelude.Int.{ℤ, pos, ◌+ℤ◌, ◌-ℤ◌, int_laws, +ℤ_comm, +ℤ_assoc}
use proxy_router.Floats.{Float64}
use proxy_router.Floats.Exact.{exact}
use proxy_router.Hashrate.Sma.{
  Measurement, Sma, split_back, is_recent, negate, adjust_sum, check_loop, check,
}

module _ {F : Type 0} where
  -- The measurements within the window, in their order.
  abbrev pub recent : ℕ → ℕ → List (Measurement F) → List (Measurement F)
  recent now window [] = []
  recent now window (m ∷ ms) =
      if is_recent now window m then m ∷ recent now window ms else recent now window ms

  -- None of the list is newer.
  abbrev pub NoNewer : ℕ → List (Measurement F) → Type 0
  NoNewer t [] = Unit
  NoNewer t (m ∷ ms) = (m.timestamp ≤ t) × NoNewer t ms

  -- Newest first.
  abbrev pub Ordered : List (Measurement F) → Type 0
  Ordered [] = Unit
  Ordered (m ∷ ms) = NoNewer m.timestamp ms × Ordered ms

  abbrev NoOlder : ℕ → List (Measurement F) → Type 0
  NoOlder t [] = Unit
  NoOlder t (m ∷ ms) = (t ≤ m.timestamp) × NoOlder t ms

  split_back-append :
      (m : Measurement F) (ms : List (Measurement F))
      → m ∷ ms ≡ (split_back m ms).0 ++ (split_back m ms).1 ∷ []
  split_back-append m [] = refl
  split_back-append m (x ∷ ms) = ap (◌∷◌ m) (split_back-append x ms)

  NoNewer-last :
      (t : ℕ) (ms : List (Measurement F)) (b : Measurement F)
      → NoNewer t (ms ++ b ∷ [])
      → NoNewer t ms × (b.timestamp ≤ t)
  NoNewer-last t [] b h = (tt, h.0)
  NoNewer-last t (m ∷ ms) b h = let ih = NoNewer-last t ms b h.1 in ((h.0, ih.0), ih.1)

  Ordered-last :
      (ms : List (Measurement F)) (b : Measurement F)
      → Ordered (ms ++ b ∷ [])
      → Ordered ms × NoOlder b.timestamp ms
  Ordered-last [] b h = (tt, tt)
  Ordered-last (m ∷ ms) b h =
      let l = NoNewer-last m.timestamp ms b h.0 in
      let ih = Ordered-last ms b h.1 in ((l.0, ih.0), (l.1, ih.1))

  recent_all :
      (now window t : ℕ) (ms : List (Measurement F))
      → now ≤ t + window
      → NoOlder t ms
      → recent now window ms ≡ ms
  recent_all now window t [] h o = refl
  recent_all now window t (m ∷ ms) h o = ground (arith, h, o.0, recent_all now window t ms h o.1)

  recent-append :
      (now window : ℕ) (ms : List (Measurement F)) (b : Measurement F)
      → recent now window (ms ++ b ∷ [])
        ≡ (if is_recent now window b then recent now window ms ++ b ∷ [] else recent now window ms)
  recent-append now window [] b = refl
  recent-append now window (m ∷ ms) b = ground (arith, recent-append now window ms b)

module _ (fl : Float64) where
  open fl use {F}

  abbrev without_back : Measurement F → List (Measurement F) → Sma F → Sma F
  without_back m ms c =
      adjust_sum fl (negate fl (split_back m ms).1.value) (record c { deque = (split_back m ms).0 })

  check_loop_nil : (n now : ℕ) (c : Sma F) → c.deque ≡ [] → check_loop fl n now c ≡ c
  unfolding check_loop
  check_loop_nil zero now c e = refl
  check_loop_nil (suc n) now c e = rw e refl

  check_loop-zero : (now : ℕ) (c : Sma F) → check_loop fl zero now c ≡ c
  unfolding check_loop
  check_loop-zero now c = refl

  check_loop_cons :
      (n now : ℕ) (c : Sma F) (m : Measurement F) (ms : List (Measurement F))
      → c.deque ≡ m ∷ ms
      → check_loop fl (suc n) now c ≡ (
          if is_recent now c.window (split_back m ms).1
          then c
          else check_loop fl n now (without_back m ms c))
  unfolding check_loop
  check_loop_cons n now c m ms e = rw e refl

  without_back-deque :
      (m : Measurement F) (ms : List (Measurement F)) (c : Sma F)
      → ((without_back m ms c).deque ≡ (split_back m ms).0)
        × ((without_back m ms c).window ≡ c.window)
  unfolding adjust_sum
  without_back-deque m ms c = (refl, refl)

  check_loop-recent :
      (n now : ℕ) (c : Sma F) (ms : List (Measurement F))
      → c.deque ≡ ms
      → length ms ≤ n
      → Ordered ms
      → (check_loop fl n now c).deque ≡ recent now c.window ms
  check_loop-recent n now c [] e l o = ap (λ x. x.deque) (check_loop_nil n now c e) ∙ e
  check_loop-recent zero now c (m ∷ ms) e l o = absurd (omega (arith, l))
  check_loop-recent (suc n) now c (m ∷ ms) e l o =
      let b = (split_back m ms).1 in
      let front = (split_back m ms).0 in
      let s = split_back-append m ms in
      let q = Ordered-last front b (subst Ordered s o) in
      rw (check_loop_cons n now c m ms e) (elim (Bool-cases (is_recent now c.window b)) [
        | inl r ↦ rw r (
            e
            ∙ s
            ∙ ap (λ x. x ++ b ∷ [])
                (sym (recent_all now c.window b.timestamp front (ground (arith, r)) q.1))
            ∙ sym
                (ap (recent now c.window) s ∙ recent-append now c.window front b ∙ if_true _ _ _ r))
        | inr r ↦
            let d = without_back-deque m ms c in
            rw r (
              check_loop-recent n now (without_back m ms c) front d.0
                (omega (arith, l, ap length s, length-append front (b ∷ []))) q.0
              ∙ ap (λ w. recent now w front) d.1
              ∙ sym (
                  ap (recent now c.window) s
                  ∙ recent-append now c.window front b
                  ∙ if_false _ _ _ r))
      ])

  -- When the measurements stand newest first, the check leaves exactly those within the window.
  pub check-recent :
      (now : ℕ) (c : Sma F) → Ordered c.deque → (check fl now c).deque ≡ recent now c.window c.deque
  unfolding check
  check-recent now c o = check_loop-recent (length c.deque) now c c.deque refl (omega arith) o

abbrev pub total : List (Measurement ℤ) → ℤ
total [] = pos 0
total (m ∷ ms) = m.value +ℤ total ms

total-append :
    (ms : List (Measurement ℤ)) (b : Measurement ℤ) → total (ms ++ b ∷ []) ≡ total ms +ℤ b.value
total-append [] b = +ℤ_comm b.value (pos 0)
total-append (m ∷ ms) b =
    ap (λ x. m.value +ℤ x) (total-append ms b) ∙ sym (+ℤ_assoc m.value (total ms) b.value)

take_off : (a b : ℤ) → a +ℤ b +ℤ (pos 0 -ℤ b) ≡ a
take_off a b = omega int_laws

without_back-total :
    (m : Measurement ℤ) (ms : List (Measurement ℤ)) (c : Sma ℤ)
    → c.sum ≡ total (m ∷ ms)
    → (without_back exact m ms c).sum ≡ total (split_back m ms).0
unfolding adjust_sum
without_back-total m ms c e =
    let b = (split_back m ms).1 in
    ap (λ x. x +ℤ (pos 0 -ℤ b.value))
      (e ∙ ap total (split_back-append m ms) ∙ total-append (split_back m ms).0 b)
    ∙ take_off (total (split_back m ms).0) b.value

check_loop-total :
    (n now : ℕ) (c : Sma ℤ) (ms : List (Measurement ℤ))
    → c.deque ≡ ms
    → c.sum ≡ total ms
    → (check_loop exact n now c).sum ≡ total (check_loop exact n now c).deque
check_loop-total n now c [] e s =
    ap (λ (x : Sma ℤ). x.sum) (check_loop_nil exact n now c e)
    ∙ s
    ∙ ap total (sym (ap (λ (x : Sma ℤ). x.deque) (check_loop_nil exact n now c e) ∙ e))
check_loop-total zero now c (m ∷ ms) e s = rw (check_loop-zero exact now c) (s ∙ ap total (sym e))
check_loop-total (suc n) now c (m ∷ ms) e s =
    rw (check_loop_cons exact n now c m ms e)
      (elim (Bool-cases (is_recent now c.window (split_back m ms).1)) [
        | inl r ↦ rw r (s ∙ ap total (sym e))
        | inr r ↦ rw r (
            check_loop-total n now (without_back exact m ms c) (split_back m ms).0
              (without_back-deque exact m ms c).0 (without_back-total m ms c s))
      ])

-- On whole numbers: when the measurements stand newest first and the sum is that of all, the check
-- leaves those within the window, in their order, and their sum.
pub check_window :
    (now : ℕ) (c : Sma ℤ)
    → Ordered c.deque
    → c.sum ≡ total c.deque
    → ((check exact now c).deque ≡ recent now c.window c.deque)
      × ((check exact now c).sum ≡ total (recent now c.window c.deque))
unfolding check
check_window now c o s =
    let d = check-recent exact now c o in
    (d, check_loop-total (length c.deque) now c c.deque refl s ∙ ap total d)
