-- ===== src/Containers/BoundStackMap/Latest.antt =====
-- `Push` of a whole history on an empty map (internal/lib/bstackmap.go): what the map holds are the
-- last entries pushed.
use proxy_router.Prelude.{
  ℕ, zero, suc, ◌-◌, ◌≤◌, ◌<◌, ◌≡◌, refl, sym, true, false, String, [], ◌∷◌, ◌++◌, ◌⊎◌, inl, inr,
  arith, length, length-append, Bool-cases, ◌==◌, drop, append_assoc, append-nil, ap, string_eq,
  ◌∙◌, ==_iff,
}
use proxy_router.Prelude.Options.{Returns, Returns-map}
use proxy_router.Prelude.Assoc.{Assoc, lookup}
use proxy_router.Containers.BoundStackMap.{new, get}
use proxy_router.Containers.BoundStackMap.Window.{
  keys, Represents, Fresh, advance, slide, push_all, push_all-slide,
}

module _ {V : Type 0} where
  drop-append_le : (n : ℕ) (xs ys : Assoc String V) → length xs ≡ n → drop n (xs ++ ys) ≡ ys
  drop-append_le zero [] ys e = refl
  drop-append_le (suc n) (x ∷ xs) ys e = drop-append_le n xs ys (omega arith)
  drop-append_le zero (x ∷ xs) ys e = absurd (omega arith)
  drop-append_le (suc n) [] ys e = absurd (omega arith)

  -- The last `cap` entries.
  abbrev pub latest : ℕ → Assoc String V → Assoc String V
  latest cap h = drop (length h - cap) h

  latest-drop :
      (cap : ℕ) (x : String × V) (xs : Assoc String V)
      → cap ≤ length xs
      → latest cap (x ∷ xs) ≡ latest cap xs
  latest-drop cap x xs h =
      let e : suc (length xs) - cap ≡ suc (length xs - cap) = omega arith in rw e

  slide-latest :
      (cap : ℕ) (w h : Assoc String V)
      → 0 < cap
      → length w ≤ cap
      → slide cap w h ≡ latest cap (w ++ h)
  slide-latest cap w [] p l =
      let e : length (w ++ []) - cap ≡ 0 = omega (arith, length-append w []) in rw (e, append-nil w)
  slide-latest cap w ((k, v) ∷ h) p l =
      go w l (Bool-cases (length w == cap)) (slide-latest cap (advance cap w k v) h p)
    where
      go :
          (w : Assoc String V)
          → length w ≤ cap
          → (length w == cap ≡ true) ⊎ (length w == cap ≡ false)
          → (length (advance cap w k v) ≤ cap
              → slide cap (advance cap w k v) h ≡ latest cap (advance cap w k v ++ h))
          → slide cap (advance cap w k v) h ≡ latest cap (w ++ (k, v) ∷ h)
      go w l (inr e) ih = rw e (
          (rw e at ih) (ground (arith, length-append w ((k, v) ∷ []), ==_iff (length w) cap))
          ∙ ap (latest cap) (append_assoc w ((k, v) ∷ []) h))
      go [] l (inl e) ih = absurd (ground arith)
      go (x ∷ w) l (inl e) ih =
          let len : cap ≤ length (w ++ (k, v) ∷ h) =
            ground (arith, length-append w ((k, v) ∷ h), ==_iff (suc (length w)) cap) in
          rw e (
            (rw e at ih) (omega (arith, length-append w ((k, v) ∷ [])))
            ∙ ap (latest cap) (append_assoc w ((k, v) ∷ []) h)
            ∙ sym (latest-drop cap x (w ++ (k, v) ∷ h) len))

  empty-Represents : (cap : ℕ) → Represents {V = V} (new cap) []
  unfolding new get lookup
  empty-Represents cap = record {
    counted = refl;
    bounded = omega arith;
    ordered = refl;
    found = λ k. refl;
    distinct = tt;
  }

  -- From an empty map with some capacity, pushing entries whose keys are new to the window never
  -- panics, and the map then holds exactly the last `cap` entries: its keys are theirs, oldest
  -- first, and `Get` finds each with its item and nothing else.
  pub push_all-latest :
      (cap : ℕ) (h : Assoc String V)
      → 0 < cap
      → Fresh cap [] h
      → Returns
          (λ b.
            (b.ordered_keys ≡ keys (latest cap h))
            × ((k : String) → get b k ≡ lookup k (latest cap h)))
          (push_all (new cap) h)
  unfolding new
  push_all-latest cap h p f =
      Returns-map _ _ (push_all (new cap) h)
        (push_all-slide cap (new cap) [] h (empty-Represents cap) refl p f)
        (λ b r.
          let e : slide cap [] h ≡ latest cap h = slide-latest cap [] h p (omega arith) in
          (r.ordered ∙ ap keys e, λ k. r.found k ∙ ap (lookup k) e))
