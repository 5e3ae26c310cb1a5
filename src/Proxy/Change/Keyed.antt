-- ===== src/Proxy/Change/Keyed.antt =====
-- Invariants of a proxy's map of connections (internal/resources/hashrate/proxy/proxy.go).
use proxy_router.Prelude.{
  ℕ, suc, ◌≤◌, ◌<◌, ◌≡◌, refl, Bool, true, false, String, [], ◌∷◌, some, arith, ap, sym, subst, ◌∙◌,
  ◌⊎◌, inl, inr, if◌then◌else◌, length, ltb, ◌=?◌, string_eq, Bool-cases,
}
use proxy_router.Prelude.Assoc.{Assoc, lookup, insert, delete}
use proxy_router.Proxy.Dest.{ConnDest}
use proxy_router.Proxy.Change.{oldest_of}

-- Every entry stands under the ID of its connection, which is in the store.
abbrev pub Keyed : {F H : Type 0} → (ℕ → ConnDest F H) → ℕ → Assoc String ℕ → Type 0
Keyed conns n [] = Unit {0}
Keyed conns n ((k, d) ∷ m) = ((conns d).id ≡ k) × (d < n) × Keyed conns n m

-- The number `d` is among the entries.
abbrev pub Held : ℕ → Assoc String ℕ → Type 0
Held d [] = ⊥
Held d ((k, e) ∷ m) = (d ≡ e) ⊎ Held d m

module _ {V : Type 0} where
  pub length-insert-le :
      (k : String) (v : V) (m : Assoc String V) → length (insert k v m) ≤ suc (length m)
  unfolding insert
  length-insert-le k v [] = omega arith
  length-insert-le k v ((j, w) ∷ m) = ground (arith, length-insert-le k v m)

  pub length-delete-le : (k : String) (m : Assoc String V) → length (delete k m) ≤ length m
  unfolding delete
  length-delete-le k [] = omega arith
  length-delete-le k ((j, w) ∷ m) = ground (arith, length-delete-le k m)

older :
    (d old x : ℕ) (m : Assoc String ℕ) (b : Bool)
    → (x ≡ (if b then d else old)) ⊎ Held x m
    → (x ≡ old) ⊎ ((x ≡ d) ⊎ Held x m)
older d old x m true (inl e) = inr (inl e)
older d old x m false (inl e) = inl e
older d old x m b (inr h) = inr (inr h)

module _ {F H : Type 0} where
  pub Keyed-delete :
      (conns : ℕ → ConnDest F H) (n : ℕ) (k : String) (m : Assoc String ℕ)
      → Keyed conns n m
      → Keyed conns n (delete k m)
  unfolding delete
  Keyed-delete conns n k [] h = tt
  Keyed-delete conns n k ((j, d) ∷ m) h = elim (Bool-cases (j =? k)) [
    | inl same ↦ rw same (Keyed-delete conns n k m h.2)
    | inr other ↦ rw other (h.0, h.1, Keyed-delete conns n k m h.2)
  ]

  pub Keyed-insert :
      (conns : ℕ → ConnDest F H) (n : ℕ) (d : ℕ) (m : Assoc String ℕ)
      → d < n
      → Keyed conns n m
      → Keyed conns n (insert (conns d).id d m)
  unfolding insert
  Keyed-insert conns n d [] l h = (refl, l, tt)
  Keyed-insert conns n d ((j, e) ∷ m) l h = elim (Bool-cases (j =? (conns d).id)) [
    | inl same ↦ rw same (refl, l, h.2)
    | inr other ↦ rw other (h.0, h.1, Keyed-insert conns n d m l h.2)
  ]

  -- A change of the connections that leaves the IDs of those in the store.
  pub Keyed-conns :
      (conns conns' : ℕ → ConnDest F H) (n n' : ℕ) (m : Assoc String ℕ)
      → ((d : ℕ) → d < n → (conns' d).id ≡ (conns d).id)
      → n ≤ n'
      → Keyed conns n m
      → Keyed conns' n' m
  Keyed-conns conns conns' n n' [] f l h = tt
  Keyed-conns conns conns' n n' ((j, d) ∷ m) f l h =
      (f d h.1 ∙ h.0, omega (arith, h.1), Keyed-conns conns conns' n n' m f l h.2)

  pub oldest-Held :
      (conns : ℕ → ConnDest F H) (old : ℕ) (m : Assoc String ℕ)
      → (oldest_of conns old m ≡ old) ⊎ Held (oldest_of conns old m) m
  oldest-Held conns old [] = inl refl
  oldest-Held conns old ((j, d) ∷ m) =
      older d old _ m (ltb (conns d).idle_close_at (conns old).idle_close_at) (
        oldest-Held conns (if ltb (conns d).idle_close_at (conns old).idle_close_at then d else old)
          m)

  -- Deleting the ID of a connection that is held takes an entry off.
  pub length-delete-lt :
      (conns : ℕ → ConnDest F H) (n d : ℕ) (m : Assoc String ℕ)
      → Keyed conns n m
      → Held d m
      → length (delete (conns d).id m) < length m
  unfolding delete
  length-delete-lt conns n d [] h e = elim e [ ]
  length-delete-lt conns n d ((j, c) ∷ m) h (inl e) = ground (
    arith,
    string_eq.beq_iff j (conns d).id,
    length-delete-le (conns d).id m,
    ap (λ x. (conns x).id) e,
    h.0,
  )
  length-delete-lt conns n d ((j, c) ∷ m) h (inr e) =
      ground (arith, length-delete-lt conns n d m h.2 e)

  pub Keyed-lookup :
      (conns : ℕ → ConnDest F H) (n d : ℕ) (k : String) (m : Assoc String ℕ)
      → Keyed conns n m
      → lookup k m ≡ some d
      → ((conns d).id ≡ k) × (d < n)
  unfolding lookup
  Keyed-lookup conns n d k [] h e = cc
  Keyed-lookup conns n d k ((j, c) ∷ m) h e = elim (Bool-cases (j =? k)) [
    | inl same ↦
        let q : c ≡ d = ground (arith, e, same) in
        (
          ap (λ x. (conns x).id) (sym q) ∙ h.0 ∙ (string_eq.beq_iff j k).0 same,
          subst (λ x. x < n) q h.1,
        )
    | inr other ↦ Keyed-lookup conns n d k m h.2 (ground (arith, e, other))
  ]
