-- ===== src/Containers/BoundStackMap/Window.antt =====
-- The map of internal/lib/bstackmap.go as a window on what was pushed: `Push` against the last
-- `capacity` entries of the history.
use proxy_router.Prelude.{
  ℕ, ◌≤◌, ◌<◌, ◌≡◌, refl, sym, String, List, [], ◌∷◌, ◌++◌, Option, none, some, inl, inr, arith,
  if◌then◌else◌, length, length-append, Bool-cases, ◌==◌, drop, ◌=?◌, ap, string_eq, ◌∙◌, ==_iff,
}
use proxy_router.Prelude.Options.{◌>>=◌, Returns, Returns-bind}
use proxy_router.Prelude.Assoc.{Assoc, lookup, delete, lookup-insert, lookup-delete}
use proxy_router.Containers.BoundStackMap.{BoundStackMap, push, get, append_key, evict}

module _ {V : Type 0} where
  abbrev pub keys : Assoc String V → List String
  keys [] = []
  keys ((k, v) ∷ w) = k ∷ keys w

  -- No key stands twice.
  abbrev pub Distinct : Assoc String V → Type 0
  Distinct [] = Unit
  Distinct ((k, v) ∷ w) = (lookup k w ≡ none) × Distinct w

  -- The map holds the entries of the window `w`, oldest first.
  pub record Represents (bs : BoundStackMap V) (w : Assoc String V) : Type 0 where
    pub counted : bs.cc ≡ length w
    pub bounded : length w ≤ bs.capacity
    pub ordered : bs.ordered_keys ≡ keys w
    pub found : (k : String) → get bs k ≡ lookup k w
    pub distinct : Distinct w

  -- The window after one more entry.
  abbrev pub advance : ℕ → Assoc String V → String → V → Assoc String V
  advance cap w k v = (if length w == cap then drop 1 w else w) ++ (k, v) ∷ []

  abbrev pub slide : ℕ → Assoc String V → Assoc String V → Assoc String V
  slide cap w [] = w
  slide cap w ((k, v) ∷ h) = slide cap (advance cap w k v) h

  -- Each key is new to the window when it is pushed.
  abbrev pub Fresh : ℕ → Assoc String V → Assoc String V → Type 0
  Fresh cap w [] = Unit
  Fresh cap w ((k, v) ∷ h) = (lookup k w ≡ none) × Fresh cap (advance cap w k v) h

  -- `Push` of each entry in turn.
  unfoldable pub push_all : BoundStackMap V → Assoc String V → Option (BoundStackMap V)
  push_all bs [] = some bs
  push_all bs ((k, v) ∷ h) = do b ← push bs k v; push_all b h

  keys-append_one :
      (w : Assoc String V) (k : String) (v : V) → keys (w ++ (k, v) ∷ []) ≡ keys w ++ k ∷ []
  keys-append_one [] k v = refl
  keys-append_one ((j, u) ∷ w) k v = ap (◌∷◌ j) (keys-append_one w k v)

  lookup-append_one :
      (w : Assoc String V) (k j : String) (v : V)
      → lookup k w ≡ none
      → lookup j (w ++ (k, v) ∷ []) ≡ (if k =? j then some v else lookup j w)
  unfolding lookup
  lookup-append_one [] k j v h = refl
  lookup-append_one ((i, u) ∷ w) k j v h = ground (
    arith,
    string_eq.beq_iff k j,
    string_eq.beq_iff i k,
    string_eq.beq_iff i j,
    lookup-append_one w k j v,
  )

  Distinct-append_one :
      (w : Assoc String V) (k : String) (v : V)
      → Distinct w
      → lookup k w ≡ none
      → Distinct (w ++ (k, v) ∷ [])
  unfolding lookup
  Distinct-append_one [] k v d h = (refl, tt)
  Distinct-append_one ((i, u) ∷ w) k v d h = (
    ground (arith, lookup-append_one w k i v, string_eq.beq_iff i k, string_eq.beq_iff k i),
    Distinct-append_one w k v d.1 (ground arith),
  )

  -- With a slot free, the new entry goes to the end.
  push_free :
      (bs : BoundStackMap V) (w : Assoc String V) (k : String) (v : V)
      → Represents bs w
      → length w < bs.capacity
      → lookup k w ≡ none
      → Returns (λ b. Represents b (w ++ (k, v) ∷ []) × (b.capacity ≡ bs.capacity)) (push bs k v)
  unfolding push append_key get
  push_free bs w k v r room new_key = elim (Bool-cases (bs.cc == bs.capacity)) [
    | inl e ↦ absurd (ground (arith, r.counted))
    | inr e ↦
        rw (e, push)
          (
            record {
              counted = omega (arith, r.counted, length-append w ((k, v) ∷ []));
              bounded = omega (arith, length-append w ((k, v) ∷ []));
              ordered = rw (keys-append_one w k v) (ap (λ ks. ks ++ k ∷ []) r.ordered);
              found = λ j.
                  rw (lookup-insert k j v bs.data_map, lookup-append_one w k j v new_key)
                    (rw (r.found j));
              distinct = Distinct-append_one w k v r.distinct new_key;
            },
            refl,
          )
  ]

  Distinct-lookup_head :
      (k j : String) (v : V) (w : Assoc String V)
      → Distinct ((k, v) ∷ w)
      → (if k =? j then none else lookup j ((k, v) ∷ w)) ≡ lookup j w
  unfolding lookup
  Distinct-lookup_head k j v w d = ground (arith, string_eq.beq_iff k j)

  lookup_tail_none :
      (i k : String) (u : V) (w : Assoc String V) → lookup k ((i, u) ∷ w) ≡ none → lookup k w ≡ none
  unfolding lookup
  lookup_tail_none i k u w h = ground arith

  -- With none free, the oldest entry goes first.
  push_full :
      (bs : BoundStackMap V) (i : String) (u : V) (w : Assoc String V) (k : String) (v : V)
      → Represents bs ((i, u) ∷ w)
      → length ((i, u) ∷ w) ≡ bs.capacity
      → lookup k ((i, u) ∷ w) ≡ none
      → Returns (λ b. Represents b (w ++ (k, v) ∷ []) × (b.capacity ≡ bs.capacity)) (push bs k v)
  unfolding push append_key evict get
  push_full bs i u w k v r full new_key =
      let k_new : lookup k w ≡ none = lookup_tail_none i k u w new_key in
      elim (Bool-cases (bs.cc == bs.capacity)) [
        | inr e ↦ absurd (ground (arith, r.counted))
        | inl e ↦
            rw (e, r.ordered, push)
              (
                record {
                  counted = omega (arith, r.counted, length-append w ((k, v) ∷ []));
                  bounded = omega (arith, length-append w ((k, v) ∷ []));
                  ordered = rw (keys-append_one w k v);
                  found = λ j.
                      rw
                        (
                          lookup-insert k j v (delete i bs.data_map),
                          lookup-delete i j bs.data_map,
                          lookup-append_one w k j v k_new,
                        )
                        (rw (r.found j) (rw (Distinct-lookup_head i j u w r.distinct)));
                  distinct = Distinct-append_one w k v r.distinct.1 k_new;
                },
                refl,
              )
      ]

  push-advance :
      (cap : ℕ) (bs : BoundStackMap V) (w : Assoc String V) (k : String) (v : V)
      → Represents bs w
      → bs.capacity ≡ cap
      → 0 < cap
      → lookup k w ≡ none
      → Returns (λ b. Represents b (advance cap w k v) × (b.capacity ≡ bs.capacity)) (push bs k v)
  push-advance cap bs w k v r c some_room k_new = elim (Bool-cases (length w == cap)) [
    | inr e ↦ rw e (push_free bs w k v r (ground (arith, r.bounded)) k_new)
    | inl e ↦ rw e (full w r k_new ((==_iff (length w) cap).0 e ∙ sym c))
  ]
    where
      full :
          (w : Assoc String V)
          → Represents bs w
          → lookup k w ≡ none
          → length w ≡ bs.capacity
          → Returns
              (λ b. Represents b (drop 1 w ++ (k, v) ∷ []) × (b.capacity ≡ bs.capacity))
              (push bs k v)
      full [] r k_new e = absurd (omega arith)
      full ((i, u) ∷ w) r k_new e = push_full bs i u w k v r e k_new

  pub push_all-slide :
      (cap : ℕ) (bs : BoundStackMap V) (w h : Assoc String V)
      → Represents bs w
      → bs.capacity ≡ cap
      → 0 < cap
      → Fresh cap w h
      → Returns (λ b. Represents b (slide cap w h)) (push_all bs h)
  unfolding push_all
  push_all-slide cap bs w [] r c p f = r
  push_all-slide cap bs w ((k, v) ∷ h) r c p f =
      Returns-bind _ (λ b. Represents b (slide cap (advance cap w k v) h)) (push bs k v)
        (λ b. push_all b h) (push-advance cap bs w k v r c p f.0)
        (λ b x. push_all-slide cap b (advance cap w k v) h x.0 (x.1 ∙ c) p f.1)
