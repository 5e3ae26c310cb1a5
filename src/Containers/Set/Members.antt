-- ===== src/Containers/Set/Members.antt =====
-- What a set of internal/lib/set.go holds, and what the filters of array.go keep.
use proxy_router.Prelude.{
  ◌+◌, ◌≡◌, inl, inr, refl, ap, Bool, false, not, ◌||◌, ◌&&◌, String, List, [], ◌∷◌, ◌++◌, arith,
  if◌then◌else◌, length, ◌=?◌, string_eq, Bool-cases,
}
use proxy_router.Containers.Set.{
  Set, contains, store, add, new_set, new_set_from_slice, without, remove, len,
}

-- No key stands twice.
abbrev pub Unique : Set → Type 0
Unique [] = Unit
Unique (v ∷ s) = (contains s v ≡ false) × Unique s

contains-append : (s : Set) (v x : String) → contains (s ++ v ∷ []) x ≡ (contains s x || (v =? x))
unfolding contains
contains-append [] v x = ground arith
contains-append (w ∷ s) v x = ground (arith, contains-append s v x)

contains-store : (v x : String) (s : Set) → contains (store v s) x ≡ ((v =? x) || contains s x)
unfolding store
contains-store v x s = elim (Bool-cases (contains s v)) [
  | inl e ↦ rw e (ground (arith, e, string_eq.beq_iff v x, same v x s))
  | inr e ↦ rw e (ground (arith, contains-append s v x))
]
  where
    same : (v x : String) (s : Set) → v ≡ x → contains s v ≡ contains s x
    same v x s e = ap (contains s) e

-- The values of a list, as a test.
abbrev pub listed : List String → String → Bool
listed [] x = false
listed (v ∷ values) x = (v =? x) || listed values x

contains-add :
    (values : List String) (s : Set) (x : String)
    → contains (add s values) x ≡ (contains s x || listed values x)
unfolding add
contains-add [] s x = ground arith
contains-add (v ∷ values) s x =
    ground (arith, contains-add values (store v s) x, contains-store v x s)

Unique-append : (s : Set) (v : String) → contains s v ≡ false → Unique s → Unique (s ++ v ∷ [])
unfolding contains
Unique-append [] v h u = (refl, tt)
Unique-append (w ∷ s) v h u = (
  ground (arith, contains-append s v w, u.0, h, string_eq.beq_iff w v, string_eq.beq_iff v w),
  Unique-append s v (ground (arith, h)) u.1,
)

Unique-store : (v : String) (s : Set) → Unique s → Unique (store v s)
unfolding store
Unique-store v s u = elim (Bool-cases (contains s v)) [
  | inl e ↦ rw e u
  | inr e ↦ rw e (Unique-append s v e u)
]

Unique-add : (values : List String) (s : Set) → Unique s → Unique (add s values)
unfolding add
Unique-add [] s u = u
Unique-add (v ∷ values) s u = Unique-add values (store v s) (Unique-store v s u)

-- A set made from a slice holds each of its values once, and nothing else.
pub new_set_from_slice-Unique :
    (slice : List String) (x : String)
    → Unique (new_set_from_slice slice) × (contains (new_set_from_slice slice) x ≡ listed slice x)
unfolding new_set_from_slice new_set contains
new_set_from_slice-Unique slice x = (Unique-add slice [] tt, contains-add slice [] x)

contains-without :
    (v x : String) (s : Set) → contains (without v s) x ≡ (not (v =? x) && contains s x)
unfolding without contains
contains-without v x [] = ground arith
contains-without v x (w ∷ s) = ground (
  arith,
  contains-without v x s,
  string_eq.beq_iff w v,
  string_eq.beq_iff v x,
  string_eq.beq_iff w x,
)

length-without : (v : String) (s : Set) → contains s v ≡ false → length (without v s) ≡ length s
unfolding without contains
length-without v [] h = refl
length-without v (w ∷ s) h = ground (arith, length-without v s)

-- `Remove` tells whether the value was there, takes that value out and no other, and the set
-- shrinks by one exactly if it was there.
pub remove-len :
    (s : Set) (v x : String)
    → Unique s
    → (contains (remove s v).1 x ≡ (not (v =? x) && contains s x))
      × (len s ≡ len (remove s v).1 + (if (remove s v).0 then 1 else 0))
unfolding remove len
remove-len s v x u = (contains-without v x s, shrinks s u)
  where
    shrinks :
        (s : Set) → Unique s → length s ≡ length (without v s) + (if contains s v then 1 else 0)
    shrinks [] u = refl
    shrinks (w ∷ s) u = ground (
      arith,
      shrinks s u.1,
      length-without v s,
      string_eq.beq_iff w v,
      ap (contains s) {x = w} {y = v},
    )
