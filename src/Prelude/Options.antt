-- ===== src/Prelude/Options.antt =====
-- Calls that may fail to return (a panic, a nil pointer): `none` ends a `do` block.
use mathlib.Core.Path.{◌≡◌, ap, refl}
use mathlib.Core.Option.{Option, none, some}

infixl 5 ◌>>=◌ ◌>>◌
abbrev pub ◌>>=◌ {ℓ κ} : {A : Type ℓ} {B : Type κ} → Option A → (A → Option B) → Option B
none >>= f = none
some a >>= f = f a

abbrev pub ◌>>◌ {ℓ} : {B : Type ℓ} → Option (Unit {0}) → Option B → Option B
m >> k = m >>= λ _. k

-- A call that returns, with a result that meets `P`.
abbrev pub Returns {ℓ} : {A : Type ℓ} → (A → Type 0) → Option A → Type 0
Returns P none = ⊥
Returns P (some a) = P a

pub Returns-bind {ℓ κ} :
    {A : Type ℓ} {B : Type κ} (P : A → Type 0) (Q : B → Type 0) (o : Option A) (f : A → Option B)
    → Returns P o
    → ((a : A) → P a → Returns Q (f a))
    → Returns Q (o >>= f)
Returns-bind P Q none f p k = absurd p
Returns-bind P Q (some a) f p k = k a p

pub Returns-map {ℓ} :
    {A : Type ℓ} (P Q : A → Type 0) (o : Option A)
    → Returns P o
    → ((a : A) → P a → Q a)
    → Returns Q o
Returns-map P Q none p k = absurd p
Returns-map P Q (some a) p k = k a p

pub some_inj {ℓ} : {A : Type ℓ} (a b : A) → some a ≡ some b → a ≡ b
some_inj a b e = ap (λ o. elim o [ none ↦ a | some x ↦ x ]) e

-- What follows a call that returned, in place of what did follow it.
pub >>=-swap {ℓ κ μ} :
    {A : Type ℓ} {B : Type κ} {C : Type μ} (o : Option A) (f : A → Option B) (g : A → Option C)
    (b : B) (c : Option C)
    → (o >>= f) ≡ some b
    → ((a : A) → f a ≡ some b → g a ≡ c)
    → (o >>= g) ≡ c
>>=-swap none f g b c h k = cc
>>=-swap (some a) f g b c h k = k a h

-- What else holds of the result of a call that returns.
pub Returns-and {ℓ} :
    {A : Type ℓ} (P Q : A → Type 0) (o : Option A)
    → Returns P o
    → ((a : A) → o ≡ some a → Q a)
    → Returns (λ a. P a × Q a) o
Returns-and P Q none p k = absurd p
Returns-and P Q (some a) p k = (p, k a refl)
