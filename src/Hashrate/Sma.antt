-- ===== src/Hashrate/Sma.antt =====
-- internal/resources/hashrate/hashrate/sma.go. The deque (github.com/gammazero/deque) is a list with
-- its front first. A time is a number of nanoseconds. The check reads the clock once here, where the
-- source reads it for each measurement.
pub mod Window
use proxy_router.Prelude.{
  ℕ, zero, suc, ◌+◌, ◌-◌, Bool, true, false, List, [], ◌∷◌, ◌++◌, Option, none, some, if◌then◌else◌,
  leb, length,
}
use proxy_router.Prelude.Int.{ℤ, pos}
use proxy_router.Floats.{Float64}

pub record Measurement (F : Type 0) : Type 0 where
  pub timestamp : ℕ
  pub value : F

pub record Sma (F : Type 0) : Type 0 where
  pub window : ℕ
  pub deque : List (Measurement F)
  pub sum : F
  pub value : F

-- `PopBack`: the measurements without the last, and the last.
abbrev pub split_back : {A : Type 0} → A → List A → List A × A
split_back a [] = ([], a)
split_back a (b ∷ bs) = let (front, back) = split_back b bs in (a ∷ front, back)

-- `getNow().Sub(elem.timestamp) <= c.window`
abbrev pub is_recent : {F : Type 0} → ℕ → ℕ → Measurement F → Bool
is_recent now window m = leb now (m.timestamp + window)

module _ (fl : Float64) where
  open fl use {F, of_int, add, sub, mul, div}

  unfoldable pub new_sma : ℕ → Sma F
  new_sma window = record {
    window = window;
    deque = [];
    sum = of_int (pos 0);
    value = of_int (pos 0);
  }

  unfoldable pub adjust_sum : F → Sma F → Sma F
  adjust_sum v c =
      let sum = add c.sum v in record c { sum = sum; value = div sum (of_int (pos c.window)) }

  unfoldable pub add_with_timestamp : F → ℕ → Sma F → Sma F
  unfolding adjust_sum
  add_with_timestamp v timestamp c =
      adjust_sum v (record c { deque = record { timestamp = timestamp; value = v } ∷ c.deque })

  -- `-elem.value`
  abbrev pub negate : F → F
  negate v = sub (of_int (pos 0)) v

  -- The loop of `check`: each round takes a measurement off, so a round for each is enough.
  unfoldable pub check_loop : ℕ → ℕ → Sma F → Sma F
  unfolding adjust_sum
  check_loop zero now c = c
  check_loop (suc n) now c = elim c.deque [
    | [] ↦ c
    | m ∷ ms ↦
        let (front, back) = split_back m ms in
        let rest = check_loop n now (adjust_sum (negate back.value) (record c { deque = front })) in
        if is_recent now c.window back then c else rest
  ]

  unfoldable pub check : ℕ → Sma F → Sma F
  unfolding check_loop
  check now c = check_loop (length c.deque) now c

  -- The value, and the counter after the call.
  unfoldable pub value_at : ℕ → Sma F → F × Sma F
  unfolding check
  value_at now c = let c' = check now c in (c'.value, c')

  unfoldable pub value_per : ℕ → ℕ → Sma F → F × Sma F
  unfolding check
  value_per now t c = let c' = check now c in (mul c'.value (of_int (pos t)), c')

  unfoldable pub reset : Sma F → Sma F
  reset c = record c { deque = []; sum = of_int (pos 0); value = of_int (pos 0) }
