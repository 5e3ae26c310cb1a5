-- ===== src/Floats/Exact.antt =====
-- An instance of the float interface for examples: whole numbers, on which float64 is exact up to
-- 2^53. Division rounds towards zero.
use proxy_router.Prelude.{◌≡◌, arith, ℕ, ◌+◌, ◌*◌, ◌/◌, not, if◌then◌else◌}
use proxy_router.Prelude.Int.{ℤ, pos, pos_part, neg_part, ◌+ℤ◌, ◌-ℤ◌, ◌*ℤ◌, ltb_ℤ}
use proxy_router.Floats.{Float64}

-- The quotient of the sizes, with the sign of the product.
unfoldable pub quotient : ℤ → ℤ → ℤ
unfolding ◌-ℤ◌
quotient a b =
    let q : ℕ = (pos_part a + neg_part a) / (pos_part b + neg_part b) in
    if ltb_ℤ a (pos 0)
    then (if ltb_ℤ b (pos 0) then pos q else pos 0 -ℤ pos q)
    else (if ltb_ℤ b (pos 0) then pos 0 -ℤ pos q else pos q)

abbrev pub exact : Float64
exact = record {
  F = ℤ;
  of_int = λ a. a;
  add = ◌+ℤ◌;
  sub = ◌-ℤ◌;
  mul = ◌*ℤ◌;
  div = quotient;
  abs = λ a. pos (pos_part a + neg_part a);
  min = λ a b. if ltb_ℤ a b then a else b;
  max = λ a b. if ltb_ℤ a b then b else a;
  lt = ltb_ℤ;
  le = λ a b. not (ltb_ℤ b a);
  to_int64 = λ a. a;
  to_uint64 = pos_part;
}

pub quotient-pos : (a b : ℕ) → quotient (pos a) (pos b) ≡ pos (a / b)
unfolding quotient
quotient-pos a b = ground arith

pub *ℤ-pos : (a b : ℕ) → pos a *ℤ pos b ≡ pos (a * b)
unfolding ◌*ℤ◌
*ℤ-pos a b = ground arith
