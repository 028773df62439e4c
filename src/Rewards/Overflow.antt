-- ===== src/Rewards/Overflow.antt =====
-- `checkedAdd` and `contribution` of internal/engine/rewards.go on int64: which sums and products they
-- give.
use mathlib.Core.Option.{some-injective}
use vorax_simulator.Base.{
  Bool, none, true, subst, if◌then◌else◌, ℕ, zero, suc, ◌+◌, false, ltb, ◌==◌, ◌*◌, ◌/◌, ◌≤◌, ◌≡◌,
  ◌↔◌, ap, ◌∙◌, not, ◌&&◌, some, arith,
}
use vorax_simulator.Base.Int.{
  ℤ, pos, pos_part, ◌≤ℤ◌, ◌+ℤ◌, ◌-ℤ◌, ◌*ℤ◌, max_int64, IsInt64, InRange, sub_ℕ, wrap_int64,
  add_int64, sub_int64, mul_int64,
}
use vorax_simulator.Protocol.{Monster}
use vorax_simulator.Rewards.{checked_add, contribution_of}

wrap_int64-same : (a : ℤ) → IsInt64 a → wrap_int64 a ≡ a
unfolding wrap_int64
wrap_int64-same a h = ground arith

wrap_int64-IsInt64 : (a : ℤ) → IsInt64 (wrap_int64 a)
unfolding wrap_int64
wrap_int64-IsInt64 a = ground arith

-- Any sum that is given fits into an int64.
pub checked_add-InRange : (a b v : ℤ) → checked_add a b ≡ some v → InRange v
unfolding checked_add add_int64 sub_int64 wrap_int64 ◌+ℤ◌ ◌-ℤ◌
checked_add-InRange a b v h = ground arith

-- For int64 values: a checked sum is given exactly where no summand is negative and the sum, without
-- wrap-around, is at most MaxInt64; and then it is that sum.
pub checked_add_iff :
    (a b v : ℤ)
    → IsInt64 a
    → IsInt64 b
    → (checked_add a b ≡ some v)
      ↔ ((pos 0 ≤ℤ a) × (pos 0 ≤ℤ b) × (a +ℤ b ≤ℤ pos max_int64) × (v ≡ a +ℤ b))
unfolding checked_add add_int64 sub_int64 wrap_int64 ◌+ℤ◌ ◌-ℤ◌
checked_add_iff a b v ha hb = ground arith

le_div : (a n q : ℕ) → (a ≤ n / suc q) ↔ (a * suc q ≤ n)
le_div a n q = grind arith

fits_iff : (a q max : ℕ) → (not (q == 0) && ltb (max / q) a) ≡ false ↔ (a * q ≤ max)
fits_iff a zero max = grind arith
fits_iff a (suc q) max = ground (arith, le_div a max q)

mul_int64-fits : (a q : ℕ) → a * q ≤ max_int64 → mul_int64 (pos a) (pos q) ≡ pos (a * q)
unfolding mul_int64 ◌*ℤ◌
mul_int64-fits a q h =
    let product : sub_ℕ (a * q + 0 * 0) (a * 0 + 0 * q) ≡ pos (a * q) = grind arith in
    ap wrap_int64 product ∙ wrap_int64-same (pos (a * q)) (omega (arith, h))

mul_int64-IsInt64 : (a b : ℤ) → IsInt64 (mul_int64 a b)
unfolding mul_int64
mul_int64-IsInt64 a b = wrap_int64-IsInt64 (a *ℤ b)

unless_refused :
    (refused : Bool) (a b v : ℤ)
    → (if refused then none else some (mul_int64 a b)) ≡ some v
    → IsInt64 v
unless_refused true a b v h = absurd (ground arith)
unless_refused false a b v h =
    subst (λ x. IsInt64 x) (some-injective (mul_int64 a b) v h) (mul_int64-IsInt64 a b)

-- Any contribution is a value of an int64.
pub contribution_of-IsInt64 : (m : Monster) (v : ℤ) → contribution_of m ≡ some v → IsInt64 v
unfolding contribution_of
contribution_of-IsInt64 m v h = unless_refused _ m.activity m.quantity v h

-- For attributes that are int64 values: the contribution of a monster is given exactly where neither
-- attribute is negative and their product, without wrap-around, is at most MaxInt64; and then it is
-- that product.
pub contribution_of_iff :
    (m : Monster) (v : ℤ)
    → IsInt64 m.activity
    → IsInt64 m.quantity
    → (contribution_of m ≡ some v) ↔ (
        (pos 0 ≤ℤ m.activity)
        × (pos 0 ≤ℤ m.quantity)
        × (pos_part m.activity * pos_part m.quantity ≤ max_int64)
        × (v ≡ pos (pos_part m.activity * pos_part m.quantity)))
unfolding contribution_of
contribution_of_iff m v ha hq = ground (
  arith,
  fits_iff (pos_part m.activity) (pos_part m.quantity) max_int64,
  mul_int64-fits (pos_part m.activity) (pos_part m.quantity),
)
