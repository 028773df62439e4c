-- ===== src/Base/Int.antt =====
-- Signed integers over the native numbers: Go's int32, int64 and the enum numbers.
use vorax_simulator.Base.{
  ℕ, suc, ◌+◌, ◌-◌, ◌*◌, ◌%◌, ◌^◌, ◌≤◌, ◌<◌, ◌≡◌, Bool, arith, ltb, leb, ◌==◌, if◌then◌else◌, ◌↔◌,
  true,
}

-- `negsuc n` is -(n + 1).
pub data ℤ : Type 0 where
  pos : ℕ → ℤ
  negsuc : ℕ → ℤ

abbrev pub pos_part : ℤ → ℕ
pos_part (pos n) = n
pos_part (negsuc n) = 0

abbrev pub neg_part : ℤ → ℕ
neg_part (pos n) = 0
neg_part (negsuc n) = suc n

-- a - b, as an integer.
abbrev pub sub_ℕ : ℕ → ℕ → ℤ
sub_ℕ a b = if leb b a then pos (a - b) else negsuc (b - a - 1)

infixl 65 ◌+ℤ◌ ◌-ℤ◌
infixl 70 ◌*ℤ◌
infix 50 ◌≤ℤ◌
unfoldable pub ◌+ℤ◌ : ℤ → ℤ → ℤ
a +ℤ b = sub_ℕ (pos_part a + pos_part b) (neg_part a + neg_part b)

unfoldable pub ◌-ℤ◌ : ℤ → ℤ → ℤ
a -ℤ b = sub_ℕ (pos_part a + neg_part b) (neg_part a + pos_part b)

unfoldable pub ◌*ℤ◌ : ℤ → ℤ → ℤ
a *ℤ b =
    sub_ℕ (pos_part a * pos_part b + neg_part a * neg_part b)
      (pos_part a * neg_part b + neg_part a * pos_part b)

abbrev pub ◌≤ℤ◌ : ℤ → ℤ → Type 0
a ≤ℤ b = pos_part a + neg_part b ≤ pos_part b + neg_part a

abbrev pub ltb_ℤ : ℤ → ℤ → Bool
ltb_ℤ a b = ltb (pos_part a + neg_part b) (pos_part b + neg_part a)

abbrev pub leb_ℤ : ℤ → ℤ → Bool
leb_ℤ a b = leb (pos_part a + neg_part b) (pos_part b + neg_part a)

abbrev pub eqb_ℤ : ℤ → ℤ → Bool
eqb_ℤ a b = (pos_part a + neg_part b) == (pos_part b + neg_part a)

pub eqb_ℤ_iff : (a b : ℤ) → (eqb_ℤ a b ≡ true) ↔ (a ≡ b)
eqb_ℤ_iff a b = ground arith

-- An int32 sum, with its wrap-around.
unfoldable pub add_int32 : ℤ → ℤ → ℤ
unfolding ◌+ℤ◌
add_int32 a b =
    let w = (pos_part (a +ℤ b) + 2 ^ 33 - neg_part (a +ℤ b)) % 2 ^ 32 in
    if ltb w (2 ^ 31) then pos w else negsuc (2 ^ 32 - w - 1)

-- math.MaxInt64
abbrev pub max_int64 : ℕ
max_int64 = 2 ^ 63 - 1

-- From 0 to math.MaxInt64.
abbrev pub InRange : ℤ → Type 0
InRange a = (pos 0 ≤ℤ a) × (a ≤ℤ pos max_int64)

-- The values of an int64.
abbrev pub IsInt64 : ℤ → Type 0
IsInt64 a = (pos_part a < 2 ^ 63) × (neg_part a ≤ 2 ^ 63)

-- An integer as an int64 has it, with the wrap-around.
unfoldable pub wrap_int64 : ℤ → ℤ
wrap_int64 a =
    let w = (pos_part a % 2 ^ 64 + 2 ^ 64 - neg_part a % 2 ^ 64) % 2 ^ 64 in
    if ltb w (2 ^ 63) then pos w else negsuc (2 ^ 64 - w - 1)

-- Go's `a + b`, `a - b` and `a * b` on int64.
unfoldable pub add_int64 : ℤ → ℤ → ℤ
unfolding wrap_int64 ◌+ℤ◌
add_int64 a b = wrap_int64 (a +ℤ b)

unfoldable pub sub_int64 : ℤ → ℤ → ℤ
unfolding wrap_int64 ◌-ℤ◌
sub_int64 a b = wrap_int64 (a -ℤ b)

unfoldable pub mul_int64 : ℤ → ℤ → ℤ
unfolding wrap_int64 ◌*ℤ◌
mul_int64 a b = wrap_int64 (a *ℤ b)
