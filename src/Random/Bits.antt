-- ===== src/Random/Bits.antt =====
-- The exclusive or of a word with its own shift can be undone. Used for `nextRandom`.
use Prim.Native.Nat.{bit_xor, bit_xor-bitwise, digits, differ}
use vorax_simulator.Base.{
  ℕ, zero, suc, ◌+◌, ◌*◌, ◌/◌, ◌%◌, ◌^◌, ◌≤◌, ◌<◌, ◌≡◌, refl, sym, ap, ◌∙◌, arith,
}
use native.Mathlib.Nat.{pow-suc}

abbrev xor_digits : ℕ → ℕ → ℕ → ℕ
xor_digits n a b = digits (λ y. y) differ n a b

xor_digits_fuel : (n m a b : ℕ) → a ≤ n → a ≤ m → xor_digits n a b ≡ xor_digits m a b
xor_digits_fuel zero zero a b p q = refl
xor_digits_fuel zero (suc m) zero b p q = refl
xor_digits_fuel zero (suc m) (suc a) b p q = absurd (omega arith)
xor_digits_fuel (suc n) zero zero b p q = refl
xor_digits_fuel (suc n) zero (suc a) b p q = absurd (omega arith)
xor_digits_fuel (suc n) (suc m) zero b p q = refl
xor_digits_fuel (suc n) (suc m) (suc a) b p q =
    omega (arith, xor_digits_fuel n m (suc a / 2) (b / 2) (omega arith) (omega arith))

zero-bit_xor : (b : ℕ) → bit_xor 0 b ≡ b
zero-bit_xor b = bit_xor-bitwise 0 b

-- The law of the lowest digit.
bit_xor_step : (a b : ℕ) → bit_xor a b ≡ bit_xor (a / 2) (b / 2) * 2 + differ (a % 2) (b % 2)
bit_xor_step zero b = omega (arith, zero-bit_xor b, zero-bit_xor (b / 2))
bit_xor_step (suc a) b = omega (
  arith,
  bit_xor-bitwise (suc a) b,
  bit_xor-bitwise (suc a / 2) (b / 2),
  xor_digits_fuel a (suc a / 2) (suc a / 2) (b / 2) (omega arith) (omega arith),
)

differ_bound : (a b : ℕ) → a < 2 → b < 2 → differ a b < 2
differ_bound zero b p q = q
differ_bound (suc zero) zero p q = omega arith
differ_bound (suc zero) (suc zero) p q = omega arith
differ_bound (suc zero) (suc (suc b)) p q = absurd (omega arith)
differ_bound (suc (suc a)) b p q = absurd (omega arith)

differ-injective : (a b c : ℕ) → a < 2 → b < 2 → c < 2 → differ a c ≡ differ b c → a ≡ b
differ-injective zero zero c p q r e = refl
differ-injective zero (suc zero) zero p q r e = e
differ-injective zero (suc zero) (suc zero) p q r e = absurd (omega arith)
differ-injective zero (suc zero) (suc (suc c)) p q r e = absurd (omega arith)
differ-injective (suc zero) zero zero p q r e = e
differ-injective (suc zero) zero (suc zero) p q r e = absurd (omega arith)
differ-injective (suc zero) zero (suc (suc c)) p q r e = absurd (omega arith)
differ-injective (suc zero) (suc zero) c p q r e = refl
differ-injective zero (suc (suc b)) c p q r e = absurd (omega arith)
differ-injective (suc zero) (suc (suc b)) c p q r e = absurd (omega arith)
differ-injective (suc (suc a)) b c p q r e = absurd (omega arith)

-- The exclusive or of two words of n bits has n bits.
pub bit_xor_bound : (n a b : ℕ) → a < 2 ^ n → b < 2 ^ n → bit_xor a b < 2 ^ n
bit_xor_bound zero zero zero p q = omega (arith, zero-bit_xor 0)
bit_xor_bound zero zero (suc b) p q = absurd (omega arith)
bit_xor_bound zero (suc a) b p q = absurd (omega arith)
bit_xor_bound (suc n) a b p q = omega (
  arith,
  pow-suc 2 n,
  bit_xor_step a b,
  bit_xor_bound n (a / 2) (b / 2) (omega (arith, pow-suc 2 n)) (omega (arith, pow-suc 2 n)),
  differ_bound (a % 2) (b % 2) (omega arith) (omega arith),
)

-- A right shift, by its two laws: `sh z` is a function of `z / 2`, and shifting commutes with halving.
module _ (sh low : ℕ → ℕ) (sh-half : (z : ℕ) → sh z / 2 ≡ sh (z / 2))
    (sh-low : (z : ℕ) → sh z ≡ low (z / 2)) where
  xor_halves :
      (a b : ℕ)
      → bit_xor a (sh a) ≡ bit_xor b (sh b)
      → (bit_xor (a / 2) (sh (a / 2)) ≡ bit_xor (b / 2) (sh (b / 2)))
        × (differ (a % 2) (sh a % 2) ≡ differ (b % 2) (sh b % 2))
  xor_halves a b e =
      rw (← sh-half a, ← sh-half b)
        (omega (
          arith,
          e,
          bit_xor_step a (sh a),
          bit_xor_step b (sh b),
          differ_bound (a % 2) (sh a % 2) (omega arith) (omega arith),
          differ_bound (b % 2) (sh b % 2) (omega arith) (omega arith),
        ))

  xor_shift_fuel : (n a b : ℕ) → a ≤ n → b ≤ n → bit_xor a (sh a) ≡ bit_xor b (sh b) → a ≡ b
  xor_shift_fuel zero a b p q e = omega arith
  xor_shift_fuel (suc n) a b p q e =
      let halves = xor_halves a b e in
      let half : a / 2 ≡ b / 2 =
        xor_shift_fuel n (a / 2) (b / 2) (omega arith) (omega arith) halves.0 in
      let shifted : sh b ≡ sh a = sh-low b ∙ ap low (sym half) ∙ sym (sh-low a) in
      let digits_agree : differ (a % 2) (sh a % 2) ≡ differ (b % 2) (sh a % 2) =
        halves.1 ∙ ap (λ (t : ℕ). differ (b % 2) (t % 2)) shifted in
      let last : a % 2 ≡ b % 2 =
        differ-injective (a % 2) (b % 2) (sh a % 2) (omega arith) (omega arith) (omega arith)
          digits_agree in
      omega (arith, half, last)

  pub xor_shift-injective : (a b : ℕ) → bit_xor a (sh a) ≡ bit_xor b (sh b) → a ≡ b
  xor_shift-injective a b = xor_shift_fuel (a + b) a b (omega arith) (omega arith)
