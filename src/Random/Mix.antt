-- ===== src/Random/Mix.antt =====
-- The two halves of `nextRandom` of internal/engine/random.go: the mixing of a state, and the states
-- that a stream goes through.
use Prim.Native.Nat.{bit_xor}
use vorax_simulator.Base.{ℕ, zero, suc, ◌+◌, ◌*◌, ◌/◌, ◌%◌, ◌^◌, ◌<◌, ◌≡◌, ◌∙◌, arith}
use vorax_simulator.Random.{word, mix, advance_stream}
use vorax_simulator.Random.Bits.{xor_shift-injective, bit_xor_bound}

shift_30 : (a b : ℕ) → bit_xor a (a / 2 ^ 30) ≡ bit_xor b (b / 2 ^ 30) → a ≡ b
shift_30 =
    xor_shift-injective (λ z. z / 2 ^ 30) (λ z. z / 2 ^ 29) (λ z. omega arith) (λ z. omega arith)

shift_27 : (a b : ℕ) → bit_xor a (a / 2 ^ 27) ≡ bit_xor b (b / 2 ^ 27) → a ≡ b
shift_27 =
    xor_shift-injective (λ z. z / 2 ^ 27) (λ z. z / 2 ^ 26) (λ z. omega arith) (λ z. omega arith)

shift_31 : (a b : ℕ) → bit_xor a (a / 2 ^ 31) ≡ bit_xor b (b / 2 ^ 31) → a ≡ b
shift_31 =
    xor_shift-injective (λ z. z / 2 ^ 31) (λ z. z / 2 ^ 30) (λ z. omega arith) (λ z. omega arith)

multiply_1-injective :
    (a b : ℕ)
    → a < word
    → b < word
    → (a * 0xbf58_476d_1ce4_e5b9) % word ≡ (b * 0xbf58_476d_1ce4_e5b9) % word
    → a ≡ b
multiply_1-injective a b p q e = omega arith

multiply_2-injective :
    (a b : ℕ)
    → a < word
    → b < word
    → (a * 0x94d0_49bb_1331_11eb) % word ≡ (b * 0x94d0_49bb_1331_11eb) % word
    → a ≡ b
multiply_2-injective a b p q e = omega arith

-- Two states of a stream, both words, that give the same number are the same: the mixing of
-- `nextRandom` loses nothing.
pub mix-injective : (a b : ℕ) → a < word → b < word → mix a ≡ mix b → a ≡ b
unfolding mix
mix-injective a b p q e = shift_30 a b (
    multiply_1-injective _ _ (bit_xor_bound 64 a (a / 2 ^ 30) p (omega arith))
      (bit_xor_bound 64 b (b / 2 ^ 30) q (omega arith))
      (shift_27 _ _ (
        multiply_2-injective _ _ (bit_xor_bound 64 _ _ (omega arith) (omega arith))
          (bit_xor_bound 64 _ _ (omega arith) (omega arith)) (shift_31 _ _ e))))

-- The state after some steps.
unfoldable pub state_after : ℕ → ℕ → ℕ
state_after state zero = state
state_after state (suc i) = state_after (advance_stream state) i

state_after-sum :
    (i state : ℕ) → state < word → state_after state i ≡ (state + i * 0x9e37_79b9_7f4a_7c15) % word
unfolding state_after advance_stream
state_after-sum zero state h = omega arith
state_after-sum (suc i) state h =
    state_after-sum i (advance_stream state) (omega arith) ∙ omega arith

-- From a state that is a word, a stream does not come back to a state within 2 ^ 64 steps.
pub state_after-injective :
    (state i j : ℕ)
    → state < word
    → i < word
    → j < word
    → state_after state i ≡ state_after state j
    → i ≡ j
state_after-injective state i j h p q e =
    omega (arith, state_after-sum i state h, state_after-sum j state h)

pub state_after-lt : (state i : ℕ) → state < word → state_after state i < word
state_after-lt state i h = omega (arith, state_after-sum i state h)
