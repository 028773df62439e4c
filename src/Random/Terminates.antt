-- ===== src/Random/Terminates.antt =====
-- The rejection loop of `randomN` ends: it rejects fewer numbers than it has values to give, and a
-- stream gives no number twice.
use native.Mathlib.Nat.{zero-mod}
use vorax_simulator.Base.{
  ℕ, zero, suc, ◌-◌, ◌%◌, ◌≤◌, ◌<◌, ◌≡◌, refl, ◌∙◌, ◌⊎◌, inl, inr, false, ltb, ◌==◌, arith,
  if◌then◌else◌, Bool-cases,
}
use vorax_simulator.Outcome.{Outcome, ok, panic}
use vorax_simulator.Random.{
  word, mix, advance_stream, next_random, rejection_threshold, draw_loop, random_n,
}
use vorax_simulator.Random.Mix.{mix-injective, state_after, state_after-lt, state_after-injective}

-- The function on fewer holes: the last item takes the hole that is given up.
refill : (ℕ → ℕ) → ℕ → ℕ → ℕ
refill f t i = if f i == t then f (suc t) else f i

refill-lt :
    (f : ℕ → ℕ) (t i : ℕ)
    → f i < suc t
    → f (suc t) < suc t
    → (f i ≡ f (suc t) → i ≡ suc t)
    → i ≤ t
    → refill f t i < t
unfolding refill
refill-lt f t i a b c d = ground arith

refill-injective :
    (f : ℕ → ℕ) (t i j : ℕ)
    → (f i ≡ f j → i ≡ j)
    → (f i ≡ f (suc t) → i ≡ suc t)
    → (f j ≡ f (suc t) → j ≡ suc t)
    → i ≤ t
    → j ≤ t
    → refill f t i ≡ refill f t j
    → i ≡ j
unfolding refill
refill-injective f t i j a b c p q e = ground arith

-- No t + 1 items fit into t holes.
pigeonhole :
    (t : ℕ) (f : ℕ → ℕ)
    → ((i : ℕ) → i ≤ t → f i < t)
    → ((i j : ℕ) → i ≤ t → j ≤ t → f i ≡ f j → i ≡ j)
    → ⊥
pigeonhole zero f fits different = absurd (omega (arith, fits 0 (omega arith)))
pigeonhole (suc t) f fits different =
    pigeonhole t (refill f t)
      (λ i p.
        refill-lt f t i (fits i (omega arith)) (fits (suc t) (omega arith))
          (different i (suc t) (omega arith) (omega arith)) p)
      (λ i j p q.
        refill-injective f t i j (different i j (omega arith) (omega arith))
          (different i (suc t) (omega arith) (omega arith))
          (different j (suc t) (omega arith) (omega arith)) p q)

-- What a loop does: it draws a number in range, or all its rounds are rejected.
abbrev Draws : ℕ → ℕ → ℕ → Outcome (ℕ × ℕ) → Type 0
Draws fuel bound state r =
    ((x : ℕ) × (v : ℕ) × (r ≡ ok (x, v)) × (x < bound) × (v < word))
    ⊎ ((i : ℕ) → i < fuel → mix (state_after state (suc i)) < rejection_threshold bound)

extend_rejections :
    (fuel bound state : ℕ)
    → mix (advance_stream state) < rejection_threshold bound
    → ((i : ℕ)
        → i < fuel
        → mix (state_after (advance_stream state) (suc i)) < rejection_threshold bound)
    → (i : ℕ) → i < suc fuel
    → mix (state_after state (suc i)) < rejection_threshold bound
unfolding state_after
extend_rejections fuel bound state first others zero h = first
extend_rejections fuel bound state first others (suc i) h = others i (omega arith)

mod-lt_pos : (a b : ℕ) → 0 < b → a % b < b
mod-lt_pos a b h = omega arith

draw_loop-Draws :
    (fuel bound state : ℕ) → 0 < bound → Draws fuel bound state (draw_loop fuel bound state)
unfolding draw_loop next_random
draw_loop-Draws zero bound state h = inr (λ i p. absurd (omega arith))
draw_loop-Draws (suc fuel) bound state h =
    elim (Bool-cases (ltb (mix (advance_stream state)) (rejection_threshold bound))) [
      | inl rejected ↦ rw rejected (elim (draw_loop-Draws fuel bound (advance_stream state) h) [
        | inl found ↦ inl found
        | inr none_yet ↦ inr (extend_rejections fuel bound state (ground arith) none_yet)
      ])
      | inr taken ↦ rw taken (
          inl (
            mix (advance_stream state) % bound,
            advance_stream state,
            refl,
            mod-lt_pos _ bound h,
            (unfold advance_stream in omega arith),
          ))
    ]

rejection_threshold-lt : (n : ℕ) → 0 < n → rejection_threshold n < n
unfolding rejection_threshold
rejection_threshold-lt n h = mod-lt_pos _ n h

rejection_threshold_small : (n : ℕ) → 0 < n → suc (rejection_threshold n) < word
unfolding rejection_threshold
rejection_threshold_small n h = elim (Bool-cases (ltb n word)) [
  | inl small ↦
      let below : n < word = ground arith in omega (arith, mod-lt_pos ((word - n) % word) n h)
  | inr large ↦
      let above : word ≤ n = ground arith in
      let none_left : (word - n) % word ≡ 0 = omega arith in
      rw none_left (omega (arith, zero-mod n))
]

-- The loop cannot reject `n` times.
not_all_rejected :
    (state n : ℕ)
    → state < word
    → 0 < n
    → ((i : ℕ) → i < n → mix (state_after state (suc i)) < rejection_threshold n)
    → ⊥
not_all_rejected state n inside nonempty rejected =
    let t = rejection_threshold n in
    let fewer : t < n = rejection_threshold-lt n nonempty in
    let short : suc t < word = rejection_threshold_small n nonempty in
    pigeonhole t (λ i. mix (state_after state (suc i))) (λ i p. rejected i (omega (arith, fewer)))
      (λ i j p q e. omega (
        arith,
        state_after-injective state (suc i) (suc j) inside (omega (arith, short))
            (omega (arith, short))
            (mix-injective _ _ (state_after-lt state (suc i) inside)
              (state_after-lt state (suc j) inside) e),
      ))

random_n-draw_loop : (state n : ℕ) → 0 < n → random_n state n ≡ draw_loop n n state
unfolding random_n
random_n-draw_loop state n h = let e : (n == 0) ≡ false = ground arith in rw e

-- Every draw from a pool that is not empty ends, whatever the state of the stream, with a number
-- below the size of the pool; it neither panics nor runs out of the rounds that the model allows.
pub random_n-lt :
    (state n : ℕ)
    → state < word
    → 0 < n
    → (x : ℕ) × (v : ℕ) × (random_n state n ≡ ok (x, v)) × (x < n) × (v < word)
random_n-lt state n inside nonempty = elim (draw_loop-Draws n n state nonempty) [
  | inl (x, v, e, p, q) ↦ (x, v, random_n-draw_loop state n nonempty ∙ e, p, q)
  | inr rejected ↦ absurd (not_all_rejected state n inside nonempty rejected)
]

random_n-zero : (state : ℕ) → random_n state 0 ≡ panic
unfolding random_n
random_n-zero state = refl

-- What a draw does, from a pool of any size.
pub random_n-cases :
    (state n : ℕ)
    → state < word
    → (random_n state n ≡ panic)
      ⊎ ((x : ℕ) × (v : ℕ) × (random_n state n ≡ ok (x, v)) × (x < n) × (v < word))
random_n-cases state zero inside = inl (random_n-zero state)
random_n-cases state (suc n) inside = inr (random_n-lt state (suc n) inside (omega arith))
