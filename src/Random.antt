-- ===== src/Random.antt =====
-- The random streams: internal/engine/random.go. A stream is the uint64 that a `*uint64` points to,
-- a number below 2 ^ 64.
pub mod Bits
pub mod Mix
pub mod Terminates
use Prim.Native.Nat.{bit_xor}
use vorax_simulator.Base.{
  ℕ, zero, suc, ◌+◌, ◌-◌, ◌*◌, ◌/◌, ◌%◌, ◌^◌, ltb, ◌==◌, ◌≡◌, refl, if◌then◌else◌,
}
use vorax_simulator.Outcome.{Outcome, ok, panic, exhausted}

abbrev pub word : ℕ
word = 2 ^ 64

-- The step of the stream in `nextRandom`: `*state += 0x9e37...`
unfoldable pub advance_stream : ℕ → ℕ
advance_stream state = (state + 0x9e37_79b9_7f4a_7c15) % word

-- The output at a state: the rest of `nextRandom`, one line each.
unfoldable pub mix : ℕ → ℕ
mix z0 =
    let z1 = (bit_xor z0 (z0 / 2 ^ 30) * 0xbf58_476d_1ce4_e5b9) % word in
    let z2 = (bit_xor z1 (z1 / 2 ^ 27) * 0x94d0_49bb_1331_11eb) % word in bit_xor z2 (z2 / 2 ^ 31)

-- `nextRandom`: the number drawn and the new state.
unfoldable pub next_random : ℕ → ℕ × ℕ
unfolding advance_stream mix
next_random state = let s = advance_stream state in (mix s, s)

-- `-bound % bound` on uint64
unfoldable pub rejection_threshold : ℕ → ℕ
rejection_threshold bound = ((word - bound) % word) % bound

-- The `for` loop of `randomN`. Each round moves the stream on and may reject the number.
unfoldable pub draw_loop : ℕ → ℕ → ℕ → Outcome (ℕ × ℕ)
unfolding next_random
draw_loop zero bound state = exhausted
draw_loop (suc fuel) bound state =
    let (x, state') = next_random state in
    let rest = draw_loop fuel bound state' in
    if ltb x (rejection_threshold bound) then rest else ok (x % bound, state')

-- `randomN`. No count of rounds stands in the code; `bound` rounds are enough (Random.Terminates).
unfoldable pub random_n : ℕ → ℕ → Outcome (ℕ × ℕ)
unfolding draw_loop rejection_threshold
random_n state n = if n == 0 then panic else draw_loop n n state

reference_draw : next_random 0 ≡ (0xe220_a839_7b1d_cdaf, 0x9e37_79b9_7f4a_7c15)
unfolding next_random
reference_draw = refl
