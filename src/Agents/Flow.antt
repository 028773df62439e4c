-- ===== src/Agents/Flow.antt =====
-- How what an agent sees agrees with the game: internal/ai against internal/engine.
use vorax_simulator.Base.{
  ◌≡◌, refl, sym, subst, ◌∙◌, true, false, String, Option, none, some, arith, Bool-cases, inl, inr,
}
use vorax_simulator.Base.Int.{ℤ, pos, ◌≤ℤ◌, leb_ℤ, ltb_ℤ, eqb_ℤ}
use vorax_simulator.Outcome.{Outcome, ok, err, panic, exhausted, uncoded_error}
use vorax_simulator.Protocol.{GameState, CardKind, tool, potion, scheme, finished}
use vorax_simulator.Rules.{Rules}
use vorax_simulator.Offers.{make_offer, first_pending, advance_base, advance}
use vorax_simulator.Engine.View.{view}
use vorax_simulator.Agents.Observation.{from_state}
use vorax_simulator.Agents.Visible.{expected_offer, outside}

-- A state with other hidden parts: the names, the seed, the streams and the counters of ids.
abbrev pub hidden_as : GameState → GameState → GameState
hidden_as t s = record s {
  run_id = t.run_id;
  user_id = t.user_id;
  seed = t.seed;
  init_rng = t.init_rng;
  offer_rng = t.offer_rng;
  effect_rng = t.effect_rng;
  next_monster_id = t.next_monster_id;
  next_offer_id = t.next_offer_id;
  peak_score = t.peak_score;
  opening_tool_family = t.opening_tool_family;
}

-- What an agent sees of a game does not depend on the seed, the streams, the counters of ids, the
-- names, the peak score or the opening family: states that differ there look the same.
pub from_state-hidden : (s t : GameState) → from_state (hidden_as t s) ≡ from_state s
unfolding from_state view
from_state-hidden s t = refl

-- The threshold that waits, 0 for none.
abbrev pub waiting : Option ℤ → ℤ
waiting none = pos 0
waiting (some t) = t

-- The offer that is expected is the one that `advance` makes; where none is expected, the game ends.
abbrev pub Agrees : GameState → Rules → Outcome (CardKind × ℤ) → Type 0
Agrees s r (ok (kind, threshold)) =
    (source : String) × (advance s r ≡ make_offer s r kind source threshold)
Agrees s r (err e) = advance s r ≡ ok (record s { phase = finished; offer = none })
Agrees s r panic = ⊥
Agrees s r exhausted = ⊥

offered :
    (s : GameState) (r : Rules) (o : Outcome (CardKind × ℤ)) (kind : CardKind) (threshold : ℤ)
    (source : String)
    → o ≡ ok (kind, threshold)
    → advance s r ≡ make_offer s r kind source threshold
    → Agrees s r o
offered s r o kind threshold source e a = subst (Agrees s r) (sym e) (source, a)

expected_end :
    (c : ℤ)
    → eqb_ℤ c (pos 0) ≡ false
    → ltb_ℤ (pos 8) c ≡ true
    → ltb_ℤ c (pos 12) ≡ false
    → eqb_ℤ c (pos 12) ≡ true
    → expected_offer c (pos 0) ≡ err uncoded_error
unfolding expected_offer
expected_end c z past outside l = rw (z, past, outside, l) refl

reward_expected : (c t : ℤ) → eqb_ℤ t (pos 0) ≡ false → expected_offer c t ≡ ok (tool, t)
unfolding expected_offer
reward_expected c t nonzero = rw nonzero refl

reward_advance :
    (s : GameState) (r : Rules) (t : ℤ)
    → first_pending s.rewards.tool_claims ≡ some t
    → advance s r ≡ make_offer s r tool "threshold" t
unfolding advance
reward_advance s r t e = rw (advance, e) refl

no_reward :
    (s : GameState) (r : Rules)
    → first_pending s.rewards.tool_claims ≡ none
    → advance s r ≡ advance_base s r
unfolding advance
no_reward s r e = rw (advance, e) refl

module _ (s : GameState) (r : Rules) (low : pos 0 ≤ℤ s.base_cursor)
    (high : s.base_cursor ≤ℤ pos 12) where
  base_lem :
      first_pending s.rewards.tool_claims ≡ none → Agrees s r (expected_offer s.base_cursor (pos 0))
  unfolding advance_base expected_offer
  base_lem e = elim (Bool-cases (eqb_ℤ s.base_cursor (pos 0))) [
    | inl z ↦
        let before : leb_ℤ (pos 12) s.base_cursor ≡ false = ground arith in
        offered s r (expected_offer s.base_cursor (pos 0)) tool (pos 0) "opening" (rw z refl)
          (no_reward s r e ∙ rw (before, z) refl)
    | inr z ↦ elim (Bool-cases (eqb_ℤ s.base_cursor (pos 12))) [
      | inl l ↦
          let after : leb_ℤ (pos 12) s.base_cursor ≡ true = ground arith in
          let outside : ltb_ℤ s.base_cursor (pos 12) ≡ false = ground arith in
          let past : ltb_ℤ (pos 8) s.base_cursor ≡ true = ground arith in
          subst (Agrees s r) (sym (expected_end s.base_cursor z past outside l))
            (no_reward s r e ∙ rw after refl)
      | inr l ↦
          let before : leb_ℤ (pos 12) s.base_cursor ≡ false = ground arith in
          let inside : ltb_ℤ s.base_cursor (pos 12) ≡ true = ground arith in
          elim (Bool-cases (ltb_ℤ s.base_cursor (pos 9))) [
            | inl p ↦
                let past : ltb_ℤ (pos 8) s.base_cursor ≡ false = ground arith in
                offered s r (expected_offer s.base_cursor (pos 0)) potion (pos 0) "base"
                  (rw (z, past, l) refl) (no_reward s r e ∙ rw (before, z, p) refl)
            | inr p ↦
                let past : ltb_ℤ (pos 8) s.base_cursor ≡ true = ground arith in
                offered s r (expected_offer s.base_cursor (pos 0)) scheme (pos 0) "base"
                  (rw (z, past, inside) refl) (no_reward s r e ∙ rw (before, z, p) refl)
          ]
    ]
  ]

  -- Where the base cursor is from 0 to 12 and no claim is for 0 points: the offer that is expected of a
  -- screen, at the cursor and with the first claim that waits, is the offer that `advance` makes; where
  -- none is expected, `advance` ends the game.
  pub expected_offer-Agrees :
      ((t : ℤ) → first_pending s.rewards.tool_claims ≡ some t → eqb_ℤ t (pos 0) ≡ false)
      → Agrees s r (expected_offer s.base_cursor (waiting (first_pending s.rewards.tool_claims)))
  expected_offer-Agrees nonzero = go (first_pending s.rewards.tool_claims) refl
    where
      go :
          (o : Option ℤ)
          → first_pending s.rewards.tool_claims ≡ o
          → Agrees s r (expected_offer s.base_cursor (waiting o))
      go none e = base_lem e
      go (some t) e =
          offered s r (expected_offer s.base_cursor t) tool t "threshold"
            (reward_expected s.base_cursor t (nonzero t e)) (reward_advance s r t e)
