-- ===== src/Engine/Games.antt =====
-- A game as a sequence of commands: `New` and repeated `Apply` of internal/engine/engine.go.
use vorax_simulator.Base.{
  ℕ, suc, false, ◌+◌, ◌*◌, ◌≤◌, ◌<◌, ◌≡◌, refl, subst, ◌∙◌, String, List, arith,
}
use vorax_simulator.Base.Int.{ℤ, pos}
use vorax_simulator.Outcome.{Returns-guard, ok, Returns, Returns-bind}
use vorax_simulator.Protocol.{GameState, GameEvent, Command, unknown}
use vorax_simulator.Rules.{Rules, validate_rules}
use vorax_simulator.Random.{word}
use vorax_simulator.Rewards.{update_rewards}
use vorax_simulator.Rules.Ends.{validate_rules-Ends}
use vorax_simulator.Validation.Ends.{after_unit}
use vorax_simulator.Offers.{make_offer}
use vorax_simulator.Engine.{apply, new, new_state, stream_seed, empty_slots}
use vorax_simulator.Engine.Sound.Boards.{
  StateSound, Returns-le, make_offer-StateSound, update_rewards-StateSound,
}
use vorax_simulator.Engine.Sound.Commands.{ApplyOk, apply-ApplyOk}

-- The states that `n` commands lead to, each with the rules of its time.
pub data Played (s0 : GameState) : GameState → ℕ → Type 0 where
  begun : Played s0 s0 0
  played :
      (s s' : GameState) (n : ℕ) (cmd : Command) (r : Rules) (events : List GameEvent)
      → Played s0 s n
      → apply s cmd r ≡ ok (s', events)
      → Played s0 s' (suc n)

abbrev Reached : GameState → GameState → ℕ → Type 0
Reached s0 s n = StateSound s0 s × (s.next_monster_id ≤ s0.next_monster_id + 512 * n)

applied :
    (s0 s : GameState) (n : ℕ) (cmd : Command) (r : Rules) (s' : GameState)
    (events : List GameEvent)
    → Reached s0 s n
    → s0.next_monster_id + 512 * n + 513 < word
    → apply s cmd r ≡ ok (s', events)
    → Reached s0 s' (suc n)
applied s0 s n cmd r s' events ((same, placed, oks, distinct, iw, ew, ow), given) room e =
    let out : ApplyOk s (s', events) =
      subst (λ o. Returns (ApplyOk s) o) e
        (apply-ApplyOk s cmd r (refl, refl, oks, distinct, iw, ew, ow)
          (omega (arith, given, room))) in
    let ((same', placed', oks', distinct', iw', ew', ow'), given') = out in
    ((same' ∙ same, placed' ∙ placed, oks', distinct', iw', ew', ow'), omega (arith, given, given'))

-- From a sound state, after any `n` commands that `Apply` accepted, where the counter of monsters has
-- room for 512 ids in each: the board is sound, so that no id stands in two slots and each monster has
-- a known family and rarity and attributes within an int64; the streams are words; player, seed,
-- versions and the places of the slots are those of the start; and at most 512 ids were given out in
-- each command.
pub Played-StateSound :
    (s0 s : GameState) (n : ℕ)
    → StateSound s0 s0
    → s0.next_monster_id + 512 * n + 1 < word
    → Played s0 s n
    → StateSound s0 s × (s.next_monster_id ≤ s0.next_monster_id + 512 * n)
Played-StateSound s0 s n h room begun = (h, omega arith)
Played-StateSound s0 _ _ h room (played s s' k cmd r events before e) =
    applied s0 s k cmd r s' events (Played-StateSound s0 s k h (omega (arith, room)) before)
      (omega (arith, room)) e

module _ (sha256_word : String → ℕ) (inside : (t : String) → sha256_word t < word) where
  pub fresh :
      (run_id user_id seed : String) (pet : ℤ) (r : Rules)
      → let s = new_state sha256_word run_id user_id seed pet r in StateSound s s
  unfolding new_state empty_slots stream_seed
  fresh run_id user_id seed pet r =
      (refl, refl, omega arith, omega arith, inside _, inside _, inside _)

  -- The game that `New` gives is sound beside the state that it starts from.
  pub new-StateSound :
      (run_id user_id seed : String) (pet : ℤ) (r : Rules)
      → Returns
          (StateSound (new_state sha256_word run_id user_id seed pet r))
          (new sha256_word run_id user_id seed pet r)
  unfolding new
  new-StateSound run_id user_id seed pet r =
      let start = new_state sha256_word run_id user_id seed pet r in
      Returns-guard (StateSound start) _ _ _ (
        after_unit (StateSound start) (validate_rules r) _ (validate_rules-Ends r) (
          Returns-bind (λ s. StateSound start s × (s.next_monster_id ≡ 1)) (StateSound start)
            (make_offer start r unknown "preparation" (pos 0)) (λ s. update_rewards s false)
            (make_offer-StateSound start start r unknown "preparation" (pos 0)
              (fresh run_id user_id seed pet r))
            (λ s (h, _).
              Returns-le _ (StateSound start) (update_rewards s false) (λ s' k. k.0)
                (update_rewards-StateSound start s false h))))
