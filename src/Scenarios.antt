-- ===== src/Scenarios.antt =====
-- Runs of the engine at concrete inputs, and the theorems applied at them.
pub mod States
pub mod Starts
pub mod Saves
pub mod Screens
pub mod Episodes
use vorax_simulator.Base.{
  ◌↔◌, ℕ, String, ◌+◌, ◌*◌, ◌≡◌, ◌<◌, refl, not, ◌≤◌, true, List, [], ◌∷◌, none, some, All, arith,
}
use vorax_simulator.Base.Int.{max_int64, ◌≤ℤ◌, pos, ◌+ℤ◌, ◌-ℤ◌, eqb_ℤ}
use vorax_simulator.Outcome.{Outcome, ok, Returns}
use vorax_simulator.Protocol.{
  Slot, GameState, GameEvent, Command, CardDefinition, Offer, Monster, tool, potion, awakener,
  choosing,
}
use vorax_simulator.Rules.{Rules, demo_rules}
use vorax_simulator.Random.{
  word, random_n, draw_loop, rejection_threshold, next_random, advance_stream, mix,
}
use vorax_simulator.Streams.{draw, stream_value, set_stream}
use vorax_simulator.Validation.{
  validate_state, versions_differ, structure_invalid, opening_family_invalid, check_slots,
  check_monster, monster_invalid, check_tools, is_tool,
}
use vorax_simulator.Random.Terminates.{random_n-lt}
use vorax_simulator.Rewards.Overflow.{checked_add_iff, contribution_of_iff}
use vorax_simulator.Rewards.{checked_add, update_rewards, contribution_of}
use vorax_simulator.Random.Mix.{mix-injective, state_after-injective}
use vorax_simulator.Text.{decimal}
use vorax_simulator.Board.Valid.{MonsterOk}
use vorax_simulator.Targets.{valid_targets, legal_targets}
use vorax_simulator.Targets.Sound.{legal_targets-Accepted}
use vorax_simulator.Offers.{
  make_offer, offer_pool, offer_ids, draw_plain, draw_index, set_offer, offer_id,
}
use vorax_simulator.Offers.Boxes.{draw_potion_cards, usual_weights, sort_cards, insert_card}
use vorax_simulator.Offers.Frame.{Drawn, draw_potion_cards-Drawn, OfferOnly, make_offer-OfferOnly}
use vorax_simulator.Offers.Buckets.{bucket_at, sum_weights}
use vorax_simulator.Offers.Weights.{bucket_at-lt, picked_weight, opening_tool_weights-ratio}
use vorax_simulator.Offers.Opening.{matching_count, opening_tool_weights, is_opening_tool_offer}
use vorax_simulator.Effects.Context.{Context, if_tick, tick, when, modify, gets, pure, ◌>>=◌}
use vorax_simulator.Effects.Keeps.{Keeps}
use vorax_simulator.Effects.Invariant.{IsSound, frame}
use vorax_simulator.Effects.Play.{
  emit, play, emit_fuel, emit_event, record_event, new_event, snapshot, set_source, set_parent,
  fire_tools, tool_with,
}
use vorax_simulator.Effects.Sound.Play.{emit-Keeps}
use vorax_simulator.Engine.{
  new_state, apply, start_context, chosen_card, stream_seed, dispatch, refresh, spend_refresh,
  on_state, emit_plain, run, settle,
}
use vorax_simulator.Engine.Frame.{play-frame}
use vorax_simulator.Engine.Sound.Boards.{StateSound}
use vorax_simulator.Engine.Sound.Choice.{IsChosen, chosen_card-IsChosen}
use vorax_simulator.Engine.Sound.Commands.{ApplyOk, apply-ApplyOk}
use vorax_simulator.Engine.Games.{begun, played, Played-StateSound, fresh}
use vorax_simulator.Board.Ids.{monster_id}
use vorax_simulator.Rewards.Prizes.{HasInt64, IsRewarded, update_rewards-IsRewarded}

-- A stand-in for the digest.
abbrev toy_digest : String → ℕ
toy_digest s = 12345

-- The state before the first offer, and the one after it.
abbrev blank : GameState
blank = new_state toy_digest "run" "user" "seed" (pos 1) demo_rules

-- A small catalogue, and a game in the middle of a reward: one monster, and three tools to choose from.
abbrev plain_tool : String → CardDefinition
plain_tool id = record {
  id = id;
  kind = tool;
  rarity = pos 0;
  min_targets = pos 0;
  max_targets = pos 0;
  handler = "";
  effects = [];
  enabled = true;
  trigger = "";
  core_family = pos 3;
}

abbrev drop_cream : CardDefinition
drop_cream = record {
  id = "cream";
  kind = potion;
  rarity = pos 1;
  min_targets = pos 1;
  max_targets = pos 1;
  handler = "";
  effects = [];
  enabled = true;
  trigger = "";
  core_family = pos 0;
}

abbrev few_rules : Rules
few_rules = record {
  version = "rules-v3";
  content_version = "cards-v4";
  cards = plain_tool "a" ∷ plain_tool "b" ∷ plain_tool "c" ∷ [];
}

abbrev guard : Monster
guard = record {
  id = "monster-1";
  definition_id = "bone_guard";
  family = pos 1;
  rarity = pos 1;
  activity = pos 30;
  quantity = pos 20;
  name = "";
}

abbrev tool_offer : Offer
tool_offer = record {
  id = "offer-5";
  kind = tool;
  card_ids = "a" ∷ "b" ∷ "c" ∷ [];
  source = "threshold";
  reward_threshold = pos 8000;
}

abbrev claiming : GameState
claiming = record blank {
  rules_version = "rules-v3";
  content_version = "cards-v4";
  phase = choosing;
  base_cursor = pos 3;
  opening_tool_family = pos 1;
  next_monster_id = 2;
  next_offer_id = 6;
  offer = some tool_offer;
  slots =
      (record { index = 0; monster = some guard; contribution = pos 600 })
      ∷ (record { index = 1; monster = none; contribution = pos 0 })
      ∷ (record { index = 2; monster = none; contribution = pos 0 })
      ∷ (record { index = 3; monster = none; contribution = pos 0 })
      ∷ (record { index = 4; monster = none; contribution = pos 0 })
      ∷ (record { index = 5; monster = none; contribution = pos 0 })
      ∷ [];
}

guard-MonsterOk : MonsterOk 2 guard
unfolding monster_id decimal
guard-MonsterOk = record {
  number = 1;
  given = refl;
  before = omega arith;
  family_low = omega arith;
  family_high = omega arith;
  rarity_low = omega arith;
  rarity_high = omega arith;
  activity = omega arith;
  quantity = omega arith;
}

claiming-StateSound : StateSound claiming claiming
unfolding new_state stream_seed
claiming-StateSound = (
  refl,
  refl,
  (guard-MonsterOk, (tt, (tt, (tt, (tt, (tt, tt)))))),
  ((refl, (refl, (refl, (refl, (refl, tt))))), (tt, (tt, (tt, (tt, (tt, tt)))))),
  omega arith,
  omega arith,
  omega arith,
)

abbrev refresh_tools : Command
refresh_tools = record { verb = "refresh"; offer_id = "offer-5"; card_id = ""; target_ids = [] }

abbrev result_state : Outcome (GameState × List GameEvent) → GameState
result_state (ok (s, events)) = s
result_state _ = blank

abbrev result_events : Outcome (GameState × List GameEvent) → List GameEvent
result_events (ok (s, events)) = events
result_events _ = []

abbrev refreshed : Outcome (GameState × List GameEvent)
refreshed = apply claiming refresh_tools few_rules

refreshed-ok : refreshed ≡ ok (result_state refreshed, result_events refreshed)
unfolding apply new_state stream_seed validate_state versions_differ structure_invalid
    opening_family_invalid check_slots check_monster monster_invalid check_tools is_tool
    contribution_of start_context dispatch refresh spend_refresh on_state make_offer offer_pool
    sort_cards insert_card offer_ids draw_plain draw_index draw stream_value set_stream random_n
    draw_loop rejection_threshold next_random advance_stream mix set_offer offer_id decimal
    is_opening_tool_offer emit_plain run settle emit emit_fuel emit_event if_tick tick when
    record_event new_event snapshot set_source set_parent fire_tools tool_with modify gets pure
    ◌>>=◌ ◌-ℤ◌ ◌+ℤ◌
refreshed-ok = refl

random_n-lt_example : (x : ℕ) × (v : ℕ) × (random_n 12345 6 ≡ ok (x, v)) × (x < 6) × (v < word)
random_n-lt_example = random_n-lt 12345 6 (omega arith) (omega arith)

apply-ApplyOk_example : Returns (ApplyOk claiming) (apply claiming refresh_tools few_rules)
apply-ApplyOk_example =
    apply-ApplyOk claiming refresh_tools few_rules claiming-StateSound (omega arith)

Played-StateSound_example :
    StateSound claiming (result_state refreshed)
    × ((result_state refreshed).next_monster_id ≤ 2 + 512 * 1)
Played-StateSound_example =
    Played-StateSound claiming (result_state refreshed) 1 claiming-StateSound (omega arith) (
      played claiming (result_state refreshed) 0 refresh_tools few_rules (result_events refreshed)
        begun refreshed-ok)

claiming_fits : All (λ (t : Slot). HasInt64 t.monster) claiming.slots
claiming_fits = ((omega arith, omega arith), (tt, (tt, (tt, (tt, (tt, tt))))))

update_rewards-IsRewarded_example :
    Returns (IsRewarded true claiming) (update_rewards claiming true)
update_rewards-IsRewarded_example = update_rewards-IsRewarded claiming true claiming_fits

make_offer-OfferOnly_example :
    Returns (OfferOnly claiming) (make_offer claiming few_rules tool "refresh" (pos 8000))
unfolding new_state stream_seed
make_offer-OfferOnly_example =
    make_offer-OfferOnly claiming few_rules tool "refresh" (pos 8000) (omega arith)

abbrev choose_a : Command
choose_a = record { verb = "choose"; offer_id = "offer-5"; card_id = "a"; target_ids = [] }

chosen_card-IsChosen_example :
    Returns
      (IsChosen tool_offer choose_a (start_context claiming few_rules))
      (chosen_card tool_offer choose_a (start_context claiming few_rules))
chosen_card-IsChosen_example =
    chosen_card-IsChosen tool_offer choose_a (start_context claiming few_rules)

legal_targets-Accepted_example :
    All
      (λ ids. valid_targets claiming.slots drop_cream ids ≡ true)
      (legal_targets claiming.slots drop_cream)
legal_targets-Accepted_example = legal_targets-Accepted claiming.slots drop_cream

bucket_at-lt_example : (i : ℕ) × (bucket_at 77 (45 ∷ 30 ∷ 20 ∷ 5 ∷ []) ≡ some i) × (i < 4)
unfolding sum_weights
bucket_at-lt_example = bucket_at-lt 77 (45 ∷ 30 ∷ 20 ∷ 5 ∷ []) (omega arith)

abbrev mixed_pool : List CardDefinition
mixed_pool = plain_tool "a" ∷ plain_tool "b" ∷ drop_cream ∷ []

opening_tool_weights-ratio_example :
    9
      * picked_weight
          (λ c. eqb_ℤ c.core_family awakener)
          mixed_pool
          (opening_tool_weights mixed_pool awakener)
    ≡ 11
      * picked_weight
          (λ c. not (eqb_ℤ c.core_family awakener))
          mixed_pool
          (opening_tool_weights mixed_pool awakener)
unfolding matching_count
opening_tool_weights-ratio_example =
    opening_tool_weights-ratio mixed_pool awakener (omega arith) (omega arith)

play-frame_example :
    Returns
      (λ (x : Unit {0} × Context). frame x.1.state ≡ frame (start_context claiming few_rules).state)
      (play emit drop_cream ("monster-1" ∷ []) (start_context claiming few_rules))
play-frame_example =
    play-frame claiming few_rules drop_cream ("monster-1" ∷ []) claiming-StateSound (omega arith)

emit-Keeps_example : Keeps (IsSound claiming 513 0) (emit "turn_end" [] (pos 0) (pos 0))
emit-Keeps_example = emit-Keeps (omega arith) "turn_end" [] (pos 0) (pos 0)

mix-injective_example : ◌≡◌ {A = ℕ} 81985529216486895 81985529216486895
mix-injective_example =
    mix-injective 81985529216486895 81985529216486895 (omega arith) (omega arith) refl

state_after-injective_example : ◌≡◌ {A = ℕ} 3 3
state_after-injective_example =
    state_after-injective 12345 3 3 (omega arith) (omega arith) (omega arith) refl

-- The greatest sum.
checked_add_iff_example : (checked_add (pos 9223372036854775800) (pos 7) ≡ some (pos max_int64)) ↔ (
    (pos 0 ≤ℤ pos 9223372036854775800)
    × (pos 0 ≤ℤ pos 7)
    × (pos 9223372036854775800 +ℤ pos 7 ≤ℤ pos max_int64)
    × (pos max_int64 ≡ pos 9223372036854775800 +ℤ pos 7))
checked_add_iff_example =
    checked_add_iff (pos 9223372036854775800) (pos 7) (pos max_int64) (omega arith, omega arith)
      (omega arith, omega arith)

contribution_of_iff_example :
    (contribution_of guard ≡ some (pos 600))
    ↔ ((pos 0 ≤ℤ pos 30) × (pos 0 ≤ℤ pos 20) × (30 * 20 ≤ max_int64) × (pos 600 ≡ pos (30 * 20)))
contribution_of_iff_example =
    contribution_of_iff guard (pos 600) (omega arith, omega arith) (omega arith, omega arith)

draw_potion_cards-Drawn_example :
    Returns (Drawn claiming 3) (draw_potion_cards claiming demo_rules 3 usual_weights true)
unfolding new_state stream_seed
draw_potion_cards-Drawn_example =
    draw_potion_cards-Drawn claiming demo_rules 3 usual_weights true (omega arith)
