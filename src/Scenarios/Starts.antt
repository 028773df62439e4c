-- ===== src/Scenarios/Starts.antt =====
-- Runs of `New` and `Apply` of internal/engine/engine.go at concrete inputs.
use vorax_simulator.Base.{ℕ, String, ◌≡◌, refl, List, [], ◌∷◌, none, some}
use vorax_simulator.Base.Int.{pos}
use vorax_simulator.Outcome.{Outcome, ok}
use vorax_simulator.Protocol.{
  preparing, choosing, locked, empty, unknown, tool, GameState, GameEvent, Command,
}
use vorax_simulator.Base.Int.{◌+ℤ◌, ◌-ℤ◌}
use vorax_simulator.Rules.{demo_rules, validate_rules}
use vorax_simulator.Monsters.{definition_pool, base}
use vorax_simulator.Random.{random_n}
use vorax_simulator.Streams.{draw}
use vorax_simulator.Rewards.{checked_add, contribution_of, contribution, update_rewards}
use vorax_simulator.Engine.{run, apply, new}
use vorax_simulator.Offers.{make_offer, advance}
use vorax_simulator.Offers.Opening.{initial_tool_family}
use vorax_simulator.Validation.{validate_state}
use vorax_simulator.Board.{ids_where, put_at, free_slot}
use vorax_simulator.Effects.Context.{failed, if_tick, with_sum, draw_from, write_slots}
use vorax_simulator.Effects.Play.{emit, initialize}
use vorax_simulator.Effects.Monsters.{
  pick_definition, family_or_random, rarity_or_random, definition_or_pick, fresh_id, new_monster,
  add_monster,
}

abbrev pub toy_digest : String → ℕ
toy_digest s = 12345

abbrev pub skip : Command
skip = record { verb = "skip_unknown"; offer_id = "offer-1"; card_id = ""; target_ids = [] }

-- The game that `Create` makes, and the one after its preparation is skipped.
abbrev pub created_state : GameState
created_state = record {
  run_id = "0123456789abcdef0123456789abcdef";
  user_id = "user";
  revision = 1;
  format_version = 1;
  rules_version = "rules-v3";
  content_version = "cards-v4";
  rng_version = "splitmix64-v5";
  seed = "seed";
  phase = preparing;
  base_cursor = pos 0;
  completed_turns = pos 0;
  slots =
      record { index = 0; monster = none; contribution = pos 0 }
      ∷ record { index = 1; monster = none; contribution = pos 0 }
      ∷ record { index = 2; monster = none; contribution = pos 0 }
      ∷ record { index = 3; monster = none; contribution = pos 0 }
      ∷ record { index = 4; monster = none; contribution = pos 0 }
      ∷ record { index = 5; monster = none; contribution = pos 0 }
      ∷ [];
  tools = [];
  offer = some record {
    id = "offer-1";
    kind = unknown;
    card_ids = "unknown_bones" ∷ [];
    source = "preparation";
    reward_threshold = pos 0;
  };
  potion_refreshes = pos 3;
  tool_refreshes = pos 1;
  initial_pet_refreshes = pos 1;
  rewards = record {
    jars = empty ∷ empty ∷ empty ∷ empty ∷ empty ∷ empty ∷ [];
    drop_bonus_percent = pos 0;
    tool_claims =
        record { threshold = pos 8000; status = locked }
        ∷ record { threshold = pos 28000; status = locked }
        ∷ [];
    next_threshold = pos 2000;
    next_reward_label = "+3 个白色奖励罐";
  };
  score = pos 0;
  peak_score = pos 0;
  init_rng = 12345;
  offer_rng = 11400714819323210830;
  effect_rng = 12345;
  next_monster_id = 1;
  next_offer_id = 2;
  opening_tool_family = pos 0;
}

abbrev pub skipped_state : GameState
skipped_state = record {
  run_id = "0123456789abcdef0123456789abcdef";
  user_id = "user";
  revision = 2;
  format_version = 1;
  rules_version = "rules-v3";
  content_version = "cards-v4";
  rng_version = "splitmix64-v5";
  seed = "seed";
  phase = choosing;
  base_cursor = pos 0;
  completed_turns = pos 0;
  slots =
      record {
        index = 0;
        monster = some record {
          id = "monster-1";
          definition_id = "bone_warden";
          family = pos 1;
          rarity = pos 4;
          activity = pos 300;
          quantity = pos 1;
          name = "骸骨典狱官";
        };
        contribution = pos 300;
      }
      ∷ record {
        index = 1;
        monster = some record {
          id = "monster-2";
          definition_id = "awakener_fallen";
          family = pos 3;
          rarity = pos 2;
          activity = pos 5;
          quantity = pos 24;
          name = "堕落者";
        };
        contribution = pos 120;
      }
      ∷ record {
        index = 2;
        monster = some record {
          id = "monster-3";
          definition_id = "awakener_pilgrim";
          family = pos 3;
          rarity = pos 2;
          activity = pos 5;
          quantity = pos 24;
          name = "朝圣者";
        };
        contribution = pos 120;
      }
      ∷ record { index = 3; monster = none; contribution = pos 0 }
      ∷ record { index = 4; monster = none; contribution = pos 0 }
      ∷ record { index = 5; monster = none; contribution = pos 0 }
      ∷ [];
  tools = [];
  offer = some record {
    id = "offer-2";
    kind = tool;
    card_ids = "frontal_lobe" ∷ "pituitary" ∷ "hatching_egg" ∷ [];
    source = "opening";
    reward_threshold = pos 0;
  };
  potion_refreshes = pos 3;
  tool_refreshes = pos 1;
  initial_pet_refreshes = pos 1;
  rewards = record {
    jars = empty ∷ empty ∷ empty ∷ empty ∷ empty ∷ empty ∷ [];
    drop_bonus_percent = pos 0;
    tool_claims =
        record { threshold = pos 8000; status = locked }
        ∷ record { threshold = pos 28000; status = locked }
        ∷ [];
    next_threshold = pos 2000;
    next_reward_label = "+3 个白色奖励罐";
  };
  score = pos 540;
  peak_score = pos 540;
  init_rng = 10372713005361040630;
  offer_rng = 8709371129873703053;
  effect_rng = 12345;
  next_monster_id = 4;
  next_offer_id = 3;
  opening_tool_family = pos 3;
}

abbrev pub skip_events : Outcome (GameState × List GameEvent) → List GameEvent
skip_events (ok (s, events)) = events
skip_events _ = []

pub toy_new :
    new toy_digest "0123456789abcdef0123456789abcdef" "user" "seed" (pos 1) demo_rules
    ≡ ok created_state
unfolding ◌+ℤ◌ ◌-ℤ◌ demo_rules validate_rules random_n draw checked_add contribution update_rewards
    new make_offer
toy_new = refl

pub toy_apply :
    apply created_state skip demo_rules
    ≡ ok (skipped_state, skip_events (apply created_state skip demo_rules))
unfolding ◌+ℤ◌ ◌-ℤ◌ demo_rules definition_pool base random_n draw checked_add contribution_of
    contribution update_rewards run apply make_offer advance initial_tool_family validate_state
    ids_where put_at free_slot failed if_tick with_sum draw_from write_slots emit initialize
    pick_definition family_or_random rarity_or_random definition_or_pick fresh_id new_monster
    add_monster
toy_apply = refl
