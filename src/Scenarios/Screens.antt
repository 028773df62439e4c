-- ===== src/Scenarios/Screens.antt =====
-- What an agent sees and does at concrete inputs, and the theorems on it applied there.
use vorax_simulator.Base.{◌≡◌, refl, String, true, false, [], ◌∷◌, All, some, arith}
use vorax_simulator.Base.Int.{ℤ, pos, eqb_ℤ}
use vorax_simulator.Outcome.{ok, Yields}
use vorax_simulator.Protocol.{CardDefinition, Offer, tool, potion, unspecified}
use vorax_simulator.Rules.{demo_rules, card}
use vorax_simulator.Offers.{first_pending}
use vorax_simulator.Targets.{valid_targets, legal_targets}
use vorax_simulator.Agents.Observation.{from_state, holds, index_of, places, target_rows}
use vorax_simulator.Agents.Actions.{place_ids, legal_actions}
use vorax_simulator.Agents.Rebuild.{RandomWords}
use vorax_simulator.Agents.Legal.{IsMove, legal_actions-IsMove}
use vorax_simulator.Validation.{
  validate_state, check_slots, check_tools, check_monster, versions_differ, structure_invalid,
  opening_family_invalid,
}
use vorax_simulator.Rewards.{contribution_of}
use vorax_simulator.Agents.Places.{Placed, place_ids-places, target_rows-Accepted, LeadsBack}
use vorax_simulator.Agents.Visible.{
  VisibleInput, VisibleSlot, expected_offer, check_progress, from_visible,
}
use vorax_simulator.Agents.Flow.{
  hidden_as, from_state-hidden, Agrees, waiting, expected_offer-Agrees,
}
use vorax_simulator.Agents.Progress.{IsConsistent, check_progress-IsConsistent}
use vorax_simulator.Agents.Offered.{IsOffered, from_visible-IsOffered}
use vorax_simulator.Scenarios.Starts.{created_state, skipped_state}

abbrev visible_slot : ℤ → String → ℤ → ℤ → VisibleSlot
visible_slot i id a q = record { index = i; definition_id = id; activity = a; quantity = q }

-- The screen of the state after the preparation is skipped.
abbrev opening_screen : VisibleInput
opening_screen = record {
  rules_version = "rules-v3";
  content_version = "cards-v4";
  phase = "CHOOSING";
  base_cursor = pos 0;
  completed_turns = pos 0;
  score = pos 540;
  slots =
      visible_slot (pos 0) "bone_warden" (pos 300) (pos 1)
      ∷ visible_slot (pos 1) "awakener_fallen" (pos 5) (pos 24)
      ∷ visible_slot (pos 2) "awakener_pilgrim" (pos 5) (pos 24)
      ∷ visible_slot (pos 3) "" (pos 0) (pos 0)
      ∷ visible_slot (pos 4) "" (pos 0) (pos 0)
      ∷ visible_slot (pos 5) "" (pos 0) (pos 0)
      ∷ [];
  tools = [];
  unknown_tools = pos 0;
  offer = record { kind = tool; reward_threshold = pos 0 };
  card_ids = "frontal_lobe" ∷ "pituitary" ∷ "hatching_egg" ∷ [];
  potion_refreshes = pos 3;
  tool_refreshes = pos 1;
  tool_claims =
      (record { threshold = pos 8000; status = "LOCKED" })
      ∷ (record { threshold = pos 28000; status = "LOCKED" })
      ∷ [];
}

abbrev toy_words : RandomWords
toy_words = record { init_word = 1; offer_word = 2; effect_word = 3; tie_word = 4 }

from_state-hidden_example :
    from_state (hidden_as skipped_state created_state) ≡ from_state created_state
from_state-hidden_example = from_state-hidden created_state skipped_state

no_waiting :
    (t : ℤ) → first_pending skipped_state.rewards.tool_claims ≡ some t → eqb_ℤ t (pos 0) ≡ false
unfolding first_pending
no_waiting t h = absurd (ground arith)

expected_offer-Agrees_example :
    Agrees skipped_state demo_rules
      (expected_offer (pos 0) (waiting (first_pending skipped_state.rewards.tool_claims)))
expected_offer-Agrees_example =
    expected_offer-Agrees skipped_state demo_rules (omega arith) (omega arith) no_waiting

check_progress-IsConsistent_example :
    Yields (IsConsistent opening_screen) (check_progress opening_screen)
check_progress-IsConsistent_example = check_progress-IsConsistent opening_screen

none_waiting : waiting (first_pending skipped_state.rewards.tool_claims) ≡ pos 0
unfolding first_pending
none_waiting = refl

from_visible-IsOffered_example :
    Yields
      (λ _. IsOffered opening_screen skipped_state demo_rules)
      (from_visible toy_words opening_screen)
from_visible-IsOffered_example =
    from_visible-IsOffered toy_words opening_screen skipped_state demo_rules refl refl none_waiting
      no_waiting

abbrev placed : Placed 0 skipped_state.slots
placed = (refl, (refl, (refl, (refl, (refl, (refl, tt))))))

seen_places :
    places skipped_state.slots ("monster-3" ∷ "monster-1" ∷ []) ≡ some (pos 2 ∷ pos 0 ∷ [])
unfolding places index_of holds
seen_places = refl

place_ids-places_example :
    place_ids skipped_state.slots (pos 2 ∷ pos 0 ∷ []) ≡ ok ("monster-3" ∷ "monster-1" ∷ [])
place_ids-places_example =
    place_ids-places skipped_state.slots placed ("monster-3" ∷ "monster-1" ∷ [])
      (pos 2 ∷ pos 0 ∷ []) seen_places

abbrev leech : CardDefinition
leech = record {
  id = "leech";
  kind = potion;
  rarity = pos 1;
  min_targets = pos 1;
  max_targets = pos 1;
  handler = "potion_mixed_leech";
  effects = [];
  enabled = true;
  trigger = "";
  core_family = unspecified;
}

target_rows-Accepted_example :
    All
      (LeadsBack skipped_state.slots placed
        (λ ids. valid_targets skipped_state.slots leech ids ≡ true))
      (target_rows skipped_state.slots (legal_targets skipped_state.slots leech))
target_rows-Accepted_example = target_rows-Accepted skipped_state.slots placed leech

skipped_valid : validate_state skipped_state demo_rules ≡ ok tt
unfolding validate_state versions_differ structure_invalid opening_family_invalid check_slots
    check_tools check_monster contribution_of demo_rules card
skipped_valid = refl

-- The offer of the opening tools.
abbrev opening_offer : Offer
opening_offer = record {
  id = "offer-2";
  kind = tool;
  card_ids = "frontal_lobe" ∷ "pituitary" ∷ "hatching_egg" ∷ [];
  source = "opening";
  reward_threshold = pos 0;
}

legal_actions-IsMove_example :
    All (IsMove skipped_state opening_offer) (legal_actions (from_state skipped_state))
legal_actions-IsMove_example = legal_actions-IsMove skipped_state opening_offer skipped_valid refl
