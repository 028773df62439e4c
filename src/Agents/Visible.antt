-- ===== src/Agents/Visible.antt =====
-- A game as it is read off a screen: internal/ai/visible.go. What an observation says is checked
-- against the flow of a game.
use vorax_simulator.Base.{
  ℕ, suc, String, Bool, false, not, ◌&&◌, ◌||◌, List, [], ◌∷◌, Option, none, some, str_eq, contains,
  ltb, ◌==◌, length, if◌then◌else◌,
}
use vorax_simulator.Base.Int.{ℤ, pos, ◌+ℤ◌, ◌-ℤ◌, ltb_ℤ, eqb_ℤ}
use vorax_simulator.Outcome.{
  Outcome, ok, err, panic, uncoded_error, ◌>>=◌, ◌>>◌, error_if, or_error,
}
use vorax_simulator.Protocol.{
  CardDefinition, CardKind, card_kind_unspecified, potion, tool, scheme, kind_eq, unspecified,
}
use vorax_simulator.Rules.{card, demo_rules, supported_rules, supported_content}
use vorax_simulator.Monsters.{MonsterDefinition, monster_definitions}
use vorax_simulator.Rewards.{update_rewards}
use vorax_simulator.Agents.Observation.{
  Observation, OfferView, ClaimView, SlotView, SeenCard, empty_view, from_state,
}
use vorax_simulator.Agents.Rebuild.{RandomWords, rebuild_state}

pub record VisibleSlot : Type 0 where
  pub index : ℤ
  pub definition_id : String
  pub activity : ℤ
  pub quantity : ℤ

pub record VisibleInput : Type 0 where
  pub rules_version : String
  pub content_version : String
  pub phase : String
  pub base_cursor : ℤ
  pub completed_turns : ℤ
  pub score : ℤ
  pub slots : List VisibleSlot
  pub tools : List String
  pub unknown_tools : ℤ
  pub offer : OfferView
  pub card_ids : List String
  pub potion_refreshes : ℤ
  pub tool_refreshes : ℤ
  pub tool_claims : List ClaimView

-- `1 + PotionTurns + SchemeTurns`
abbrev pub end_cursor : ℤ
end_cursor = pos 12

abbrev pub outside : ℤ → ℤ → ℤ → Bool
outside low high x = ltb_ℤ x low || ltb_ℤ high x

-- The list `incomplete` is not empty.
unfoldable pub incomplete : VisibleInput → Bool
incomplete v =
    not (length v.slots == 6)
    || (not (length v.tool_claims == 2)
        || (outside (pos 0) (pos 3) v.potion_refreshes
            || (outside (pos 0) (pos 2) v.tool_refreshes
                || outside (pos 0) (pos 3) v.unknown_tools)))

abbrev pub known_status : String → Bool
known_status s = str_eq s "LOCKED" || (str_eq s "PENDING" || str_eq s "CLAIMED")

-- The loop over the claims, with the thresholds that are left and the number of the round: how many
-- are claimed, and the first that is pending, 0 for none.
unfoldable pub check_claims : List ℤ → ℕ → String → List ClaimView → ℤ → ℤ → Outcome (ℤ × ℤ)
check_claims ts i first [] claimed pending = ok (claimed, pending)
check_claims [] i first (c ∷ cs) claimed pending = panic
check_claims (t ∷ ts) i first (c ∷ cs) claimed pending = do
  error_if (not (eqb_ℤ c.threshold t)) uncoded_error
  error_if (not (known_status c.status)) uncoded_error
  error_if (i == 1 && (not (str_eq c.status "LOCKED") && str_eq first "LOCKED")) uncoded_error
  error_if (str_eq c.status "CLAIMED" && not (eqb_ℤ pending (pos 0))) uncoded_error
  check_claims ts (suc i) first cs (if str_eq c.status "CLAIMED" then claimed +ℤ pos 1 else claimed)
      (if str_eq c.status "PENDING" && eqb_ℤ pending (pos 0) then c.threshold else pending)

abbrev pub first_status : List ClaimView → String
first_status [] = ""
first_status (c ∷ cs) = c.status

unfoldable enabled_tool : Option CardDefinition → Bool
enabled_tool none = false
enabled_tool (some c) = c.enabled && kind_eq c.kind tool

unfoldable pub check_seen_tools : List String → Outcome (Unit {0})
unfolding enabled_tool
check_seen_tools [] = ok tt
check_seen_tools (id ∷ ids) = do
  error_if (not (enabled_tool (card demo_rules id))) uncoded_error
  check_seen_tools ids

-- The map of the catalogue by id: a later entry overwrites an earlier one.
unfoldable pub catalog_entry : String → List MonsterDefinition → Option MonsterDefinition
catalog_entry id [] = none
catalog_entry id (d ∷ ds) = elim (catalog_entry id ds) [
  | some e ↦ some e
  | none ↦ if str_eq d.id id then some d else none
]

unfoldable pub seen_monster : VisibleSlot → Outcome SlotView
unfolding catalog_entry
seen_monster v =
    if str_eq v.definition_id ""
    then (do
      error_if (not (eqb_ℤ v.activity (pos 0)) || not (eqb_ℤ v.quantity (pos 0))) uncoded_error
      ok (empty_view v.index))
    else (do
      d ← or_error (catalog_entry v.definition_id monster_definitions) uncoded_error
      error_if (eqb_ℤ v.activity (pos 0) || eqb_ℤ v.quantity (pos 0)) uncoded_error
      ok (record {
        definition_id = d.id;
        name = d.name;
        index = v.index;
        family = d.family;
        rarity = d.rarity;
        activity = v.activity;
        quantity = v.quantity;
      }))

unfoldable pub check_seen_slots : ℕ → List VisibleSlot → Outcome (List SlotView)
unfolding seen_monster
check_seen_slots i [] = ok []
check_seen_slots i (v ∷ vs) = do
  error_if (not (eqb_ℤ v.index (pos i))) uncoded_error
  error_if (ltb_ℤ v.activity (pos 0) || ltb_ℤ v.quantity (pos 0)) uncoded_error
  s ← seen_monster v
  ss ← check_seen_slots (suc i) vs
  ok (s ∷ ss)

-- The kind and the threshold that the flow asks for; an error at the end of the flow.
unfoldable pub expected_offer : ℤ → ℤ → Outcome (CardKind × ℤ)
expected_offer cursor pending =
    if not (eqb_ℤ pending (pos 0))
    then ok (tool, pending)
    else if eqb_ℤ cursor (pos 0)
    then ok (tool, pos 0)
    else if ltb_ℤ (pos 8) cursor && ltb_ℤ cursor end_cursor
    then ok (scheme, pos 0)
    else if eqb_ℤ cursor end_cursor
    then err uncoded_error
    else ok (potion, pos 0)

abbrev card_stub : String → SeenCard
card_stub id = record {
  id = id;
  kind = card_kind_unspecified;
  rarity = pos 0;
  playable = false;
  target_sets = [];
}

unfoldable pub check_seen_cards : CardKind → ℤ → List String → List String → Outcome (List SeenCard)
check_seen_cards kind threshold seen [] = ok []
check_seen_cards kind threshold seen (id ∷ ids) = do
  c ← or_error (card demo_rules id) uncoded_error
  error_if (not c.enabled) uncoded_error
  error_if (not (kind_eq c.kind kind)) uncoded_error
  error_if (contains seen id) uncoded_error
  error_if (kind_eq kind tool && (eqb_ℤ threshold (pos 0) && eqb_ℤ c.core_family unspecified))
      uncoded_error
  cs ← check_seen_cards kind threshold (id ∷ seen) ids
  ok (card_stub id ∷ cs)

-- The candidates of a game that goes on, or that has ended.
unfoldable pub check_candidates : VisibleInput → ℤ → Outcome (List SeenCard)
unfolding expected_offer check_seen_cards
check_candidates v pending =
    if str_eq v.phase "FINISHED"
    then (do
      error_if
          (not (eqb_ℤ v.base_cursor end_cursor)
            || (not (eqb_ℤ pending (pos 0))
                || (not (length v.card_ids == 0)
                    || not (kind_eq v.offer.kind card_kind_unspecified))))
          uncoded_error
      ok [])
    else (do
      (kind, threshold) ← expected_offer v.base_cursor pending
      error_if (not (kind_eq v.offer.kind kind) || not (eqb_ℤ v.offer.reward_threshold threshold))
          uncoded_error
      error_if (ltb (length v.card_ids) 1 || ltb 5 (length v.card_ids)) uncoded_error
      check_seen_cards kind threshold [] v.card_ids)

-- `max(cursor - 1, 0)` and `min(cursor, 1)`
abbrev pub base_turns : ℤ → ℤ
base_turns cursor = if ltb_ℤ (cursor -ℤ pos 1) (pos 0) then pos 0 else cursor -ℤ pos 1

abbrev pub opening_tools : ℤ → ℤ
opening_tools cursor = if ltb_ℤ cursor (pos 1) then cursor else pos 1

abbrev pub wrong_versions : VisibleInput → Bool
wrong_versions v =
    not (str_eq v.rules_version supported_rules) || not (str_eq v.content_version supported_content)

abbrev pub wrong_phase : VisibleInput → Bool
wrong_phase v = not (str_eq v.phase "CHOOSING") && not (str_eq v.phase "FINISHED")

abbrev pub out_of_flow : VisibleInput → Bool
out_of_flow v =
    outside (pos 0) end_cursor v.base_cursor
    || outside (pos 0) (end_cursor +ℤ pos 1) v.completed_turns

-- The checks before the claims.
unfoldable pub check_frame : VisibleInput → Outcome (Unit {0})
unfolding incomplete
check_frame v = do
  error_if (wrong_versions v) uncoded_error
  error_if (wrong_phase v) uncoded_error
  error_if (incomplete v) uncoded_error
  error_if (out_of_flow v) uncoded_error
  ok tt

-- The checks of the progress: the claims, the turns and the number of tools.
unfoldable pub check_progress : VisibleInput → Outcome ℤ
unfolding check_frame check_claims
check_progress v = do
  check_frame v
  (claimed, pending) ←
      check_claims (pos 8000 ∷ pos 28000 ∷ []) 0 (first_status v.tool_claims) v.tool_claims (pos 0)
        (pos 0)
  error_if (not (eqb_ℤ v.completed_turns (base_turns v.base_cursor +ℤ claimed))) uncoded_error
  error_if
      (not
        (eqb_ℤ (pos (length v.tools) +ℤ v.unknown_tools) (claimed +ℤ opening_tools v.base_cursor)))
      uncoded_error
  ok pending

-- `FromVisible`
unfoldable pub from_visible : RandomWords → VisibleInput → Outcome Observation
unfolding check_progress check_seen_tools check_seen_slots check_candidates
from_visible w v = do
  pending ← check_progress v
  check_seen_tools v.tools
  slots ← check_seen_slots 0 v.slots
  cards ← check_candidates v pending
  s ← rebuild_state w (record {
    phase = v.phase;
    stage_label = "";
    base_cursor = v.base_cursor;
    completed_turns = v.completed_turns;
    score = v.score;
    slots = slots;
    tools = v.tools;
    offer = v.offer;
    cards = cards;
    can_skip = false;
    can_refresh = false;
    potion_refreshes = v.potion_refreshes;
    tool_refreshes = v.tool_refreshes;
    rewards = record {
      jars = [];
      drop_bonus_percent = pos 0;
      next_threshold = pos 0;
      next_reward_label = "";
      tool_claims = v.tool_claims;
    };
  })
  scored ← update_rewards s false
  error_if (not (eqb_ℤ scored.score v.score)) uncoded_error
  ok (from_state scored)
