-- ===== src/Agents/Observation.antt =====
-- What an agent sees of a game: internal/ai/obs.go. The names and descriptions of cards and tools are
-- left out.
use vorax_simulator.Base.{
  ℕ, String, Bool, false, List, [], ◌∷◌, map, Option, none, some, str_eq, if◌then◌else◌,
}
use vorax_simulator.Base.Int.{ℤ, pos}
use vorax_simulator.Protocol.{
  GameState, Slot, Monster, Offer, CardKind, card_kind_unspecified, Phase, phase_unspecified,
  preparing, choosing, finished, ClaimStatus, locked, pending, claimed, ToolClaim, RewardState,
  JarColor,
}
use vorax_simulator.Rules.{demo_rules}
use vorax_simulator.Engine.View.{view, CardView}

-- A slot; family and rarity are 0 where it is empty.
pub record SlotView : Type 0 where
  pub definition_id : String
  pub name : String
  pub index : ℤ
  pub family : ℤ
  pub rarity : ℤ
  pub activity : ℤ
  pub quantity : ℤ

pub record OfferView : Type 0 where
  pub kind : CardKind
  pub reward_threshold : ℤ

-- `CardView` of the agents; targets are places of slots.
pub record SeenCard : Type 0 where
  pub id : String
  pub kind : CardKind
  pub rarity : ℤ
  pub playable : Bool
  pub target_sets : List (List ℤ)

pub record ClaimView : Type 0 where
  pub threshold : ℤ
  pub status : String

pub record RewardView : Type 0 where
  pub jars : List JarColor
  pub drop_bonus_percent : ℤ
  pub next_threshold : ℤ
  pub next_reward_label : String
  pub tool_claims : List ClaimView

pub record Observation : Type 0 where
  pub phase : String
  pub stage_label : String
  pub base_cursor : ℤ
  pub completed_turns : ℤ
  pub score : ℤ
  pub slots : List SlotView
  pub tools : List String
  pub offer : OfferView
  pub cards : List SeenCard
  pub can_skip : Bool
  pub can_refresh : Bool
  pub potion_refreshes : ℤ
  pub tool_refreshes : ℤ
  pub rewards : RewardView

-- `Done`
abbrev pub done : Observation → Bool
done o = str_eq o.phase "FINISHED"

-- `String()` of the enums.
unfoldable pub phase_text : Phase → String
phase_text phase_unspecified = "PHASE_UNSPECIFIED"
phase_text preparing = "PREPARING"
phase_text choosing = "CHOOSING"
phase_text finished = "FINISHED"

unfoldable pub status_text : ClaimStatus → String
status_text locked = "LOCKED"
status_text pending = "PENDING"
status_text claimed = "CLAIMED"

abbrev pub empty_view : ℤ → SlotView
empty_view i = record {
  definition_id = "";
  name = "";
  index = i;
  family = pos 0;
  rarity = pos 0;
  activity = pos 0;
  quantity = pos 0;
}

unfoldable pub monster_view : ℕ → Option Monster → SlotView
monster_view i none = empty_view (pos i)
monster_view i (some m) = record {
  definition_id = m.definition_id;
  name = m.name;
  index = pos i;
  family = m.family;
  rarity = m.rarity;
  activity = m.activity;
  quantity = m.quantity;
}

unfoldable pub holds : Option Monster → String → Bool
holds none id = false
holds (some m) id = str_eq m.id id

-- The map `indexOf`: a later slot overwrites an earlier one.
unfoldable pub index_of : List Slot → String → Option ℕ
unfolding holds
index_of [] id = none
index_of (s ∷ ss) id = elim (index_of ss id) [
  | some i ↦ some i
  | none ↦ if holds s.monster id then some s.index else none
]

-- The places of targets; `none` where one is not on the board.
unfoldable pub places : List Slot → List String → Option (List ℤ)
unfolding index_of
places slots [] = some []
places slots (id ∷ ids) = elim (index_of slots id) [
  | none ↦ none
  | some i ↦ elim (places slots ids) [ none ↦ none | some row ↦ some (pos i ∷ row) ]
]

unfoldable pub target_rows : List Slot → List (List String) → List (List ℤ)
unfolding places
target_rows slots [] = []
target_rows slots (ids ∷ sets) =
    let rest = target_rows slots sets in
    elim (places slots ids) [ none ↦ rest | some row ↦ row ∷ rest ]

unfoldable pub see_card : List Slot → CardView → SeenCard
unfolding target_rows
see_card slots v = record {
  id = v.definition.id;
  kind = v.definition.kind;
  rarity = v.definition.rarity;
  playable = v.playable;
  target_sets = target_rows slots v.legal_targets;
}

unfoldable pub see_offer : Option Offer → OfferView
see_offer none = record { kind = card_kind_unspecified; reward_threshold = pos 0 }
see_offer (some o) = record { kind = o.kind; reward_threshold = o.reward_threshold }

unfoldable pub see_rewards : RewardState → RewardView
unfolding status_text
see_rewards r = record {
  jars = r.jars;
  drop_bonus_percent = r.drop_bonus_percent;
  next_threshold = r.next_threshold;
  next_reward_label = r.next_reward_label;
  tool_claims =
      map (λ (c : ToolClaim). record { threshold = c.threshold; status = status_text c.status })
        r.tool_claims;
}

-- `FromGameState`. Without an offer, the view has no cards.
unfoldable pub from_state : GameState → Observation
unfolding phase_text monster_view see_card see_offer see_rewards
from_state s =
    let v = view s demo_rules in
    record {
      phase = phase_text s.phase;
      stage_label = v.stage_label;
      base_cursor = s.base_cursor;
      completed_turns = s.completed_turns;
      score = s.score;
      slots = map (λ (t : Slot). monster_view t.index t.monster) s.slots;
      tools = s.tools;
      offer = see_offer s.offer;
      cards = map (see_card s.slots) v.cards;
      can_skip = v.can_skip;
      can_refresh = v.can_refresh;
      potion_refreshes = s.potion_refreshes;
      tool_refreshes = s.tool_refreshes;
      rewards = see_rewards s.rewards;
    }
