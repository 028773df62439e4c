-- ===== src/Protocol.antt =====
-- The messages of api/game.proto (internal/protocol) that the engine keeps and exchanges. Go's int32,
-- int64 and the enum numbers that the engine compares by order or computes with (Family,
-- MonsterRarity, PotionRarity) are integers; uint64 counters and random streams are numbers below
-- 2 ^ 64; the other enums are data types. A pointer field that may be nil is an `Option`. Texts that
-- are only shown (names of cards, descriptions, messages of events) are left out.
use vorax_simulator.Base.{ℕ, String, Bool, List, Option, ◌==◌}
use vorax_simulator.Base.Int.{ℤ, pos}

pub data Phase : Type 0 where
  phase_unspecified preparing choosing finished : Phase

pub data CardKind : Type 0 where
  card_kind_unspecified unknown potion tool scheme : CardKind

pub data ClaimStatus : Type 0 where
  locked pending claimed : ClaimStatus

pub data JarColor : Type 0 where
  empty jar_white purple jar_red rainbow : JarColor

-- Family and MonsterRarity, by their numbers.
abbrev pub unspecified : ℤ
unspecified = pos 0

abbrev pub bone : ℤ
bone = pos 1

abbrev pub fiend : ℤ
fiend = pos 2

abbrev pub awakener : ℤ
awakener = pos 3

abbrev pub insect : ℤ
insect = pos 4

abbrev pub normal : ℤ
normal = pos 1

abbrev pub magic : ℤ
magic = pos 2

abbrev pub rare : ℤ
rare = pos 3

abbrev pub boss : ℤ
boss = pos 4

-- PotionRarity, by its numbers.
abbrev pub white : ℤ
white = pos 1

abbrev pub blue : ℤ
blue = pos 2

abbrev pub gold : ℤ
gold = pos 3

abbrev pub red : ℤ
red = pos 4

pub record Monster : Type 0 where
  pub id : String
  pub definition_id : String
  pub family : ℤ
  pub rarity : ℤ
  pub activity : ℤ
  pub quantity : ℤ
  pub name : String

pub record Slot : Type 0 where
  pub index : ℕ
  pub monster : Option Monster
  pub contribution : ℤ

pub record ToolClaim : Type 0 where
  pub threshold : ℤ
  pub status : ClaimStatus

pub record RewardState : Type 0 where
  pub jars : List JarColor
  pub drop_bonus_percent : ℤ
  pub tool_claims : List ToolClaim
  pub next_threshold : ℤ
  pub next_reward_label : String

pub record Offer : Type 0 where
  pub id : String
  pub kind : CardKind
  pub card_ids : List String
  pub source : String
  pub reward_threshold : ℤ

pub record GameState : Type 0 where
  pub run_id : String
  pub user_id : String
  pub revision : ℕ
  pub format_version : ℕ
  pub rules_version : String
  pub content_version : String
  pub rng_version : String
  pub seed : String
  pub phase : Phase
  pub base_cursor : ℤ
  pub completed_turns : ℤ
  pub slots : List Slot
  pub tools : List String
  pub offer : Option Offer
  pub potion_refreshes : ℤ
  pub tool_refreshes : ℤ
  pub initial_pet_refreshes : ℤ
  pub rewards : RewardState
  pub score : ℤ
  pub peak_score : ℤ
  pub init_rng : ℕ
  pub offer_rng : ℕ
  pub effect_rng : ℕ
  pub next_monster_id : ℕ
  pub next_offer_id : ℕ
  pub opening_tool_family : ℤ

pub record EffectSpec : Type 0 where
  pub op : String
  pub selector : String
  pub activity : ℤ
  pub quantity : ℤ
  pub family : ℤ
  pub rarity : ℤ
  pub count : ℤ

pub record CardDefinition : Type 0 where
  pub id : String
  pub kind : CardKind
  pub rarity : ℤ
  pub min_targets : ℤ
  pub max_targets : ℤ
  pub handler : String
  pub effects : List EffectSpec
  pub enabled : Bool
  pub trigger : String
  pub core_family : ℤ

-- SlotSnapshot
pub record SlotSnapshot : Type 0 where
  pub index : ℕ
  pub monster : Option Monster

pub record GameEvent : Type 0 where
  pub sequence : ℕ
  pub parent_sequence : ℕ
  pub kind : String
  pub source : String
  pub target_ids : List String
  pub activity_delta : ℤ
  pub quantity_delta : ℤ
  pub slots_after : List SlotSnapshot

-- Command.Type is named `verb` here.
pub record Command : Type 0 where
  pub verb : String
  pub offer_id : String
  pub card_id : String
  pub target_ids : List String

-- Go's `==` on the enums.
abbrev pub phase_number : Phase → ℕ
phase_number phase_unspecified = 0
phase_number preparing = 1
phase_number choosing = 2
phase_number finished = 3

abbrev pub phase_eq : Phase → Phase → Bool
phase_eq a b = phase_number a == phase_number b

abbrev pub card_kind_number : CardKind → ℕ
card_kind_number card_kind_unspecified = 0
card_kind_number unknown = 1
card_kind_number potion = 2
card_kind_number tool = 3
card_kind_number scheme = 4

abbrev pub kind_eq : CardKind → CardKind → Bool
kind_eq a b = card_kind_number a == card_kind_number b

abbrev pub status_number : ClaimStatus → ℕ
status_number locked = 0
status_number pending = 1
status_number claimed = 2

abbrev pub status_eq : ClaimStatus → ClaimStatus → Bool
status_eq a b = status_number a == status_number b
