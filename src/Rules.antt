-- ===== src/Rules.antt =====
-- The card catalogue: internal/engine/rules.go. The children hold the two long tables.
pub mod Potions
pub mod Tools
pub mod Ends
use vorax_simulator.Base.{
  ℕ, ◌+◌, String, Bool, true, false, not, ◌&&◌, ◌||◌, List, [], ◌∷◌, ◌++◌, map, Option, none, some,
  str_eq, ◌≡◌, refl, contains, ltb, ◌==◌, length, keep, exists_b, if◌then◌else◌,
}
use vorax_simulator.Base.Int.{ℤ, pos, ltb_ℤ, eqb_ℤ}
use vorax_simulator.Outcome.{
  Outcome, ok, err, invalid_rules, version_unavailable, ◌>>◌, ◌>>=◌, error_if,
}
use vorax_simulator.Protocol.{
  CardDefinition, EffectSpec, CardKind, unknown, potion, tool, scheme, kind_eq, unspecified, insect,
  white, blue, gold, red,
}
use Potions.{potion_cards}
use Tools.{tool_cards}

abbrev pub supported_rules : String
supported_rules = "rules-v3"

abbrev pub supported_content : String
supported_content = "cards-v4"

-- RNGVersion
abbrev pub rng_version : String
rng_version = "splitmix64-v5"

pub record Rules : Type 0 where
  pub version : String
  pub content_version : String
  pub cards : List CardDefinition

unfoldable pub find_card : String → List CardDefinition → Option CardDefinition
find_card id [] = none
find_card id (c ∷ cs) = if str_eq c.id id then some c else find_card id cs

-- `(r *Rules) Card(id)`
unfoldable pub card : Rules → String → Option CardDefinition
unfolding find_card
card r id = find_card id r.cards

abbrev plain_card : String → CardKind → ℤ → String → CardDefinition
plain_card id kind rarity handler = record {
  id = id;
  kind = kind;
  rarity = rarity;
  min_targets = pos 0;
  max_targets = pos 0;
  handler = handler;
  effects = [];
  enabled = true;
  trigger = "";
  core_family = unspecified;
}

unfoldable pub demo_rules : Rules
unfolding potion_cards tool_cards
demo_rules = record {
  version = supported_rules;
  content_version = supported_content;
  cards =
      (plain_card "unknown_six" unknown unspecified "initial_six"
        ∷ plain_card "unknown_insects" unknown unspecified "initial_insects"
        ∷ plain_card "unknown_bones" unknown unspecified "initial_bones"
        ∷ plain_card "unknown_rares" unknown unspecified "initial_rares"
        ∷ [])
      ++ (potion_cards
          ++ (tool_cards
              ++ (plain_card "scheme_0" scheme white ""
                  ∷ plain_card "scheme_1" scheme blue ""
                  ∷ plain_card "scheme_2" scheme gold ""
                  ∷ [])));
}

known_handlers : List String
known_handlers =
    ""
    ∷ "initial_six"
    ∷ "initial_insects"
    ∷ "initial_bones"
    ∷ "initial_rares"
    ∷ map (λ (c : CardDefinition). c.handler) (potion_cards ++ tool_cards)

effect_invalid : EffectSpec → Bool
effect_invalid e =
    not (contains ("add" ∷ "buff" ∷ "mutate" ∷ "awaken" ∷ "remove_left" ∷ []) e.op)
    || (ltb_ℤ e.activity (pos 0) || ltb_ℤ e.quantity (pos 0))

-- The tests of one card, in the loop's order; `seen` holds the ids of the cards before it.
unfoldable pub check_card : List String → CardDefinition → Outcome (Unit {0})
unfolding known_handlers effect_invalid
check_card seen c = do
  error_if
      (str_eq c.id ""
        || (contains seen c.id
            || (not (contains known_handlers c.handler)
                || (ltb_ℤ c.min_targets (pos 0)
                    || (ltb_ℤ c.max_targets c.min_targets || ltb_ℤ (pos 6) c.max_targets)))))
      invalid_rules
  error_if
      (ltb_ℤ c.core_family unspecified
        || (ltb_ℤ insect c.core_family
            || (not (eqb_ℤ c.core_family unspecified) && not (kind_eq c.kind tool))))
      invalid_rules
  error_if (exists_b effect_invalid c.effects) invalid_rules
  error_if (c.enabled && (kind_eq c.kind potion && (ltb_ℤ c.rarity white || ltb_ℤ red c.rarity)))
      invalid_rules

unfoldable pub check_cards : List String → List CardDefinition → Outcome (Unit {0})
check_cards seen [] = ok tt
check_cards seen (c ∷ cs) = do check_card seen c; check_cards (c.id ∷ seen) cs

-- `counts[kind]`, `coreCount` and `rarities[x]` over the enabled cards.
kind_count : CardKind → List CardDefinition → ℕ
kind_count k cs = length (keep (λ (c : CardDefinition). c.enabled && kind_eq c.kind k) cs)

core_count : List CardDefinition → ℕ
core_count cs =
    length (keep (λ (c : CardDefinition). c.enabled && not (eqb_ℤ c.core_family unspecified)) cs)

rarity_count : ℤ → List CardDefinition → ℕ
rarity_count x cs =
    length
      (keep (λ (c : CardDefinition). c.enabled && (kind_eq c.kind potion && eqb_ℤ c.rarity x)) cs)

-- `(r *Rules) Validate()`
unfoldable pub validate_rules : Rules → Outcome (Unit {0})
unfolding check_cards check_card kind_count core_count rarity_count
validate_rules r = do
  error_if
      (not (str_eq r.version supported_rules) || not (str_eq r.content_version supported_content))
      version_unavailable
  check_cards [] r.cards
  error_if
      (ltb (kind_count unknown r.cards) 1
        || (ltb (kind_count tool r.cards) 3
            || (ltb (core_count r.cards) 3 || not (kind_count scheme r.cards == 3))))
      invalid_rules
  error_if
      (rarity_count white r.cards == 0
        || (rarity_count blue r.cards == 0
            || (rarity_count gold r.cards == 0 || rarity_count red r.cards == 0)))
      invalid_rules

-- The built-in catalogue passes the validation that every new game makes.
demo_rules-Validates : validate_rules demo_rules ≡ ok tt
unfolding validate_rules demo_rules potion_cards tool_cards
demo_rules-Validates = refl
