-- ===== src/Rules/Tools.antt =====
-- The surgical tools: `toolCards` of internal/engine/tools.go, and `coreToolFamily` of
-- internal/engine/tool_offers.go.
use vorax_simulator.Base.{String, Bool, true, List, [], ◌∷◌, contains, if◌then◌else◌}
use vorax_simulator.Base.Int.{ℤ, pos}
use vorax_simulator.Protocol.{CardDefinition, tool, unspecified, bone, fiend, awakener, insect}

unfoldable pub core_tool_family : String → ℤ
core_tool_family id =
    if contains ("claw" ∷ "metatarsal" ∷ "sinew" ∷ []) id
    then bone
    else if contains ("marrow" ∷ "growth" ∷ "liver" ∷ []) id
    then fiend
    else if contains ("pituitary" ∷ "frontal_lobe" ∷ []) id
    then awakener
    else if contains ("pupa" ∷ "cluster_eggs" ∷ "hatching_egg" ∷ []) id
    then insect
    else unspecified

-- One round of the loop over the entries; the card's handler is its id.
tool_card : String → String → Bool → CardDefinition
unfolding core_tool_family
tool_card id trigger enabled = record {
  id = id;
  kind = tool;
  rarity = unspecified;
  min_targets = pos 0;
  max_targets = pos 0;
  handler = id;
  effects = [];
  enabled = enabled;
  trigger = trigger;
  core_family = core_tool_family id;
}

unfoldable pub tool_cards : List CardDefinition
unfolding tool_card
tool_cards =
    tool_card "claw" "removed" true
    ∷ tool_card "cortex" "turn_end" true
    ∷ tool_card "goat_suture" "turn_end" true
    ∷ tool_card "marrow" "added" true
    ∷ tool_card "saw" "turn_end" true
    ∷ tool_card "scraper" "turn_end" true
    ∷ tool_card "eye" "removed" true
    ∷ tool_card "metatarsal" "removed" true
    ∷ tool_card "sinew" "turn_end" true
    ∷ tool_card "tanned_restraint" "turn_end" true
    ∷ tool_card "pituitary" "turn_end" true
    ∷ tool_card "fang" "turn_end" true
    ∷ tool_card "frontal_lobe" "turn_end" true
    ∷ tool_card "rawhide_restraint" "turn_end" true
    ∷ tool_card "growth" "mutated" true
    ∷ tool_card "nettle" "turn_end" true
    ∷ tool_card "liver" "mutated" true
    ∷ tool_card "pupa" "turn_end" true
    ∷ tool_card "statue" "turn_end" true
    ∷ tool_card "cluster_eggs" "turn_end" true
    ∷ tool_card "nail" "overflow" true
    ∷ tool_card "mouth" "turn_end" true
    ∷ tool_card "hatching_egg" "added" true
    ∷ tool_card "brooding_butterfly" "turn_end" true
    ∷ []
