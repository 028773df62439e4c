-- ===== src/Rules/Potions.antt =====
-- The potion cards: `potionCards` of internal/engine/potions.go.
use vorax_simulator.Base.{String, true, List, [], ◌∷◌}
use vorax_simulator.Base.Int.{ℤ, pos}
use vorax_simulator.Protocol.{
  CardDefinition, potion, EffectSpec, unspecified, bone, fiend, awakener, insect, magic, rare,
  white, blue, gold, red,
}

-- `pb.EffectSpec{...}`, a field that is left out being zero.
abbrev effect : String → String → ℤ → ℤ → ℤ → ℤ → ℤ → EffectSpec
effect op selector activity quantity family rarity count = record {
  op = op;
  selector = selector;
  activity = activity;
  quantity = quantity;
  family = family;
  rarity = rarity;
  count = count;
}

-- `pb.CardDefinition{...}` with the kind and the `Enabled` that the loop at the end sets.
abbrev potion_card : String → ℤ → ℤ → ℤ → String → List EffectSpec → CardDefinition
potion_card id rarity min max handler effects = record {
  id = id;
  kind = potion;
  rarity = rarity;
  min_targets = min;
  max_targets = max;
  handler = handler;
  effects = effects;
  enabled = true;
  trigger = "";
  core_family = unspecified;
}

unfoldable pub potion_cards : List CardDefinition
potion_cards =
    potion_card "bone_ointment" gold (pos 0) (pos 0) "potion_bone_ointment" []
    ∷ potion_card "alien_hormone" white (pos 1) (pos 2) "potion_alien_hormone" []
    ∷ potion_card "targeted_alien_hormone" white (pos 1) (pos 1) "potion_targeted_alien_hormone" []
    ∷ potion_card "will_powder" blue (pos 1) (pos 1) "potion_will_powder" []
    ∷ potion_card "awakening" blue (pos 1) (pos 1) ""
        (effect "awaken" "selected" (pos 0) (pos 0) unspecified unspecified (pos 1) ∷ [])
    ∷ potion_card "cleansing_ointment" gold (pos 1) (pos 1) "potion_cleansing_ointment" []
    ∷ potion_card "mixed_leech" blue (pos 1) (pos 1) "potion_mixed_leech" []
    ∷ potion_card "sticky_bile" blue (pos 1) (pos 1) "potion_sticky_bile" []
    ∷ potion_card "mutation" blue (pos 1) (pos 2) "" (
        effect "mutate" "selected" (pos 0) (pos 0) unspecified magic (pos 0)
        ∷ effect "buff" "selected" (pos 31) (pos 0) unspecified unspecified (pos 0)
        ∷ [])
    ∷ potion_card "awaker_anesthetic" white (pos 1) (pos 1) "potion_awaker_anesthetic" []
    ∷ potion_card "digestive" blue (pos 1) (pos 1) "" (
        effect "buff" "selected" (pos 61) (pos 0) unspecified unspecified (pos 0)
        ∷ effect "remove_left" "selected" (pos 0) (pos 0) unspecified unspecified (pos 0)
        ∷ [])
    ∷ potion_card "fusion" gold (pos 1) (pos 2) "potion_fusion" []
    ∷ potion_card "petrified_marrow" gold (pos 1) (pos 1) "potion_petrified_marrow" []
    ∷ potion_card "gray_marrow" blue (pos 0) (pos 0) "potion_gray_marrow" []
    ∷ potion_card "hollow_marrow" blue (pos 1) (pos 1) "potion_hollow_marrow" []
    ∷ potion_card "strong_will_powder" blue (pos 1) (pos 1) "potion_strong_will_powder" []
    ∷ potion_card "pia_mater" gold (pos 1) (pos 1) "potion_pia_mater" []
    ∷ potion_card "awaker_fluid" white (pos 0) (pos 0) ""
        (effect "add" "" (pos 31) (pos 0) awakener unspecified (pos 1) ∷ [])
    ∷ potion_card "mutagen_powder" blue (pos 1) (pos 2) "" (
        effect "buff" "selected" (pos 0) (pos 52) unspecified unspecified (pos 0)
        ∷ effect "mutate" "selected" (pos 0) (pos 0) unspecified rare (pos 0)
        ∷ [])
    ∷ potion_card "holy_water" red (pos 0) (pos 0) "potion_holy_water" []
    ∷ potion_card "peat_dressing" red (pos 0) (pos 0) "potion_peat_dressing" []
    ∷ potion_card "waking_salts" red (pos 0) (pos 0) "potion_waking_salts" []
    ∷ potion_card "box_3" gold (pos 0) (pos 0) "potion_box_3" []
    ∷ potion_card "box_5" gold (pos 0) (pos 0) "potion_box_5" []
    ∷ potion_card "normal_box_3" gold (pos 0) (pos 0) "potion_normal_box_3" []
    ∷ potion_card "normal_box_5" gold (pos 0) (pos 0) "potion_normal_box_5" []
    ∷ potion_card "fresh_marrow_powder" gold (pos 0) (pos 0) "potion_fresh_marrow_powder" []
    ∷ potion_card "fiend_anesthetic" white (pos 1) (pos 1) "potion_fiend_anesthetic" []
    ∷ potion_card "insect_powder" white (pos 0) (pos 0) ""
        (effect "add" "" (pos 0) (pos 73) insect unspecified (pos 1) ∷ [])
    ∷ potion_card "bone_powder" white (pos 0) (pos 0) ""
        (effect "add" "" (pos 0) (pos 73) bone unspecified (pos 1) ∷ [])
    ∷ potion_card "brood_hormone" blue (pos 0) (pos 0) "potion_brood_hormone" []
    ∷ potion_card "proliferation_powder" blue (pos 0) (pos 0) "potion_proliferation_powder" []
    ∷ potion_card "eggshell_powder" blue (pos 0) (pos 0) "potion_eggshell_powder" []
    ∷ potion_card "pure_leech" blue (pos 1) (pos 1) "potion_pure_leech" []
    ∷ potion_card "insect_boost" gold (pos 0) (pos 0) "potion_insect_boost" []
    ∷ potion_card "lure" red (pos 0) (pos 0) "potion_lure" []
    ∷ potion_card "brain_fog" blue (pos 0) (pos 0) "potion_brain_fog" []
    ∷ potion_card "bone_growth_powder" blue (pos 0) (pos 0) "potion_bone_growth_powder" []
    ∷ potion_card "fiend_fluid" white (pos 0) (pos 0) ""
        (effect "add" "" (pos 31) (pos 0) fiend unspecified (pos 1) ∷ [])
    ∷ potion_card "bone_twin_hormone" white (pos 1) (pos 1) "" (
        effect "mutate" "selected" (pos 0) (pos 0) bone unspecified (pos 0)
        ∷ effect "buff" "selected" (pos 0) (pos 62) unspecified unspecified (pos 0)
        ∷ [])
    ∷ potion_card "insect_twin_hormone" white (pos 1) (pos 1) "potion_insect_twin_hormone" []
    ∷ []
