-- ===== src/Monsters.antt =====
-- The monsters that exist: internal/engine/monsters.go, and `base` of internal/engine/effects.go.
use vorax_simulator.Base.{
  String, ◌&&◌, List, [], ◌∷◌, keep, Option, none, some, str_eq, if◌then◌else◌,
}
use vorax_simulator.Base.Int.{ℤ, pos, eqb_ℤ}
use vorax_simulator.Protocol.{Monster, bone, fiend, awakener, insect, normal, magic, rare, boss}

pub record MonsterDefinition : Type 0 where
  pub id : String
  pub name : String
  pub family : ℤ
  pub rarity : ℤ

abbrev monster_definition : String → String → ℤ → ℤ → MonsterDefinition
monster_definition id name family rarity = record {
  id = id;
  name = name;
  family = family;
  rarity = rarity;
}

unfoldable pub monster_definitions : List MonsterDefinition
monster_definitions =
    monster_definition "bone_soldier" "士兵" bone normal
    ∷ monster_definition "bone_archer" "弓兵" bone normal
    ∷ monster_definition "bone_light_crossbowman" "轻弩兵" bone magic
    ∷ monster_definition "bone_rust_halberdier" "锈戟兵" bone magic
    ∷ monster_definition "bone_shield_guard" "刚盾卫兵" bone rare
    ∷ monster_definition "bone_patrol_guard" "巡察卫兵" bone rare
    ∷ monster_definition "bone_warden" "骸骨典狱官" bone boss
    ∷ monster_definition "fiend_beast" "异兽" fiend normal
    ∷ monster_definition "fiend_rotten_sac_beast" "腐囊异兽" fiend normal
    ∷ monster_definition "fiend_scorpion_beast" "蝎兽" fiend normal
    ∷ monster_definition "fiend_spiny_lizard" "刺蜥兽" fiend magic
    ∷ monster_definition "fiend_split_jaw_beast" "裂颚兽" fiend magic
    ∷ monster_definition "fiend_evil_eye_winged_beast" "邪眼翼兽" fiend rare
    ∷ monster_definition "fiend_red_plague_cerberus" "红瘟三头犬" fiend boss
    ∷ monster_definition "awakener_scholar" "学者" awakener normal
    ∷ monster_definition "awakener_sage" "智者" awakener normal
    ∷ monster_definition "awakener_fallen" "堕落者" awakener magic
    ∷ monster_definition "awakener_pilgrim" "朝圣者" awakener magic
    ∷ monster_definition "awakener_heretic_scholar" "异端学者" awakener rare
    ∷ monster_definition "awakener_forbidden_tome_scholar" "禁典学者" awakener rare
    ∷ monster_definition "awakener_ascetic_pontiff" "苦行大教宗" awakener boss
    ∷ monster_definition "awakener_ascended_saint" "飞升之圣徒" awakener boss
    ∷ monster_definition "insect_spider" "恶蛛" insect normal
    ∷ monster_definition "insect_gray_moth" "灰蛾" insect normal
    ∷ monster_definition "insect_rot_fly" "腐汁蝇" insect magic
    ∷ monster_definition "insect_red_mantis" "赤螳螂" insect magic
    ∷ monster_definition "insect_parasitic_butterfly" "寄生蝴蝶" insect rare
    ∷ monster_definition "insect_red_spotted_beetle" "红斑金龟" insect rare
    ∷ monster_definition "insect_gluttonous_worm" "暴食巨蠕虫" insect boss
    ∷ monster_definition "insect_hollow_cocoon" "空心茧" insect boss
    ∷ []

find_in : String → List MonsterDefinition → Option MonsterDefinition
find_in id [] = none
find_in id (d ∷ ds) = if str_eq d.id id then some d else find_in id ds

pub find_monster_definition : String → Option MonsterDefinition
unfolding find_in monster_definitions
find_monster_definition id = find_in id monster_definitions

-- The pool of `pickMonsterDefinition`, from which it draws.
unfoldable pub definition_pool : ℤ → ℤ → List MonsterDefinition
unfolding monster_definitions
definition_pool f r = keep (λ d. eqb_ℤ d.family f && eqb_ℤ d.rarity r) monster_definitions

-- `(d *monsterDefinition) identify(m)`
unfoldable pub identify : MonsterDefinition → Monster → Monster
identify d m = record m {
  definition_id = d.id;
  name = d.name;
  family = d.family;
  rarity = d.rarity;
}

unfoldable pub definition_of : Monster → MonsterDefinition
definition_of m = record {
  id = m.definition_id;
  name = m.name;
  family = m.family;
  rarity = m.rarity;
}

-- The activity and the quantity with which a monster of a rarity starts.
unfoldable pub base : ℤ → ℤ × ℤ
base r =
    if eqb_ℤ r normal
    then (pos 1, pos 36)
    else if eqb_ℤ r magic
    then (pos 5, pos 24)
    else if eqb_ℤ r rare
    then (pos 15, pos 12)
    else if eqb_ℤ r boss
    then (pos 300, pos 1)
    else (pos 0, pos 0)
