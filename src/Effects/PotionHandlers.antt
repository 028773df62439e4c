-- ===== src/Effects/PotionHandlers.antt =====
-- What the potions do: `applyPotion` of internal/engine/potions.go.
use vorax_simulator.Base.{
  ℕ, String, Bool, true, false, not, ◌&&◌, List, [], ◌∷◌, Option, none, some, str_eq, length, ◌==◌,
  if◌then◌else◌, ◌*◌,
}
use vorax_simulator.Base.Int.{ℤ, pos, leb_ℤ, eqb_ℤ}
use vorax_simulator.Outcome.{invalid_card}
use vorax_simulator.Protocol.{
  Monster, unspecified, bone, fiend, awakener, insect, normal, magic, rare, boss,
}
use vorax_simulator.Monsters.{definition_of}
use vorax_simulator.Board.{right_from}
use vorax_simulator.Streams.{effect_stream}
use vorax_simulator.Effects.Context.{
  Prog, Emit, pure, gets, or_crash, ◌>>=◌, ◌>>◌, when, for_each, repeat, fail, failed, draw_from,
  slots_of,
}
use vorax_simulator.Effects.Monsters.{
  add_monster, buff, remove, transform, transform_to, find_monster,
}
use vorax_simulator.Effects.Fusion.{fuse}
use vorax_simulator.Effects.Selection.{
  filter_ids, all_ids, family_ids, rarity_ids, other_family_ids, sample, the_monster, buff_each,
}

-- The handlers of the `switch`; `no_effect` is the empty handler.
pub data PotionHandler : Type 0 where
  no_effect bone_ointment alien_hormone targeted_alien_hormone cleansing_ointment : PotionHandler
  will_powder strong_will_powder mixed_leech pure_leech awaker_anesthetic : PotionHandler
  insect_twin_hormone sticky_bile fusion petrified_marrow gray_marrow hollow_marrow : PotionHandler
  pia_mater peat_dressing holy_water waking_salts fresh_marrow_powder : PotionHandler
  fiend_anesthetic brood_hormone proliferation_powder eggshell_powder brain_fog : PotionHandler
  bone_growth_powder insect_boost lure : PotionHandler

abbrev pub potion_names : List (String × PotionHandler)
potion_names =
    ("", no_effect)
    ∷ ("potion_bone_ointment", bone_ointment)
    ∷ ("potion_alien_hormone", alien_hormone)
    ∷ ("potion_targeted_alien_hormone", targeted_alien_hormone)
    ∷ ("potion_cleansing_ointment", cleansing_ointment)
    ∷ ("potion_will_powder", will_powder)
    ∷ ("potion_strong_will_powder", strong_will_powder)
    ∷ ("potion_mixed_leech", mixed_leech)
    ∷ ("potion_pure_leech", pure_leech)
    ∷ ("potion_awaker_anesthetic", awaker_anesthetic)
    ∷ ("potion_insect_twin_hormone", insect_twin_hormone)
    ∷ ("potion_sticky_bile", sticky_bile)
    ∷ ("potion_fusion", fusion)
    ∷ ("potion_petrified_marrow", petrified_marrow)
    ∷ ("potion_gray_marrow", gray_marrow)
    ∷ ("potion_hollow_marrow", hollow_marrow)
    ∷ ("potion_pia_mater", pia_mater)
    ∷ ("potion_peat_dressing", peat_dressing)
    ∷ ("potion_holy_water", holy_water)
    ∷ ("potion_waking_salts", waking_salts)
    ∷ ("potion_fresh_marrow_powder", fresh_marrow_powder)
    ∷ ("potion_fiend_anesthetic", fiend_anesthetic)
    ∷ ("potion_brood_hormone", brood_hormone)
    ∷ ("potion_proliferation_powder", proliferation_powder)
    ∷ ("potion_eggshell_powder", eggshell_powder)
    ∷ ("potion_brain_fog", brain_fog)
    ∷ ("potion_bone_growth_powder", bone_growth_powder)
    ∷ ("potion_insect_boost", insect_boost)
    ∷ ("potion_lure", lure)
    ∷ []

unfoldable pub named_potion : String → List (String × PotionHandler) → Option PotionHandler
named_potion s [] = none
named_potion s ((k, h) ∷ hs) = if str_eq k s then some h else named_potion s hs

-- `ids[0]`
unfoldable pub first_target : List String → Prog String
first_target [] = or_crash none
first_target (id ∷ ids) = pure id

-- A field of the monster that was found before, read after events have fired: its present value, or
-- the one found before where the monster has left the board.
unfoldable pub now : Monster → Prog Monster
unfolding find_monster
now m = do found ← find_monster m.id; pure (elim found [ none ↦ m | some n ↦ n ])

-- How often "potion_pia_mater" takes effect on a monster.
unfoldable pub doses : Monster → ℕ
doses m =
    if not (eqb_ℤ m.family awakener)
    then 1
    else if eqb_ℤ m.rarity magic
    then 2
    else if leb_ℤ rare m.rarity
    then 3
    else 1

module _ (emit : Emit) where
  unfoldable pub remove_each : List String → Prog (Unit {0})
  remove_each ids = for_each ids (λ id. remove emit id)

  unfoldable pub add_plain : ℤ → ℤ → ℤ → ℤ → Prog (Unit {0})
  add_plain f r a q = do add_monster emit f r a q effect_stream none; pure tt

  -- `c.transform(id, f, r, false, 0)`
  unfoldable pub mutate : String → ℤ → ℤ → Prog (Unit {0})
  mutate id f r = transform emit id f r false (pos 0)

  unfoldable pub remove_random_others : ℤ → ℕ → Prog (Unit {0})
  unfolding remove_each
  remove_random_others f count = do
    others ← other_family_ids f
    chosen ← sample others count
    remove_each chosen

  unfoldable pub will_effect : List String → ℕ → ℤ → Prog (Unit {0})
  unfolding remove_random_others now
  will_effect ids count quantity = do
    id ← first_target ids
    m ← the_monster id
    buff emit m.id (pos 0) quantity
    n ← now m
    remove_random_others n.family count

  unfoldable pub leech_effect : List String → (Monster → Monster → Bool) → Prog (Unit {0})
  leech_effect ids alike = do
    id ← first_target ids
    m ← the_monster id
    other ← filter_ids (λ n. not (str_eq n.id m.id) && alike n m)
    chosen ← sample other 1
    buff_each emit (m.id ∷ chosen) (pos 31) (pos 0)

  unfoldable pub hormone_effect : List String → ℕ → ℤ → ℤ → ℤ → Prog (Unit {0})
  unfolding remove_each add_plain
  hormone_effect ids count r a q = do remove_each ids; repeat count (add_plain unspecified r a q)

  unfoldable pub right_neighbour : String → Prog (Option String)
  right_neighbour id = gets (λ c. right_from false id (slots_of c))

  unfoldable pub remove_right : Option String → Prog (Unit {0})
  remove_right none = pure tt
  remove_right (some id) = remove emit id

  unfoldable pub copy_right : Monster → Option String → Prog (Unit {0})
  copy_right m none = pure tt
  copy_right m (some id) = transform_to emit id (some (definition_of m)) "mutated"

  unfoldable pub buff_right : Option String → Prog (Unit {0})
  buff_right none = pure tt
  buff_right (some id) = buff emit id (pos 31) (pos 0)

  unfoldable pub awaken_holy : String → Prog (Unit {0})
  awaken_holy id = do
    m ← the_monster id
    if eqb_ℤ m.rarity boss
        then transform emit id unspecified boss true (pos 0)
        else transform emit id unspecified unspecified true (pos 2)

  unfoldable pub gray_each : String → Prog (Unit {0})
  unfolding mutate
  gray_each id = do
    buff emit id (pos 41) (pos 0)
    mutate id unspecified unspecified
    coin ← draw_from effect_stream 2
    when (coin == 0) (do mutate id fiend unspecified; buff emit id (pos 30) (pos 0))

  unfoldable pub marrow_each : String → Prog (Unit {0})
  unfolding mutate
  marrow_each id = do
    mutate id fiend unspecified
    fiends ← family_ids fiend
    chosen ← sample fiends 3
    buff_each emit chosen (pos 0) (pos 42)

  unfoldable pub eggshell_each : String → Prog (Unit {0})
  unfolding now
  eggshell_each id = do
    m ← the_monster id
    buff emit id (pos 0) (pos 25)
    n ← now m
    when (eqb_ℤ n.family insect) (do
      add_monster emit n.family n.rarity (pos 0) (pos 25) effect_stream (some (definition_of n))
      pure tt)

  unfoldable pub brain_each : String → Prog (Unit {0})
  brain_each id = do
    buff emit id (pos 41) (pos 0)
    m ← the_monster id
    when (eqb_ℤ m.family awakener) (transform emit id unspecified rare true (pos 0))

  unfoldable pub growth_each : String → Prog (Unit {0})
  unfolding remove_random_others
  growth_each id = do
    buff emit id (pos 0) (pos 40)
    m ← the_monster id
    when (eqb_ℤ m.family bone) (do buff emit id (pos 0) (pos 127); remove_random_others bone 1)

  unfoldable pub proliferate : ℤ → Prog (Unit {0})
  proliferate r = do
    group ← rarity_ids r
    chosen ← sample group 1
    buff_each emit chosen (pos 0) (pos 32)

  -- `add` gives "" where the board is full, where an error is met, or where the limit is passed.
  unfoldable pub lure_once : Prog (Unit {0})
  lure_once = do
    id ← add_monster emit insect unspecified (pos 0) (pos 0) effect_stream none
    stop ← failed
    when (str_eq id "" && not stop)
        (do insects ← family_ids insect; buff_each emit insects (pos 10) (pos 10))

  unfoldable pub potion_effect : PotionHandler → List String → Prog (Unit {0})
  unfolding remove_each add_plain mutate remove_random_others will_effect leech_effect
      hormone_effect right_neighbour remove_right copy_right buff_right awaken_holy gray_each
      marrow_each eggshell_each brain_each growth_each proliferate lure_once first_target doses
  potion_effect no_effect ids = pure tt
  potion_effect bone_ointment ids = do
    others ← other_family_ids bone
    chosen ← sample others 3
    for_each chosen (λ id. do remove emit id; all ← all_ids; buff_each emit all (pos 28) (pos 28))
  potion_effect alien_hormone ids = hormone_effect ids 4 unspecified (pos 5) (pos 0)
  potion_effect targeted_alien_hormone ids = hormone_effect ids 2 magic (pos 0) (pos 25)
  potion_effect cleansing_ointment ids = do
    id ← first_target ids
    m ← the_monster id
    buff emit m.id (pos 20) (pos 0)
    when (eqb_ℤ m.family bone)
        (do buff emit m.id (pos 0) (pos 41); right ← right_neighbour m.id; remove_right right)
  potion_effect will_powder ids = will_effect ids 1 (pos 127)
  potion_effect strong_will_powder ids = will_effect ids 2 (pos 154)
  potion_effect mixed_leech ids = leech_effect ids (λ n m. eqb_ℤ n.rarity m.rarity)
  potion_effect pure_leech ids = leech_effect ids (λ n m. eqb_ℤ n.family m.family)
  potion_effect awaker_anesthetic ids = do
    id ← first_target ids
    mutate id awakener unspecified
    transform emit id unspecified magic true (pos 0)
  potion_effect insect_twin_hormone ids = do
    id ← first_target ids
    mutate id insect unspecified
    m ← the_monster id
    add_monster emit m.family m.rarity (pos 0) (pos 0) effect_stream (some (definition_of m))
    pure tt
  potion_effect sticky_bile ids = do
    id ← first_target ids
    m ← the_monster id
    right ← right_neighbour m.id
    copy_right m right
    buff emit m.id (pos 31) (pos 0)
    buff_right right
  potion_effect fusion ids = fuse emit ids insect unspecified
  potion_effect petrified_marrow ids = do
    id ← first_target ids
    m ← the_monster id
    buff emit m.id (pos 20) (pos 0)
    when (not (eqb_ℤ m.family fiend))
        (do mutate m.id fiend unspecified; buff emit m.id (pos 30) (pos 0))
  potion_effect gray_marrow ids = do all ← all_ids; chosen ← sample all 1; for_each chosen gray_each
  potion_effect hollow_marrow ids = do
    id ← first_target ids
    buff emit id (pos 41) (pos 0)
    coin ← draw_from effect_stream 2
    when (coin == 0) (mutate id fiend unspecified)
  potion_effect pia_mater ids = do
    id ← first_target ids
    m ← the_monster id
    repeat (doses m) (buff emit m.id (pos 30) (pos 0))
  potion_effect peat_dressing ids = do
    others ← other_family_ids bone
    for_each others
        (λ id. do remove emit id; bones ← family_ids bone; buff_each emit bones (pos 20) (pos 20))
  potion_effect holy_water ids = do awakeners ← family_ids awakener; for_each awakeners awaken_holy
  potion_effect waking_salts ids = do
    all ← all_ids
    chosen ← sample all 1
    buff_each emit chosen (pos 111) (pos 111)
  potion_effect fresh_marrow_powder ids = do
    others ← other_family_ids fiend
    chosen ← sample others 3
    for_each chosen marrow_each
  potion_effect fiend_anesthetic ids = do
    id ← first_target ids
    mutate id fiend unspecified
    coin ← draw_from effect_stream 2
    when (coin == 0) (do
      all ← all_ids
      chosen ← sample all 1
      for_each chosen (λ other. mutate other fiend unspecified))
  potion_effect brood_hormone ids = do
    add_plain insect unspecified (pos 0) (pos 0)
    coin ← draw_from effect_stream 2
    when (coin == 0) (repeat 2 (add_plain insect unspecified (pos 0) (pos 0)))
  potion_effect proliferation_powder ids = for_each (normal ∷ magic ∷ rare ∷ boss ∷ []) proliferate
  potion_effect eggshell_powder ids = do
    all ← all_ids
    chosen ← sample all 1
    for_each chosen eggshell_each
  potion_effect brain_fog ids = do all ← all_ids; chosen ← sample all 1; for_each chosen brain_each
  potion_effect bone_growth_powder ids = do
    all ← all_ids
    chosen ← sample all 1
    for_each chosen growth_each
  potion_effect insect_boost ids = do
    insects ← family_ids insect
    buff_each emit insects (pos (length insects * 11)) (pos 0)
  potion_effect lure ids = repeat 4 lure_once

  unfoldable pub apply_named_potion : Option PotionHandler → List String → Prog (Unit {0})
  apply_named_potion none ids = fail invalid_card
  apply_named_potion (some h) ids = potion_effect h ids

  -- `applyPotion`
  unfoldable pub apply_potion : String → List String → Prog (Unit {0})
  unfolding apply_named_potion potion_effect named_potion
  apply_potion handler ids = do
    stop ← failed
    when (not stop) (apply_named_potion (named_potion handler potion_names) ids)
