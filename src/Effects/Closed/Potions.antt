-- ===== src/Effects/Closed/Potions.antt =====
-- Every potion, for any closed property.
use vorax_simulator.Base.{ℕ, refl, Bool, false, List, [], ◌∷◌, Option, none, some, String}
use vorax_simulator.Base.Int.{ℤ, pos}
use vorax_simulator.Outcome.{invalid_card}
use vorax_simulator.Protocol.{Monster, unspecified, insect}
use vorax_simulator.Monsters.{definition_of}
use vorax_simulator.Streams.{effect_stream}
use vorax_simulator.Effects.Context.{Emit, pure, ◌>>◌}
use vorax_simulator.Effects.PotionHandlers.{
  PotionHandler, no_effect, bone_ointment, alien_hormone, targeted_alien_hormone,
  cleansing_ointment, will_powder, strong_will_powder, mixed_leech, pure_leech, awaker_anesthetic,
  insect_twin_hormone, sticky_bile, fusion, petrified_marrow, gray_marrow, hollow_marrow, pia_mater,
  peat_dressing, holy_water, waking_salts, fresh_marrow_powder, fiend_anesthetic, brood_hormone,
  proliferation_powder, eggshell_powder, brain_fog, bone_growth_powder, insect_boost, lure,
  first_target, now, remove_each, add_plain, mutate, remove_random_others, will_effect,
  leech_effect, hormone_effect, right_neighbour, remove_right, copy_right, buff_right, awaken_holy,
  gray_each, marrow_each, eggshell_each, brain_each, growth_each, proliferate, lure_once,
  potion_effect, apply_named_potion, apply_potion,
}
use vorax_simulator.Effects.Monsters.{add_monster}
use vorax_simulator.Effects.Closed.{IsClosed}
use vorax_simulator.Effects.Closed.Choices.{
  when_lem, for_each_lem, repeat_lem, find_monster_lem, the_monster_lem, other_family_ids_lem,
  buff_each_lem, choice_rules,
}

module _ {emit : Emit} (i : IsClosed emit) where
  open i use {
    P, Known, on_pure, on_bind, on_gets, on_or_crash, on_failed, on_fail, on_draw, on_rarity,
    on_buff, on_remove, on_transform, on_devour, on_fuse, on_add, on_copy, on_transform_to,
    on_monster, on_now,
  }

  first_target_lem : (ids : List String) → P (first_target ids)
  unfolding first_target
  first_target_lem [] = on_or_crash none
  first_target_lem (id ∷ ids) = on_pure id

  now_lem : (m : Monster) → P (now m)
  unfolding now
  now_lem m = on_bind _ _ (find_monster_lem i m.id) (λ o. on_pure _)

  remove_each_lem : (ids : List String) → P (remove_each emit ids)
  unfolding remove_each
  remove_each_lem ids = for_each_lem i ids _ on_remove

  add_plain_lem : (f r a q : ℤ) → P (add_plain emit f r a q)
  unfolding add_plain
  add_plain_lem f r a q = on_bind _ _ (on_add f r a q) (λ _. on_pure tt)

  mutate_lem : (id : String) (f r : ℤ) → P (mutate emit id f r)
  unfolding mutate
  mutate_lem id f r = on_transform id f r false (pos 0)

  remove_random_others_lem : (f : ℤ) (n : ℕ) → P (remove_random_others emit f n)
  unfolding remove_random_others
  remove_random_others_lem f n =
      search (on_bind, choice_rules, other_family_ids_lem, remove_each_lem) depth 12

  will_effect_lem : (ids : List String) (n : ℕ) (q : ℤ) → P (will_effect emit ids n q)
  unfolding will_effect
  will_effect_lem ids n q =
      search
        (
          on_bind, on_buff, choice_rules, first_target_lem, the_monster_lem, on_buff, now_lem,
          remove_random_others_lem,
        )
        depth 14

  leech_effect_lem :
      (ids : List String) (alike : Monster → Monster → Bool) → P (leech_effect emit ids alike)
  unfolding leech_effect
  leech_effect_lem ids alike =
      search (on_bind, choice_rules, first_target_lem, the_monster_lem, buff_each_lem) depth 14

  hormone_effect_lem : (ids : List String) (n : ℕ) (r a q : ℤ) → P (hormone_effect emit ids n r a q)
  unfolding hormone_effect
  hormone_effect_lem ids n r a q =
      search (on_bind, choice_rules, remove_each_lem, add_plain_lem) depth 12

  right_neighbour_lem : (id : String) → P (right_neighbour emit id)
  unfolding right_neighbour
  right_neighbour_lem id = on_gets _ (λ run user c. refl)

  remove_right_lem : (o : Option String) → P (remove_right emit o)
  unfolding remove_right
  remove_right_lem none = on_pure tt
  remove_right_lem (some id) = on_remove id

  copy_right_lem : (m : Monster) (o : Option String) → Known m → P (copy_right emit m o)
  unfolding copy_right
  copy_right_lem m none ok = on_pure tt
  copy_right_lem m (some id) ok = on_transform_to id "mutated" m ok

  buff_right_lem : (o : Option String) → P (buff_right emit o)
  unfolding buff_right
  buff_right_lem none = on_pure tt
  buff_right_lem (some id) = on_buff id (pos 31) (pos 0)

  awaken_holy_lem : (id : String) → P (awaken_holy emit id)
  unfolding awaken_holy
  awaken_holy_lem id =
      search (on_bind, on_transform, choice_rules, the_monster_lem, on_transform) depth 12

  gray_each_lem : (id : String) → P (gray_each emit id)
  unfolding gray_each
  gray_each_lem id =
      search (on_bind, on_draw, on_buff, on_transform, choice_rules, on_buff) depth 14

  marrow_each_lem : (id : String) → P (marrow_each emit id)
  unfolding marrow_each
  marrow_each_lem id = search (on_bind, on_transform, choice_rules, buff_each_lem) depth 14

  add_copy_lem :
      (m : Monster) (a q : ℤ)
      → Known m
      → P (do
        add_monster emit m.family m.rarity a q effect_stream (some (definition_of m))
        pure tt)
  add_copy_lem m a q ok = on_bind _ _ (on_copy m m.family m.rarity a q ok) (λ _. on_pure tt)

  eggshell_each_lem : (id : String) → P (eggshell_each emit id)
  unfolding eggshell_each
  eggshell_each_lem id = on_monster id _ λ m ok.
      on_bind _ _ (on_buff id (pos 0) (pos 25))
        λ _. on_now m _ ok λ n known. when_lem i _ _ (add_copy_lem n (pos 0) (pos 25) known)

  brain_each_lem : (id : String) → P (brain_each emit id)
  unfolding brain_each
  brain_each_lem id =
      search (on_bind, on_buff, on_transform, choice_rules, on_buff, the_monster_lem, on_transform)
        depth 14

  growth_each_lem : (id : String) → P (growth_each emit id)
  unfolding growth_each
  growth_each_lem id =
      search (on_bind, on_buff, choice_rules, on_buff, the_monster_lem, remove_random_others_lem)
        depth 14

  proliferate_lem : (r : ℤ) → P (proliferate emit r)
  unfolding proliferate
  proliferate_lem r = search (on_bind, choice_rules, buff_each_lem) depth 14

  lure_once_lem : P (lure_once emit)
  unfolding lure_once
  lure_once_lem =
      on_bind _ _ (on_add insect unspecified (pos 0) (pos 0))
        λ id. search (on_bind, on_failed, choice_rules, buff_each_lem) depth 14

  potion_effect_lem : (h : PotionHandler) (ids : List String) → P (potion_effect emit h ids)
  unfolding potion_effect
  potion_effect_lem no_effect ids = on_pure tt
  potion_effect_lem bone_ointment ids =
      search (on_bind, on_remove, choice_rules, other_family_ids_lem, on_remove, buff_each_lem)
        depth 16
  potion_effect_lem alien_hormone ids = hormone_effect_lem ids 4 _ _ _
  potion_effect_lem targeted_alien_hormone ids = hormone_effect_lem ids 2 _ _ _
  potion_effect_lem cleansing_ointment ids =
      search
        (
          on_bind, on_buff, choice_rules, first_target_lem, right_neighbour_lem, the_monster_lem,
          on_buff, remove_right_lem,
        )
        depth 18
  potion_effect_lem will_powder ids = will_effect_lem ids 1 _
  potion_effect_lem strong_will_powder ids = will_effect_lem ids 2 _
  potion_effect_lem mixed_leech ids = leech_effect_lem ids _
  potion_effect_lem pure_leech ids = leech_effect_lem ids _
  potion_effect_lem awaker_anesthetic ids =
      search (on_bind, on_transform, choice_rules, first_target_lem, on_transform) depth 14
  potion_effect_lem insect_twin_hormone ids = on_bind _ _ (first_target_lem ids) λ id.
      on_bind _ _ (mutate_lem id insect unspecified)
        λ _. on_monster id _ λ m ok. add_copy_lem m (pos 0) (pos 0) ok
  potion_effect_lem sticky_bile ids = on_bind _ _ (first_target_lem ids) λ id.
      on_monster id _ λ m ok. on_bind _ _ (right_neighbour_lem m.id) λ right.
        on_bind _ _ (copy_right_lem m right ok)
          λ _. on_bind _ _ (on_buff m.id (pos 31) (pos 0)) λ _. buff_right_lem right
  potion_effect_lem fusion ids = on_fuse ids insect unspecified
  potion_effect_lem petrified_marrow ids =
      search
        (on_bind, on_buff, on_transform, choice_rules, first_target_lem, the_monster_lem, on_buff)
        depth 16
  potion_effect_lem gray_marrow ids = search (on_bind, choice_rules, gray_each_lem) depth 14
  potion_effect_lem hollow_marrow ids =
      search (on_bind, on_draw, on_buff, on_transform, choice_rules, first_target_lem, on_buff)
        depth 16
  potion_effect_lem pia_mater ids =
      search (on_bind, on_buff, choice_rules, first_target_lem, the_monster_lem, on_buff) depth 16
  potion_effect_lem peat_dressing ids =
      search (on_bind, on_remove, choice_rules, other_family_ids_lem, on_remove, buff_each_lem)
        depth 16
  potion_effect_lem holy_water ids = search (on_bind, choice_rules, awaken_holy_lem) depth 14
  potion_effect_lem waking_salts ids = search (on_bind, choice_rules, buff_each_lem) depth 14
  potion_effect_lem fresh_marrow_powder ids =
      search (on_bind, choice_rules, other_family_ids_lem, marrow_each_lem) depth 14
  potion_effect_lem fiend_anesthetic ids =
      search (on_bind, on_draw, on_transform, choice_rules, first_target_lem) depth 20
  potion_effect_lem brood_hormone ids =
      search (on_bind, on_draw, choice_rules, add_plain_lem) depth 14
  potion_effect_lem proliferation_powder ids = for_each_lem i _ _ proliferate_lem
  potion_effect_lem eggshell_powder ids = search (on_bind, choice_rules, eggshell_each_lem) depth 14
  potion_effect_lem brain_fog ids = search (on_bind, choice_rules, brain_each_lem) depth 14
  potion_effect_lem bone_growth_powder ids =
      search (on_bind, choice_rules, growth_each_lem) depth 14
  potion_effect_lem insect_boost ids = search (on_bind, choice_rules, buff_each_lem) depth 14
  potion_effect_lem lure ids = repeat_lem i 4 _ lure_once_lem

  apply_named_potion_lem :
      (h : Option PotionHandler) (ids : List String) → P (apply_named_potion emit h ids)
  unfolding apply_named_potion
  apply_named_potion_lem none ids = on_fail invalid_card
  apply_named_potion_lem (some h) ids = potion_effect_lem h ids

  pub apply_potion_lem : (handler : String) (ids : List String) → P (apply_potion emit handler ids)
  unfolding apply_potion
  apply_potion_lem handler ids =
      on_bind _ _ on_failed (λ stop. when_lem i _ _ (apply_named_potion_lem _ ids))
