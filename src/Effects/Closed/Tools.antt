-- ===== src/Effects/Closed/Tools.antt =====
-- Every tool, for any closed property.
use vorax_simulator.Base.{
  refl, ℕ, zero, suc, true, not, List, [], ◌∷◌, Option, none, some, String, take, drop,
}
use vorax_simulator.Base.Int.{ℤ, pos}
use vorax_simulator.Outcome.{invalid_card}
use vorax_simulator.Protocol.{Monster, GameEvent, unspecified}
use vorax_simulator.Effects.Context.{gets, slots_of, Prog, Emit}
use vorax_simulator.Effects.ToolHandlers.{
  ToolHandler, every_turns, lowest_other, claw, cortex, goat_suture, marrow, saw, scraper, eye,
  metatarsal, sinew, tanned_restraint, pituitary, fang, frontal_lobe, rawhide_restraint, growth,
  nettle, liver, pupa, statue, cluster_eggs, nail, mouth, hatching_egg, brooding_butterfly,
  sinew_lowest, marrow_monster, fuse_triples, awaken_one, pupa_rounds, buff_all, buff_one,
  apply_handler, apply_named, apply_tool,
}
use vorax_simulator.Effects.Closed.{IsClosed}
use vorax_simulator.Effects.Closed.Choices.{
  when_lem, if_lem, all_ids_lem, sample_lem, tool_buff_lem, choice_rules,
}
use vorax_simulator.Board.{monsters}

module _ {emit : Emit} (i : IsClosed emit) where
  open i use {
    P, Known, on_pure, on_bind, on_gets, on_or_crash, on_failed, on_fail, on_draw, on_rarity,
    on_buff, on_remove, on_transform, on_devour, on_fuse, on_add, on_copy, on_transform_to,
    on_monster, on_now,
  }

  every_turns_lem : (n : ℕ) → P (every_turns n)
  unfolding every_turns
  every_turns_lem n = on_gets _ (λ run user c. refl)

  removed_lem : P (gets (λ c. c.removed_monster))
  removed_lem = on_gets _ (λ run user c. refl)

  lowest_lem : P (gets (λ c. lowest_other none (monsters (slots_of c))))
  lowest_lem = on_gets _ (λ run user c. refl)

  sinew_lowest_lem : (m : Option Monster) → P (sinew_lowest emit m)
  unfolding sinew_lowest
  sinew_lowest_lem none = on_pure tt
  sinew_lowest_lem (some m) =
      search (on_bind, on_failed, on_remove, choice_rules, on_remove, tool_buff_lem) depth 12

  marrow_monster_lem : (m : Option Monster) → P (marrow_monster emit m)
  unfolding marrow_monster
  marrow_monster_lem none = on_pure tt
  marrow_monster_lem (some m) =
      search (on_bind, on_draw, on_buff, on_transform, choice_rules, on_transform, on_buff) depth 12

  fuse_triples_lem :
      (rounds : ℕ) (group : List String) (r : ℤ) (next : Prog (Unit {0}))
      → P next
      → P (fuse_triples emit rounds group r next)
  unfolding fuse_triples
  fuse_triples_lem zero group r next k = k
  fuse_triples_lem (suc rounds) group r next k = if_lem i _ _ _ k (
      on_bind _ _ (on_fuse (take 3 group) unspecified r) λ _.
        on_bind _ _ on_failed
          λ stop. when_lem i (not stop) _ (fuse_triples_lem rounds (drop 3 group) r next k))

  awaken_one_lem :
      (ids : List String) (next : Prog (Unit {0})) → P next → P (awaken_one emit ids next)
  unfolding awaken_one
  awaken_one_lem [] next k = k
  awaken_one_lem (id ∷ ids) next k =
      on_bind _ _ (on_transform id unspecified unspecified true (pos 1))
        λ _. on_bind _ _ on_failed λ stop. when_lem i (not stop) _ (awaken_one_lem ids next k)

  pupa_rounds_lem : (rounds count : ℕ) → P (pupa_rounds emit rounds count)
  unfolding pupa_rounds
  pupa_rounds_lem zero count = on_pure tt
  pupa_rounds_lem (suc rounds) count = on_bind _ _ on_failed λ stop. when_lem i (not stop) _ (
      on_bind _ _ (all_ids_lem i) λ ids. on_bind _ _ (sample_lem i count ids) λ chosen.
        on_bind _ _ (tool_buff_lem i chosen (pos 0) (pos 8)) λ _. pupa_rounds_lem rounds count)

  buff_all_lem : (a q : ℤ) → P (buff_all emit a q)
  unfolding buff_all
  buff_all_lem a q = search (on_bind, choice_rules, tool_buff_lem) depth 12

  buff_one_lem : (a q : ℤ) → P (buff_one emit a q)
  unfolding buff_one
  buff_one_lem a q = search (on_bind, choice_rules, tool_buff_lem) depth 12

  apply_handler_lem : (h : ToolHandler) (e : GameEvent) → P (apply_handler emit h e)
  unfolding apply_handler
  apply_handler_lem claw e = search (on_bind, choice_rules, removed_lem, buff_one_lem) depth 14
  apply_handler_lem cortex e = search (on_bind, on_fuse, choice_rules, on_fuse) depth 16
  apply_handler_lem goat_suture e =
      search (on_pure, on_bind, choice_rules, fuse_triples_lem) depth 16
  apply_handler_lem marrow e = search (on_bind, choice_rules, marrow_monster_lem) depth 16
  apply_handler_lem saw e = search (on_bind, choice_rules, tool_buff_lem) depth 16
  apply_handler_lem scraper e = search (on_bind, choice_rules, tool_buff_lem) depth 16
  apply_handler_lem eye e = search (on_bind, on_buff, choice_rules, on_buff) depth 16
  apply_handler_lem metatarsal e = search (on_bind, choice_rules, buff_one_lem) depth 16
  apply_handler_lem sinew e = search (on_bind, choice_rules, lowest_lem, sinew_lowest_lem) depth 16
  apply_handler_lem tanned_restraint e = search (on_bind, choice_rules, buff_all_lem) depth 16
  apply_handler_lem pituitary e = search (on_bind, choice_rules, buff_one_lem) depth 16
  apply_handler_lem fang e = search (on_bind, choice_rules, tool_buff_lem) depth 16
  apply_handler_lem frontal_lobe e = search (on_bind, choice_rules, tool_buff_lem) depth 16
  apply_handler_lem rawhide_restraint e = search (on_bind, on_buff, choice_rules, on_buff) depth 16
  apply_handler_lem growth e = search (on_bind, choice_rules, buff_all_lem) depth 16
  apply_handler_lem nettle e = search (on_bind, choice_rules, buff_all_lem) depth 16
  apply_handler_lem liver e = search (on_bind, choice_rules, buff_all_lem) depth 16
  apply_handler_lem pupa e = search (on_bind, choice_rules, pupa_rounds_lem) depth 16
  apply_handler_lem statue e =
      search (on_pure, on_bind, choice_rules, every_turns_lem, awaken_one_lem) depth 16
  apply_handler_lem cluster_eggs e =
      search (on_pure, on_bind, on_add, choice_rules, on_add) depth 16
  apply_handler_lem nail e = search (on_bind, on_buff, choice_rules, on_buff) depth 16
  apply_handler_lem mouth e =
      search (on_pure, on_bind, on_failed, on_devour, on_add, choice_rules, on_add, on_devour) depth
        16
  apply_handler_lem hatching_egg e = search (on_bind, choice_rules, buff_all_lem) depth 16
  apply_handler_lem brooding_butterfly e =
      search (on_bind, on_rarity, on_fuse, choice_rules, every_turns_lem, on_fuse) depth 16

  apply_named_lem : (h : Option ToolHandler) (e : GameEvent) → P (apply_named emit h e)
  unfolding apply_named
  apply_named_lem none e = on_fail invalid_card
  apply_named_lem (some h) e = apply_handler_lem h e

  pub apply_tool_lem : (handler : String) (e : GameEvent) → P (apply_tool emit handler e)
  unfolding apply_tool
  apply_tool_lem handler e = apply_named_lem _ e
