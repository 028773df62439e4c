-- ===== src/Effects/Closed/Choices.antt =====
-- The choosing of monsters, for any closed property.
use vorax_simulator.Base.{
  ℕ, zero, suc, refl, String, Bool, true, false, not, List, [], ◌∷◌, Option, none, some, remove_at,
  if◌then◌else◌,
}
use vorax_simulator.Base.Int.{ℤ}
use vorax_simulator.Outcome.{numeric_overflow}
use vorax_simulator.Protocol.{Monster, GameEvent}
use vorax_simulator.Effects.Context.{Prog, Emit, when, for_each, repeat}
use vorax_simulator.Effects.Monsters.{find_monster}
use vorax_simulator.Effects.Fusion.{extreme, extreme_result, Best}
use vorax_simulator.Effects.Selection.{
  filter_ids, all_ids, family_ids, rarity_ids, other_family_ids, sample, first_event_target,
  event_monster, buff_each, tool_buff, the_monster,
}
use vorax_simulator.Effects.Closed.{IsClosed}

module _ {emit : Emit} (i : IsClosed emit) where
  open i use {P, on_pure, on_bind, on_gets, on_or_crash, on_failed, on_fail, on_draw, on_buff}

  pub if_lem : {A : Type 0} (b : Bool) (m n : Prog A) → P m → P n → P (if b then m else n)
  if_lem true m n hm hn = hm
  if_lem false m n hm hn = hn

  pub when_lem : (b : Bool) (m : Prog (Unit {0})) → P m → P (when b m)
  unfolding when
  when_lem true m h = h
  when_lem false m h = on_pure tt

  pub for_each_lem {ℓ} :
      {A : Type ℓ} (xs : List A) (body : A → Prog (Unit {0}))
      → ((x : A) → P (body x))
      → P (for_each xs body)
  unfolding for_each
  for_each_lem [] body h = on_pure tt
  for_each_lem (x ∷ xs) body h = on_bind _ _ (h x) (λ _. for_each_lem xs body h)

  pub repeat_lem : (n : ℕ) (body : Prog (Unit {0})) → P body → P (repeat n body)
  unfolding repeat
  repeat_lem zero body h = on_pure tt
  repeat_lem (suc n) body h = on_bind _ _ h (λ _. repeat_lem n body h)

  pub find_monster_lem : (id : String) → P (find_monster id)
  unfolding find_monster
  find_monster_lem id = on_gets _ (λ run user c. refl)

  pub filter_ids_lem : (p : Monster → Bool) → P (filter_ids p)
  unfolding filter_ids
  filter_ids_lem p = on_gets _ (λ run user c. refl)

  pub all_ids_lem : P all_ids
  unfolding all_ids
  all_ids_lem = on_gets _ (λ run user c. refl)

  pub family_ids_lem : (f : ℤ) → P (family_ids f)
  unfolding family_ids
  family_ids_lem f = filter_ids_lem _

  pub rarity_ids_lem : (r : ℤ) → P (rarity_ids r)
  unfolding rarity_ids
  rarity_ids_lem r = filter_ids_lem _

  pub other_family_ids_lem : (f : ℤ) → P (other_family_ids f)
  unfolding other_family_ids
  other_family_ids_lem f = filter_ids_lem _

  pub sample_lem : (count : ℕ) (ids : List String) → P (sample ids count)
  unfolding sample
  sample_lem zero ids = on_pure []
  sample_lem (suc count) [] = on_pure []
  sample_lem (suc count) (id ∷ ids) = on_bind _ _ (on_draw _) λ i.
      on_bind _ _ (on_or_crash _)
        λ chosen. on_bind _ _ (sample_lem count (remove_at (id ∷ ids) i)) λ others. on_pure _

  event_target_lem : (ids : List String) → P (first_event_target ids)
  unfolding first_event_target
  event_target_lem [] = on_pure none
  event_target_lem (id ∷ ids) = find_monster_lem id

  pub event_monster_lem : (e : GameEvent) → P (event_monster e)
  unfolding event_monster
  event_monster_lem e = event_target_lem e.target_ids

  extreme_result_lem : (o : Option Best) → P (extreme_result o)
  unfolding extreme_result
  extreme_result_lem none = on_bind _ _ (on_fail numeric_overflow) (λ _. on_pure "")
  extreme_result_lem (some none) = on_pure ""
  extreme_result_lem (some (some (m, v))) = on_pure m.id

  pub extreme_lem : (high product : Bool) (exclude : String) → P (extreme high product exclude)
  unfolding extreme
  extreme_lem high product exclude = on_bind _ _ (on_gets _ (λ run user c. refl)) extreme_result_lem

  pub the_monster_lem : (id : String) → P (the_monster id)
  unfolding the_monster
  the_monster_lem id = on_bind _ _ (find_monster_lem id) on_or_crash

  pub buff_each_lem : (ids : List String) (a q : ℤ) → P (buff_each emit ids a q)
  unfolding buff_each
  buff_each_lem ids a q = for_each_lem ids _ (λ id. on_buff id a q)

  pub tool_buff_lem : (ids : List String) (a q : ℤ) → P (tool_buff emit ids a q)
  unfolding tool_buff
  tool_buff_lem [] a q = on_pure tt
  tool_buff_lem (id ∷ ids) a q =
      on_bind _ _ (on_buff id a q)
        λ _. on_bind _ _ on_failed λ stop. when_lem (not stop) _ (tool_buff_lem ids a q)

pub ruleset choice_rules = (
  if_lem, when_lem, for_each_lem, repeat_lem, filter_ids_lem, all_ids_lem, family_ids_lem,
  rarity_ids_lem, other_family_ids_lem, sample_lem, event_monster_lem, extreme_lem, the_monster_lem,
  buff_each_lem, tool_buff_lem,
)
