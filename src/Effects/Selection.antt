-- ===== src/Effects/Selection.antt =====
-- Choosing monsters: the helpers of internal/engine/tools.go and internal/engine/potions.go, and
-- `selected`, `family` and `potionBuff` of the same package.
use vorax_simulator.Base.{
  ℕ, zero, suc, String, Bool, not, ◌&&◌, ◌||◌, List, [], ◌∷◌, Option, none, str_eq, length,
  get_elem?, remove_at, if◌then◌else◌,
}
use vorax_simulator.Base.Int.{ℤ, eqb_ℤ}
use vorax_simulator.Protocol.{Monster, GameEvent, awakener}
use vorax_simulator.Board.{ids_where, monster_ids}
use vorax_simulator.Streams.{effect_stream}
use vorax_simulator.Effects.Context.{
  Prog, Emit, pure, gets, or_crash, ◌>>=◌, ◌>>◌, when, for_each, failed, draw_from, slots_of,
}
use vorax_simulator.Effects.Monsters.{buff, find_monster}

-- `toolFilter`
unfoldable pub filter_ids : (Monster → Bool) → Prog (List String)
unfolding gets
filter_ids p = gets (λ c. ids_where p (slots_of c))

-- `monsterIDs(c.state)`
unfoldable pub all_ids : Prog (List String)
unfolding gets
all_ids = gets (λ c. monster_ids (slots_of c))

-- `family`, `toolRarity`, `potionOtherFamily`
unfoldable pub family_ids : ℤ → Prog (List String)
unfolding filter_ids
family_ids f = filter_ids (λ m. eqb_ℤ m.family f)

unfoldable pub rarity_ids : ℤ → Prog (List String)
unfolding filter_ids
rarity_ids r = filter_ids (λ m. eqb_ℤ m.rarity r)

unfoldable pub other_family_ids : ℤ → Prog (List String)
unfolding filter_ids
other_family_ids f = filter_ids (λ m. not (eqb_ℤ m.family f))

-- `toolSample` and `potionRandom`: up to `count` of the ids, drawn without replacement.
unfoldable pub sample : List String → ℕ → Prog (List String)
sample pool zero = pure []
sample [] (suc count) = pure []
sample (id ∷ ids) (suc count) = do
  i ← draw_from effect_stream (length (id ∷ ids))
  chosen ← or_crash (get_elem? (id ∷ ids) i)
  others ← sample (remove_at (id ∷ ids) i) count
  pure (chosen ∷ others)

unfoldable pub first_event_target : List String → Prog (Option Monster)
unfolding find_monster
first_event_target [] = pure none
first_event_target (id ∷ ids) = find_monster id

-- `toolEventMonster`
unfoldable pub event_monster : GameEvent → Prog (Option Monster)
unfolding first_event_target
event_monster e = first_event_target e.target_ids

-- `selected`
unfoldable pub selected : String → List String → Prog (List String)
unfolding filter_ids
selected selector ids =
    if str_eq selector "selected"
    then pure ids
    else filter_ids
        (λ m. str_eq selector "all" || (str_eq selector "awakeners" && eqb_ℤ m.family awakener))

-- `getMonster(c.state, id)` where the code uses the result without a test.
unfoldable pub the_monster : String → Prog Monster
unfolding find_monster or_crash ◌>>=◌
the_monster id = do m ← find_monster id; or_crash m

module _ (emit : Emit) where
  -- `potionBuff`
  unfoldable pub buff_each : List String → ℤ → ℤ → Prog (Unit {0})
  buff_each ids a q = for_each ids (λ id. buff emit id a q)

  -- `toolBuff`, which stops at an error.
  unfoldable pub tool_buff : List String → ℤ → ℤ → Prog (Unit {0})
  tool_buff [] a q = pure tt
  tool_buff (id ∷ ids) a q = do buff emit id a q; stop ← failed; when (not stop) (tool_buff ids a q)
