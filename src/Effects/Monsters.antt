-- ===== src/Effects/Monsters.antt =====
-- The methods of `context` that change monsters: internal/engine/effects.go, from `add` to `devour`,
-- and `pickMonsterDefinition` of internal/engine/monsters.go. `emit` is a parameter of each: it fires
-- the tools, which call these methods again.
use vorax_simulator.Base.{
  ℕ, ◌+◌, ◌%◌, String, Bool, true, false, ◌&&◌, List, [], ◌∷◌, Option, none, some, str_eq, length,
  get_elem?, if◌then◌else◌,
}
use vorax_simulator.Base.Int.{ℤ, pos, add_int32, ltb_ℤ, eqb_ℤ}
use vorax_simulator.Outcome.{invalid_content}
use vorax_simulator.Protocol.{Monster, unspecified, boss}
use vorax_simulator.Monsters.{MonsterDefinition, definition_pool, identify, base}
use vorax_simulator.Board.Ids.{monster_id}
use vorax_simulator.Board.{get_monster, update_monster, clear_first, clear_all, put_at, free_slot}
use vorax_simulator.Random.{word}
use vorax_simulator.Streams.{Stream, effect_stream}
use vorax_simulator.Offers.Buckets.{bucket_at}
use vorax_simulator.Effects.Context.{
  Prog, Emit, pure, gets, modify, or_crash, ◌>>=◌, ◌>>◌, fail, tick, if_tick, with_sum, draw_from,
  slots_of, write_slots,
}

-- `getMonster(c.state, id)`
unfoldable pub find_monster : String → Prog (Option Monster)
unfolding gets
find_monster id = gets (λ c. get_monster (slots_of c) id)

-- `pickMonsterDefinition`: nil where the pool is empty.
unfoldable pub pick_from : List MonsterDefinition → Stream → Prog (Option MonsterDefinition)
pick_from [] rng = pure none
pick_from (d ∷ ds) rng = do
  i ← draw_from rng (length (d ∷ ds))
  e ← or_crash (get_elem? (d ∷ ds) i)
  pure (some e)

unfoldable pub pick_definition : ℤ → ℤ → Stream → Prog (Option MonsterDefinition)
unfolding pick_from
pick_definition f r rng = pick_from (definition_pool f r) rng

abbrev pub monster_rarity_weights : List ℕ
monster_rarity_weights = 45 ∷ 30 ∷ 20 ∷ 5 ∷ []

-- `monsterRarityAt`
unfoldable pub monster_rarity_at : ℕ → ℤ
unfolding bucket_at
monster_rarity_at roll = elim (bucket_at roll monster_rarity_weights) [
  | none ↦ boss
  | some i ↦ pos (i + 1)
]

-- `monsterRarity`; the weights add up to 100.
unfoldable pub monster_rarity : Stream → Prog ℤ
unfolding monster_rarity_at
monster_rarity rng = do roll ← draw_from rng 100; pure (monster_rarity_at roll)

-- `pb.Family(1 + randomN(rng, 4))`
unfoldable pub random_family : Stream → Prog ℤ
random_family rng = do i ← draw_from rng 4; pure (pos (1 + i))

-- The value given, or a random one where it is 0.
unfoldable pub family_or_random : ℤ → Stream → Prog ℤ
unfolding random_family
family_or_random f rng = if eqb_ℤ f unspecified then random_family rng else pure f

unfoldable pub rarity_or_random : ℤ → Stream → Prog ℤ
unfolding monster_rarity
rarity_or_random r rng = if eqb_ℤ r unspecified then monster_rarity rng else pure r

unfoldable pub definition_or_pick :
    Option MonsterDefinition → ℤ → ℤ → Stream → Prog (Option MonsterDefinition)
definition_or_pick none f r rng = pick_definition f r rng
definition_or_pick (some d) f r rng = pure (some d)

-- The id of a new monster, from the counter.
unfoldable pub fresh_id : Prog String
unfolding modify gets ◌>>=◌ monster_id
fresh_id = do
  n ← gets (λ c. c.state.next_monster_id)
  modify (λ c. record c { state = record c.state { next_monster_id = (n + 1) % word } })
  pure (monster_id n)

-- `&pb.Monster{Id: id, Activity: a, Quantity: q}` after `definition.identify`.
unfoldable pub new_monster : String → MonsterDefinition → ℤ → ℤ → Monster
unfolding identify
new_monster id d a q = identify d (record {
  id = id;
  definition_id = "";
  family = unspecified;
  rarity = unspecified;
  activity = a;
  quantity = q;
  name = "";
})

unfoldable pub set_stats : ℤ → ℤ → Monster → Monster
set_stats a q m = record m { activity = a; quantity = q }

module _ (emit : Emit) where
  -- The part of `addMonster` after the free slot and the definition are known.
  unfoldable pub add_defined : ℕ → Option MonsterDefinition → ℤ → ℤ → Prog String
  add_defined i none a q = do fail invalid_content; pure ""
  add_defined i (some d) a q = with_sum "" (base d.rarity).0 a λ aa.
      with_sum "" (base d.rarity).1 q λ qq. do
        id ← fresh_id
        write_slots (put_at i (new_monster id d aa qq))
        emit "added" (id ∷ []) aa qq
        pure id

  unfoldable pub add_at : Option ℕ → ℤ → ℤ → ℤ → ℤ → Stream → Option MonsterDefinition → Prog String
  unfolding add_defined
  add_at none f r a q rng given = do emit "overflow" [] (pos 0) (pos 0); pure ""
  add_at (some i) f r a q rng given = do
    f' ← family_or_random f rng
    r' ← rarity_or_random r rng
    d ← definition_or_pick given f' r' rng
    add_defined i d a q

  -- `addMonster`: the id of the new monster, or "".
  unfoldable pub add_monster : ℤ → ℤ → ℤ → ℤ → Stream → Option MonsterDefinition → Prog String
  unfolding add_at
  add_monster f r a q rng given = do
    alive ← tick
    free ← gets (λ c. free_slot (slots_of c))
    if alive then add_at free f r a q rng given else pure ""

  unfoldable pub buff_found : Option Monster → ℤ → ℤ → Prog (Unit {0})
  buff_found none a q = pure tt
  buff_found (some m) a q = with_sum tt m.activity a λ aa. with_sum tt m.quantity q λ qq. do
    write_slots (update_monster m.id (set_stats aa qq))
    emit "stats_changed" (m.id ∷ []) a q

  unfoldable pub buff : String → ℤ → ℤ → Prog (Unit {0})
  unfolding buff_found
  buff id a q = if_tick (do m ← find_monster id; buff_found m a q)

  -- `removedMonster` holds the monster while the event fires, and its old value after.
  unfoldable pub remove_found : Option Monster → Prog (Unit {0})
  remove_found none = pure tt
  remove_found (some m) = do
    previous ← gets (λ c. c.removed_monster)
    modify (λ c. record c { removed_monster = some m })
    write_slots (clear_first m.id)
    emit "removed" (m.id ∷ []) (pos 0) (pos 0)
    modify (λ c. record c { removed_monster = previous })

  unfoldable pub remove : String → Prog (Unit {0})
  unfolding remove_found
  remove id = if_tick (do m ← find_monster id; remove_found m)

  unfoldable pub transform_found :
      Option Monster → Option MonsterDefinition → String → Prog (Unit {0})
  transform_found none d kind = pure tt
  transform_found (some m) none kind = fail invalid_content
  transform_found (some m) (some d) kind = with_sum tt m.activity (base d.rarity).0 λ aa.
      with_sum tt m.quantity (base d.rarity).1 λ qq. do
        write_slots (update_monster m.id (λ n. identify d (set_stats aa qq n)))
        emit kind (m.id ∷ []) (base d.rarity).0 (base d.rarity).1

  unfoldable pub transform_to : String → Option MonsterDefinition → String → Prog (Unit {0})
  unfolding transform_found
  transform_to id d kind = if_tick (do m ← find_monster id; transform_found m d kind)

  -- The rarity after an awakening by a number of levels.
  unfoldable pub awakened_rarity : ℤ → ℤ → ℤ
  awakened_rarity r levels = let r' = add_int32 r levels in if ltb_ℤ boss r' then boss else r'

  unfoldable pub mutate_found : Monster → ℤ → ℤ → Prog (Unit {0})
  mutate_found m f r = do
    f' ← family_or_random f effect_stream
    r' ← rarity_or_random r effect_stream
    d ← pick_definition f' r' effect_stream
    transform_to m.id d "mutated"

  unfoldable pub awaken_found : Monster → ℤ → ℤ → Prog (Unit {0})
  awaken_found m r levels = if eqb_ℤ r unspecified && eqb_ℤ m.rarity boss then pure tt else do
    d ←
        pick_definition m.family
          (if eqb_ℤ r unspecified then awakened_rarity m.rarity levels else r) effect_stream
    transform_to m.id d "awakened"

  unfoldable pub transform_monster : Option Monster → ℤ → ℤ → Bool → ℤ → Prog (Unit {0})
  unfolding mutate_found awaken_found awakened_rarity
  transform_monster none f r awakening levels = pure tt
  transform_monster (some m) f r true levels = awaken_found m r levels
  transform_monster (some m) f r false levels = mutate_found m f r

  -- `transform`
  unfoldable pub transform : String → ℤ → ℤ → Bool → ℤ → Prog (Unit {0})
  unfolding transform_monster
  transform id f r awakening levels = do
    m ← find_monster id
    transform_monster m f r awakening levels

  -- `devour`, with both monsters found.
  unfoldable pub devour_found : Option Monster → Option Monster → Prog (Unit {0})
  devour_found none prey = pure tt
  devour_found (some eater) none = pure tt
  devour_found (some eater) (some prey) = with_sum tt eater.activity prey.activity λ a.
      with_sum tt eater.quantity prey.quantity λ q. do
        write_slots (update_monster eater.id (set_stats a q))
        write_slots (clear_all (prey.id ∷ []))
        emit "devoured" (eater.id ∷ prey.id ∷ []) prey.activity prey.quantity

  unfoldable pub devour : String → String → Prog (Unit {0})
  unfolding devour_found
  devour eater_id prey_id = if_tick (
      if str_eq eater_id prey_id
      then pure tt
      else do eater ← find_monster eater_id; prey ← find_monster prey_id; devour_found eater prey)
