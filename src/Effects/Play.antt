-- ===== src/Effects/Play.antt =====
-- Events, cards and the first monsters: `emit`, `tool`, `play`, `initialize` and `initializeRares` of
-- internal/engine/effects.go.
use vorax_simulator.Base.{
  ℕ, zero, suc, ◌+◌, String, Bool, true, false, not, ◌&&◌, List, [], ◌∷◌, ◌++◌, map, Option, none,
  some, str_eq, length, ◌==◌, if◌then◌else◌,
}
use vorax_simulator.Base.Int.{ℤ, pos, pos_part}
use vorax_simulator.Outcome.{Outcome, ok, err, panic, exhausted}
use vorax_simulator.Protocol.{
  GameState, Slot, SlotSnapshot, GameEvent, EffectSpec, CardDefinition, unspecified, bone, fiend,
  awakener, insect, rare,
}
use vorax_simulator.Rules.{card}
use vorax_simulator.Board.{left_from}
use vorax_simulator.Streams.{init_stream, effect_stream}
use vorax_simulator.Offers.Opening.{initial_tool_family}
use vorax_simulator.Effects.Context.{
  Context, Prog, Emit, pure, gets, modify, out_of_fuel, ◌>>=◌, ◌>>◌, when, for_each, repeat, failed,
  if_tick, draw_from, slots_of,
}
use vorax_simulator.Effects.Monsters.{add_monster, buff, remove, transform}
use vorax_simulator.Effects.Selection.{selected}
use vorax_simulator.Effects.ToolHandlers.{apply_tool}
use vorax_simulator.Effects.PotionHandlers.{apply_potion}

unfoldable pub snapshot : Slot → SlotSnapshot
snapshot s = record { index = s.index; monster = s.monster }

unfoldable pub new_event : Context → String → List String → ℤ → ℤ → GameEvent
new_event c kind ids a q = record {
  sequence = length c.events + 1;
  parent_sequence = c.parent;
  kind = kind;
  source = c.source;
  target_ids = ids;
  activity_delta = a;
  quantity_delta = q;
  slots_after = map snapshot c.state.slots;
}

-- `e := &pb.GameEvent{...}; c.events = append(c.events, e)`
unfoldable pub record_event : String → List String → ℤ → ℤ → Prog GameEvent
unfolding new_event snapshot
record_event kind ids a q c =
    let e = new_event c kind ids a q in ok (e, record c { events = c.events ++ e ∷ [] })

unfoldable pub set_source : String → Prog (Unit {0})
set_source id = modify (λ c. record c { source = id })

unfoldable pub set_parent : ℕ → Prog (Unit {0})
set_parent n = modify (λ c. record c { parent = n })

-- A tool whose card is gone or listens to another kind of event is passed over.
unfoldable pub listens : Option CardDefinition → String → Bool
listens none kind = false
listens (some c) kind = str_eq c.trigger kind

unfoldable pub handler_of : Option CardDefinition → String
handler_of none = ""
handler_of (some c) = c.handler

-- The loop over the tools; `fire` is `tool`.
unfoldable pub fire_tools :
    (String → GameEvent → Prog (Unit {0})) → String → GameEvent → List String → Prog (Unit {0})
unfolding set_source listens handler_of
fire_tools fire kind e [] = pure tt
fire_tools fire kind e (id ∷ ids) = do
  found ← gets (λ c. card c.rules id)
  if not (listens found kind) then fire_tools fire kind e ids else do
    set_source id
    fire (handler_of found) e
    stop ← failed
    when (not stop) (fire_tools fire kind e ids)

-- The body of `emit`; `fire` is `tool` of the call.
unfoldable pub emit_event : (String → GameEvent → Prog (Unit {0})) → Emit
unfolding record_event set_source set_parent fire_tools
emit_event fire kind ids a q = do
  e ← record_event kind ids a q
  old_source ← gets (λ c. c.source)
  old_parent ← gets (λ c. c.parent)
  set_parent e.sequence
  tools ← gets (λ c. c.state.tools)
  fire_tools fire kind e tools
  set_source old_source
  set_parent old_parent

-- `tool`, given the `emit` that its handler calls.
unfoldable pub tool_with : Emit → String → GameEvent → Prog (Unit {0})
tool_with emit handler e = if_tick (apply_tool emit handler e)

-- `emit`. Each nested call ticks first, so the limit of the steps bounds the depth (Effects.Sound.Play).
unfoldable pub emit_fuel : ℕ → Emit
unfolding emit_event tool_with
emit_fuel zero kind ids a q = out_of_fuel
emit_fuel (suc fuel) kind ids a q = if_tick (emit_event (tool_with (emit_fuel fuel)) kind ids a q)

-- With one more than the limit of steps as fuel.
unfoldable pub emit : Emit
unfolding emit_fuel
emit = emit_fuel 513

-- `c.state.OpeningToolFamily = initialToolFamily(c.state)`, unless an error stands.
unfoldable pub with_family : Context → Outcome (ℤ × GameState) → Outcome (Unit {0} × Context)
with_family c o = elim o [
  | ok (f, s) ↦ ok (tt, record c { state = record s { opening_tool_family = f } })
  | err e ↦ err e
  | panic ↦ panic
  | exhausted ↦ exhausted
]

unfoldable pub choose_family : Prog (Unit {0})
unfolding with_family
choose_family c = with_family c (initial_tool_family c.state)

unfoldable pub set_opening_family : Prog (Unit {0})
unfolding choose_family
set_opening_family = do stop ← failed; when (not stop) choose_family

module _ (emit : Emit) where
  unfoldable pub remove_neighbour : Option String → Prog (Unit {0})
  remove_neighbour none = pure tt
  remove_neighbour (some id) = remove emit id

  -- The `switch` on the effect's operation, for one target.
  unfoldable pub effect_on : EffectSpec → String → Prog (Unit {0})
  unfolding remove_neighbour
  effect_on e id =
      if str_eq e.op "buff"
      then buff emit id e.activity e.quantity
      else if str_eq e.op "mutate"
      then transform emit id e.family e.rarity false (pos 0)
      else if str_eq e.op "awaken"
      then transform emit id unspecified unspecified true e.count
      else if str_eq e.op "remove_left"
      then (do left ← gets (λ c. left_from none id (slots_of c)); remove_neighbour left)
      else pure tt

  unfoldable pub one_effect : EffectSpec → List String → Prog (Unit {0})
  unfolding effect_on
  one_effect e ids =
      if str_eq e.op "add"
      then repeat (pos_part e.count)
          (do add_monster emit e.family e.rarity e.activity e.quantity effect_stream none; pure tt)
      else do targets ← selected e.selector ids; for_each targets (effect_on e)

  -- A tick that fails ends `play` as a whole, `rest` included.
  unfoldable pub play_effects : List EffectSpec → List String → Prog (Unit {0}) → Prog (Unit {0})
  unfolding one_effect
  play_effects [] ids rest = rest
  play_effects (e ∷ es) ids rest = if_tick (do one_effect e ids; play_effects es ids rest)

  -- `play`
  unfoldable pub play : CardDefinition → List String → Prog (Unit {0})
  unfolding play_effects
  play c ids = play_effects c.effects ids (apply_potion emit c.handler ids)

  -- The loop of `initialize`, with `i` counted up and `n` rounds left.
  unfoldable pub initial_monsters : ℕ → ℕ → ℤ → Bool → Prog (Unit {0})
  initial_monsters i zero family bones = pure tt
  initial_monsters i (suc n) family bones = do
    f ←
        if bones && (i == 2)
        then (do x ← draw_from init_stream 3; pure (pos (2 + x)))
        else pure family
    add_monster emit f unspecified (pos 0) (pos 0) init_stream none
    initial_monsters (suc i) n family bones

  -- `initialize`
  unfoldable pub initialize : ℕ → ℤ → Bool → Prog (Unit {0})
  unfolding initial_monsters set_opening_family
  initialize count family bones = do initial_monsters 0 count family bones; set_opening_family

  -- `initializeRares`
  unfoldable pub initialize_rares : Prog (Unit {0})
  unfolding set_opening_family
  initialize_rares = do
    for_each (bone ∷ fiend ∷ awakener ∷ insect ∷ [])
        (λ f. do add_monster emit f rare (pos 0) (pos 0) init_stream none; pure tt)
    set_opening_family
