-- ===== src/Effects/Sound/Choices.antt =====
-- The choosing of monsters (internal/engine/effects.go, internal/engine/engine.go) in a sound context.
use vorax_simulator.Base.{ℕ, ◌≡◌, refl, List, Option, none, some, String}
use vorax_simulator.Outcome.{Returns}
use vorax_simulator.Protocol.{GameState, Monster}
use vorax_simulator.Monsters.{definition_of}
use vorax_simulator.Board.{get_monster}
use vorax_simulator.Board.Valid.{get_monster-MonsterOk}
use vorax_simulator.Effects.Context.{Context, or_crash, slots_of}
use vorax_simulator.Effects.Keeps.{Keeps, Keeps-pure, Keeps-gets, Keeps-if, Runs}
use vorax_simulator.Effects.Invariant.{IsSound}
use vorax_simulator.Effects.Selection.{selected, the_monster}
use vorax_simulator.Effects.Sound.Draws.{DefinitionOk}
use vorax_simulator.Effects.Sound.Stats.{definition_of-DefinitionOk}

module _ {s0 : GameState} {fuel : ℕ} where
  pub selected-Keeps :
      (selector : String) (ids : List String) → Keeps (IsSound s0 fuel 0) (selected selector ids)
  unfolding selected
  selected-Keeps selector ids = Keeps-if _ _ _ (Keeps-pure ids) (Keeps-gets _)

  found-IsSound :
      (c : Context) (o : Option Monster) (id : String)
      → get_monster (slots_of c) id ≡ o
      → IsSound s0 fuel 0 c
      → Returns
          (λ (r : Monster × Context). DefinitionOk (definition_of r.0) × IsSound s0 fuel 0 r.1)
          (or_crash o c)
  unfolding or_crash
  found-IsSound c none id e h = tt
  found-IsSound c (some m) id e h = (
    definition_of-DefinitionOk c.state.next_monster_id m
        (get_monster-MonsterOk c.state.next_monster_id c.state.slots id m h.monsters_ok e),
    h,
  )

  -- A monster that is there has a known family and rarity.
  pub the_monster-Runs :
      (id : String)
      → Runs
          (IsSound s0 fuel 0)
          (λ m c. DefinitionOk (definition_of m) × IsSound s0 fuel 0 c)
          (the_monster id)
  unfolding the_monster
  the_monster-Runs id = record {
    at = λ c h. found-IsSound c (get_monster (slots_of c) id) id refl h;
  }
