-- ===== src/Effects/Sound/Handlers.antt =====
-- Every tool and every potion keeps a context sound, if `emit` does.
use vorax_simulator.Base.{ℕ, ◌+◌, ◌<◌, List, some, none, String}
use vorax_simulator.Base.Int.{ℤ}
use vorax_simulator.Protocol.{GameState, GameEvent}
use vorax_simulator.Monsters.{definition_of}
use vorax_simulator.Random.{word}
use vorax_simulator.Effects.Context.{Emit}
use vorax_simulator.Effects.ToolHandlers.{apply_tool}
use vorax_simulator.Effects.PotionHandlers.{apply_potion}
use vorax_simulator.Effects.Keeps.{
  Keeps, Keeps-pure, Keeps-gets, Keeps-bind, Keeps-or_crash, Keeps-failed,
}
use vorax_simulator.Effects.Invariant.{IsSound, fail-Keeps}
use vorax_simulator.Effects.Closed.{IsClosed}
use vorax_simulator.Effects.Closed.Tools.{apply_tool_lem}
use vorax_simulator.Effects.Closed.Potions.{apply_potion_lem}
use vorax_simulator.Effects.Sound.Draws.{
  for_effect, DefinitionOk, draw_from-Keeps, monster_rarity-Keeps,
}
use vorax_simulator.Effects.Sound.Methods.{
  buff-Keeps, remove-Keeps, transform-Keeps, transform_to-Keeps, devour-Keeps, add_monster-Keeps,
}
use vorax_simulator.Effects.Sound.Fusion.{fuse-Keeps}
use vorax_simulator.Effects.Sound.Now.{with_monster, with_now}

module _ {s0 : GameState} {fuel : ℕ} (emit : Emit)
    (emit-Keeps : (kind : String) (ids : List String) (a q : ℤ)
      → Keeps (IsSound s0 fuel 0) (emit kind ids a q))
    (room : s0.next_monster_id + 513 < word) where
  keeps-IsClosed : IsClosed emit
  keeps-IsClosed = record {
    P = Keeps (IsSound s0 fuel 0);
    Known = λ m. DefinitionOk (definition_of m);
    on_pure = λ a. Keeps-pure a;
    on_bind = λ m f h k. Keeps-bind m f h k;
    on_gets = λ f same. Keeps-gets f;
    on_or_crash = λ o. Keeps-or_crash o;
    on_failed = Keeps-failed;
    on_fail = fail-Keeps s0 fuel 0;
    on_draw = draw_from-Keeps for_effect;
    on_rarity = monster_rarity-Keeps for_effect;
    on_buff = buff-Keeps emit emit-Keeps;
    on_remove = remove-Keeps emit emit-Keeps;
    on_transform = transform-Keeps emit emit-Keeps;
    on_devour = devour-Keeps emit emit-Keeps;
    on_fuse = fuse-Keeps emit emit-Keeps room;
    on_add = λ f r a q. add_monster-Keeps emit emit-Keeps room f r a q none for_effect tt;
    on_copy = λ m f r a q known.
        add_monster-Keeps emit emit-Keeps room f r a q (some (definition_of m)) for_effect known;
    on_transform_to = λ id kind m known.
        transform_to-Keeps emit emit-Keeps id (some (definition_of m)) kind known;
    on_monster = λ id f k. with_monster id f k;
    on_now = λ m f known k. with_now m f known k;
  }

  pub apply_tool-Keeps :
      (handler : String) (e : GameEvent) → Keeps (IsSound s0 fuel 0) (apply_tool emit handler e)
  unfolding keeps-IsClosed
  apply_tool-Keeps = apply_tool_lem keeps-IsClosed

  pub apply_potion-Keeps :
      (handler : String) (ids : List String)
      → Keeps (IsSound s0 fuel 0) (apply_potion emit handler ids)
  unfolding keeps-IsClosed
  apply_potion-Keeps = apply_potion_lem keeps-IsClosed
