-- ===== src/Effects/Anonymous/Handlers.antt =====
-- Every tool and every potion works alike under every name of the run and the player.
use vorax_simulator.Base.{String, List, none, some}
use vorax_simulator.Base.Int.{ℤ}
use vorax_simulator.Protocol.{GameEvent, Monster}
use vorax_simulator.Monsters.{definition_of}
use vorax_simulator.Streams.{effect_stream}
use vorax_simulator.Effects.Context.{Emit}
use vorax_simulator.Effects.Selection.{the_monster}
use vorax_simulator.Effects.PotionHandlers.{now, apply_potion}
use vorax_simulator.Effects.ToolHandlers.{apply_tool}
use vorax_simulator.Effects.Closed.{IsClosed}
use vorax_simulator.Effects.Closed.Tools.{apply_tool_lem}
use vorax_simulator.Effects.Closed.Potions.{apply_potion_lem}
use vorax_simulator.Effects.Anonymous.Rules.{
  Commutes, Commutes-pure, Commutes-gets, Commutes-or_crash, Commutes-bind, Commutes-failed,
  Commutes-fail, Commutes-draw_from,
}
use vorax_simulator.Effects.Anonymous.Methods.{
  find_monster-Commutes, monster_rarity-Commutes, buff-Commutes, remove-Commutes,
  transform-Commutes, transform_to-Commutes, devour-Commutes, fuse-Commutes, add_monster-Commutes,
}

module _ (run user : String) {emit : Emit}
    (emit-Commutes : (kind : String) (ids : List String) (a q : ℤ)
      → Commutes run user (emit kind ids a q)) where
  the_monster-Commutes : (id : String) → Commutes run user (the_monster id)
  unfolding the_monster
  the_monster-Commutes id =
      Commutes-bind run user _ _ (find_monster-Commutes run user id) (Commutes-or_crash run user)

  now-Commutes : (m : Monster) → Commutes run user (now m)
  unfolding now
  now-Commutes m =
      Commutes-bind run user _ _ (find_monster-Commutes run user m.id)
        (λ o. Commutes-pure run user _)

  commutes-IsClosed : IsClosed emit
  commutes-IsClosed = record {
    P = Commutes run user;
    Known = λ m. Unit {0};
    on_pure = λ a. Commutes-pure run user a;
    on_bind = λ m f h k. Commutes-bind run user m f h k;
    on_gets = λ f same. Commutes-gets run user f (same run user);
    on_or_crash = λ o. Commutes-or_crash run user o;
    on_failed = Commutes-failed run user;
    on_fail = Commutes-fail run user;
    on_draw = Commutes-draw_from run user effect_stream;
    on_rarity = monster_rarity-Commutes run user effect_stream;
    on_buff = buff-Commutes run user emit-Commutes;
    on_remove = remove-Commutes run user emit-Commutes;
    on_transform = transform-Commutes run user emit-Commutes;
    on_devour = devour-Commutes run user emit-Commutes;
    on_fuse = fuse-Commutes run user emit-Commutes;
    on_add = λ f r a q. add_monster-Commutes run user emit-Commutes f r a q effect_stream none;
    on_copy = λ m f r a q known.
        add_monster-Commutes run user emit-Commutes f r a q effect_stream (some (definition_of m));
    on_transform_to = λ id kind m known.
        transform_to-Commutes run user emit-Commutes id (some (definition_of m)) kind;
    on_monster =
        λ id f k. Commutes-bind run user (the_monster id) f (the_monster-Commutes id) (λ m. k m tt);
    on_now = λ m f known k. Commutes-bind run user (now m) f (now-Commutes m) (λ n. k n tt);
  }

  pub apply_tool-Commutes :
      (handler : String) (e : GameEvent) → Commutes run user (apply_tool emit handler e)
  unfolding commutes-IsClosed
  apply_tool-Commutes = apply_tool_lem commutes-IsClosed

  pub apply_potion-Commutes :
      (handler : String) (ids : List String) → Commutes run user (apply_potion emit handler ids)
  unfolding commutes-IsClosed
  apply_potion-Commutes = apply_potion_lem commutes-IsClosed
