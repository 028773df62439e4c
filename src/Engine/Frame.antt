-- ===== src/Engine/Frame.antt =====
-- What the effects of a card leave alone: `play` within `Apply` of internal/engine.
use vorax_simulator.Base.{◌+◌, ◌<◌, ◌≡◌, String, List}
use vorax_simulator.Outcome.{Returns}
use vorax_simulator.Protocol.{GameState, CardDefinition}
use vorax_simulator.Rules.{Rules}
use vorax_simulator.Random.{word}
use vorax_simulator.Effects.Context.{Context}
use vorax_simulator.Effects.Invariant.{IsSound, frame}
use vorax_simulator.Effects.Play.{emit, play}
use vorax_simulator.Effects.Sound.Play.{emit-Keeps, play-Keeps}
use vorax_simulator.Engine.{start_context}
use vorax_simulator.Engine.Sound.Boards.{StateSound, Returns-le, start-IsSound}
use vorax_simulator.Engine.Sound.Commands.{start-EngineOk}

-- On a sound state whose counter of monsters has room for 513 ids, playing any card ends, with all the
-- tools that it fires. Where it gives a state, only the slots, the streams of monsters and effects, the
-- counter of monsters and the opening family may differ: no turn, cursor, offer, tool, refresh, reward
-- or score does.
pub play-frame :
    (s : GameState) (r : Rules) (d : CardDefinition) (ids : List String)
    → StateSound s s
    → s.next_monster_id + 513 < word
    → Returns
        (λ (x : Unit {0} × Context). frame x.1.state ≡ frame (start_context s r).state)
        (play emit d ids (start_context s r))
play-frame s r d ids h room =
    let c = start_context s r in
    Returns-le (λ (x : Unit {0} × Context). IsSound _ 513 0 x.1) _ (play emit d ids c)
      (λ x sound. sound.framed)
      ((play-Keeps emit (emit-Keeps room) room d ids).at c
        (start-IsSound s c (start-EngineOk s r h)))
