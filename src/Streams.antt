-- ===== src/Streams.antt =====
-- The three random streams of a game, and drawing from the one that a `*uint64` names.
pub mod Named
use vorax_simulator.Base.{ℕ}
use vorax_simulator.Outcome.{Outcome, ok, ◌>>=◌}
use vorax_simulator.Protocol.{GameState}
use vorax_simulator.Random.{random_n}

pub data Stream : Type 0 where
  init_stream offer_stream effect_stream : Stream

unfoldable pub stream_value : Stream → GameState → ℕ
stream_value init_stream s = s.init_rng
stream_value offer_stream s = s.offer_rng
stream_value effect_stream s = s.effect_rng

unfoldable pub set_stream : Stream → ℕ → GameState → GameState
set_stream init_stream v s = record s { init_rng = v }
set_stream offer_stream v s = record s { offer_rng = v }
set_stream effect_stream v s = record s { effect_rng = v }

-- `randomN(&s.X, n)`
unfoldable pub draw : Stream → ℕ → GameState → Outcome (ℕ × GameState)
unfolding stream_value set_stream
draw r n s = do (x, v) ← random_n (stream_value r s) n; ok (x, set_stream r v s)
