-- ===== src/Streams/Named.antt =====
-- A state under other names of the run and the player, and the streams, which do not see them.
use vorax_simulator.Base.{ℕ, String, ◌≡◌, refl, ap}
use vorax_simulator.Outcome.{Outcome, ok, err, panic, exhausted, map_outcome, ◌>>=◌}
use vorax_simulator.Protocol.{GameState}
use vorax_simulator.Random.{random_n}
use vorax_simulator.Streams.{
  Stream, init_stream, offer_stream, effect_stream, draw, stream_value, set_stream,
}

abbrev pub named : String → String → GameState → GameState
named run user s = record s { run_id = run; user_id = user }

module _ (run user : String) where
  stream_kept : (r : Stream) (s : GameState) → stream_value r (named run user s) ≡ stream_value r s
  unfolding stream_value
  stream_kept init_stream s = refl
  stream_kept offer_stream s = refl
  stream_kept effect_stream s = refl

  set_kept :
      (r : Stream) (v : ℕ) (s : GameState)
      → set_stream r v (named run user s) ≡ named run user (set_stream r v s)
  unfolding set_stream
  set_kept init_stream v s = refl
  set_kept offer_stream v s = refl
  set_kept effect_stream v s = refl

  abbrev pub with_named {ℓ} : {A : Type ℓ} → A × GameState → A × GameState
  with_named (a, s) = (a, named run user s)

  abbrev pub renamed_state {ℓ} : {A : Type ℓ} → Outcome (A × GameState) → Outcome (A × GameState)
  renamed_state o = map_outcome with_named o

  set_kept_state :
      (r : Stream) (s : GameState) (o : Outcome (ℕ × ℕ))
      → (do (x, v) ← o; ok (x, set_stream r v (named run user s)))
        ≡ renamed_state (do (x, v) ← o; ok (x, set_stream r v s))
  set_kept_state r s (ok (x, v)) = ap (λ t. ok (x, t)) (set_kept r v s)
  set_kept_state r s (err e) = refl
  set_kept_state r s panic = refl
  set_kept_state r s exhausted = refl

  pub draw-named :
      (r : Stream) (n : ℕ) (s : GameState)
      → draw r n (named run user s) ≡ renamed_state (draw r n s)
  unfolding draw
  draw-named r n s = rw (stream_kept r s) (set_kept_state r s (random_n (stream_value r s) n))
