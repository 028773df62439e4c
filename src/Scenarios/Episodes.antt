-- ===== src/Scenarios/Episodes.antt =====
-- A training game at a concrete library, and the theorem on its states applied there.
use vorax_simulator.Base.{ℕ, ◌+◌, ◌-◌, ◌≡◌, refl, String, Option, some, arith}
use vorax_simulator.Outcome.{ok}
use vorax_simulator.Text.Split.{dotted}
use vorax_simulator.Application.Signer.{key_or_nil}
use vorax_simulator.Training.Episode.{Sealing, IsSealing, episode_aead, seal_episode, open_episode}
use vorax_simulator.Training.Episode.Trip.{open_episode-seal_episode}
use vorax_simulator.Scenarios.States.{state_same}
use vorax_simulator.Scenarios.Starts.{created_state}
use vorax_simulator.Scenarios.Saves.{toy_library, toy-IsDocumented, toy_signer, toy_IsReady, unary}

-- Bytes are their number: a nonce of twelve, and no overhead.
abbrev toy_sealing : Sealing toy_library
toy_sealing = record {
  Aead = Unit {0};
  new_gcm = λ key. some tt;
  with_text = λ key text. key;
  join = λ a b. a + b;
  first = λ k b. k;
  rest = λ k b. b - k;
  nonce_size = λ aead. 12;
  overhead = λ aead. 0;
  seal_with = λ aead nonce plain aad. plain;
  open_with = λ aead nonce sealed aad. some sealed;
}

toy-IsSealing : IsSealing toy_library toy_sealing
toy-IsSealing = record {
  first-join = λ k a b h. omega (arith, h);
  rest-join = λ k a b h. omega (arith, h);
  size-join = λ a b. refl;
  size-seal_with = λ aead nonce plain aad. omega arith;
  open_with-seal_with = λ aead nonce plain aad h. refl;
}

abbrev toy_random : ℕ → Option ℕ
toy_random n = some n

toy_random-size : (n b : ℕ) → toy_random n ≡ some b → b ≡ n
toy_random-size n b h = ground arith

abbrev toy_episode : String
toy_episode = dotted (dotted "vte1" "v1") (unary 12)

toy_sealed :
    seal_episode toy_library toy_sealing toy_random toy_signer created_state ≡ ok toy_episode
unfolding seal_episode episode_aead key_or_nil state_same
toy_sealed = refl

open_episode-seal_episode_example :
    open_episode toy_library toy_sealing toy_signer toy_episode ≡ ok created_state
open_episode-seal_episode_example =
    open_episode-seal_episode toy_library toy_sealing toy-IsDocumented toy-IsSealing toy_random
      toy_random-size toy_signer toy_IsReady created_state toy_episode toy_sealed (omega arith)
