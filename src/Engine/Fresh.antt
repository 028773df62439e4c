-- ===== src/Engine/Fresh.antt =====
-- The games that `New` of internal/engine/engine.go makes.
use Prim.Native.String.{len}
use vorax_simulator.Base.{ℕ, ◌≤◌, ◌≡◌, String, false, [], All, length, str_eq, none}
use vorax_simulator.Base.Int.{ℤ, pos, ◌≤ℤ◌}
use vorax_simulator.Outcome.{ok, Outcome}
use vorax_simulator.Protocol.{GameState, Slot, RewardState, preparing}
use vorax_simulator.Rules.{Rules, rng_version}
use vorax_simulator.Rewards.Scores.{outside_scores}
use vorax_simulator.Validation.{validate_state}
use vorax_simulator.Offers.Frame.{outside_offer}
use vorax_simulator.Engine.{new_state, stream_seed}

abbrev IsFree : Slot → Type 0
IsFree s = (s.monster ≡ none) × (s.contribution ≡ pos 0)

-- What was asked of a new game.
abbrev pub IsAsked : String → ℤ → Type 0
IsAsked seed pet = (pos 0 ≤ℤ pet) × (pet ≤ℤ pos 2) × (str_eq seed "" ≡ false) × (len seed ≤ 256)

module _ (sha256_word : String → ℕ) where
  -- A new game: it passes the checks of a save, has the names, the seed, the versions and the refreshes
  -- that were asked for, is in its preparation with an empty board and no score, and has the streams of
  -- its seed.
  pub record IsNewGame (run_id user_id seed : String) (pet : ℤ) (r : Rules) (s : GameState)
      : Type 0 where
    pub asked_for : IsAsked seed pet
    pub valid : validate_state s r ≡ ok tt
    pub names : (s.run_id ≡ run_id) × (s.user_id ≡ user_id) × (s.seed ≡ seed)
    pub versions :
        (s.rules_version ≡ r.version)
        × (s.content_version ≡ r.content_version)
        × (s.rng_version ≡ rng_version)
    pub refreshes :
        (s.potion_refreshes ≡ pos 3) × (s.tool_refreshes ≡ pet) × (s.initial_pet_refreshes ≡ pet)
    pub begins :
        (s.phase ≡ preparing)
        × (s.base_cursor ≡ pos 0)
        × (s.completed_turns ≡ pos 0)
        × (s.revision ≡ 1)
        × (s.tools ≡ [])
        × (s.score ≡ pos 0)
    pub board : (length s.slots ≡ 6) × All IsFree s.slots
    pub streams :
        (s.init_rng ≡ stream_seed sha256_word seed "initialization")
        × (s.effect_rng ≡ stream_seed sha256_word seed "effects")

  module _ (run_id user_id seed : String) (pet : ℤ) (r : Rules) where
    start : GameState
    start = new_state sha256_word run_id user_id seed pet r

    -- What the offer and the scores leave as it was.
    abbrev Alike : RewardState → GameState → GameState → Type 0
    Alike none_yet s t =
        outside_offer (outside_scores s none_yet) ≡ outside_offer (outside_scores t none_yet)
