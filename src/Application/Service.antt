-- ===== src/Application/Service.antt =====
-- The operations of a game as the service offers them: internal/application/service.go.
pub mod Answers
pub mod Sessions
use Prim.Native.Char.{nul}
use Prim.Native.String.{len, ◌++◌ as append_text}
use vorax_simulator.Base.{
  ℕ, zero, suc, String, Bool, true, false, not, ◌&&◌, ◌||◌, List, [], ◌∷◌, Option, none, some,
  str_eq, ltb, ◌==◌, length, if◌then◌else◌,
}
use vorax_simulator.Base.Int.{ℤ}
use vorax_simulator.Outcome.{
  Outcome, ok, err, panic, exhausted, Error, invalid_input, version_unavailable, invalid_token,
  stale_state, replay_invalid, replay_mismatch, internal_error, uncoded_error, ◌>>=◌, ◌>>◌,
  error_if, or_error, or_panic,
}
use vorax_simulator.Protocol.{GameState, GameEvent, Command}
use vorax_simulator.Rules.{Rules, rng_version}
use vorax_simulator.Validation.{validate_state}
use vorax_simulator.Engine.{new, apply}
use vorax_simulator.Engine.View.{GameView, view, gameplay_copy}
use vorax_simulator.Application.Library.{Library}
use vorax_simulator.Application.Signer.{Signer, key_or_nil, seal, open_token}

pub record CreateRunRequest : Type 0 where
  pub user_id : String
  pub pet_refreshes : ℤ
  pub seed : String
  pub request_id : String
  pub rules_version : String
  pub content_version : String
  pub rng_version : String

pub record CommandRequest : Type 0 where
  pub state_token : String
  pub request_id : String
  pub expected_revision : ℕ
  pub command : Command

pub record ReplayRequest : Type 0 where
  pub seed : String
  pub rules_version : String
  pub content_version : String
  pub rng_version : String
  pub pet_refreshes : ℤ
  pub commands : List Command
  pub expected_gameplay_hash : String

pub record RunResponse : Type 0 where
  pub state_token : String
  pub view : GameView
  pub events : List GameEvent
  pub request_id : String
  pub gameplay_hash : String

pub record ReplayResponse : Type 0 where
  pub verified : Bool
  pub gameplay_hash : String
  pub view : GameView

-- The first bytes of a text of hex digits; `none` where it is shorter.
unfoldable pub first_chars : ℕ → String → Option String
first_chars zero s = some ""
first_chars (suc n) String.[] = none
first_chars (suc n) (String.◌∷◌ c s) = elim (first_chars n s) [
  | none ↦ none
  | some t ↦ some (String.◌∷◌ c t)
]

module _ (l : Library) where
  -- What is to be recorded after an operation: `GameRecorder`, whose answer is an error or none.
  pub record Recorder : Type 0 where
    pub record_created : GameState → String → Bool
    pub record_decision : GameState → GameState → Command → List GameEvent → String → String → Bool

  pub record Service : Type 0 where
    pub rules : Rules
    pub signer : Signer l
    pub recorder : Option Recorder

  -- `versions`
  unfoldable pub versions : Service → String → String → String → Bool → Outcome (Unit {0})
  versions svc rules content rng allow_empty =
      error_if
        ((not (str_eq rules svc.rules.version) && not (allow_empty && str_eq rules ""))
          || ((not (str_eq content svc.rules.content_version)
                && not (allow_empty && str_eq content ""))
              || (not (str_eq rng rng_version) && not (allow_empty && str_eq rng ""))))
        version_unavailable

  -- `GameplayHash`
  unfoldable pub gameplay_hash : GameState → Outcome String
  gameplay_hash s = do
    b ← or_error (l.marshal (gameplay_copy s)) uncoded_error
    ok (l.hex (l.sha256 b))

  -- `response`
  unfoldable pub response : Service → GameState → List GameEvent → String → Outcome RunResponse
  unfolding gameplay_hash
  response svc s events request_id = do
    token ← seal l svc.signer s
    hash ← gameplay_hash s
    ok (record {
      state_token = token;
      view = view s svc.rules;
      events = events;
      request_id = request_id;
      gameplay_hash = hash;
    })

  unfoldable created : Option Recorder → GameState → RunResponse → Outcome RunResponse
  created none s resp = ok resp
  created (some r) s resp = do
    error_if (not (r.record_created s resp.gameplay_hash)) internal_error
    ok resp

  -- The closure `derive` of `Create`.
  unfoldable pub derive : Service → CreateRunRequest → String → String
  derive svc req label =
      let separator = String.◌∷◌ nul "" in
      l.hex (
        l.hmac (key_or_nil l svc.signer svc.signer.active) (
          append_text label (
            append_text separator
              (append_text req.user_id (append_text separator req.request_id)))))

  -- The seed of the request, or one that the request determines.
  unfoldable pub seed_of : Service → CreateRunRequest → String
  unfolding derive
  seed_of svc req = if str_eq req.seed "" then derive svc req "seed" else req.seed

  abbrev length_outside : ℕ → ℕ → String → Bool
  length_outside least most s = ltb (len s) least || ltb most (len s)

  -- `Create`
  unfoldable pub create : Service → CreateRunRequest → Outcome RunResponse
  unfolding created derive seed_of
  create svc req = do
    error_if
        (str_eq req.user_id ""
          || (ltb 128 (len req.user_id) || length_outside 8 128 req.request_id))
        invalid_input
    versions svc req.rules_version req.content_version req.rng_version true
    run_id ← or_panic (first_chars 32 (derive svc req "run"))
    s ← new l.sha256_word run_id req.user_id (seed_of svc req) req.pet_refreshes svc.rules
    resp ← response svc s [] req.request_id
    created svc.recorder s resp

  -- `open`
  unfoldable pub open_game : Service → String → Outcome GameState
  open_game svc token = do s ← open_token l svc.signer token; validate_state s svc.rules; ok s

  -- `restore`
  unfoldable pub restore_game : Service → String → String → Outcome GameState
  unfolding open_game
  restore_game svc token run_id = do
    s ← open_game svc token
    error_if (not (str_eq s.run_id run_id)) invalid_token
    ok s

  -- `Restore`
  unfoldable pub restore : Service → String → String → Outcome RunResponse
  unfolding restore_game response
  restore svc run_id token = do s ← restore_game svc token run_id; response svc s [] ""

  unfoldable decided :
      Option Recorder
      → GameState
      → GameState
      → Command
      → List GameEvent
      → RunResponse
      → Outcome RunResponse
  unfolding gameplay_hash
  decided none s next cmd events resp = ok resp
  decided (some r) s next cmd events resp = do
    before ← gameplay_hash s
    error_if (not (r.record_decision s next cmd events before resp.gameplay_hash)) internal_error
    ok resp

  -- `Command`
  unfoldable pub command : Service → String → CommandRequest → Outcome RunResponse
  unfolding restore_game response decided
  command svc run_id req = do
    error_if (length_outside 8 128 req.request_id) invalid_input
    s ← restore_game svc req.state_token run_id
    error_if (not (s.revision == req.expected_revision)) stale_state
    (next, events) ← apply s req.command svc.rules
    resp ← response svc next events req.request_id
    decided svc.recorder s next req.command events resp

  -- An error of a command is wrapped with the code of the replay.
  unfoldable wrapped : Outcome (GameState × List GameEvent) → Outcome GameState
  wrapped (ok (s, events)) = ok s
  wrapped (err e) = err replay_invalid
  wrapped panic = panic
  wrapped exhausted = exhausted

  -- The loop over the commands.
  unfoldable pub replay_commands : Service → GameState → List Command → Outcome GameState
  unfolding wrapped
  replay_commands svc s [] = ok s
  replay_commands svc s (cmd ∷ cmds) = do
    next ← wrapped (apply s cmd svc.rules)
    replay_commands svc next cmds

  -- `Replay`
  unfoldable pub replay : Service → ReplayRequest → Outcome ReplayResponse
  unfolding versions gameplay_hash replay_commands
  replay svc req = do
    versions svc req.rules_version req.content_version req.rng_version false
    error_if (ltb 128 (length req.commands)) invalid_input
    start ← new l.sha256_word "replay" "replay" req.seed req.pet_refreshes svc.rules
    s ← replay_commands svc start req.commands
    hash ← gameplay_hash s
    error_if
        (not (str_eq req.expected_gameplay_hash "") && not (str_eq req.expected_gameplay_hash hash))
        replay_mismatch
    ok (record {
      verified = not (str_eq req.expected_gameplay_hash "");
      gameplay_hash = hash;
      view = view s svc.rules;
    })
