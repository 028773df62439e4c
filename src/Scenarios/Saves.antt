-- ===== src/Scenarios/Saves.antt =====
-- Runs of the service at concrete inputs, with small stand-ins for the libraries, and the theorems on
-- saves, commands, replays and names applied at them.
use vorax_simulator.Base.{
  ℕ, zero, suc, ◌≡◌, refl, ap, sym, ◌∙◌, String, Bool, true, false, ◌==◌, List, [], ◌∷◌, Option,
  none, some, arith, if◌then◌else◌,
}
use vorax_simulator.Base.Int.{pos}
use vorax_simulator.Outcome.{ok, Yields, Returns, map_outcome}
use vorax_simulator.Protocol.{GameState, GameEvent}
use vorax_simulator.Rules.{demo_rules}
use vorax_simulator.Text.Split.{split_dots, has_dot, dotted}
use vorax_simulator.Validation.{
  validate_state, versions_differ, structure_invalid, opening_family_invalid, check_slots,
  check_monster, monster_invalid, check_tools, is_tool,
}
use vorax_simulator.Engine.{apply}
use vorax_simulator.Engine.View.{view, gameplay_copy}
use vorax_simulator.Application.Library.{Library, IsDocumented}
use vorax_simulator.Application.Signer.{Signer, find_key, key_or_nil, new_signer, seal, open_token}
use vorax_simulator.Application.Signer.Trip.{
  open_token-seal, IsReady, IsSigned, open_token-IsSigned,
}
use vorax_simulator.Application.Service.Answers.{IsApplied, command-IsApplied}
use vorax_simulator.Engine.Named.{with_names, apply-named}
use vorax_simulator.Streams.Named.{named}
use vorax_simulator.Application.Service.{
  Service, versions, first_chars, derive, seed_of, response, gameplay_hash, restore_game, open_game,
  CreateRunRequest, CommandRequest, RunResponse, ReplayResponse, create, command, replay,
}
use vorax_simulator.Application.Service.Sessions.{
  Session, opening, next, request_of, replay-Session,
}
use vorax_simulator.Scenarios.States.{state_same, state_sound}
use vorax_simulator.Scenarios.Starts.{
  toy_digest, skip, created_state, skipped_state, toy_new, toy_apply, skip_events,
}

-- What `GameplayCopy` makes of a state.
abbrev copied : GameState → GameState
copied s = record s { run_id = ""; user_id = ""; revision = 0 }

-- The states that the runs store, by number.
abbrev toy_marshal : GameState → Option ℕ
toy_marshal s =
    if state_same s created_state
    then some 0
    else if state_same s (copied created_state)
    then some 1
    else if state_same s skipped_state
    then some 2
    else if state_same s (copied skipped_state)
    then some 3
    else none

abbrev toy_unmarshal : ℕ → Option GameState
toy_unmarshal zero = some created_state
toy_unmarshal (suc zero) = some (copied created_state)
toy_unmarshal (suc (suc zero)) = some skipped_state
toy_unmarshal (suc (suc (suc zero))) = some (copied skipped_state)
toy_unmarshal _ = none

abbrev code_or : ℕ → Option ℕ → ℕ
code_or d none = d
code_or d (some n) = n

stored :
    (s t : GameState) (n b : ℕ) (same : Bool) (rest : Option ℕ)
    → (same ≡ true → s ≡ t)
    → toy_unmarshal n ≡ some t
    → (rest ≡ some b → toy_unmarshal b ≡ some s)
    → (if same then some n else rest) ≡ some b
    → toy_unmarshal b ≡ some s
stored s t n b true rest sound back other h =
    ap toy_unmarshal (sym (ap (code_or 0) h)) ∙ back ∙ ap (λ x. some x) (sym (sound refl))
stored s t n b false rest sound back other h = other h

never : (s : GameState) (b : ℕ) → none ≡ some b → toy_unmarshal b ≡ some s
never s b h = absurd (ground arith)

toy_unmarshal-marshal : (s : GameState) (b : ℕ) → toy_marshal s ≡ some b → toy_unmarshal b ≡ some s
toy_unmarshal-marshal s b = stored s created_state 0 b _ _ (state_sound s created_state) refl (
    stored s (copied created_state) 1 b _ _ (state_sound s (copied created_state)) refl (
      stored s skipped_state 2 b _ _ (state_sound s skipped_state) refl (
        stored s (copied skipped_state) 3 b _ _ (state_sound s (copied skipped_state)) refl
          (never s b))))

-- A number is a text of so many letters.
abbrev pub unary : ℕ → String
unary zero = ""
unary (suc n) = String.◌∷◌ "a" (unary n)

abbrev unary_value : String → Option ℕ
unary_value String.[] = some 0
unary_value (String.◌∷◌ c s) = elim (unary_value s) [ none ↦ none | some n ↦ some (suc n) ]

unary_lem : (n : ℕ) → unary_value (unary n) ≡ some n
unary_lem zero = refl
unary_lem (suc n) = rw (unary_lem n) refl

unary-has_dot : (n : ℕ) → has_dot (unary n) ≡ false
unfolding has_dot
unary-has_dot zero = refl
unary-has_dot (suc n) = unary-has_dot n

abbrev toy_hex : ℕ → String
toy_hex n = "0123456789abcdef0123456789abcdef"

abbrev pub toy_library : Library
toy_library = record {
  Bytes = ℕ;
  no_bytes = 0;
  size = λ b. b;
  hmac = λ key text. key;
  same_bytes = λ a b. a == b;
  sha256 = λ b. b;
  sha256_word = toy_digest;
  hex = toy_hex;
  encode = unary;
  decode = unary_value;
  marshal = toy_marshal;
  unmarshal = toy_unmarshal;
}

pub toy-IsDocumented : IsDocumented toy_library
toy-IsDocumented = record {
  decode-encode = unary_lem;
  encode-has_dot = unary-has_dot;
  same_bytes-refl = λ b. ground arith;
  unmarshal-marshal = toy_unmarshal-marshal;
  hex-sha256 = λ b. refl;
}

abbrev pub toy_signer : Signer toy_library
toy_signer = record { active = "v1"; keys = ("v1", 40) ∷ [] }

abbrev toy_token : ℕ → String
toy_token n = dotted (dotted "v1" (unary n)) (unary 40)

toy_new_signer : new_signer toy_library "v1" 40 ≡ ok toy_signer
unfolding new_signer has_dot
toy_new_signer = refl

toy_seal : seal toy_library toy_signer created_state ≡ ok (toy_token 0)
unfolding seal key_or_nil state_same
toy_seal = refl

open_token-seal_example : open_token toy_library toy_signer (toy_token 0) ≡ ok created_state
open_token-seal_example =
    open_token-seal toy_library toy-IsDocumented "v1" 40 toy_signer created_state (toy_token 0)
      toy_new_signer toy_seal (omega arith)

abbrev toy_service : Service toy_library
toy_service = record { rules = demo_rules; signer = toy_signer; recorder = none }

abbrev toy_create : CreateRunRequest
toy_create = record {
  user_id = "user";
  pet_refreshes = pos 1;
  seed = "seed";
  request_id = "request-1";
  rules_version = "";
  content_version = "";
  rng_version = "";
}

abbrev toy_answer : GameState → ℕ → List GameEvent → RunResponse
toy_answer s n events = record {
  state_token = toy_token n;
  view = view s demo_rules;
  events = events;
  request_id = "request-1";
  gameplay_hash = toy_hex 0;
}

abbrev toy_command : CommandRequest
toy_command = record {
  state_token = toy_token 0;
  request_id = "request-1";
  expected_revision = 1;
  command = skip;
}

toy_created : create toy_library toy_service toy_create ≡ ok (toy_answer created_state 0 [])
unfolding create versions first_chars derive seed_of response seal key_or_nil gameplay_hash
    gameplay_copy state_same demo_rules
toy_created = rw toy_new refl

toy_commanded :
    command toy_library toy_service "0123456789abcdef0123456789abcdef" toy_command
    ≡ ok (toy_answer skipped_state 2 (skip_events (apply created_state skip demo_rules)))
unfolding command restore_game open_game open_token response seal key_or_nil gameplay_hash
    gameplay_copy state_same validate_state versions_differ structure_invalid opening_family_invalid
    check_slots check_monster monster_invalid check_tools is_tool split_dots demo_rules
toy_commanded = rw toy_apply refl

abbrev toy_session :
    Session toy_library toy_service toy_create
      (toy_answer skipped_state 2 (skip_events (apply created_state skip demo_rules)))
      (skip ∷ [])
toy_session =
    next (toy_answer created_state 0 []) _ [] "0123456789abcdef0123456789abcdef" toy_command
      (opening _ toy_created) refl toy_commanded

pub toy_IsReady : IsReady toy_library toy_signer
unfolding has_dot find_key
toy_IsReady = (refl, (40, refl))

replay-Session_example :
    (r : ReplayResponse) × ((replay toy_library toy_service (
          request_of toy_library toy_service toy-IsDocumented toy_IsReady toy_create
            (toy_answer skipped_state 2 (skip_events (apply created_state skip demo_rules)))
            (skip ∷ []))
        ≡ ok r)
      × ((r.verified ≡ true) × (r.gameplay_hash ≡ toy_hex 0)))
replay-Session_example =
    replay-Session toy_library toy_service toy-IsDocumented toy_IsReady toy_create _ _ toy_session
      (omega arith)

command-IsApplied_example :
    Yields
      (IsApplied toy_library toy_service "0123456789abcdef0123456789abcdef" toy_command)
      (command toy_library toy_service "0123456789abcdef0123456789abcdef" toy_command)
command-IsApplied_example =
    command-IsApplied toy_library toy_service "0123456789abcdef0123456789abcdef" toy_command

open_token-IsSigned_example :
    Returns
      (λ _. IsSigned toy_library toy_signer (toy_token 0))
      (open_token toy_library toy_signer (toy_token 0))
open_token-IsSigned_example = open_token-IsSigned toy_library toy_signer (toy_token 0)

apply-named_example :
    apply (named "replay" "replay" created_state) skip demo_rules
    ≡ map_outcome (with_names "replay" "replay") (apply created_state skip demo_rules)
apply-named_example = apply-named "replay" "replay" created_state skip demo_rules
