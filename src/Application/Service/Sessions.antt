-- ===== src/Application/Service/Sessions.antt =====
-- A game that a client plays through `Create` and `Command` of internal/application/service.go, and its
-- `Replay`.
use Prim.Native.String.{len}
use mathlib.Core.Path.{fun_ext}
use vorax_simulator.Base.{
  ◌≤◌, ◌≡◌, refl, sym, ap, ◌∙◌, String, Bool, true, false, not, ◌&&◌, ltb, List, [], ◌∷◌, ◌++◌,
  arith, length, str_eq, str_eq_iff,
}
use vorax_simulator.Outcome.{
  Outcome, ok, ◌>>=◌, ◌>>◌, error_if, or_error, ok-injective, Yields, Yields-bind, Yields-guard,
  Yields-of, Yields-of_Returns, Yields-any, bind_assoc, invalid_token, invalid_input, uncoded_error,
  replay_mismatch,
}
use vorax_simulator.Protocol.{GameState, GameEvent, Command}
use vorax_simulator.Rules.{rng_version}
use vorax_simulator.Streams.Named.{named}
use vorax_simulator.Engine.{new, apply}
use vorax_simulator.Engine.Named.{apply-named, new-named}
use vorax_simulator.Engine.View.{view, gameplay_copy}
use vorax_simulator.Application.Library.{Library, IsDocumented}
use vorax_simulator.Application.Signer.{seal, open_token}
use vorax_simulator.Application.Signer.Trip.{IsReady, seal-Opens}
use vorax_simulator.Application.Service.{
  Service, CreateRunRequest, CommandRequest, ReplayRequest, ReplayResponse, RunResponse, versions,
  gameplay_hash, seed_of, create, command, wrapped, replay_commands, replay,
}
use vorax_simulator.Application.Service.Answers.{
  IsAnswer, IsCreated, create-IsCreated, IsApplied, command-IsApplied,
}

module _ (l : Library) (svc : Service l) where
  -- The answers of a session: `Create`, and then commands, each with the save of the answer before.
  pub data Session (req : CreateRunRequest) : RunResponse → List Command → Type 0 where
    opening : (resp : RunResponse) → create l svc req ≡ ok resp → Session req resp []
    next :
        (resp resp' : RunResponse) (cmds : List Command) (run_id : String) (sent : CommandRequest)
        → Session req resp cmds
        → sent.state_token ≡ resp.state_token
        → command l svc run_id sent ≡ ok resp'
        → Session req resp' (cmds ++ sent.command ∷ [])

  -- The start of a replay, and its loop.
  abbrev replayed : CreateRunRequest → List Command → Outcome GameState
  replayed req cmds = do
    start ← new l.sha256_word "replay" "replay" (seed_of l svc req) req.pet_refreshes svc.rules
    replay_commands l svc start cmds

  replay_commands-append :
      (s : GameState) (cmds more : List Command)
      → replay_commands l svc s (cmds ++ more)
        ≡ (do t ← replay_commands l svc s cmds; replay_commands l svc t more)
  unfolding replay_commands
  replay_commands-append s [] more = refl
  replay_commands-append s (cmd ∷ cmds) more =
      ap (λ f. wrapped l (apply s cmd svc.rules) >>= f)
        (fun_ext λ t. replay_commands-append t cmds more)
      ∙ sym (bind_assoc (wrapped l (apply s cmd svc.rules)) _ _)

  -- The state of a session, and that of the replay of its commands.
  record IsFollowed (req : CreateRunRequest) (resp : RunResponse) (cmds : List Command)
      : Type 0 where
    pub state : GameState
    pub answer : IsAnswer l svc state resp
    pub follows : replayed req cmds ≡ ok (named "replay" "replay" state)

  replayed-append :
      (req : CreateRunRequest) (cmds more : List Command)
      → replayed req (cmds ++ more) ≡ (do t ← replayed req cmds; replay_commands l svc t more)
  replayed-append req cmds more =
      ap
        (λ f.
          new l.sha256_word "replay" "replay" (seed_of l svc req) req.pet_refreshes svc.rules >>= f)
        (fun_ext λ s. replay_commands-append s cmds more)
      ∙ sym (
          bind_assoc
            (new l.sha256_word "replay" "replay" (seed_of l svc req) req.pet_refreshes svc.rules) _
            _)

  short_lem :
      (token : String) → Yields (λ _. ltb 65536 (len token) ≡ false) (open_token l svc.signer token)
  unfolding open_token
  short_lem token =
      Yields-guard (λ _. ltb 65536 (len token) ≡ false) (ltb 65536 (len token)) invalid_token _
        (λ short. Yields-any _ _ short)

  step-Followed :
      (s after : GameState) (events : List GameEvent) (cmd : Command)
      → apply s cmd svc.rules ≡ ok (after, events)
      → replay_commands l svc (named "replay" "replay" s) (cmd ∷ [])
        ≡ ok (named "replay" "replay" after)
  unfolding replay_commands wrapped
  step-Followed s after events cmd h = rw (apply-named "replay" "replay" s cmd svc.rules, h) refl

  start-IsFollowed :
      (req : CreateRunRequest) (resp : RunResponse)
      → create l svc req ≡ ok resp
      → IsFollowed req resp []
  unfolding replay_commands
  start-IsFollowed req resp e =
      let begun : IsCreated l svc req resp =
        Yields-of (IsCreated l svc req) (create l svc req) resp (create-IsCreated l svc req) e in
      record {
        state = begun.state;
        answer = begun.answered;
        follows =
            rw
              (
                new-named "replay" "replay" l.sha256_word begun.run_id req.user_id
                    (seed_of l svc req) req.pet_refreshes svc.rules,
                begun.made,
              )
              refl;
      }

  module _ (documented : IsDocumented l) (ready : IsReady l svc.signer) where
    -- A save that a response holds opens to its state, wherever it opens at all.
    reopened :
        (s t : GameState) (token : String)
        → seal l svc.signer s ≡ ok token
        → open_token l svc.signer token ≡ ok t
        → s ≡ t
    reopened s t token sealed opened =
        let Back : String → Type 0 =
          λ x. ltb 65536 (len x) ≡ false → open_token l svc.signer x ≡ ok s in
        let back : Back token =
          Yields-of Back (seal l svc.signer s) token
            (Yields-of_Returns Back (seal l svc.signer s)
              (seal-Opens l documented svc.signer ready s))
            sealed in
        ok-injective s t (sym (back (Yields-of _ _ t (short_lem token) opened)) ∙ opened)

    step-IsFollowed :
        (req : CreateRunRequest) (resp resp' : RunResponse) (cmds : List Command) (run_id : String)
        (sent : CommandRequest)
        → IsFollowed req resp cmds
        → sent.state_token ≡ resp.state_token
        → command l svc run_id sent ≡ ok resp'
        → IsFollowed req resp' (cmds ++ sent.command ∷ [])
    step-IsFollowed req resp resp' cmds run_id sent before token e =
        let done : IsApplied l svc run_id sent resp' =
          Yields-of (IsApplied l svc run_id sent) _ resp' (command-IsApplied l svc run_id sent) e in
        let same =
          reopened before.state done.before sent.state_token
            (before.answer.sealed ∙ ap ok (sym token)) done.opened in
        record {
          state = done.after;
          answer = done.answered;
          follows =
              replayed-append req cmds (sent.command ∷ [])
              ∙ rw (before.follows, same)
                  (step-Followed done.before done.after done.events sent.command done.applied);
        }

    session-IsFollowed :
        (req : CreateRunRequest) (resp : RunResponse) (cmds : List Command)
        → Session req resp cmds
        → IsFollowed req resp cmds
    session-IsFollowed req _ _ (opening resp e) = start-IsFollowed req resp e
    session-IsFollowed req _ _ (next resp resp' cmds run_id sent before token e) =
        step-IsFollowed req resp resp' cmds run_id sent (session-IsFollowed req resp cmds before)
          token e

    -- A replay that asks for the seed, the versions and the commands of a session, and for the hash
    -- of its last answer.
    abbrev pub request_of : CreateRunRequest → RunResponse → List Command → ReplayRequest
    request_of req resp cmds = record {
      seed = seed_of l svc req;
      rules_version = svc.rules.version;
      content_version = svc.rules.content_version;
      rng_version = rng_version;
      pet_refreshes = req.pet_refreshes;
      commands = cmds;
      expected_gameplay_hash = resp.gameplay_hash;
    }

    versions_lem :
        versions l svc svc.rules.version svc.rules.content_version rng_version false ≡ ok tt
    unfolding versions
    versions_lem =
        rw
          (
            (str_eq_iff svc.rules.version svc.rules.version).1 refl,
            (str_eq_iff svc.rules.content_version svc.rules.content_version).1 refl,
          )
          refl

    hash_lem : (s : GameState) (h : String) → gameplay_hash l s ≡ ok h → str_eq h "" ≡ false
    unfolding gameplay_hash
    hash_lem s h e =
        Yields-of (λ x. str_eq x "" ≡ false) _ h
          (Yields-bind (λ x. str_eq x "" ≡ false)
            (or_error (l.marshal (gameplay_copy s)) uncoded_error) _
            (λ b _. documented.hex-sha256 b))
          e

    same_hash : (s : GameState) → gameplay_hash l (named "replay" "replay" s) ≡ gameplay_hash l s
    unfolding gameplay_hash gameplay_copy
    same_hash s = refl

    abbrev answer_of : Bool → String → GameState → ReplayResponse
    answer_of verified hash s = record {
      verified = verified;
      gameplay_hash = hash;
      view = view s svc.rules;
    }

    -- What follows the loop of a replay.
    abbrev verdict : String → GameState → Outcome ReplayResponse
    verdict h t = do
      hash ← gameplay_hash l t
      error_if (not (str_eq h "") && not (str_eq h hash)) replay_mismatch
      ok (answer_of (not (str_eq h "")) hash t)

    answer_lem :
        (s : GameState) (h : String) (req : CreateRunRequest) (cmds : List Command)
        → length cmds ≤ 128
        → replayed req cmds ≡ ok (named "replay" "replay" s)
        → gameplay_hash l s ≡ ok h
        → (do
          versions l svc svc.rules.version svc.rules.content_version rng_version false
          error_if (ltb 128 (length cmds)) invalid_input
          start ←
              new l.sha256_word "replay" "replay" (seed_of l svc req) req.pet_refreshes svc.rules
          t ← replay_commands l svc start cmds
          verdict h t)
          ≡ ok (answer_of true h (named "replay" "replay" s))
    answer_lem s h req cmds short follows hashed =
        let within : ltb 128 (length cmds) ≡ false = ground arith in
        rw (versions_lem, within)
          (sym (
              bind_assoc
                (new l.sha256_word "replay" "replay" (seed_of l svc req) req.pet_refreshes
                  svc.rules)
                (λ start. replay_commands l svc start cmds) (verdict h))
            ∙ ap (λ o. o >>= verdict h) follows
            ∙ rw (same_hash s, hashed, hash_lem s h hashed, (str_eq_iff h h).1 refl) refl)

    -- With libraries that do what they document, and a signer with a good active key: a session of
    -- `Create` and up to 128 commands, each with the save of the answer before, is verified by a
    -- `Replay` of its seed and commands that expects the hash of the last answer.
    pub replay-Session :
        (req : CreateRunRequest) (resp : RunResponse) (cmds : List Command)
        → Session req resp cmds
        → length cmds ≤ 128
        → (r : ReplayResponse) × ((replay l svc (request_of req resp cmds) ≡ ok r)
            × ((r.verified ≡ true) × (r.gameplay_hash ≡ resp.gameplay_hash)))
    unfolding replay
    replay-Session req resp cmds session short =
        let done : IsFollowed req resp cmds = session-IsFollowed req resp cmds session in
        let last = named "replay" "replay" done.state in
        (
          answer_of true resp.gameplay_hash last,
          (
            answer_lem done.state resp.gameplay_hash req cmds short done.follows done.answer.hashed,
            (refl, refl),
          ),
        )
