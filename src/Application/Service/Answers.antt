-- ===== src/Application/Service/Answers.antt =====
-- What `Create` and `Command` of internal/application/service.go answer with.
use vorax_simulator.Base.{
  ◌≡◌, refl, String, true, not, ◌==◌, List, [], Option, none, some, arith, str_eq, str_eq_iff,
}
use vorax_simulator.Outcome.{
  ok, or_panic, Yields, Yields-bind, Yields-guard, Yields-of, invalid_token, invalid_input,
  stale_state, internal_error,
}
use vorax_simulator.Protocol.{GameState, GameEvent, Command}
use vorax_simulator.Validation.{validate_state}
use vorax_simulator.Engine.{new, apply}
use vorax_simulator.Engine.View.{view}
use vorax_simulator.Application.Library.{Library}
use vorax_simulator.Application.Signer.{seal, open_token}
use vorax_simulator.Application.Service.{
  Recorder, Service, CreateRunRequest, CommandRequest, RunResponse, versions, gameplay_hash,
  response, created, seed_of, derive, first_chars, create, open_game, restore_game, decided,
  command,
}

module _ (l : Library) where
  -- A response that holds a state: signed, shown and hashed.
  pub record IsAnswer (svc : Service l) (s : GameState) (resp : RunResponse) : Type 0 where
    pub sealed : seal l svc.signer s ≡ ok resp.state_token
    pub shown : resp.view ≡ view s svc.rules
    pub hashed : gameplay_hash l s ≡ ok resp.gameplay_hash

  response-IsAnswer :
      (svc : Service l) (s : GameState) (events : List GameEvent) (id : String)
      → Yields (IsAnswer svc s) (response l svc s events id)
  unfolding response
  response-IsAnswer svc s events id =
      Yields-bind (IsAnswer svc s) (seal l svc.signer s) _ λ token sealed.
        Yields-bind (IsAnswer svc s) (gameplay_hash l s) _
          λ hash hashed. record { sealed = sealed; shown = refl; hashed = hashed }

  module _ (svc : Service l) where
    created_lem :
        (Q : RunResponse → Type 0) (o : Option (Recorder l)) (s : GameState) (resp : RunResponse)
        → Q resp
        → Yields Q (created l o s resp)
    unfolding created
    created_lem Q none s resp h = h
    created_lem Q (some r) s resp h =
        Yields-guard Q (not (r.record_created s resp.gameplay_hash)) internal_error (ok resp)
          (λ _. h)

    decided_lem :
        (Q : RunResponse → Type 0) (o : Option (Recorder l)) (s next : GameState) (cmd : Command)
        (events : List GameEvent) (resp : RunResponse)
        → Q resp
        → Yields Q (decided l o s next cmd events resp)
    unfolding decided
    decided_lem Q none s next cmd events resp h = h
    decided_lem Q (some r) s next cmd events resp h =
        Yields-bind Q (gameplay_hash l s) _ λ before _.
          Yields-guard Q (not (r.record_decision s next cmd events before resp.gameplay_hash))
            internal_error (ok resp) (λ _. h)

    -- What `Create` answers with: a new game.
    pub record IsCreated (req : CreateRunRequest) (resp : RunResponse) : Type 0 where
      pub run_id : String
      pub state : GameState
      pub made :
          new l.sha256_word run_id req.user_id (seed_of l svc req) req.pet_refreshes svc.rules
          ≡ ok state
      pub answered : IsAnswer svc state resp

    pub create-IsCreated : (req : CreateRunRequest) → Yields (IsCreated req) (create l svc req)
    unfolding create
    create-IsCreated req =
        let Q : RunResponse → Type 0 = IsCreated req in
        Yields-guard Q _ invalid_input _ λ _.
          Yields-bind Q (versions l svc req.rules_version req.content_version req.rng_version true)
            _
            λ _ _. Yields-bind Q (or_panic (first_chars 32 (derive l svc req "run"))) _ λ run_id _.
              Yields-bind Q
                (new l.sha256_word run_id req.user_id (seed_of l svc req) req.pet_refreshes
                  svc.rules)
                _
                λ s made. Yields-bind Q (response l svc s [] req.request_id) _ λ resp answered.
                  created_lem Q svc.recorder s resp (record {
                    run_id = run_id;
                    state = s;
                    made = made;
                    answered =
                        Yields-of (IsAnswer svc s) _ resp
                          (response-IsAnswer svc s [] req.request_id) answered;
                  })

    -- A save that is opened for a run.
    abbrev Opened : String → String → GameState → Type 0
    Opened run_id token s = (open_token l svc.signer token ≡ ok s) × (s.run_id ≡ run_id)

    open_game-Opened :
        (token : String)
        → Yields (λ s. open_token l svc.signer token ≡ ok s) (open_game l svc token)
    unfolding open_game
    open_game-Opened token =
        Yields-bind _ (open_token l svc.signer token) _
          λ s signed. Yields-bind _ (validate_state s svc.rules) _ (λ _ _. signed)

    restore_game-Opened :
        (run_id token : String) → Yields (Opened run_id token) (restore_game l svc token run_id)
    unfolding restore_game
    restore_game-Opened run_id token =
        let Q = Opened run_id token in
        Yields-bind Q (open_game l svc token) _ λ s opened.
          Yields-guard Q (not (str_eq s.run_id run_id)) invalid_token (ok s) λ own. (
            Yields-of (λ t. open_token l svc.signer token ≡ ok t) (open_game l svc token) s
                (open_game-Opened token) opened,
            ground (arith, str_eq_iff s.run_id run_id),
          )

    -- An accepted command: it is signed for a state of that run and that revision, and answered with
    -- the state that `Apply` gives.
    pub record IsApplied (run_id : String) (req : CommandRequest) (resp : RunResponse)
        : Type 0 where
      pub before : GameState
      pub after : GameState
      pub events : List GameEvent
      pub opened : open_token l svc.signer req.state_token ≡ ok before
      pub owned : before.run_id ≡ run_id
      pub current : before.revision ≡ req.expected_revision
      pub applied : apply before req.command svc.rules ≡ ok (after, events)
      pub answered : IsAnswer svc after resp

    -- Where `Command` answers, the save opens to a state of the run that is named, at the revision
    -- that is expected; `Apply` accepts the command on that state; and the answer holds the signed
    -- next state, its view and its hash.
    pub command-IsApplied :
        (run_id : String) (req : CommandRequest)
        → Yields (IsApplied run_id req) (command l svc run_id req)
    unfolding command
    command-IsApplied run_id req =
        let Q = IsApplied run_id req in
        Yields-guard Q _ invalid_input _ λ _.
          Yields-bind Q (restore_game l svc req.state_token run_id) _ λ s restored.
            Yields-guard Q (not (s.revision == req.expected_revision)) stale_state _ λ same.
              Yields-bind Q (apply s req.command svc.rules) _ λ (next, events) applied.
                Yields-bind Q (response l svc next events req.request_id) _ λ resp answered.
                  let opened : Opened run_id req.state_token s =
                    Yields-of (Opened run_id req.state_token) _ s
                      (restore_game-Opened run_id req.state_token) restored in
                  decided_lem Q svc.recorder s next req.command events resp (record {
                    before = s;
                    after = next;
                    events = events;
                    opened = opened.0;
                    owned = opened.1;
                    current = ground arith;
                    applied = applied;
                    answered =
                        Yields-of (IsAnswer svc next) _ resp
                          (response-IsAnswer svc next events req.request_id) answered;
                  })
