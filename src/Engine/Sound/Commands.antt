-- ===== src/Engine/Sound/Commands.antt =====
-- `Apply` of internal/engine/engine.go, command by command.
use vorax_simulator.Base.{
  ℕ, ◌+◌, ◌≤◌, ◌<◌, ◌≡◌, refl, Bool, true, false, not, ◌&&◌, ◌||◌, String, List, none, arith,
  if◌then◌else◌, str_eq, ltb, Bool-cases, Option-cases, inl, inr,
}
use vorax_simulator.Base.Int.{ℤ, pos}
use vorax_simulator.Outcome.{
  Returns-or_error, Returns-guard, Outcome, ok, err, ◌>>=◌, Returns, Returns-bind, invalid_card,
  invalid_command,
}
use vorax_simulator.Protocol.{
  GameState, CardKind, card_kind_unspecified, unknown, potion, tool, scheme, CardDefinition, Offer,
  Command, GameEvent, finished, unspecified, bone, insect, preparing, phase_eq, kind_eq, choosing,
}
use vorax_simulator.Rules.{Rules}
use vorax_simulator.Random.{word}
use vorax_simulator.Rewards.{update_rewards}
use vorax_simulator.Offers.{make_offer, advance, advance_base, first_pending, set_offer}
use vorax_simulator.Offers.Boxes.{potion_box, draw_potion_cards, usual_weights, rare_weights}
use vorax_simulator.Offers.Opening.{is_opening_tool_offer}
use vorax_simulator.Offers.Frame.{OfferOnly, draw_potion_cards-OfferOnly}
use vorax_simulator.Effects.Context.{Context}
use vorax_simulator.Effects.Play.{emit, play, initialize, initialize_rares}
use vorax_simulator.Effects.Sound.Play.{
  emit-Keeps, play-Keeps, initialize-Keeps, initialize_rares-Keeps,
}
use vorax_simulator.Engine.{
  run, on_state, spend_refresh, start_context, refresh, skip_unknown, chosen_card, prepare,
  open_potion_box, acquire_tool, complete_turn, move_cursor, take_turn, finish_choice, choose,
  dispatch, apply,
}
use vorax_simulator.Validation.{validate_state}
use vorax_simulator.Validation.Ends.{after_unit, validate_state-Ends}
use vorax_simulator.Engine.Sound.Choice.{IsChosen, chosen_card-IsChosen}
use vorax_simulator.Engine.Sound.Boards.{
  StateSound, EngineOk, run-EngineOk, emit_plain-EngineOk, on_state-EngineOk, make_offer-StateSound,
  update_rewards-StateSound, Returns-le, offered,
}

Returns-if :
    {A : Type 0} (Q : A → Type 0) (b : Bool) (m n : Outcome A)
    → Returns Q m
    → Returns Q n
    → Returns Q (if b then m else n)
Returns-if Q true m n hm hn = hm
Returns-if Q false m n hm hn = hn

abbrev Kept : GameState → GameState → GameState → Type 0
Kept s0 s s' = StateSound s0 s' × (s'.next_monster_id ≡ s.next_monster_id)

module _ (s0 : GameState) where
  spend_refresh-Kept :
      (kind : CardKind) (s : GameState)
      → StateSound s0 s
      → Returns (Kept s0 s) (spend_refresh kind s)
  unfolding spend_refresh
  spend_refresh-Kept card_kind_unspecified s h = tt
  spend_refresh-Kept unknown s h = tt
  spend_refresh-Kept potion s h = search Returns-guard
  spend_refresh-Kept tool s h = search Returns-guard
  spend_refresh-Kept scheme s h = tt

  ended :
      (s : GameState)
      → StateSound s0 s
      → Returns (Kept s0 s) (ok (record s { phase = finished; offer = none }))
  ended s h = (h, refl)

  advance_base-Kept :
      (s : GameState) (r : Rules) → StateSound s0 s → Returns (Kept s0 s) (advance_base s r)
  unfolding advance_base
  advance_base-Kept s r h = search (Returns-if, ended, make_offer-StateSound)

  advance-Kept : (s : GameState) (r : Rules) → StateSound s0 s → Returns (Kept s0 s) (advance s r)
  unfolding advance
  advance-Kept s r h = elim (Option-cases (first_pending s.rewards.tool_claims)) [
    | inl settled ↦ rw (Returns, settled) (advance_base-Kept s r h)
    | inr (t, due) ↦ rw (Returns, due) (make_offer-StateSound s0 s r tool "threshold" t h)
  ]

  on_state_keeps :
      (f : GameState → Outcome GameState) (c : Context)
      → ((s : GameState) → StateSound s0 s → Returns (Kept s0 s) (f s))
      → EngineOk s0 c
      → Returns (EngineOk s0) (on_state f c)
  on_state_keeps f c keep h = on_state-EngineOk s0 f c (keep c.state h.0) h

  -- A step after a step.
  then_ok :
      (m : Outcome Context) (f : Context → Outcome Context)
      → Returns (EngineOk s0) m
      → ((c : Context) → EngineOk s0 c → Returns (EngineOk s0) (f c))
      → Returns (EngineOk s0) (m >>= f)
  then_ok m f = Returns-bind (EngineOk s0) (EngineOk s0) m f

  finish_choice-EngineOk : (c : Context) → EngineOk s0 c → Returns (EngineOk s0) (finish_choice c)
  unfolding finish_choice
  finish_choice-EngineOk c h =
      then_ok _ _ prepared (λ c1 h1. on_state_keeps _ c1 (λ s. advance-Kept s c1.rules) h1)
    where
      prepared : Returns (EngineOk s0) (
          if phase_eq c.state.phase preparing
          then on_state (λ s. update_rewards (record s { phase = choosing }) false) c
          else ok c)
      prepared =
          Returns-if (EngineOk s0) (phase_eq c.state.phase preparing) _ _
            (on_state_keeps _ c
              (λ s k. update_rewards-StateSound s0 (record s { phase = choosing }) false k) h)
            h

  module _ (room : s0.next_monster_id + 513 < word) where
    refresh-EngineOk :
        (o : Offer) (cmd : Command) (c : Context)
        → EngineOk s0 c
        → Returns (EngineOk s0) (refresh o cmd c)
    unfolding refresh
    refresh-EngineOk o cmd c h = Returns-guard (EngineOk s0) _ _ _ (
        then_ok _ _ (on_state_keeps (spend_refresh o.kind) c (spend_refresh-Kept o.kind) h) λ c1 h1.
          then_ok _ _
            (on_state_keeps (λ s. make_offer s c1.rules o.kind "refresh" o.reward_threshold) c1
              (λ s. make_offer-StateSound s0 s c1.rules o.kind "refresh" o.reward_threshold) h1)
            (λ c2 h2. emit_plain-EngineOk s0 room "refreshed" c2 h2))

    initialize_ok :
        (count : ℕ) (family : ℤ) (bones : Bool) (c : Context)
        → EngineOk s0 c
        → Returns (EngineOk s0) (run (initialize emit count family bones) c)
    initialize_ok count family bones c h =
        run-EngineOk s0 room _ c
          (λ s inside. initialize-Keeps emit (emit-Keeps inside) inside count family bones) h

    initialize_rares_ok :
        (c : Context) → EngineOk s0 c → Returns (EngineOk s0) (run (initialize_rares emit) c)
    initialize_rares_ok c h =
        run-EngineOk s0 room _ c
          (λ s inside. initialize_rares-Keeps emit (emit-Keeps inside) inside) h

    skip_unknown-EngineOk :
        (cmd : Command) (c : Context) → EngineOk s0 c → Returns (EngineOk s0) (skip_unknown cmd c)
    unfolding skip_unknown
    skip_unknown-EngineOk cmd c h =
        Returns-guard (EngineOk s0) _ _ _ (initialize_ok 3 unspecified false c h)

    prepare-EngineOk :
        (d : CardDefinition) (c : Context) → EngineOk s0 c → Returns (EngineOk s0) (prepare d c)
    unfolding prepare
    prepare-EngineOk d c h =
        Returns-if (EngineOk s0) (str_eq d.handler "initial_six") _ _
          (initialize_ok 6 unspecified false c h)
          (Returns-if (EngineOk s0) (str_eq d.handler "initial_insects") _ _
            (initialize_ok 4 insect false c h)
            (Returns-if (EngineOk s0) (str_eq d.handler "initial_bones") _ _
              (initialize_ok 4 bone true c h)
              (Returns-if (EngineOk s0) (str_eq d.handler "initial_rares") _ (err invalid_card)
                (initialize_rares_ok c h) tt)))

    -- The cards of a box, as an offer.
    boxed :
        (c : Context) (ids : List String) (source : String) (s : GameState)
        → EngineOk s0 c
        → OfferOnly c.state s
        → EngineOk s0 (record c { state = set_offer potion ids source (pos 0) s })
    unfolding set_offer
    boxed c ids source s (h, limited, clean, counted, given) only =
        let (sound, same) = offered s0 c.state s h only in
        (sound, limited, clean, counted, rw same given)

    open_potion_box-EngineOk :
        (d : CardDefinition) (c : Context)
        → EngineOk s0 c
        → Returns (EngineOk s0) (open_potion_box d c)
    unfolding open_potion_box
    open_potion_box-EngineOk d c h =
        let (size, is_rare) = potion_box d in
        Returns-guard (EngineOk s0) _ _ _ (
          Returns-bind (λ (x : List String × GameState). OfferOnly c.state x.1) (EngineOk s0)
            (draw_potion_cards c.state c.rules size
              (if is_rare then rare_weights else usual_weights) false)
            _ (draw_potion_cards-OfferOnly c.state c.state c.rules size _ false (refl, h.0.6))
            λ (ids, s) only. emit_plain-EngineOk s0 room "box_opened" _ (boxed c ids _ s h only))

    acquire_tool-EngineOk :
        (o : Offer) (d : CardDefinition) (c : Context)
        → EngineOk s0 c
        → Returns (EngineOk s0) (acquire_tool o d c)
    unfolding acquire_tool
    acquire_tool-EngineOk o d c h = emit_plain-EngineOk s0 room "tool_acquired" _ h

    complete_turn-EngineOk :
        (opening : Bool) (c : Context)
        → EngineOk s0 c
        → Returns (EngineOk s0) (complete_turn opening c)
    unfolding complete_turn
    complete_turn-EngineOk true c h = h
    complete_turn-EngineOk false c h = emit_plain-EngineOk s0 room "turn_end" _ h

    play_ok :
        (d : CardDefinition) (ids : List String) (c : Context)
        → EngineOk s0 c
        → Returns (EngineOk s0) (run (play emit d ids) c)
    play_ok d ids c h =
        run-EngineOk s0 room _ c (λ s inside. play-Keeps emit (emit-Keeps inside) inside d ids) h

    move_cursor-StateSound :
        (kind : CardKind) (opening : Bool) (s : GameState)
        → StateSound s0 s
        → Kept s0 s (move_cursor kind opening s)
    unfolding move_cursor
    move_cursor-StateSound kind opening s h =
        elim (Bool-cases (kind_eq kind potion || (kind_eq kind scheme || opening))) [
          | inl moves ↦ rw moves (h, refl)
          | inr stays ↦ rw stays (h, refl)
        ]

    score_turn :
        (kind : CardKind) (opening : Bool) (s : GameState)
        → StateSound s0 s
        → Returns (Kept s0 s) (update_rewards (move_cursor kind opening s) (not opening))
    score_turn kind opening s h =
        let (moved, same) = move_cursor-StateSound kind opening s h in
        Returns-le (Kept s0 (move_cursor kind opening s)) (Kept s0 s)
          (update_rewards _ (not opening)) (λ s2 (h2, same2). (h2, rw same at same2))
          (update_rewards-StateSound s0 (move_cursor kind opening s) (not opening) moved)

    take_turn-EngineOk :
        (o : Offer) (d : CardDefinition) (targets : List String) (c : Context)
        → EngineOk s0 c
        → Returns (EngineOk s0) (take_turn o d targets c)
    unfolding take_turn
    take_turn-EngineOk o d targets c h =
        let opening = kind_eq o.kind tool && is_opening_tool_offer c.state o.reward_threshold in
        then_ok _ _
          (Returns-if (EngineOk s0) (kind_eq o.kind tool) _ _ (acquire_tool-EngineOk o d c h)
            (play_ok d targets c h))
          λ c1 h1. then_ok _ _ (complete_turn-EngineOk opening c1 h1) λ c2 h2.
            then_ok _ _
              (on_state_keeps (λ s. update_rewards (move_cursor o.kind opening s) (not opening)) c2
                (score_turn o.kind opening) h2)
              (λ c3 h3. emit_plain-EngineOk s0 room "scored" c3 h3)

    choose-EngineOk :
        (o : Offer) (cmd : Command) (c : Context)
        → EngineOk s0 c
        → Returns (EngineOk s0) (choose o cmd c)
    unfolding choose
    choose-EngineOk o cmd c h =
        Returns-bind (IsChosen o cmd c) (EngineOk s0) (chosen_card o cmd c) _
          (chosen_card-IsChosen o cmd c)
          λ d _.
            Returns-if (EngineOk s0) (phase_eq c.state.phase preparing) _ _
              (then_ok _ _ (prepare-EngineOk d (record c { source = d.id }) h)
                finish_choice-EngineOk)
              (Returns-if (EngineOk s0) (ltb 0 (potion_box d).0) _ _
                (open_potion_box-EngineOk d (record c { source = d.id }) h)
                (then_ok _ _ (take_turn-EngineOk o d cmd.target_ids (record c { source = d.id }) h)
                  finish_choice-EngineOk))

    dispatch-EngineOk :
        (o : Offer) (cmd : Command) (c : Context)
        → EngineOk s0 c
        → Returns (EngineOk s0) (dispatch o cmd c)
    unfolding dispatch
    dispatch-EngineOk o cmd c h =
        Returns-if (EngineOk s0) (str_eq cmd.verb "refresh") _ _ (refresh-EngineOk o cmd c h) (
          Returns-if (EngineOk s0) (str_eq cmd.verb "skip_unknown") _ _
            (then_ok _ _ (skip_unknown-EngineOk cmd c h) finish_choice-EngineOk)
            (Returns-if (EngineOk s0) (str_eq cmd.verb "choose") _ (err invalid_command)
              (choose-EngineOk o cmd c h) tt))

-- What a command that succeeds gives: a sound state, whose counter moved by no more than the steps.
abbrev pub ApplyOk : GameState → GameState × List GameEvent → Type 0
ApplyOk s0 (s, events) = StateSound s0 s × (s.next_monster_id ≤ s0.next_monster_id + 512)

pub start-EngineOk : (s : GameState) (r : Rules) → StateSound s s → EngineOk s (start_context s r)
unfolding start_context
start-EngineOk s r h = (h, refl, refl, omega arith, omega arith)

-- On a sound state whose counter of monsters has room for 513 ids, every command ends, under any
-- rules: it gives a sound state of the same game, whose counter moved by 512 at most, or an error, or
-- a panic; no loop and no nesting of events outruns the limits of the model.
pub apply-ApplyOk :
    (s : GameState) (cmd : Command) (r : Rules)
    → StateSound s s
    → s.next_monster_id + 513 < word
    → Returns (ApplyOk s) (apply s cmd r)
unfolding apply
apply-ApplyOk s cmd r h room =
    after_unit (ApplyOk s) (validate_state s r) _ (validate_state-Ends s r) (
      Returns-guard (ApplyOk s) _ _ _ (
        Returns-or_error (ApplyOk s) s.offer _ _ λ o found. Returns-guard (ApplyOk s) _ _ _ (
          Returns-bind (EngineOk s) (ApplyOk s) (dispatch o cmd (start_context s r)) _
            (dispatch-EngineOk s room o cmd (start_context s r) (start-EngineOk s r h))
            (λ c (sound, _, _, counted, given). (sound, omega (arith, counted, given))))))
