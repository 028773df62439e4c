-- ===== src/Engine/Named.antt =====
-- `Apply` of internal/engine/engine.go does not depend on the names of the run and the player.
use vorax_simulator.Base.{
  ℕ, ◌≡◌, refl, ◌∙◌, String, Bool, true, false, if◌then◌else◌, not, ◌&&◌, ◌||◌, List, Option, none,
  some, Bool-cases, inl, inr, str_eq, ltb,
}
use vorax_simulator.Base.Int.{ℤ, pos}
use vorax_simulator.Outcome.{
  Outcome, ok, err, Error, numeric_overflow, invalid_command, or_error, ◌>>=◌, map_outcome,
  map_outcome-bind, map_outcome-guard, map_outcome-same,
}
use vorax_simulator.Protocol.{
  GameState, GameEvent, Command, CardDefinition, CardKind, card_kind_unspecified, Offer, unknown,
  potion, tool, scheme, unspecified, kind_eq, bone, insect, preparing, choosing, phase_eq,
}
use vorax_simulator.Rules.{Rules, validate_rules}
use vorax_simulator.Rewards.{update_rewards, score_slots}
use vorax_simulator.Validation.{
  validate_state, versions_differ, structure_invalid, opening_family_invalid,
}
use vorax_simulator.Streams.Named.{named, with_named}
use vorax_simulator.Offers.{make_offer, set_offer}
use vorax_simulator.Offers.Opening.{is_opening_tool_offer}
use vorax_simulator.Offers.Boxes.{potion_box, draw_potion_cards}
use vorax_simulator.Offers.Named.{make_offer-named, advance-named, draw_potion_cards-named}
use vorax_simulator.Effects.Context.{Context, Prog}
use vorax_simulator.Effects.Anonymous.Rules.{Commutes, rename, with_renamed}
use vorax_simulator.Effects.Anonymous.Play.{
  emit-Commutes, play-Commutes, initialize-Commutes, initialize_rares-Commutes,
}
use vorax_simulator.Engine.{
  start_context, settle, run, on_state, emit_plain, spend_refresh, refresh, skip_unknown,
  chosen_card, prepare, open_potion_box, acquire_tool, complete_turn, move_cursor, take_turn,
  finish_choice, choose, dispatch, apply, new, new_state,
}

module _ (run_id user : String) where
  update_rewards-named :
      (s : GameState) (unlock : Bool)
      → update_rewards (named run_id user s) unlock
        ≡ map_outcome (named run_id user) (update_rewards s unlock)
  unfolding update_rewards
  update_rewards-named s unlock =
      map_outcome-bind (λ x. x) (named run_id user)
        (or_error (score_slots (pos 0) s.slots) numeric_overflow) _ _ _ (map_outcome-same _)
        (λ (slots, score). refl)

  -- A step of a command works alike on a context under the new names.
  abbrev Alike : (Context → Outcome Context) → Type 0
  Alike f = (c : Context) → f (rename run_id user c) ≡ map_outcome (rename run_id user) (f c)

  then_lem : (f g : Context → Outcome Context) → Alike f → Alike g → Alike (λ c. do c' ← f c; g c')
  then_lem f g hf hg c =
      map_outcome-bind (rename run_id user) (rename run_id user) (f c) _ g g (hf c) hg

  settle-Alike : Alike settle
  unfolding settle
  settle-Alike c = settled c.error c
    where
      settled :
          (o : Option Error) (x : Context)
          → (elim o [ none ↦ ok (rename run_id user x) | some e ↦ err e ])
            ≡ map_outcome (rename run_id user) (elim o [ none ↦ ok x | some e ↦ err e ])
      settled none x = refl
      settled (some e) x = refl

  run-Alike : (m : Prog (Unit {0})) → Commutes run_id user m → Alike (run m)
  unfolding run
  run-Alike m h c =
      map_outcome-bind (with_renamed run_id user) (rename run_id user) (m c) _ _ _ (h.at c)
        (λ (u, c'). settle-Alike c')

  emit_plain-Alike : (kind : String) → Alike (emit_plain kind)
  unfolding emit_plain
  emit_plain-Alike kind = run-Alike _ (emit-Commutes run_id user kind _ _ _)

  on_state-Alike :
      (f : GameState → Outcome GameState)
      → ((s : GameState) → f (named run_id user s) ≡ map_outcome (named run_id user) (f s))
      → Alike (on_state f)
  unfolding on_state
  on_state-Alike f h c =
      map_outcome-bind (named run_id user) (rename run_id user) (f c.state) _ _ _ (h c.state)
        (λ s. refl)

  branch_lem :
      (b : Bool) (x y x' y' : Outcome Context)
      → x' ≡ map_outcome (rename run_id user) x
      → y' ≡ map_outcome (rename run_id user) y
      → (if b then x' else y') ≡ map_outcome (rename run_id user) (if b then x else y)
  branch_lem true x y x' y' h k = h
  branch_lem false x y x' y' h k = k

  spend_refresh-named :
      (kind : CardKind) (s : GameState)
      → spend_refresh kind (named run_id user s)
        ≡ map_outcome (named run_id user) (spend_refresh kind s)
  unfolding spend_refresh
  spend_refresh-named potion s = map_outcome-guard (named run_id user) _ _ _ _ refl
  spend_refresh-named tool s = map_outcome-guard (named run_id user) _ _ _ _ refl
  spend_refresh-named card_kind_unspecified s = refl
  spend_refresh-named unknown s = refl
  spend_refresh-named scheme s = refl

  refresh-Alike : (o : Offer) (cmd : Command) → Alike (refresh o cmd)
  unfolding refresh
  refresh-Alike o cmd c = map_outcome-guard (rename run_id user) _ _ _ _ (
      map_outcome-bind (rename run_id user) (rename run_id user) (on_state (spend_refresh o.kind) c)
        _ _ _ (on_state-Alike _ (spend_refresh-named o.kind) c)
        (λ c1.
          then_lem _ _
            (on_state-Alike _
              (λ s. make_offer-named run_id user s c1.rules o.kind "refresh" o.reward_threshold))
            (emit_plain-Alike "refreshed") c1))

  skip_unknown-Alike : (cmd : Command) → Alike (skip_unknown cmd)
  unfolding skip_unknown
  skip_unknown-Alike cmd c =
      map_outcome-guard (rename run_id user) _ _ _ _
        (run-Alike _ (initialize-Commutes run_id user 3 unspecified false) c)

  prepare-Alike : (d : CardDefinition) → Alike (prepare d)
  unfolding prepare
  prepare-Alike d c =
      branch_lem (str_eq d.handler "initial_six") _ _ _ _
        (run-Alike _ (initialize-Commutes run_id user 6 unspecified false) c)
        (branch_lem (str_eq d.handler "initial_insects") _ _ _ _
          (run-Alike _ (initialize-Commutes run_id user 4 insect false) c)
          (branch_lem (str_eq d.handler "initial_bones") _ _ _ _
            (run-Alike _ (initialize-Commutes run_id user 4 bone true) c)
            (branch_lem (str_eq d.handler "initial_rares") _ _ _ _
              (run-Alike _ (initialize_rares-Commutes run_id user) c) refl)))

  open_potion_box-Alike : (d : CardDefinition) → Alike (open_potion_box d)
  unfolding open_potion_box set_offer
  open_potion_box-Alike d c = map_outcome-guard (rename run_id user) _ _ _ _ (
      map_outcome-bind (with_named run_id user) (rename run_id user)
        (draw_potion_cards c.state c.rules (potion_box d).0 _ false) _ _ _
        (draw_potion_cards-named run_id user c.state c.rules (potion_box d).0 _ false)
        (λ (ids, s). emit_plain-Alike "box_opened" _))

  acquire_tool-Alike : (o : Offer) (d : CardDefinition) → Alike (acquire_tool o d)
  unfolding acquire_tool
  acquire_tool-Alike o d c = emit_plain-Alike "tool_acquired" _

  complete_turn-Alike : (opening : Bool) → Alike (complete_turn opening)
  unfolding complete_turn
  complete_turn-Alike true c = refl
  complete_turn-Alike false c = emit_plain-Alike "turn_end" _

  move_cursor-named :
      (kind : CardKind) (opening : Bool) (s : GameState)
      → move_cursor kind opening (named run_id user s)
        ≡ named run_id user (move_cursor kind opening s)
  unfolding move_cursor
  move_cursor-named kind opening s =
      elim (Bool-cases (kind_eq kind potion || (kind_eq kind scheme || opening))) [
        | inl e ↦ rw e refl
        | inr e ↦ rw e refl
      ]

  scored-Alike :
      (kind : CardKind) (opening : Bool)
      → Alike (on_state (λ s. update_rewards (move_cursor kind opening s) (not opening)))
  scored-Alike kind opening = on_state-Alike _ λ s.
      rw (move_cursor-named kind opening s)
        (update_rewards-named (move_cursor kind opening s) (not opening))

  take_turn-Alike :
      (o : Offer) (d : CardDefinition) (targets : List String) → Alike (take_turn o d targets)
  unfolding take_turn is_opening_tool_offer
  take_turn-Alike o d targets c =
      let opening = kind_eq o.kind tool && is_opening_tool_offer c.state o.reward_threshold in
      map_outcome-bind (rename run_id user) (rename run_id user) _ _ _ _
        (branch_lem (kind_eq o.kind tool) _ _ _ _ (acquire_tool-Alike o d c)
          (run-Alike _ (play-Commutes run_id user d targets) c))
        (then_lem (complete_turn opening) _ (complete_turn-Alike opening)
          (then_lem _ _ (scored-Alike o.kind opening) (emit_plain-Alike "scored")))

  finish_choice-Alike : Alike finish_choice
  unfolding finish_choice
  finish_choice-Alike c =
      map_outcome-bind (rename run_id user) (rename run_id user) _ _ _ _
        (branch_lem (phase_eq c.state.phase preparing) _ _ _ _
          (on_state-Alike _ (λ s. update_rewards-named (record s { phase = choosing }) false) c)
          refl)
        (λ c1. on_state-Alike _ (λ s. advance-named run_id user s c1.rules) c1)

  chosen-named :
      (o : Offer) (cmd : Command) (c : Context)
      → chosen_card o cmd (rename run_id user c) ≡ map_outcome (λ d. d) (chosen_card o cmd c)
  unfolding chosen_card is_opening_tool_offer
  chosen-named o cmd c = map_outcome-same _

  choose-Alike : (o : Offer) (cmd : Command) → Alike (choose o cmd)
  unfolding choose
  choose-Alike o cmd c =
      map_outcome-bind (λ d. d) (rename run_id user) (chosen_card o cmd c) _ _ _
        (chosen-named o cmd c)
        λ d.
          let c1 = record c { source = d.id } in
          branch_lem (phase_eq c.state.phase preparing) _ _ _ _
            (then_lem _ _ (prepare-Alike d) finish_choice-Alike c1)
            (branch_lem (ltb 0 (potion_box d).0) _ _ _ _ (open_potion_box-Alike d c1)
              (then_lem _ _ (take_turn-Alike o d cmd.target_ids) finish_choice-Alike c1))

  dispatch-Alike : (o : Offer) (cmd : Command) → Alike (dispatch o cmd)
  unfolding dispatch
  dispatch-Alike o cmd c = branch_lem (str_eq cmd.verb "refresh") _ _ _ _ (refresh-Alike o cmd c) (
      branch_lem (str_eq cmd.verb "skip_unknown") _ _ _ _
        (then_lem _ _ (skip_unknown-Alike cmd) finish_choice-Alike c)
        (branch_lem (str_eq cmd.verb "choose") _ _ _ _ (choose-Alike o cmd c) refl))

  validate_state-named :
      (s : GameState) (r : Rules) → validate_state (named run_id user s) r ≡ validate_state s r
  unfolding validate_state versions_differ structure_invalid opening_family_invalid
  validate_state-named s r = refl

  abbrev pub with_names : GameState × List GameEvent → GameState × List GameEvent
  with_names (s, events) = (named run_id user s, events)

  -- `Apply` on a game under another name of the run and another player gives the same error, or the
  -- same events and the same next state under those names.
  pub apply-named :
      (s : GameState) (cmd : Command) (r : Rules)
      → apply (named run_id user s) cmd r ≡ map_outcome with_names (apply s cmd r)
  unfolding apply start_context
  apply-named s cmd r =
      map_outcome-bind (λ u. u) with_names (validate_state s r) _ _ _
        (validate_state-named s r ∙ map_outcome-same _)
        λ _. map_outcome-guard with_names _ _ _ _ (
          map_outcome-bind (λ o. o) with_names (or_error s.offer invalid_command) _ _ _
            (map_outcome-same _)
            λ o. map_outcome-guard with_names _ _ _ _ (
              map_outcome-bind (rename run_id user) with_names (dispatch o cmd (start_context s r))
                _ _ _ (dispatch-Alike o cmd (start_context s r)) (λ c. refl)))

  module _ (sha256_word : String → ℕ) where
    -- `New` under other names gives the same error, or the same game under those names.
    pub new-named :
        (run_id' user' seed : String) (pet : ℤ) (r : Rules)
        → new sha256_word run_id user seed pet r
          ≡ map_outcome (named run_id user) (new sha256_word run_id' user' seed pet r)
    unfolding new new_state
    new-named run_id' user' seed pet r = map_outcome-guard (named run_id user) _ _ _ _ (
        map_outcome-bind (λ u. u) (named run_id user) (validate_rules r) _ _ _ (map_outcome-same _)
          λ _.
            map_outcome-bind (named run_id user) (named run_id user)
              (make_offer (new_state sha256_word run_id' user' seed pet r) r unknown "preparation"
                (pos 0))
              _ _ _ (make_offer-named run_id user _ r unknown "preparation" (pos 0))
              (λ s. update_rewards-named s false))
