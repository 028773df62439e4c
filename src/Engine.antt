-- ===== src/Engine.antt =====
-- `New` and `Apply` of internal/engine/engine.go, and `openPotionBox` of internal/engine/boxes.go.
pub mod Sound
pub mod Games
pub mod Fresh
pub mod Frame
pub mod Named
pub mod View
use Prim.Native.String.{len, ◌++◌ as append_text}
use Prim.Native.Char.{nul}
use vorax_simulator.Base.{
  ℕ, zero, suc, ◌+◌, ◌%◌, String, Bool, true, false, not, ◌&&◌, ◌||◌, List, [], ◌∷◌, ◌++◌, map,
  none, some, str_eq, contains, ltb, ◌==◌, if◌then◌else◌,
}
use vorax_simulator.Base.Int.{ℤ, pos, ◌+ℤ◌, ◌-ℤ◌, ltb_ℤ, leb_ℤ, eqb_ℤ}
use vorax_simulator.Outcome.{
  Outcome, ok, err, invalid_input, invalid_command, invalid_card, invalid_target, stale_offer,
  no_refresh, ◌>>=◌, ◌>>◌, error_if, or_error,
}
use vorax_simulator.Protocol.{
  GameState, Slot, ToolClaim, GameEvent, Command, CardDefinition, CardKind, Offer, unknown, potion,
  tool, scheme, kind_eq, preparing, choosing, finished, phase_eq, locked, claimed, unspecified,
  bone, insect,
}
use vorax_simulator.Rules.{Rules, card, rng_version, validate_rules}
use vorax_simulator.Random.{word}
use vorax_simulator.Rewards.{update_rewards}
use vorax_simulator.Targets.{valid_targets}
use vorax_simulator.Offers.{make_offer, advance, set_offer}
use vorax_simulator.Offers.Opening.{is_opening_tool_offer}
use vorax_simulator.Offers.Boxes.{potion_box, draw_potion_cards, usual_weights, rare_weights}
use vorax_simulator.Validation.{validate_state}
use vorax_simulator.Effects.Context.{Context, Prog, step_limit}
use vorax_simulator.Effects.Play.{emit, play, initialize, initialize_rares}

-- The context that `Apply` starts with, on the clone of the state with the next revision.
unfoldable pub start_context : GameState → Rules → Context
start_context s r = record {
  state = record s { revision = (s.revision + 1) % word };
  rules = r;
  events = [];
  source = "";
  parent = 0;
  steps = 0;
  limit = step_limit;
  error = none;
  removed_monster = none;
}

-- Runs a method, and then `if c.err != nil { return c.err }`.
unfoldable pub settle : Context → Outcome Context
settle c = elim c.error [ none ↦ ok c | some e ↦ err e ]

unfoldable pub run : Prog (Unit {0}) → Context → Outcome Context
unfolding settle
run m c = do (_, c') ← m c; settle c'

-- A function on the state alone, within the context.
unfoldable pub on_state : (GameState → Outcome GameState) → Context → Outcome Context
on_state f c = do s ← f c.state; ok (record c { state = s })

unfoldable pub emit_plain : String → Context → Outcome Context
emit_plain kind = run (emit kind [] (pos 0) (pos 0))

-- The counter that a refresh takes from.
unfoldable pub spend_refresh : CardKind → GameState → Outcome GameState
spend_refresh potion s = do
  error_if (leb_ℤ s.potion_refreshes (pos 0)) no_refresh
  ok (record s { potion_refreshes = s.potion_refreshes -ℤ pos 1 })
spend_refresh tool s = do
  error_if (leb_ℤ s.tool_refreshes (pos 0)) no_refresh
  ok (record s { tool_refreshes = s.tool_refreshes -ℤ pos 1 })
spend_refresh _ s = err invalid_command

abbrev no_targets : List String → Bool
no_targets [] = true
no_targets (id ∷ ids) = false

-- The "refresh" command.
unfoldable pub refresh : Offer → Command → Context → Outcome Context
unfolding spend_refresh on_state emit_plain
refresh o cmd c = do
  error_if (not (no_targets cmd.target_ids) || not (str_eq cmd.card_id "")) invalid_command
  c1 ← on_state (spend_refresh o.kind) c
  c2 ← on_state (λ s. make_offer s c1.rules o.kind "refresh" o.reward_threshold) c1
  emit_plain "refreshed" c2

-- The "skip_unknown" command.
unfoldable pub skip_unknown : Command → Context → Outcome Context
skip_unknown cmd c = do
  error_if
      (not (phase_eq c.state.phase preparing)
        || (not (str_eq cmd.card_id "") || not (no_targets cmd.target_ids)))
      invalid_command
  run (initialize emit 3 unspecified false) c

-- The guards of "choose", and the card.
unfoldable pub chosen_card : Offer → Command → Context → Outcome CardDefinition
chosen_card o cmd c = do
  error_if (not (contains o.card_ids cmd.card_id)) invalid_card
  d ← or_error (card c.rules cmd.card_id) invalid_card
  error_if (not d.enabled || not (kind_eq d.kind o.kind)) invalid_card
  error_if
      (kind_eq d.kind tool
        && (is_opening_tool_offer c.state o.reward_threshold && eqb_ℤ d.core_family unspecified))
      invalid_card
  error_if (not (valid_targets c.state.slots d cmd.target_ids)) invalid_target
  ok d

-- The `switch` on the handler of an unknown apparatus.
unfoldable pub prepare : CardDefinition → Context → Outcome Context
prepare d c =
    if str_eq d.handler "initial_six"
    then run (initialize emit 6 unspecified false) c
    else if str_eq d.handler "initial_insects"
    then run (initialize emit 4 insect false) c
    else if str_eq d.handler "initial_bones"
    then run (initialize emit 4 bone true) c
    else if str_eq d.handler "initial_rares"
    then run (initialize_rares emit) c
    else err invalid_card

-- `openPotionBox`
unfoldable pub open_potion_box : CardDefinition → Context → Outcome Context
unfolding emit_plain
open_potion_box d c = do
  let (size, is_rare) = potion_box d
  error_if (size == 0) invalid_card
  (ids, s) ←
      draw_potion_cards c.state c.rules size (if is_rare then rare_weights else usual_weights) false
  emit_plain "box_opened"
      (record c { state = set_offer potion ids (append_text "box:" d.id) (pos 0) s })

unfoldable pub claim_tool : ℤ → ToolClaim → ToolClaim
claim_tool threshold claim =
    if eqb_ℤ claim.threshold threshold then record claim { status = claimed } else claim

-- A tool is acquired.
unfoldable pub acquire_tool : Offer → CardDefinition → Context → Outcome Context
unfolding claim_tool emit_plain
acquire_tool o d c = emit_plain "tool_acquired" (record c {
  state = record c.state {
    tools = c.state.tools ++ d.id ∷ [];
    rewards = record c.state.rewards {
      tool_claims = map (claim_tool o.reward_threshold) c.state.rewards.tool_claims;
    };
  };
})

-- The turn that a choice completes; the opening tool completes none.
unfoldable pub complete_turn : Bool → Context → Outcome Context
unfolding emit_plain
complete_turn true c = ok c
complete_turn false c =
    emit_plain "turn_end"
      (record c { state = record c.state { completed_turns = c.state.completed_turns +ℤ pos 1 } })

unfoldable pub move_cursor : CardKind → Bool → GameState → GameState
move_cursor kind opening s =
    if kind_eq kind potion || (kind_eq kind scheme || opening)
    then record s { base_cursor = s.base_cursor +ℤ pos 1 }
    else s

-- A card that is played in the phase of choices.
unfoldable pub take_turn : Offer → CardDefinition → List String → Context → Outcome Context
unfolding acquire_tool complete_turn move_cursor on_state emit_plain
take_turn o d targets c = do
  let opening = kind_eq o.kind tool && is_opening_tool_offer c.state o.reward_threshold
  c1 ← if kind_eq o.kind tool then acquire_tool o d c else run (play emit d targets) c
  c2 ← complete_turn opening c1
  c3 ← on_state (λ s. update_rewards (move_cursor o.kind opening s) (not opening)) c2
  emit_plain "scored" c3

-- What follows every choice: the end of the preparation, and the next offer.
unfoldable pub finish_choice : Context → Outcome Context
unfolding on_state
finish_choice c = do
  c1 ←
      if phase_eq c.state.phase preparing
      then on_state (λ s. update_rewards (record s { phase = choosing }) false) c
      else ok c
  on_state (λ s. advance s c1.rules) c1

-- The "choose" command.
unfoldable pub choose : Offer → Command → Context → Outcome Context
unfolding prepare take_turn finish_choice chosen_card open_potion_box
choose o cmd c = do
  d ← chosen_card o cmd c
  let c1 = record c { source = d.id }
  if phase_eq c.state.phase preparing
      then (do c2 ← prepare d c1; finish_choice c2)
      else if ltb 0 (potion_box d).0
      then open_potion_box d c1
      else (do c2 ← take_turn o d cmd.target_ids c1; finish_choice c2)

unfoldable pub dispatch : Offer → Command → Context → Outcome Context
unfolding refresh skip_unknown choose finish_choice
dispatch o cmd c =
    if str_eq cmd.verb "refresh"
    then refresh o cmd c
    else if str_eq cmd.verb "skip_unknown"
    then (do c1 ← skip_unknown cmd c; finish_choice c1)
    else if str_eq cmd.verb "choose"
    then choose o cmd c
    else err invalid_command

-- `Apply`: the next state and the events. The caller's state stays as it is.
unfoldable pub apply : GameState → Command → Rules → Outcome (GameState × List GameEvent)
unfolding dispatch start_context
apply s cmd r = do
  validate_state s r
  error_if (phase_eq s.phase finished) invalid_command
  o ← or_error s.offer invalid_command
  error_if (not (str_eq cmd.offer_id o.id)) stale_offer
  c ← dispatch o cmd (start_context s r)
  ok (c.state, c.events)

unfoldable pub empty_slots : ℕ → ℕ → List Slot
empty_slots i zero = []
empty_slots i (suc n) =
    (record { index = i; monster = none; contribution = pos 0 }) ∷ empty_slots (suc i) n

unfoldable pub locked_claim : ℤ → ToolClaim
locked_claim t = record { threshold = t; status = locked }

-- The first eight bytes, as a uint64, of the SHA-256 digest of a text: the standard library's.
module _ (sha256_word : String → ℕ) where
  -- `streamSeed`
  unfoldable pub stream_seed : String → String → ℕ
  stream_seed seed stream =
      let zero_byte = String.◌∷◌ nul "" in
      sha256_word (
        append_text rng_version
          (append_text zero_byte (append_text seed (append_text zero_byte stream))))

  unfoldable pub new_state : String → String → String → ℤ → Rules → GameState
  unfolding stream_seed empty_slots locked_claim
  new_state run_id user_id seed pet r = record {
    run_id = run_id;
    user_id = user_id;
    revision = 1;
    format_version = 1;
    rules_version = r.version;
    content_version = r.content_version;
    rng_version = rng_version;
    seed = seed;
    phase = preparing;
    base_cursor = pos 0;
    completed_turns = pos 0;
    slots = empty_slots 0 6;
    tools = [];
    offer = none;
    potion_refreshes = pos 3;
    tool_refreshes = pet;
    initial_pet_refreshes = pet;
    rewards = record {
      jars = [];
      drop_bonus_percent = pos 0;
      tool_claims = locked_claim (pos 8000) ∷ locked_claim (pos 28000) ∷ [];
      next_threshold = pos 0;
      next_reward_label = "";
    };
    score = pos 0;
    peak_score = pos 0;
    init_rng = stream_seed seed "initialization";
    offer_rng = stream_seed seed "offers";
    effect_rng = stream_seed seed "effects";
    next_monster_id = 1;
    next_offer_id = 1;
    opening_tool_family = unspecified;
  }

  -- `New`
  unfoldable pub new : String → String → String → ℤ → Rules → Outcome GameState
  unfolding new_state
  new run_id user_id seed pet r = do
    error_if (ltb_ℤ pet (pos 0) || (ltb_ℤ (pos 2) pet || (str_eq seed "" || ltb 256 (len seed))))
        invalid_input
    validate_rules r
    s ← make_offer (new_state run_id user_id seed pet r) r unknown "preparation" (pos 0)
    update_rewards s false
