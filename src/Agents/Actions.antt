-- ===== src/Agents/Actions.antt =====
-- What an agent may do, and the games that it plays out on its own: internal/ai/env.go.
use vorax_simulator.Base.{
  String, Bool, ◌&&◌, ◌||◌, List, [], ◌∷◌, ◌++◌, map, str_eq, length, get_elem?, if◌then◌else◌,
}
use vorax_simulator.Base.Int.{ℤ, pos, pos_part, ltb_ℤ, leb_ℤ}
use vorax_simulator.Outcome.{
  Outcome, ok, err, uncoded_error, ◌>>=◌, ◌>>◌, error_if, or_error, or_panic,
}
use vorax_simulator.Protocol.{GameState, Slot, Command, potion, tool, kind_eq, finished, phase_eq}
use vorax_simulator.Rules.{demo_rules}
use vorax_simulator.Engine.{apply}
use vorax_simulator.Agents.Observation.{Observation, SeenCard, from_state}

pub record Action : Type 0 where
  pub verb : String
  pub card_id : String
  pub slots : List ℤ

abbrev pub plain_action : String → Action
plain_action verb = record { verb = verb; card_id = ""; slots = [] }

abbrev pub choose_action : String → List ℤ → Action
choose_action id row = record { verb = "choose"; card_id = id; slots = row }

unfoldable pub may_refresh : Observation → Bool
may_refresh o =
    (kind_eq o.offer.kind potion && ltb_ℤ (pos 0) o.potion_refreshes)
    || (kind_eq o.offer.kind tool && ltb_ℤ (pos 0) o.tool_refreshes)

-- The loop over the cards; one that is not playable is passed over.
unfoldable pub card_actions : List SeenCard → List Action
card_actions [] = []
card_actions (c ∷ cs) =
    let rest = card_actions cs in
    if c.playable then map (choose_action c.id) c.target_sets ++ rest else rest

-- `LegalActionsFromObservation`
unfoldable pub legal_actions : Observation → List Action
unfolding may_refresh card_actions
legal_actions o =
    (if str_eq o.phase "PREPARING" then plain_action "skip_unknown" ∷ [] else [])
    ++ ((if may_refresh o then plain_action "refresh" ∷ [] else []) ++ card_actions o.cards)

-- The monster of a place that is on the board.
unfoldable pub place_id : List Slot → ℤ → Outcome String
place_id slots i = do
  error_if (ltb_ℤ i (pos 0) || leb_ℤ (pos (length slots)) i) uncoded_error
  s ← or_panic (get_elem? slots (pos_part i))
  m ← or_error s.monster uncoded_error
  ok m.id

unfoldable pub place_ids : List Slot → List ℤ → Outcome (List String)
unfolding place_id
place_ids slots [] = ok []
place_ids slots (i ∷ is) = do id ← place_id slots i; ids ← place_ids slots is; ok (id ∷ ids)

-- The `switch` on the kind of action: the command, on the offer with an id.
unfoldable pub action_command : GameState → String → Action → Outcome Command
unfolding place_ids
action_command s offer_id a =
    if str_eq a.verb "skip_unknown" || str_eq a.verb "refresh"
    then ok (record { verb = a.verb; offer_id = offer_id; card_id = ""; target_ids = [] })
    else if str_eq a.verb "choose"
    then (do
      ids ← place_ids s.slots a.slots
      ok (record { verb = a.verb; offer_id = offer_id; card_id = a.card_id; target_ids = ids }))
    else err uncoded_error

-- `step`: the observation, and the state of the environment.
unfoldable pub step : GameState → Action → Outcome (Observation × GameState)
unfolding action_command
step s a = do
  o ← or_error s.offer uncoded_error
  error_if (phase_eq s.phase finished) uncoded_error
  cmd ← action_command s o.id a
  (after, events) ← apply s cmd demo_rules
  ok (from_state after, after)
