-- ===== src/Agents/Legal.antt =====
-- The actions that an agent may take (internal/ai/env.go), beside the guards of the commands of
-- internal/engine/engine.go.
use mathlib.Core.Option.{some-injective}
use vorax_simulator.Base.{
  ◌≡◌, refl, sym, subst, String, Bool, true, false, List, [], ◌∷◌, map, Option, none, some, str_eq,
  contains, All, ◌&&◌, ◌||◌, ltb, length, arith, Bool-cases, inl, inr, if◌then◌else◌,
}
use vorax_simulator.Base.Int.{ℤ, pos, ltb_ℤ, leb_ℤ, ◌-ℤ◌}
use vorax_simulator.Outcome.{ok, Yields-of}
use vorax_simulator.Protocol.{
  GameState, CardDefinition, Offer, Command, CardKind, potion, tool, kind_eq, preparing, phase_eq,
  Phase, phase_unspecified, choosing, finished, card_kind_unspecified, unknown, scheme,
}
use vorax_simulator.Rules.{card, demo_rules}
use vorax_simulator.Targets.{valid_targets, legal_targets}
use vorax_simulator.Validation.{validate_state}
use vorax_simulator.Engine.{spend_refresh}
use vorax_simulator.Engine.View.{card_view, card_views, offer_view, view}
use vorax_simulator.Agents.Observation.{see_card, see_offer, phase_text, from_state}
use vorax_simulator.Agents.Actions.{
  Action, plain_action, choose_action, may_refresh, card_actions, legal_actions, action_command,
}
use vorax_simulator.Agents.Boards.{validate_state-Placed}
use vorax_simulator.Agents.Lists.{All-append, All-map, contains_each, card_id_lem}
use vorax_simulator.Agents.Places.{Placed, LeadsBack, target_rows-Accepted}

-- The command that an action stands for, and what of the guards of `Apply` it passes: the game is
-- being prepared; a refresh is left for the kind of the offer; the card is offered, the rules have it,
-- and it accepts the targets. Whether the card is enabled and of the kind of the offer is not seen.
pub data IsMove (s : GameState) (o : Offer) (a : Action) : Type 0 where
  skips :
      (cmd : Command)
      → action_command s o.id a ≡ ok cmd
      → cmd.offer_id ≡ o.id
      → cmd.verb ≡ "skip_unknown"
      → phase_eq s.phase preparing ≡ true
      → IsMove s o a
  refreshes :
      (cmd : Command) (s' : GameState)
      → action_command s o.id a ≡ ok cmd
      → cmd.offer_id ≡ o.id
      → cmd.verb ≡ "refresh"
      → spend_refresh o.kind s ≡ ok s'
      → IsMove s o a
  chooses :
      (cmd : Command) (d : CardDefinition)
      → action_command s o.id a ≡ ok cmd
      → cmd.offer_id ≡ o.id
      → cmd.verb ≡ "choose"
      → contains o.card_ids cmd.card_id ≡ true
      → card demo_rules cmd.card_id ≡ some d
      → valid_targets s.slots d cmd.target_ids ≡ true
      → IsMove s o a

module _ (s : GameState) (o : Offer) (placed : Placed 0 s.slots) where
  choose-IsMove :
      (id : String) (d : CardDefinition) (row : List ℤ)
      → contains o.card_ids id ≡ true
      → card demo_rules id ≡ some d
      → LeadsBack s.slots placed (λ ids. valid_targets s.slots d ids ≡ true) row
      → IsMove s o (choose_action d.id row)
  unfolding action_command
  choose-IsMove id d row offered found (ids, (back, accepted)) =
      let same : d.id ≡ id = card_id_lem demo_rules id d found in
      chooses (record { verb = "choose"; offer_id = o.id; card_id = d.id; target_ids = ids }) d
        (rw back refl) refl refl (subst (λ x. contains o.card_ids x ≡ true) (sym same) offered)
        (subst (λ x. card demo_rules x ≡ some d) (sym same) found) accepted

  card_actions-IsMove :
      (ids : List String)
      → All (λ id. contains o.card_ids id ≡ true) ids
      → All (IsMove s o) (card_actions (map (see_card s.slots) (card_views s demo_rules ids)))
  unfolding card_actions card_views see_card card_view
  card_actions-IsMove [] h = tt
  card_actions-IsMove (id ∷ ids) (offered, h) =
      go (card demo_rules id) refl (card_actions-IsMove ids h)
    where
      go :
          (found : Option CardDefinition)
          → card demo_rules id ≡ found
          → All (IsMove s o) (card_actions (map (see_card s.slots) (card_views s demo_rules ids)))
          → All (IsMove s o) (
              card_actions (
                map (see_card s.slots) (elim found [
                  | none ↦ card_views s demo_rules ids
                  | some c ↦ card_view s c ∷ card_views s demo_rules ids
                ])))
      go none e rest = rest
      go (some d) e rest = elim (Bool-cases (ltb 0 (length (legal_targets s.slots d)))) [
        | inl shown ↦ rw shown (
            All-append (IsMove s o) _ _
              (All-map _ (IsMove s o) (choose_action d.id) (λ row. choose-IsMove id d row offered e)
                _ (target_rows-Accepted s.slots placed d))
              rest)
        | inr hidden ↦ rw hidden rest
      ]

  shown-IsMove :
      (offer : Option Offer)
      → offer ≡ some o
      → All (IsMove s o) (card_actions (map (see_card s.slots) (offer_view s demo_rules offer).0))
  unfolding card_actions offer_view
  shown-IsMove none e = tt
  shown-IsMove (some offer) e =
      subst
        (λ (x : Offer).
          All (IsMove s o)
            (card_actions (map (see_card s.slots) (card_views s demo_rules x.card_ids))))
        (sym (some-injective offer o e)) (card_actions-IsMove o.card_ids (contains_each o.card_ids))

  refreshes_left : CardKind → Bool
  refreshes_left kind =
      (kind_eq kind potion && ltb_ℤ (pos 0) s.potion_refreshes)
      || (kind_eq kind tool && ltb_ℤ (pos 0) s.tool_refreshes)

  refreshes_left_lem :
      (kind : CardKind)
      → refreshes_left kind ≡ true
      → (s' : GameState) × (spend_refresh kind s ≡ ok s')
  unfolding refreshes_left spend_refresh
  refreshes_left_lem card_kind_unspecified h = absurd (ground arith)
  refreshes_left_lem unknown h = absurd (ground arith)
  refreshes_left_lem scheme h = absurd (ground arith)
  refreshes_left_lem potion h =
      let some_left : leb_ℤ s.potion_refreshes (pos 0) ≡ false = ground arith in
      (record s { potion_refreshes = s.potion_refreshes -ℤ pos 1 }, rw some_left refl)
  refreshes_left_lem tool h =
      let some_left : leb_ℤ s.tool_refreshes (pos 0) ≡ false = ground arith in
      (record s { tool_refreshes = s.tool_refreshes -ℤ pos 1 }, rw some_left refl)

  refresh-IsMove :
      s.offer ≡ some o → may_refresh (from_state s) ≡ true → IsMove s o (plain_action "refresh")
  unfolding action_command may_refresh from_state see_offer refreshes_left
  refresh-IsMove e h =
      let left : refreshes_left o.kind ≡ true =
        subst (λ x. refreshes_left (see_offer x).kind ≡ true) e h in
      let (after, spent) = refreshes_left_lem o.kind left in
      refreshes (record { verb = "refresh"; offer_id = o.id; card_id = ""; target_ids = [] }) after
        refl refl refl spent

  prepares : (p : Phase) → str_eq (phase_text p) "PREPARING" ≡ true → phase_eq p preparing ≡ true
  unfolding phase_text
  prepares phase_unspecified h = absurd (ground arith)
  prepares preparing h = refl
  prepares choosing h = absurd (ground arith)
  prepares finished h = absurd (ground arith)

  skip-IsMove :
      str_eq (from_state s).phase "PREPARING" ≡ true → IsMove s o (plain_action "skip_unknown")
  unfolding action_command from_state phase_text
  skip-IsMove h = skips _ refl refl refl (prepares s.phase h)

  given-IsMove : s.offer ≡ some o → All (IsMove s o) (legal_actions (from_state s))
  unfolding legal_actions from_state view
  given-IsMove e =
      All-append (IsMove s o) _ _ (asked _ _ skip-IsMove)
        (All-append (IsMove s o) _ _ (asked _ _ (refresh-IsMove e)) (shown-IsMove s.offer e))
    where
      asked :
          (b : Bool) (a : Action)
          → (b ≡ true → IsMove s o a)
          → All (IsMove s o) (if b then a ∷ [] else [])
      asked true a h = (h refl, tt)
      asked false a h = tt

-- In a game that passes `ValidateState` and has an offer: every action that an agent is given stands
-- for a command that names the offer; a skip only while the game is prepared, a refresh only where one
-- is left for the kind of offer, a choice only of an offered card of the rules with targets that it
-- accepts.
pub legal_actions-IsMove :
    (s : GameState) (o : Offer)
    → validate_state s demo_rules ≡ ok tt
    → s.offer ≡ some o
    → All (IsMove s o) (legal_actions (from_state s))
legal_actions-IsMove s o valid e =
    let placed : Placed 0 s.slots =
      Yields-of (λ _. Placed 0 s.slots) _ tt (validate_state-Placed s demo_rules) valid in
    given-IsMove s o placed e
