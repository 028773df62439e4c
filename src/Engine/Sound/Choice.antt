-- ===== src/Engine/Sound/Choice.antt =====
-- The guards of the "choose" command of internal/engine/engine.go.
use vorax_simulator.Base.{◌≡◌, refl, Bool, true, false, not, ◌&&◌, ◌||◌, some, contains, arith}
use vorax_simulator.Base.Int.{eqb_ℤ}
use vorax_simulator.Outcome.{
  Returns-or_error, Outcome, ok, Error, ◌>>◌, Returns, error_if, invalid_card,
}
use vorax_simulator.Protocol.{CardDefinition, Offer, Command, tool, kind_eq, unspecified}
use vorax_simulator.Rules.{card}
use vorax_simulator.Targets.{valid_targets}
use vorax_simulator.Offers.Opening.{is_opening_tool_offer}
use vorax_simulator.Effects.Context.{Context}
use vorax_simulator.Engine.{chosen_card}

-- What a card that is chosen passed: it is offered, the rules have it, it is enabled and of the kind
-- of the offer, as the opening tool it has a core family, and it accepts the targets.
pub record IsChosen (o : Offer) (cmd : Command) (c : Context) (d : CardDefinition) : Type 0 where
  pub offered : contains o.card_ids cmd.card_id ≡ true
  pub found : card c.rules cmd.card_id ≡ some d
  pub enabled : d.enabled ≡ true
  pub kind : kind_eq d.kind o.kind ≡ true
  pub opening :
      (kind_eq d.kind tool
        && (is_opening_tool_offer c.state o.reward_threshold && eqb_ℤ d.core_family unspecified))
      ≡ false
  pub targets : valid_targets c.state.slots d cmd.target_ids ≡ true

Returns-test :
    {A : Type 0} (Q : A → Type 0) (b : Bool) (e : Error) (m : Outcome A)
    → (b ≡ false → Returns Q m)
    → Returns Q (error_if b e >> m)
Returns-test Q true e m k = tt
Returns-test Q false e m k = k refl

not-false : (b : Bool) → not b ≡ false → b ≡ true
not-false b h = ground arith

both_true : (a b : Bool) → (not a || not b) ≡ false → (a ≡ true) × (b ≡ true)
both_true a b h = ground arith

-- Where the guards of "choose" give a card, it is one of the offer and of the rules, enabled, of the
-- offer's kind, of a core family if it is the opening tool, and it accepts the targets; the guards end
-- in any case.
pub chosen_card-IsChosen :
    (o : Offer) (cmd : Command) (c : Context) → Returns (IsChosen o cmd c) (chosen_card o cmd c)
unfolding chosen_card
chosen_card-IsChosen o cmd c = Returns-test (IsChosen o cmd c) _ _ _ λ offered.
    Returns-or_error (IsChosen o cmd c) (card c.rules cmd.card_id) invalid_card _ λ d found.
      Returns-test (IsChosen o cmd c) _ _ _ λ usable.
        Returns-test (IsChosen o cmd c) _ _ _ λ opening.
          Returns-test (IsChosen o cmd c) _ _ (ok d) λ accepted. record {
            offered = not-false _ offered;
            found = found;
            enabled = (both_true d.enabled (kind_eq d.kind o.kind) usable).0;
            kind = (both_true d.enabled (kind_eq d.kind o.kind) usable).1;
            opening = opening;
            targets = not-false _ accepted;
          }
