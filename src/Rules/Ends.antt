-- ===== src/Rules/Ends.antt =====
-- `Validate` of internal/engine/rules.go ends.
use vorax_simulator.Base.{String, List, [], ◌∷◌, Bool, true, false}
use vorax_simulator.Outcome.{Returns-guard, Error, error_if}
use vorax_simulator.Protocol.{CardDefinition}
use vorax_simulator.Rules.{Rules, check_card, check_cards, validate_rules}
use vorax_simulator.Validation.Ends.{Ends, after_unit}

error_if-Ends : (b : Bool) (e : Error) → Ends (error_if b e)
error_if-Ends true e = tt
error_if-Ends false e = tt

check_card-Ends : (seen : List String) (c : CardDefinition) → Ends (check_card seen c)
unfolding check_card
check_card-Ends seen c = search (Returns-guard, error_if-Ends)

check_cards-Ends : (seen : List String) (cs : List CardDefinition) → Ends (check_cards seen cs)
unfolding check_cards
check_cards-Ends seen [] = tt
check_cards-Ends seen (c ∷ cs) =
    after_unit (λ _. Unit {0}) (check_card seen c) (check_cards (c.id ∷ seen) cs)
      (check_card-Ends seen c) (check_cards-Ends (c.id ∷ seen) cs)

pub validate_rules-Ends : (r : Rules) → Ends (validate_rules r)
unfolding validate_rules
validate_rules-Ends r = search (Returns-guard, error_if-Ends, after_unit, check_cards-Ends)
