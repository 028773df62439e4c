-- ===== src/Agents/Boards.antt =====
-- What `ValidateState` of internal/engine/engine.go says of the places of the slots.
use vorax_simulator.Base.{ℕ, suc, String, List, [], ◌∷◌, arith}
use vorax_simulator.Outcome.{
  version_unavailable, invalid_state, error_if, ◌>>◌, Yields, Yields-bind, Yields-guard, Yields-any,
  Yields-of, Yields-weaken,
}
use vorax_simulator.Protocol.{GameState, Slot}
use vorax_simulator.Rules.{Rules}
use vorax_simulator.Validation.{
  check_monster, check_slots, check_tools, versions_differ, structure_invalid,
  opening_family_invalid, validate_state,
}
use vorax_simulator.Agents.Places.{Placed}

check_slots-Placed :
    (k : ℕ) (seen : List String) (slots : List Slot)
    → Yields (λ _. Placed k slots) (check_slots k seen slots)
unfolding check_slots
check_slots-Placed k seen [] = tt
check_slots-Placed k seen (s ∷ ss) =
    Yields-guard (λ _. Placed k (s ∷ ss)) _ _ _
      λ same.
        Yields-bind (λ _. Placed k (s ∷ ss)) (check_monster seen s.monster) _
          λ seen' e.
            Yields-weaken (λ _. Placed (suc k) ss) (λ _. Placed k (s ∷ ss))
              (check_slots (suc k) seen' ss) (λ u rest. (ground arith, rest))
              (check_slots-Placed (suc k) seen' ss)

pub validate_state-Placed :
    (s : GameState) (r : Rules) → Yields (λ _. Placed 0 s.slots) (validate_state s r)
unfolding validate_state
validate_state-Placed s r =
    let Q : Unit {0} → Type 0 = λ _. Placed 0 s.slots in
    let checked = check_slots 0 [] s.slots >> check_tools r s.tools in
    let sound = error_if (opening_family_invalid s) invalid_state >> checked in
    Yields-guard Q (versions_differ s r) version_unavailable
      (error_if (structure_invalid s) invalid_state >> sound)
      λ _. Yields-guard Q (structure_invalid s) invalid_state sound λ _.
        Yields-guard Q (opening_family_invalid s) invalid_state checked λ _.
          Yields-bind Q (check_slots 0 [] s.slots) (λ _. check_tools r s.tools)
            λ u e.
              Yields-any (Placed 0 s.slots) (check_tools r s.tools)
                (Yields-of Q _ u (check_slots-Placed 0 [] s.slots) e)
