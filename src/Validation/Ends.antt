-- ===== src/Validation/Ends.antt =====
-- `ValidateState` of internal/engine/engine.go ends.
use vorax_simulator.Base.{ℕ, suc, String, List, [], ◌∷◌, Option, none, some}
use vorax_simulator.Outcome.{
  Outcome, ok, ◌>>◌, Returns, Returns-bind, Returns-guard, Returns-or_error, version_unavailable,
  invalid_state, numeric_overflow,
}
use vorax_simulator.Protocol.{GameState, Slot, Monster}
use vorax_simulator.Rules.{Rules}
use vorax_simulator.Rewards.{contribution_of}
use vorax_simulator.Validation.{
  check_monster, check_slots, check_tools, validate_state, versions_differ, structure_invalid,
  opening_family_invalid,
}

-- A value, an error or a panic, with nothing known of the value.
abbrev pub Ends {ℓ} : {A : Type ℓ} → Outcome A → Type 0
Ends m = Returns (λ _. Unit {0}) m

abbrev Nothing : Unit {0} → Type 0
Nothing u = Unit

pub after_unit {ℓ} :
    {A : Type ℓ} (Q : A → Type 0) (m : Outcome (Unit {0})) (n : Outcome A)
    → Ends m
    → Returns Q n
    → Returns Q (m >> n)
after_unit Q m n h k = Returns-bind (λ _. Unit {0}) Q m (λ _. n) h (λ _ _. k)

check_monster-Ends : (seen : List String) (o : Option Monster) → Ends (check_monster seen o)
unfolding check_monster
check_monster-Ends seen none = tt
check_monster-Ends seen (some m) =
    Returns-guard (λ _. Unit {0}) _ _ _
      (Returns-or_error (λ _. Unit {0}) (contribution_of m) numeric_overflow (λ _. ok (m.id ∷ seen))
        (λ _ _. tt))

check_slots-Ends : (i : ℕ) (seen : List String) (ss : List Slot) → Ends (check_slots i seen ss)
unfolding check_slots
check_slots-Ends i seen [] = tt
check_slots-Ends i seen (s ∷ ss) =
    Returns-guard (λ _. Unit {0}) _ _ _
      (Returns-bind (λ _. Unit {0}) (λ _. Unit {0}) (check_monster seen s.monster) _
        (check_monster-Ends seen s.monster) (λ seen' _. check_slots-Ends (suc i) seen' ss))

check_tools-Ends : (r : Rules) (ids : List String) → Ends (check_tools r ids)
unfolding check_tools
check_tools-Ends r [] = tt
check_tools-Ends r (id ∷ ids) = Returns-guard (λ _. Unit {0}) _ _ _ (check_tools-Ends r ids)

pub validate_state-Ends : (s : GameState) (r : Rules) → Ends (validate_state s r)
unfolding validate_state
validate_state-Ends s r = Returns-guard Nothing (versions_differ s r) version_unavailable _ (
    Returns-guard Nothing (structure_invalid s) invalid_state _ (
      Returns-guard Nothing (opening_family_invalid s) invalid_state _ (
        after_unit Nothing (check_slots 0 [] s.slots) (check_tools r s.tools)
          (check_slots-Ends 0 [] s.slots) (check_tools-Ends r s.tools))))
