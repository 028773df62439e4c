-- ===== src/Validation.antt =====
-- `ValidateState` of internal/engine/engine.go: what a saved game must satisfy before a command.
pub mod Ends
use vorax_simulator.Base.{
  ℕ, suc, String, Bool, false, not, ◌&&◌, ◌||◌, List, [], ◌∷◌, Option, none, some, str_eq, contains,
  ◌==◌, length,
}
use vorax_simulator.Base.Int.{pos, ltb_ℤ, eqb_ℤ}
use vorax_simulator.Outcome.{
  Outcome, ok, version_unavailable, invalid_state, numeric_overflow, ◌>>=◌, ◌>>◌, error_if,
  or_error,
}
use vorax_simulator.Protocol.{
  GameState, Slot, Monster, CardDefinition, tool, kind_eq, preparing, phase_eq, unspecified, insect,
}
use vorax_simulator.Rules.{Rules, card, rng_version}
use vorax_simulator.Rewards.{contribution_of}

unfoldable pub monster_invalid : List String → Monster → Bool
monster_invalid seen m =
    str_eq m.id ""
    || (contains seen m.id
        || (ltb_ℤ m.family (pos 1)
            || (ltb_ℤ (pos 4) m.family || (ltb_ℤ m.rarity (pos 1) || ltb_ℤ (pos 4) m.rarity))))

-- The tests of one slot, and the ids seen after it.
unfoldable pub check_monster : List String → Option Monster → Outcome (List String)
unfolding monster_invalid
check_monster seen none = ok seen
check_monster seen (some m) = do
  error_if (monster_invalid seen m) invalid_state
  _ ← or_error (contribution_of m) numeric_overflow
  ok (m.id ∷ seen)

unfoldable pub check_slots : ℕ → List String → List Slot → Outcome (Unit {0})
unfolding check_monster
check_slots i seen [] = ok tt
check_slots i seen (s ∷ ss) = do
  error_if (not (s.index == i)) invalid_state
  seen' ← check_monster seen s.monster
  check_slots (suc i) seen' ss

unfoldable pub is_tool : Option CardDefinition → Bool
is_tool none = false
is_tool (some c) = kind_eq c.kind tool

unfoldable pub check_tools : Rules → List String → Outcome (Unit {0})
unfolding is_tool
check_tools r [] = ok tt
check_tools r (id ∷ ids) = do error_if (not (is_tool (card r id))) invalid_state; check_tools r ids

unfoldable pub versions_differ : GameState → Rules → Bool
versions_differ s r =
    not (s.format_version == 1)
    || (not (str_eq s.rules_version r.version)
        || (not (str_eq s.content_version r.content_version)
            || not (str_eq s.rng_version rng_version)))

unfoldable pub structure_invalid : GameState → Bool
structure_invalid s =
    not (length s.slots == 6)
    || (not (length s.rewards.tool_claims == 2)
        || (ltb_ℤ s.base_cursor (pos 0)
            || (ltb_ℤ (pos 12) s.base_cursor
                || (ltb_ℤ s.completed_turns (pos 0)
                    || (ltb_ℤ (pos 13) s.completed_turns || (s.revision == 0))))))

unfoldable pub opening_family_invalid : GameState → Bool
opening_family_invalid s =
    ltb_ℤ s.opening_tool_family unspecified
    || (ltb_ℤ insect s.opening_tool_family
        || (not (phase_eq s.phase preparing) && eqb_ℤ s.opening_tool_family unspecified))

-- `ValidateState`
unfoldable pub validate_state : GameState → Rules → Outcome (Unit {0})
unfolding versions_differ structure_invalid opening_family_invalid check_slots check_tools
validate_state s r = do
  error_if (versions_differ s r) version_unavailable
  error_if (structure_invalid s) invalid_state
  error_if (opening_family_invalid s) invalid_state
  check_slots 0 [] s.slots
  check_tools r s.tools
