-- ===== src/Targets.antt =====
-- Which targets a card accepts: `validTargets` and `LegalTargets` of internal/engine/engine.go, and
-- `potionTargetsValid` of internal/engine/potions.go.
pub mod Sound
use vorax_simulator.Base.{
  ℕ, zero, suc, String, Bool, true, false, not, ◌&&◌, ◌||◌, List, [], ◌∷◌, ◌++◌, contains, ltb,
  length, Option, none, some, if◌then◌else◌,
}
use vorax_simulator.Base.Int.{pos, ltb_ℤ, leb_ℤ, eqb_ℤ}
use vorax_simulator.Protocol.{Monster, Slot, CardDefinition, potion, kind_eq, bone}
use vorax_simulator.Board.{monster_ids, get_monster, ids_where}

abbrev is_some_monster : Option Monster → Bool
is_some_monster none = false
is_some_monster (some m) = true

-- The loop over the targets; `seen` is the map of the ids before.
distinct_monsters : List Slot → List String → List String → Bool
distinct_monsters slots seen [] = true
distinct_monsters slots seen (id ∷ ids) =
    not (contains seen id || not (is_some_monster (get_monster slots id)))
    && distinct_monsters slots (id ∷ seen) ids

unfoldable pub potion_targets_valid : List Slot → CardDefinition → Bool
potion_targets_valid slots c =
    if not (kind_eq c.kind potion)
    then true
    else if contains ("potion_bone_ointment" ∷ "potion_peat_dressing" ∷ []) c.handler
    then ltb 0 (length (ids_where (λ (m : Monster). eqb_ℤ m.family bone) slots))
    else if contains
        ("potion_gray_marrow" ∷ "potion_brain_fog" ∷ "potion_bone_growth_powder"
          ∷ "potion_eggshell_powder" ∷ "potion_waking_salts" ∷ [])
        c.handler
    then ltb 0 (length (monster_ids slots))
    else true

unfoldable pub valid_targets : List Slot → CardDefinition → List String → Bool
unfolding distinct_monsters potion_targets_valid
valid_targets slots c ids =
    c.enabled
    && (not (ltb_ℤ (pos (length ids)) c.min_targets || ltb_ℤ c.max_targets (pos (length ids)))
        && (distinct_monsters slots [] ids && potion_targets_valid slots c))

-- The recursive `visit`, and its loop over the ids, which calls it on each longer tuple. A tuple
-- holds each id once, so a depth of the number of ids is enough.
unfoldable pub visit_each :
    (List String → List (List String)) → List String → List String → List (List String)
visit_each visit_next p [] = []
visit_each visit_next p (id ∷ ids) =
    let rest = visit_each visit_next p ids in
    if contains p id then rest else visit_next (p ++ id ∷ []) ++ rest

unfoldable pub visit : ℕ → List Slot → CardDefinition → List String → List (List String)
unfolding visit_each
visit zero slots c p = if valid_targets slots c p then p ∷ [] else []
visit (suc depth) slots c p =
    let deeper = visit_each (visit depth slots c) p (monster_ids slots) in
    (if valid_targets slots c p then p ∷ [] else [])
    ++ (if leb_ℤ c.max_targets (pos (length p)) then [] else deeper)

-- `LegalTargets`
unfoldable pub legal_targets : List Slot → CardDefinition → List (List String)
unfolding visit
legal_targets slots c = visit (length (monster_ids slots)) slots c []

-- `len(LegalTargets(s, card)) > 0`
abbrev pub playable : List Slot → CardDefinition → Bool
playable slots c = ltb 0 (length (legal_targets slots c))
