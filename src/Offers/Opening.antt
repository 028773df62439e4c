-- ===== src/Offers/Opening.antt =====
-- The first tool offer and the family that it favours: internal/engine/tool_offers.go.
use vorax_simulator.Base.{
  ℕ, ◌-◌, ◌*◌, Bool, ◌&&◌, List, [], ◌∷◌, ◌++◌, map, ltb, ◌==◌, length, get_elem?, keep, exists_b,
  if◌then◌else◌,
}
use vorax_simulator.Base.Int.{ℤ, pos, eqb_ℤ}
use vorax_simulator.Outcome.{Outcome, ok, ◌>>=◌, or_panic}
use vorax_simulator.Protocol.{
  GameState, Slot, Monster, CardDefinition, unspecified, bone, fiend, awakener, insect,
}
use vorax_simulator.Board.{ids_where}
use vorax_simulator.Streams.{init_stream, draw}

unfoldable pub is_opening_tool_offer : GameState → ℤ → Bool
is_opening_tool_offer s threshold = eqb_ℤ s.base_cursor (pos 0) && eqb_ℤ threshold (pos 0)

unfoldable pub matching_count : ℤ → List CardDefinition → ℕ
matching_count family pool = length (keep (λ (c : CardDefinition). eqb_ℤ c.core_family family) pool)

-- One weight of `openingToolWeights`.
unfoldable pub opening_weight : ℤ → ℕ → ℕ → CardDefinition → ℕ
opening_weight family matching other c =
    if ltb 0 matching && ltb 0 other
    then if eqb_ℤ c.core_family family then 11 * other else 9 * matching
    else 1

unfoldable pub opening_tool_weights : List CardDefinition → ℤ → List ℕ
unfolding matching_count opening_weight
opening_tool_weights pool family =
    let matching = matching_count family pool in
    map (opening_weight family matching (length pool - matching)) pool

family_count : List Slot → ℤ → ℕ
family_count slots f = length (ids_where (λ (m : Monster). eqb_ℤ m.family f) slots)

-- The loop over the four families: the largest count so far, and the families that have it.
leaders_from : List Slot → List ℤ → ℕ → List ℤ → List ℤ
unfolding family_count
leaders_from slots [] most leaders = leaders
leaders_from slots (f ∷ fs) most leaders =
    let n = family_count slots f in
    leaders_from slots fs (if ltb most n then n else most) (
      if ltb most n
      then f ∷ []
      else if ltb 0 most && (n == most)
      then leaders ++ f ∷ []
      else leaders)

unfoldable pub leading_families : List Slot → List ℤ
unfolding leaders_from
leading_families slots = leaders_from slots (bone ∷ fiend ∷ awakener ∷ insect ∷ []) 0 []

unfoldable pub choose_leader : List ℤ → GameState → Outcome (ℤ × GameState)
choose_leader [] s = ok (unspecified, s)
choose_leader (f ∷ []) s = ok (f, s)
choose_leader (f ∷ g ∷ fs) s =
    if exists_b (eqb_ℤ awakener) (f ∷ g ∷ fs) then ok (awakener, s) else do
      (i, s1) ← draw init_stream (length (f ∷ g ∷ fs)) s
      h ← or_panic (get_elem? (f ∷ g ∷ fs) i)
      ok (h, s1)

-- `initialToolFamily`
unfoldable pub initial_tool_family : GameState → Outcome (ℤ × GameState)
unfolding leading_families choose_leader
initial_tool_family s = choose_leader (leading_families s.slots) s
