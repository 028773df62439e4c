-- ===== src/Effects/Fusion.antt =====
-- `fuse` of internal/engine/effects.go, and `extreme`.
use vorax_simulator.Base.{
  ℕ, String, Bool, true, false, List, [], ◌∷◌, ◌++◌, Option, none, some, str_eq, contains,
  if◌then◌else◌,
}
use vorax_simulator.Base.Int.{ℤ, pos, add_int32, ltb_ℤ, eqb_ℤ}
use vorax_simulator.Outcome.{Error, numeric_overflow, invalid_content, invalid_target}
use vorax_simulator.Protocol.{Monster, Slot, unspecified, normal, boss}
use vorax_simulator.Monsters.{MonsterDefinition}
use vorax_simulator.Board.{get_monster, clear_all, first_of_ids, put_at}
use vorax_simulator.Rewards.{checked_add, contribution_of}
use vorax_simulator.Streams.{effect_stream}
use vorax_simulator.Effects.Context.{
  Prog, Emit, pure, gets, or_crash, ◌>>=◌, ◌>>◌, fail, if_tick, slots_of, write_slots,
}
use vorax_simulator.Effects.Monsters.{family_or_random, pick_definition, fresh_id, new_monster}

-- What the loop over the targets finds: their sums and the highest rarity; an error; or a target
-- that is not there, at which `fuse` returns.
pub data Fusion : Type 0 where
  fused : ℤ → ℤ → ℤ → Fusion
  refused : Error → Fusion
  missing : Fusion

unfoldable pub fuse_next : Option Monster → ℤ → ℤ → ℤ → (ℤ → ℤ → ℤ → Fusion) → Fusion
fuse_next none a q r next = missing
fuse_next (some m) a q r next = elim (checked_add a m.activity) [
  | none ↦ refused numeric_overflow
  | some a' ↦ elim (checked_add q m.quantity) [
    | none ↦ refused numeric_overflow
    | some q' ↦ next a' q' (if ltb_ℤ r m.rarity then m.rarity else r)
  ]
]

unfoldable pub fuse_sums : List Slot → List String → List String → ℤ → ℤ → ℤ → Fusion
unfolding fuse_next
fuse_sums slots seen [] a q r = fused a q r
fuse_sums slots seen (id ∷ ids) a q r =
    if contains seen id
    then refused invalid_target
    else fuse_next (get_monster slots id) a q r (fuse_sums slots (id ∷ seen) ids)

-- The rarity of the result: the one given, or one above the highest.
unfoldable pub fused_rarity : ℤ → ℤ → ℤ
fused_rarity r highest =
    if eqb_ℤ r unspecified
    then (let next = add_int32 highest (pos 1) in if ltb_ℤ boss next then boss else next)
    else r

module _ (emit : Emit) where
  unfoldable pub fuse_place :
      Option ℕ → Option MonsterDefinition → List String → String → ℤ → ℤ → Prog (Unit {0})
  fuse_place dest none ids id a q = fail invalid_content
  fuse_place dest (some d) ids id a q = do
    i ← or_crash dest
    write_slots (put_at i (new_monster id d a q))
    emit "fused" (ids ++ id ∷ []) (pos 0) (pos 0)

  unfoldable pub fuse_found : Fusion → List String → ℤ → ℤ → Prog (Unit {0})
  unfolding fuse_place fused_rarity
  fuse_found missing ids f r = pure tt
  fuse_found (refused e) ids f r = fail e
  fuse_found (fused a q highest) ids f r = do
    dest ← gets (λ c. first_of_ids ids (slots_of c))
    write_slots (clear_all ids)
    f' ← family_or_random f effect_stream
    id ← fresh_id
    d ← pick_definition f' (fused_rarity r highest) effect_stream
    fuse_place dest d ids id a q

  unfoldable pub fuse_some : List String → ℤ → ℤ → Prog (Unit {0})
  unfolding fuse_found fuse_sums
  fuse_some [] f r = pure tt
  fuse_some (id ∷ ids) f r = do
    sums ← gets (λ c. fuse_sums (slots_of c) [] (id ∷ ids) (pos 0) (pos 0) normal)
    fuse_found sums (id ∷ ids) f r

  unfoldable pub fuse : List String → ℤ → ℤ → Prog (Unit {0})
  unfolding fuse_some
  fuse ids f r = if_tick (fuse_some ids f r)

-- The monster with the highest or the lowest value so far.
abbrev pub Best : Type 0
Best = Option (Monster × ℤ)

unfoldable pub better : Bool → ℤ → Best → Bool
better high v none = true
better true v (some (m, value)) = ltb_ℤ value v
better false v (some (m, value)) = ltb_ℤ v value

unfoldable pub monster_value : Bool → Monster → Option ℤ
monster_value true m = contribution_of m
monster_value false m = some m.activity

-- `none` where the product of a monster overflows.
unfoldable pub extreme_from : Bool → Bool → String → List Slot → Best → Option Best
extreme_from high product exclude [] best = some best
extreme_from high product exclude (s ∷ ss) best = elim s.monster [
  | none ↦ extreme_from high product exclude ss best
  | some m ↦ elim (str_eq m.id exclude) [
    | true ↦ extreme_from high product exclude ss best
    | false ↦ elim (monster_value product m) [
      | none ↦ none
      | some v ↦
          extreme_from high product exclude ss (if better high v best then some (m, v) else best)
    ]
  ]
]

unfoldable pub extreme_result : Option Best → Prog String
extreme_result none = do fail numeric_overflow; pure ""
extreme_result (some none) = pure ""
extreme_result (some (some (m, v))) = pure m.id

-- `extreme`: the id, or "".
unfoldable pub extreme : Bool → Bool → String → Prog String
unfolding extreme_from extreme_result better monster_value
extreme high product exclude = do
  best ← gets (λ c. extreme_from high product exclude (slots_of c) none)
  extreme_result best
