-- ===== src/Offers/Buckets.antt =====
-- The walk along a list of weights that `potionRarityAt`, `monsterRarityAt` and `toolIndexAt` of
-- internal/engine make alike.
use mathlib.Core.Option
use vorax_simulator.Base.{
  ℕ, zero, suc, ◌+◌, ◌-◌, true, false, List, [], ◌∷◌, Option, none, some, ltb,
}

-- The loop over weights that `potionRarityAt`, `monsterRarityAt` and `toolIndexAt` share: the index of the
-- bucket that a roll falls into.
unfoldable pub bucket_at : ℕ → List ℕ → Option ℕ
bucket_at roll [] = none
bucket_at roll (w ∷ ws) = elim (ltb roll w) [
  | true ↦ some zero
  | false ↦ Option.map suc (bucket_at (roll - w) ws)
]

unfoldable pub sum_weights : List ℕ → ℕ
sum_weights [] = 0
sum_weights (w ∷ ws) = w + sum_weights ws
