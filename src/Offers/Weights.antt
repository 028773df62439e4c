-- ===== src/Offers/Weights.antt =====
-- The weighted draws of internal/engine: the walk along the weights, and the weights of the first tool
-- offer.
use vorax_simulator.Base.{
  ℕ, zero, suc, ◌+◌, ◌-◌, ◌*◌, ◌<◌, ◌≡◌, refl, Bool, true, not, List, [], ◌∷◌, map, some, arith,
  ltb, length, if◌then◌else◌, Bool-cases, inl, inr,
}
use vorax_simulator.Base.Int.{ℤ, eqb_ℤ}
use vorax_simulator.Protocol.{CardDefinition}
use vorax_simulator.Offers.Buckets.{bucket_at, sum_weights}
use vorax_simulator.Offers.Opening.{matching_count, opening_weight, opening_tool_weights}

-- A roll below the sum of the weights falls into one of their buckets; `toolIndexAt` then does not give
-- -1, and `potionRarityAt` and `monsterRarityAt` do not take their fallbacks.
pub bucket_at-lt :
    (roll : ℕ) (ws : List ℕ)
    → roll < sum_weights ws
    → (i : ℕ) × (bucket_at roll ws ≡ some i) × (i < length ws)
unfolding bucket_at sum_weights
bucket_at-lt roll [] h = absurd (omega (arith, h))
bucket_at-lt roll (w ∷ ws) h = elim (Bool-cases (ltb roll w)) [
  | inl here ↦ (zero, rw (bucket_at, here), omega arith)
  | inr there ↦
      let below : roll - w < sum_weights ws = ground (arith, h, there) in
      let (i, found, inside) = bucket_at-lt (roll - w) ws below in
      (suc i, rw (bucket_at, there, found), omega (arith, inside))
]

-- The weights of the cards that pass a test, added up.
abbrev pub picked_weight : (CardDefinition → Bool) → List CardDefinition → List ℕ → ℕ
picked_weight p [] ws = 0
picked_weight p (c ∷ cs) [] = 0
picked_weight p (c ∷ cs) (w ∷ ws) = (if p c then w else 0) + picked_weight p cs ws

-- The numbers of cards with the family and of the others.
abbrev others_of : ℤ → List CardDefinition → ℕ
others_of family [] = 0
others_of family (c ∷ cs) = (if eqb_ℤ c.core_family family then 0 else 1) + others_of family cs

others_count :
    (family : ℤ) (cs : List CardDefinition)
    → matching_count family cs + others_of family cs ≡ length cs
unfolding matching_count
others_count family [] = refl
others_count family (c ∷ cs) = elim (Bool-cases (eqb_ℤ c.core_family family)) [
  | inl same ↦ let h = others_count family cs in rw same (omega (arith, h))
  | inr different ↦ rw different (let h = others_count family cs in omega (arith, h))
]

one_more : (k x : ℕ) → x + k * x ≡ (1 + k) * x
one_more k x = grind arith

count_suc : (k x : ℕ) → x + k * x ≡ suc k * x
count_suc k x = grind arith

none_more : (k x : ℕ) → 0 + k * x ≡ (0 + k) * x
none_more k x = grind arith

module _ (family : ℤ) (m o : ℕ) (some_match : 0 < m) (some_other : 0 < o) where
  matching_weight :
      (cs : List CardDefinition)
      → picked_weight (λ c. eqb_ℤ c.core_family family) cs (map (opening_weight family m o) cs)
        ≡ matching_count family cs * (11 * o)
  unfolding matching_count opening_weight
  matching_weight [] = omega arith
  matching_weight (c ∷ cs) =
      let h = matching_weight cs in
      let p : ltb 0 m ≡ true = ground (arith, some_match) in
      let q : ltb 0 o ≡ true = ground (arith, some_other) in
      elim (Bool-cases (eqb_ℤ c.core_family family)) [
        | inl same ↦ rw (same, p, q, h) (count_suc (matching_count family cs) (11 * o))
        | inr different ↦ rw (different, h) (omega arith)
      ]

  other_weight :
      (cs : List CardDefinition)
      → picked_weight
          (λ c. not (eqb_ℤ c.core_family family))
          cs
          (map (opening_weight family m o) cs)
        ≡ others_of family cs * (9 * m)
  unfolding opening_weight
  other_weight [] = omega arith
  other_weight (c ∷ cs) =
      let h = other_weight cs in
      let p : ltb 0 m ≡ true = ground (arith, some_match) in
      let q : ltb 0 o ≡ true = ground (arith, some_other) in
      elim (Bool-cases (eqb_ℤ c.core_family family)) [
        | inl same ↦ rw (same, h) (none_more (others_of family cs) (9 * m))
        | inr different ↦ rw (different, p, q, h) (one_more (others_of family cs) (9 * m))
      ]

ratio : (m o : ℕ) → 9 * (m * (11 * o)) ≡ 11 * (o * (9 * m))
ratio m o = grind arith

-- Where the pool holds at least one card of the family and at least one other, the sum of the weights
-- of the former and that of the latter stand eleven to nine, however many cards of each there are.
pub opening_tool_weights-ratio :
    (pool : List CardDefinition) (family : ℤ)
    → 0 < matching_count family pool
    → matching_count family pool < length pool
    → 9 * picked_weight (λ c. eqb_ℤ c.core_family family) pool (opening_tool_weights pool family)
      ≡ 11
        * picked_weight
            (λ c. not (eqb_ℤ c.core_family family))
            pool
            (opening_tool_weights pool family)
unfolding opening_tool_weights
opening_tool_weights-ratio pool family some_match some_other =
    let m = matching_count family pool in
    let o = length pool - m in
    let counts : others_of family pool ≡ o =
      (let h = others_count family pool in omega (arith, h)) in
    rw
      (
        matching_weight family m o some_match (omega (arith, some_other)) pool,
        other_weight family m o some_match (omega (arith, some_other)) pool,
        counts,
      )
      (ratio m o)
