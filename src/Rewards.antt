-- ===== src/Rewards.antt =====
-- Scores and what they unlock: internal/engine/rewards.go.
pub mod Scores
pub mod Overflow
pub mod Jars
pub mod Claims
pub mod Prizes
use vorax_simulator.Base.{
  ℕ, suc, ◌/◌, ◌-◌, Bool, not, ◌&&◌, ◌||◌, List, [], ◌∷◌, map, Option, none, some, String, ltb, set,
  take, drop, exists_b, if◌then◌else◌,
}
use vorax_simulator.Base.Int.{
  ℤ, pos, pos_part, add_int64, sub_int64, mul_int64, ltb_ℤ, leb_ℤ, eqb_ℤ, max_int64,
}
use vorax_simulator.Outcome.{Outcome, ok, numeric_overflow, ◌>>=◌, or_error}
use vorax_simulator.Protocol.{
  Monster, Slot, ToolClaim, RewardState, GameState, JarColor, empty, jar_white, purple, jar_red,
  rainbow, locked, pending, status_eq,
}

abbrev pub thresholds : List ℤ
thresholds =
    pos 2000
    ∷ pos 8000
    ∷ pos 18000
    ∷ pos 28000
    ∷ pos 38000
    ∷ pos 57000
    ∷ pos 76000
    ∷ pos 114000
    ∷ pos 152000
    ∷ pos 190000
    ∷ pos 266000
    ∷ pos 342000
    ∷ pos 418000
    ∷ pos 512000
    ∷ pos 607000
    ∷ pos 721000
    ∷ pos 854000
    ∷ pos 1120000
    ∷ []

-- `checkedAdd`; `none` is its NUMERIC_OVERFLOW.
unfoldable pub checked_add : ℤ → ℤ → Option ℤ
unfolding add_int64 sub_int64
checked_add a b =
    if ltb_ℤ a (pos 0) || (ltb_ℤ b (pos 0) || ltb_ℤ (sub_int64 (pos max_int64) b) a)
    then none
    else some (add_int64 a b)

-- `contribution` of a monster; `none` is its NUMERIC_OVERFLOW.
unfoldable pub contribution_of : Monster → Option ℤ
unfolding mul_int64
contribution_of m =
    if ltb_ℤ m.activity (pos 0)
      || (ltb_ℤ m.quantity (pos 0)
          || (not (eqb_ℤ m.quantity (pos 0))
              && ltb (max_int64 / pos_part m.quantity) (pos_part m.activity)))
    then none
    else some (mul_int64 m.activity m.quantity)

unfoldable pub contribution : Option Monster → Option ℤ
contribution none = some (pos 0)
contribution (some m) = contribution_of m

-- The loop over the slots: the slots with their contributions, and the sum.
unfoldable pub score_slots : ℤ → List Slot → Option (List Slot × ℤ)
score_slots score [] = some ([], score)
score_slots score (s ∷ ss) = elim (contribution s.monster) [
  | none ↦ none
  | some x ↦ elim (checked_add score x) [
    | none ↦ none
    | some score' ↦ elim (score_slots score' ss) [
      | none ↦ none
      | some (ss', total) ↦ some ((record s { contribution = x }) ∷ ss', total)
    ]
  ]
]

-- The first jars are painted; one for each threshold that the score reaches.
paint : JarColor → ℤ → ℕ → List ℤ → List JarColor → List JarColor
paint color score i [] jars = jars
paint color score i (t ∷ ts) jars =
    paint color score (suc i) ts (if leb_ℤ t score then set jars i color else jars)

abbrev jars_of : JarColor → JarColor → List JarColor
jars_of a b = a ∷ a ∷ a ∷ b ∷ b ∷ b ∷ []

-- `r.Jars` after all its writes.
unfoldable pub paint_jars : ℤ → List JarColor
unfolding paint
paint_jars score =
    let none_yet = jars_of empty empty in
    let whites = if leb_ℤ (pos 2000) score then jars_of jar_white empty else none_yet in
    let all_white = if leb_ℤ (pos 18000) score then jars_of jar_white jar_white else whites in
    let purples = paint purple score 0 (take 6 (drop 4 thresholds)) all_white in
    let reds = paint jar_red score 0 (take 6 (drop 10 thresholds)) purples in
    if leb_ℤ (pos 1120000) score then set reds 0 rainbow else reds

unfoldable pub unlock_claim : ℤ → ToolClaim → ToolClaim
unlock_claim score claim =
    if status_eq claim.status locked && leb_ℤ claim.threshold score
    then record claim { status = pending }
    else claim

already_claimed : ℤ → List ToolClaim → Bool
already_claimed t claims =
    exists_b (λ (c : ToolClaim). eqb_ℤ c.threshold t && not (status_eq c.status locked)) claims

-- The `switch` on the next threshold.
reward_label : ℤ → String
reward_label t =
    if eqb_ℤ t (pos 2000) || eqb_ℤ t (pos 18000)
    then "+3 个白色奖励罐"
    else if eqb_ℤ t (pos 8000) || eqb_ℤ t (pos 28000)
    then "手术用具选择"
    else if leb_ℤ (pos 38000) t && leb_ℤ t (pos 190000)
    then "1 个奖励罐升级为紫色"
    else if leb_ℤ (pos 266000) t && leb_ℤ t (pos 721000)
    then "1 个奖励罐升级为红色"
    else if eqb_ℤ t (pos 854000)
    then "掉落数量 +15%"
    else if eqb_ℤ t (pos 1120000)
    then "1 个奖励罐升级为彩色"
    else "全部奖励已解锁"

-- The loop that looks for the next threshold; it breaks at the first that is open.
unfoldable pub next_reward : ℤ → List ToolClaim → List ℤ → ℤ × String
unfolding already_claimed reward_label
next_reward score claims [] = (pos 0, "全部奖励已解锁")
next_reward score claims (t ∷ ts) =
    if leb_ℤ t score || already_claimed t claims
    then next_reward score claims ts
    else (t, reward_label t)

unfoldable pub reward_state : ℤ → Bool → RewardState → RewardState
unfolding paint_jars unlock_claim next_reward
reward_state score unlock r =
    let claims = if unlock then map (unlock_claim score) r.tool_claims else r.tool_claims in
    let (next, label) = next_reward score claims thresholds in
    record {
      jars = paint_jars score;
      drop_bonus_percent = if leb_ℤ (pos 854000) score then pos 15 else pos 0;
      tool_claims = claims;
      next_threshold = next;
      next_reward_label = label;
    }

-- `updateRewards`
unfoldable pub update_rewards : GameState → Bool → Outcome GameState
unfolding reward_state score_slots
update_rewards s unlock = do
  (slots, score) ← or_error (score_slots (pos 0) s.slots) numeric_overflow
  ok (record s {
    slots = slots;
    score = score;
    peak_score = if ltb_ℤ s.peak_score score then score else s.peak_score;
    rewards = reward_state score unlock s.rewards;
  })
