-- ===== src/Rewards/Prizes.antt =====
-- `updateRewards` of internal/engine/rewards.go as a whole: what it makes of the score.
use vorax_simulator.Base.{
  ◌*◌, ◌≡◌, refl, subst, sym, ◌∙◌, Bool, List, [], ◌∷◌, All, Option, none, some, ◌⊎◌, inl, inr,
  Bool-cases, arith, if◌then◌else◌,
}
use vorax_simulator.Base.Int.{ℤ, pos, pos_part, ◌≤ℤ◌, ltb_ℤ, leb_ℤ, negsuc, IsInt64, ◌*ℤ◌}
use vorax_simulator.Outcome.{ok, ◌>>=◌, Returns, or_error, numeric_overflow}
use vorax_simulator.Protocol.{Monster, Slot, GameState}
use vorax_simulator.Rewards.{contribution, score_slots, reward_state, update_rewards}
use vorax_simulator.Rewards.Overflow.{contribution_of_iff}
use vorax_simulator.Rewards.Scores.{Scored, Sum, IfSome, IsScored, score_slots-Scored, scores_lem}
use vorax_simulator.Rewards.Jars.{jars_at, paint_jars-jars_at}
use vorax_simulator.Rewards.Claims.{
  ClaimsAfter, claims_after, IsNext, rewards_shown, next_reward-IsNext,
}

-- Both attributes are values of an int64.
abbrev pub HasInt64 : Option Monster → Type 0
HasInt64 none = Unit
HasInt64 (some m) = IsInt64 m.activity × IsInt64 m.quantity

-- The product of the attributes, without wrap-around; 0 without a monster.
abbrev pub product : Option Monster → ℤ
product none = pos 0
product (some m) = m.activity *ℤ m.quantity

-- What is dropped more, in percent.
abbrev pub IsBonus : ℤ → ℤ → Type 0
IsBonus score bonus =
    ((pos 854000 ≤ℤ score) × (bonus ≡ pos 15)) ⊎ ((score ≤ℤ pos 853999) × (bonus ≡ pos 0))

-- The scores; and the rewards of that score: the jars by their thresholds, the bonus, the claims,
-- unlocked if that is asked for, and the first reward that is still open.
pub record IsRewarded (unlock : Bool) (s s' : GameState) : Type 0 where
  pub scored : IsScored s s'
  pub products : All (λ (t : Slot). t.contribution ≡ product t.monster) s'.slots
  pub jars : s'.rewards.jars ≡ jars_at s'.score
  pub bonus : IsBonus s'.score s'.rewards.drop_bonus_percent
  pub claims : ClaimsAfter unlock s'.score s.rewards.tool_claims s'.rewards.tool_claims
  pub next :
      IsNext s'.score s'.rewards.tool_claims rewards_shown
        (s'.rewards.next_threshold, s'.rewards.next_reward_label)

product_of_naturals : (a q : ℤ) → pos 0 ≤ℤ a → pos 0 ≤ℤ q → a *ℤ q ≡ pos (pos_part a * pos_part q)
unfolding ◌*ℤ◌
product_of_naturals (pos a) (pos q) ha hq = grind arith
product_of_naturals (pos a) (negsuc q) ha hq = absurd (ground arith)
product_of_naturals (negsuc a) q ha hq = absurd (ground arith)

product_lem : (o : Option Monster) (x : ℤ) → HasInt64 o → contribution o ≡ some x → x ≡ product o
unfolding contribution
product_lem none x h e = ground arith
product_lem (some m) x (ha, hq) e =
    let (low_a, low_q, fits, known) = (contribution_of_iff m x ha hq).0 e in
    known ∙ sym (product_of_naturals m.activity m.quantity low_a low_q)

products_lem :
    (ss ts : List Slot)
    → Scored ss ts
    → All (λ (s : Slot). HasInt64 s.monster) ss
    → All (λ (t : Slot). t.contribution ≡ product t.monster) ts
products_lem [] [] scored h = tt
products_lem [] (t ∷ ts) scored h = absurd scored
products_lem (s ∷ ss) [] scored h = tt
products_lem (s ∷ ss) (t ∷ ts) (_, same, found, scored) (fits, h) = (
  subst (λ o. t.contribution ≡ product o) (sym same)
      (product_lem s.monster t.contribution fits found),
  products_lem ss ts scored h,
)

bonus_lem : (score : ℤ) → IsBonus score (if leb_ℤ (pos 854000) score then pos 15 else pos 0)
bonus_lem score = elim (Bool-cases (leb_ℤ (pos 854000) score)) [
  | inl much ↦ rw much (inl (ground (arith, much), refl))
  | inr less ↦ rw less (inr (ground (arith, less), refl))
]

rewarded :
    (s : GameState) (unlock : Bool) (o : Option (List Slot × ℤ))
    → All (λ (t : Slot). HasInt64 t.monster) s.slots
    → IfSome (Sum (pos 0) s.slots) o
    → Returns (IsRewarded unlock s) (do
      (slots, score) ← or_error o numeric_overflow
      ok (record s {
        slots = slots;
        score = score;
        peak_score = if ltb_ℤ s.peak_score score then score else s.peak_score;
        rewards = reward_state score unlock s.rewards;
      }))
unfolding reward_state
rewarded s unlock none fits h = tt
rewarded s unlock (some (ts, total)) fits h = record {
  scored = scores_lem s unlock ts total h;
  products = products_lem s.slots ts h.0 fits;
  jars = paint_jars-jars_at total;
  bonus = bonus_lem total;
  claims = claims_after unlock total s.rewards.tool_claims;
  next = next_reward-IsNext total _;
}

-- On a board whose attributes are int64 values, where `update_rewards` gives a state: every monster is
-- in its slot as before; each slot has the product of its monster's attributes, without wrap-around;
-- the score is their sum and lies between 0 and MaxInt64; the peak is at least the score and the peak
-- before; each of the six jars has the colour of its thresholds, and the bonus is 15 percent from
-- 854000 on; a claim keeps its threshold and is pending if it is unlocked now, as before otherwise; the
-- next reward is the first that is neither reached nor unlocked; and what is no score, slot or reward
-- is as it was.
pub update_rewards-IsRewarded :
    (s : GameState) (unlock : Bool)
    → All (λ (t : Slot). HasInt64 t.monster) s.slots
    → Returns (IsRewarded unlock s) (update_rewards s unlock)
unfolding update_rewards
update_rewards-IsRewarded s unlock fits =
    rewarded s unlock (score_slots (pos 0) s.slots) fits
      (score_slots-Scored (pos 0) s.slots (omega arith))
