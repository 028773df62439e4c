-- ===== src/Rewards/Scores.antt =====
-- What `updateRewards` of internal/engine/rewards.go computes.
use vorax_simulator.Base.{
  ◌≡◌, refl, subst, Bool, List, [], ◌∷◌, Option, none, some, arith, Option-cases, inl, inr,
  if◌then◌else◌,
}
use vorax_simulator.Base.Int.{ℤ, pos, ◌≤ℤ◌, ◌+ℤ◌, ltb_ℤ, InRange, IsInt64}
use vorax_simulator.Outcome.{ok, ◌>>=◌, Returns, or_error, numeric_overflow}
use vorax_simulator.Protocol.{Monster, Slot, GameState, RewardState}
use vorax_simulator.Rewards.{checked_add, contribution, score_slots, update_rewards, reward_state}
use vorax_simulator.Rewards.Overflow.{checked_add_iff, checked_add-InRange, contribution_of-IsInt64}

-- The slots after scoring: the same monsters, each with its contribution.
abbrev pub Scored : List Slot → List Slot → Type 0
Scored [] [] = Unit
Scored [] (t ∷ ts) = ⊥
Scored (s ∷ ss) [] = ⊥
Scored (s ∷ ss) (t ∷ ts) =
    (t.index ≡ s.index)
    × (t.monster ≡ s.monster)
    × (contribution s.monster ≡ some t.contribution)
    × Scored ss ts

-- A number and the contributions, added up.
abbrev pub total_from : ℤ → List Slot → ℤ
total_from score [] = score
total_from score (t ∷ ts) = total_from (score +ℤ t.contribution) ts

contribution-IsInt64 : (o : Option Monster) (x : ℤ) → contribution o ≡ some x → IsInt64 x
unfolding contribution
contribution-IsInt64 none x h = ground arith
contribution-IsInt64 (some m) x h = contribution_of-IsInt64 m x h

checked_add-sum :
    (a b v : ℤ) → InRange a → IsInt64 b → checked_add a b ≡ some v → (v ≡ a +ℤ b) × InRange v
checked_add-sum a b v ha hb h =
    let word_a : IsInt64 a = ground (arith, ha) in
    (((checked_add_iff a b v word_a hb).0 h).3, checked_add-InRange a b v h)

abbrev pub IfSome : {A : Type 0} → (A → Type 0) → Option A → Type 0
IfSome Q none = Unit
IfSome Q (some a) = Q a

abbrev pub Sum : ℤ → List Slot → List Slot × ℤ → Type 0
Sum score ss (ts, total) = Scored ss ts × (total ≡ total_from score ts) × InRange total

with_slot :
    (score x : ℤ) (s : Slot) (ss : List Slot) (o : Option (List Slot × ℤ))
    → contribution s.monster ≡ some x
    → IfSome (Sum (score +ℤ x) ss) o
    → IfSome (Sum score (s ∷ ss)) (elim o [
      | none ↦ none
      | some (ss', total) ↦ some ((record s { contribution = x }) ∷ ss', total)
    ])
with_slot score x s ss none found h = tt
with_slot score x s ss (some (ts, total)) found (scored, sum, range) =
    ((refl, refl, found, scored), sum, range)

pub score_slots-Scored :
    (score : ℤ) (ss : List Slot) → InRange score → IfSome (Sum score ss) (score_slots score ss)
unfolding score_slots
score_slots-Scored score [] range = (tt, refl, range)
score_slots-Scored score (s ∷ ss) range = elim (Option-cases (contribution s.monster)) [
  | inl failed ↦ rw (IfSome, score_slots, failed) tt
  | inr (x, found) ↦
      rw (IfSome, score_slots, found)
        (elim (Option-cases (checked_add score x)) [
          | inl failed ↦ rw (IfSome, score_slots, failed) tt
          | inr (score', added) ↦
              let (sum, inside) =
                checked_add-sum score x score' range (contribution-IsInt64 s.monster x found)
                  added in
              rw (IfSome, score_slots, added, sum)
                (with_slot score x s ss (score_slots (score +ℤ x) ss) found
                  (score_slots-Scored (score +ℤ x) ss (subst (λ v. InRange v) sum inside)))
        ])
]

-- A state without what scoring writes.
abbrev pub outside_scores : GameState → RewardState → GameState
outside_scores s none_yet = record s {
  slots = [];
  score = pos 0;
  peak_score = pos 0;
  rewards = none_yet;
}

-- Only slots, scores and rewards differ; the same monsters are in the same slots, each slot with its
-- contribution; the score is their sum, within an int64, and the peak no lower than before or than the
-- score.
pub record IsScored (s s' : GameState) : Type 0 where
  pub rest : outside_scores s' s.rewards ≡ outside_scores s s.rewards
  pub slots : Scored s.slots s'.slots
  pub sum : s'.score ≡ total_from (pos 0) s'.slots
  pub range : InRange s'.score
  pub peak_kept : s.peak_score ≤ℤ s'.peak_score
  pub peak_reached : s'.score ≤ℤ s'.peak_score

peak_reached_lem :
    (peak score : ℤ)
    → (peak ≤ℤ (if ltb_ℤ peak score then score else peak))
      × (score ≤ℤ (if ltb_ℤ peak score then score else peak))
peak_reached_lem peak score = ground arith

pub scores_lem :
    (s : GameState) (unlock : Bool) (ts : List Slot) (total : ℤ)
    → Sum (pos 0) s.slots (ts, total)
    → IsScored s (record s {
      slots = ts;
      score = total;
      peak_score = if ltb_ℤ s.peak_score total then total else s.peak_score;
      rewards = reward_state total unlock s.rewards;
    })
scores_lem s unlock ts total (scored, sum, range) = record {
  rest = refl;
  slots = scored;
  sum = sum;
  range = range;
  peak_kept = (peak_reached_lem s.peak_score total).0;
  peak_reached = (peak_reached_lem s.peak_score total).1;
}

update_ok :
    (s : GameState) (unlock : Bool) (o : Option (List Slot × ℤ))
    → IfSome (Sum (pos 0) s.slots) o
    → Returns (IsScored s) (do
      (slots, score) ← or_error o numeric_overflow
      ok (record s {
        slots = slots;
        score = score;
        peak_score = if ltb_ℤ s.peak_score score then score else s.peak_score;
        rewards = reward_state score unlock s.rewards;
      }))
update_ok s unlock none h = tt
update_ok s unlock (some (ts, total)) h = scores_lem s unlock ts total h

-- The scores of a state that `update_rewards` gives.
pub update_rewards-IsScored :
    (s : GameState) (unlock : Bool) → Returns (IsScored s) (update_rewards s unlock)
unfolding update_rewards
update_rewards-IsScored s unlock =
    update_ok s unlock (score_slots (pos 0) s.slots)
      (score_slots-Scored (pos 0) s.slots (omega arith))
