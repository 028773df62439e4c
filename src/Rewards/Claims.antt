-- ===== src/Rewards/Claims.antt =====
-- The claims and the next reward that `updateRewards` of internal/engine/rewards.go writes.
use vorax_simulator.Base.{
  ◌≡◌, refl, ap, subst, ◌⊎◌, inl, inr, Bool, true, false, not, ◌&&◌, ◌||◌, List, [], ◌∷◌, ◌++◌, map,
  All, String, arith, Bool-cases, if◌then◌else◌,
}
use vorax_simulator.Base.Int.{ℤ, pos, ◌≤ℤ◌, leb_ℤ, eqb_ℤ, eqb_ℤ_iff}
use vorax_simulator.Protocol.{ToolClaim, ClaimStatus, locked, pending, claimed, status_eq}
use vorax_simulator.Rewards.{thresholds, unlock_claim, already_claimed, reward_label, next_reward}

-- A claim is unlocked where it is locked and its threshold is reached.
abbrev pub Opens : ℤ → ToolClaim → Type 0
Opens score c = (c.status ≡ locked) × (c.threshold ≤ℤ score)

-- The claims after unlocking: the same thresholds, pending where a claim is unlocked, and otherwise as
-- before.
abbrev pub Unlocked : ℤ → List ToolClaim → List ToolClaim → Type 0
Unlocked score [] [] = Unit
Unlocked score [] (d ∷ ds) = ⊥
Unlocked score (c ∷ cs) [] = ⊥
Unlocked score (c ∷ cs) (d ∷ ds) =
    (d.threshold ≡ c.threshold)
    × ((Opens score c × (d.status ≡ pending)) ⊎ (¬ (Opens score c) × (d.status ≡ c.status)))
    × Unlocked score cs ds

status_eq-locked : (st : ClaimStatus) → status_eq st locked ≡ true → st ≡ locked
status_eq-locked locked h = refl
status_eq-locked pending h = absurd (ground arith)
status_eq-locked claimed h = absurd (ground arith)

open_shut :
    (score t : ℤ) (st : ClaimStatus)
    → (status_eq st locked && leb_ℤ t score) ≡ false
    → (st ≡ locked) × (t ≤ℤ score)
    → ⊥
open_shut score t st shut (same, reached) =
    let still : (status_eq locked locked && leb_ℤ t score) ≡ false =
      subst (λ x. (status_eq x locked && leb_ℤ t score) ≡ false) same shut in
    ground (arith, still, reached)

opens_cases :
    (score t : ℤ) (st : ClaimStatus)
    → (((status_eq st locked && leb_ℤ t score) ≡ true) × (st ≡ locked) × (t ≤ℤ score))
      ⊎ (((status_eq st locked && leb_ℤ t score) ≡ false) × ¬ ((st ≡ locked) × (t ≤ℤ score)))
opens_cases score t st = elim (Bool-cases (status_eq st locked && leb_ℤ t score)) [
  | inl opens ↦ inl (opens, status_eq-locked st (ground (arith, opens)), ground (arith, opens))
  | inr shut ↦ inr (shut, λ h. open_shut score t st shut h)
]

unlocked_lem :
    (score : ℤ) (claims : List ToolClaim) → Unlocked score claims (map (unlock_claim score) claims)
unfolding unlock_claim
unlocked_lem score [] = tt
unlocked_lem score (c ∷ cs) = elim (opens_cases score c.threshold c.status) [
  | inl (opens, same, reached) ↦ rw opens (refl, inl ((same, reached), refl), unlocked_lem score cs)
  | inr (shut, known) ↦ rw shut (refl, inr (known, refl), unlocked_lem score cs)
]

-- The claims after scoring, with unlocking or without.
abbrev pub ClaimsAfter : Bool → ℤ → List ToolClaim → List ToolClaim → Type 0
ClaimsAfter true score cs ds = Unlocked score cs ds
ClaimsAfter false score cs ds = ds ≡ cs

pub claims_after :
    (unlock : Bool) (score : ℤ) (claims : List ToolClaim)
    → ClaimsAfter unlock score claims (if unlock then map (unlock_claim score) claims else claims)
claims_after true score claims = unlocked_lem score claims
claims_after false score claims = refl

-- A threshold whose reward was already unlocked.
abbrev pub Taken : ℤ → List ToolClaim → Type 0
Taken t [] = ⊥
Taken t (c ∷ cs) = ((c.threshold ≡ t) × ¬ (c.status ≡ locked)) ⊎ Taken t cs

abbrev pub Past : ℤ → List ToolClaim → ℤ × String → Type 0
Past score claims (t, label) = (t ≤ℤ score) ⊎ Taken t claims

-- The rewards of the thresholds, as the player reads them.
abbrev pub rewards_shown : List (ℤ × String)
rewards_shown =
    (pos 2000, "+3 个白色奖励罐")
    ∷ (pos 8000, "手术用具选择")
    ∷ (pos 18000, "+3 个白色奖励罐")
    ∷ (pos 28000, "手术用具选择")
    ∷ (pos 38000, "1 个奖励罐升级为紫色")
    ∷ (pos 57000, "1 个奖励罐升级为紫色")
    ∷ (pos 76000, "1 个奖励罐升级为紫色")
    ∷ (pos 114000, "1 个奖励罐升级为紫色")
    ∷ (pos 152000, "1 个奖励罐升级为紫色")
    ∷ (pos 190000, "1 个奖励罐升级为紫色")
    ∷ (pos 266000, "1 个奖励罐升级为红色")
    ∷ (pos 342000, "1 个奖励罐升级为红色")
    ∷ (pos 418000, "1 个奖励罐升级为红色")
    ∷ (pos 512000, "1 个奖励罐升级为红色")
    ∷ (pos 607000, "1 个奖励罐升级为红色")
    ∷ (pos 721000, "1 个奖励罐升级为红色")
    ∷ (pos 854000, "掉落数量 +15%")
    ∷ (pos 1120000, "1 个奖励罐升级为彩色")
    ∷ []

-- The next reward is the first of these that is not past; where all are, there is none.
pub data IsNext (score : ℤ) (claims : List ToolClaim) (rewards : List (ℤ × String))
    : ℤ × String → Type 0 where
  all_past : All (Past score claims) rewards → IsNext score claims rewards (pos 0, "全部奖励已解锁")
  first_open :
      (before after : List (ℤ × String)) (reward : ℤ × String)
      → rewards ≡ before ++ reward ∷ after
      → All (Past score claims) before
      → ¬ (Past score claims reward)
      → IsNext score claims rewards reward

taken_here :
    (t : ℤ) (c : ToolClaim)
    → (eqb_ℤ c.threshold t && not (status_eq c.status locked)) ≡ true
    → ¬ (c.status ≡ locked)
taken_here t c h same =
    let now : (eqb_ℤ c.threshold t && not (status_eq locked locked)) ≡ true =
      subst (λ x. (eqb_ℤ c.threshold t && not (status_eq x locked)) ≡ true) same h in
    ground (arith, now)

already_claimed_lem :
    (t : ℤ) (claims : List ToolClaim)
    → (already_claimed t claims ≡ true → Taken t claims)
      × (already_claimed t claims ≡ false → ¬ (Taken t claims))
unfolding already_claimed
already_claimed_lem t [] = (λ h. absurd (ground arith), λ h k. k)
already_claimed_lem t (c ∷ cs) =
    let (some_taken, none_taken) = already_claimed_lem t cs in
    elim (Bool-cases (eqb_ℤ c.threshold t && not (status_eq c.status locked))) [
      | inl here ↦ (
        λ h. inl (ground (arith, eqb_ℤ_iff c.threshold t, here), taken_here t c here),
        λ h k. absurd (ground (arith, h, here)),
      )
      | inr other ↦ (
        λ h. inr (some_taken (ground (arith, h, other))),
        λ h k. elim k [
          | inl (same, freed) ↦
              freed (
                status_eq-locked c.status (ground (arith, other, (eqb_ℤ_iff c.threshold t).1 same)))
          | inr later ↦ none_taken (ground (arith, h, other)) later
        ],
      )
    ]

past_lem :
    (score t : ℤ) (claims : List ToolClaim)
    → (leb_ℤ t score || already_claimed t claims) ≡ true
    → (t ≤ℤ score) ⊎ Taken t claims
past_lem score t claims h = elim (Bool-cases (leb_ℤ t score)) [
  | inl reached ↦ inl (ground (arith, reached))
  | inr not_yet ↦ inr ((already_claimed_lem t claims).0 (ground (arith, h, not_yet)))
]

ahead_lem :
    (score t : ℤ) (claims : List ToolClaim)
    → (leb_ℤ t score || already_claimed t claims) ≡ false
    → (t ≤ℤ score) ⊎ Taken t claims
    → ⊥
ahead_lem score t claims h (inl reached) = ground (arith, h, reached)
ahead_lem score t claims h (inr taken) = (already_claimed_lem t claims).1 (ground (arith, h)) taken

later :
    (score : ℤ) (claims : List ToolClaim) (reward : ℤ × String) (rest : List (ℤ × String))
    (next : ℤ × String)
    → Past score claims reward
    → IsNext score claims rest next
    → IsNext score claims (reward ∷ rest) next
later score claims reward rest _ past (all_past h) = all_past (past, h)
later score claims reward rest _ past (first_open before after next e h ahead) =
    first_open (reward ∷ before) after next (ap (λ xs. reward ∷ xs) e) (past, h) ahead

first_lem :
    (score : ℤ) (claims : List ToolClaim) (rewards : List (ℤ × String))
    → All (λ x. reward_label x.0 ≡ x.1) rewards
    → IsNext score claims rewards (next_reward score claims (map (λ x. x.0) rewards))
unfolding next_reward
first_lem score claims [] h = all_past tt
first_lem score claims ((t, label) ∷ rest) (same, h) =
    elim (Bool-cases (leb_ℤ t score || already_claimed t claims)) [
      | inl past ↦ rw past (
          later score claims (t, label) rest _ (past_lem score t claims past)
            (first_lem score claims rest h))
      | inr ahead ↦
          rw (ahead, same) (first_open [] rest (t, label) refl tt (ahead_lem score t claims ahead))
    ]

pub next_reward-IsNext :
    (score : ℤ) (claims : List ToolClaim)
    → IsNext score claims rewards_shown (next_reward score claims thresholds)
unfolding reward_label
next_reward-IsNext score claims = first_lem score claims rewards_shown (
    (
      refl,
      (
        refl,
        (
          refl,
          (
            refl,
            (
              refl,
              (
                refl,
                (
                  refl,
                  (
                    refl,
                    (
                      refl,
                      (refl, (refl, (refl, (refl, (refl, (refl, (refl, (refl, (refl, tt))))))))),
                    ),
                  ),
                ),
              ),
            ),
          ),
        ),
      ),
    ))
