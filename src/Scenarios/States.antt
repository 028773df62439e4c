-- ===== src/Scenarios/States.antt =====
-- A test of states for equality, for runs of the service at concrete inputs.
use vorax_simulator.Base.{
  ℕ, zero, suc, ◌≡◌, refl, ap, sym, ◌∙◌, String, Bool, true, false, ◌&&◌, ◌==◌, List, [], ◌∷◌,
  Option, none, some, str_eq, str_eq_iff, arith,
}
use vorax_simulator.Base.Int.{ℤ, eqb_ℤ, eqb_ℤ_iff}
use vorax_simulator.Protocol.{
  GameState, Slot, Monster, ToolClaim, RewardState, Offer, Phase, CardKind, ClaimStatus, JarColor,
  phase_unspecified, preparing, choosing, finished, card_kind_unspecified, unknown, potion, tool,
  scheme, locked, pending, claimed, empty, jar_white, purple, jar_red, rainbow, phase_eq, kind_eq,
  status_eq, phase_number, card_kind_number, status_number,
}

both : (a b : Bool) → (a && b) ≡ true → (a ≡ true) × (b ≡ true)
both a b h = ground arith

module _ {A : Type 0} (same : A → A → Bool) where
  unfoldable list_same : List A → List A → Bool
  list_same [] [] = true
  list_same [] (y ∷ ys) = false
  list_same (x ∷ xs) [] = false
  list_same (x ∷ xs) (y ∷ ys) = same x y && list_same xs ys

  unfoldable option_same : Option A → Option A → Bool
  option_same none none = true
  option_same none (some y) = false
  option_same (some x) none = false
  option_same (some x) (some y) = same x y

  module _ (sound : (x y : A) → same x y ≡ true → x ≡ y) where
    list_sound : (xs ys : List A) → list_same xs ys ≡ true → xs ≡ ys
    unfolding list_same
    list_sound [] [] h = refl
    list_sound [] (y ∷ ys) h = absurd (ground arith)
    list_sound (x ∷ xs) [] h = absurd (ground arith)
    list_sound (x ∷ xs) (y ∷ ys) h =
        let (p, q) = both (same x y) (list_same xs ys) h in
        λ i. sound x y p i ∷ list_sound xs ys q i

    option_sound : (x y : Option A) → option_same x y ≡ true → x ≡ y
    unfolding option_same
    option_sound none none h = refl
    option_sound none (some y) h = absurd (ground arith)
    option_sound (some x) none h = absurd (ground arith)
    option_sound (some x) (some y) h = ap (λ z. some z) (sound x y h)

abbrev nat_same : ℕ → ℕ → Bool
nat_same a b = a == b

nat_sound : (a b : ℕ) → nat_same a b ≡ true → a ≡ b
nat_sound a b h = ground arith

str_eq_sound : (a b : String) → str_eq a b ≡ true → a ≡ b
str_eq_sound a b = (str_eq_iff a b).0

eqb_ℤ_sound : (a b : ℤ) → eqb_ℤ a b ≡ true → a ≡ b
eqb_ℤ_sound a b = (eqb_ℤ_iff a b).0

abbrev jar_number : JarColor → ℕ
jar_number empty = 0
jar_number jar_white = 1
jar_number purple = 2
jar_number jar_red = 3
jar_number rainbow = 4

abbrev jar_same : JarColor → JarColor → Bool
jar_same a b = jar_number a == jar_number b

abbrev status_of : ℕ → ClaimStatus
status_of zero = locked
status_of (suc zero) = pending
status_of _ = claimed

status_back : (a : ClaimStatus) → status_of (status_number a) ≡ a
status_back locked = refl
status_back pending = refl
status_back claimed = refl

status_sound : (a b : ClaimStatus) → status_eq a b ≡ true → a ≡ b
status_sound a b h =
    let same : status_number a ≡ status_number b = ground arith in
    sym (status_back a) ∙ ap status_of same ∙ status_back b

abbrev kind_of : ℕ → CardKind
kind_of zero = card_kind_unspecified
kind_of (suc zero) = unknown
kind_of (suc (suc zero)) = potion
kind_of (suc (suc (suc zero))) = tool
kind_of _ = scheme

kind_back : (a : CardKind) → kind_of (card_kind_number a) ≡ a
kind_back card_kind_unspecified = refl
kind_back unknown = refl
kind_back potion = refl
kind_back tool = refl
kind_back scheme = refl

kind_sound : (a b : CardKind) → kind_eq a b ≡ true → a ≡ b
kind_sound a b h =
    let same : card_kind_number a ≡ card_kind_number b = ground arith in
    sym (kind_back a) ∙ ap kind_of same ∙ kind_back b

abbrev phase_of : ℕ → Phase
phase_of zero = phase_unspecified
phase_of (suc zero) = preparing
phase_of (suc (suc zero)) = choosing
phase_of _ = finished

phase_back : (a : Phase) → phase_of (phase_number a) ≡ a
phase_back phase_unspecified = refl
phase_back preparing = refl
phase_back choosing = refl
phase_back finished = refl

phase_sound : (a b : Phase) → phase_eq a b ≡ true → a ≡ b
phase_sound a b h =
    let same : phase_number a ≡ phase_number b = ground arith in
    sym (phase_back a) ∙ ap phase_of same ∙ phase_back b

abbrev jar_of : ℕ → JarColor
jar_of zero = empty
jar_of (suc zero) = jar_white
jar_of (suc (suc zero)) = purple
jar_of (suc (suc (suc zero))) = jar_red
jar_of _ = rainbow

jar_back : (a : JarColor) → jar_of (jar_number a) ≡ a
jar_back empty = refl
jar_back jar_white = refl
jar_back purple = refl
jar_back jar_red = refl
jar_back rainbow = refl

jar_sound : (a b : JarColor) → jar_same a b ≡ true → a ≡ b
jar_sound a b h =
    let same : jar_number a ≡ jar_number b = ground arith in
    sym (jar_back a) ∙ ap jar_of same ∙ jar_back b

unfoldable monster_same : Monster → Monster → Bool
monster_same a b =
    str_eq a.id b.id
    && (str_eq a.definition_id b.definition_id
        && (eqb_ℤ a.family b.family
            && (eqb_ℤ a.rarity b.rarity
                && (eqb_ℤ a.activity b.activity
                    && (eqb_ℤ a.quantity b.quantity && (str_eq a.name b.name))))))

monster_sound : (a b : Monster) → monster_same a b ≡ true → a ≡ b
unfolding monster_same
monster_sound a b h =
    let (p0, r0) = both _ _ h in
    let (p1, r1) = both _ _ r0 in
    let (p2, r2) = both _ _ r1 in
    let (p3, r3) = both _ _ r2 in
    let (p4, r4) = both _ _ r3 in
    let (p5, r5) = both _ _ r4 in
    λ i. record {
      id = str_eq_sound a.id b.id p0 i;
      definition_id = str_eq_sound a.definition_id b.definition_id p1 i;
      family = eqb_ℤ_sound a.family b.family p2 i;
      rarity = eqb_ℤ_sound a.rarity b.rarity p3 i;
      activity = eqb_ℤ_sound a.activity b.activity p4 i;
      quantity = eqb_ℤ_sound a.quantity b.quantity p5 i;
      name = str_eq_sound a.name b.name r5 i;
    }

unfoldable slot_same : Slot → Slot → Bool
unfolding monster_same option_same
slot_same a b =
    nat_same a.index b.index
    && (option_same monster_same a.monster b.monster && (eqb_ℤ a.contribution b.contribution))

slot_sound : (a b : Slot) → slot_same a b ≡ true → a ≡ b
unfolding slot_same
slot_sound a b h =
    let (p0, r0) = both _ _ h in
    let (p1, r1) = both _ _ r0 in
    λ i. record {
      index = nat_sound a.index b.index p0 i;
      monster = option_sound monster_same monster_sound a.monster b.monster p1 i;
      contribution = eqb_ℤ_sound a.contribution b.contribution r1 i;
    }

unfoldable claim_same : ToolClaim → ToolClaim → Bool
claim_same a b = eqb_ℤ a.threshold b.threshold && (status_eq a.status b.status)

claim_sound : (a b : ToolClaim) → claim_same a b ≡ true → a ≡ b
unfolding claim_same
claim_sound a b h =
    let (p0, r0) = both _ _ h in
    λ i. record {
      threshold = eqb_ℤ_sound a.threshold b.threshold p0 i;
      status = status_sound a.status b.status r0 i;
    }

unfoldable rewards_same : RewardState → RewardState → Bool
unfolding claim_same list_same
rewards_same a b =
    list_same jar_same a.jars b.jars
    && (eqb_ℤ a.drop_bonus_percent b.drop_bonus_percent
        && (list_same claim_same a.tool_claims b.tool_claims
            && (eqb_ℤ a.next_threshold b.next_threshold
                && (str_eq a.next_reward_label b.next_reward_label))))

rewards_sound : (a b : RewardState) → rewards_same a b ≡ true → a ≡ b
unfolding rewards_same
rewards_sound a b h =
    let (p0, r0) = both _ _ h in
    let (p1, r1) = both _ _ r0 in
    let (p2, r2) = both _ _ r1 in
    let (p3, r3) = both _ _ r2 in
    λ i. record {
      jars = list_sound jar_same jar_sound a.jars b.jars p0 i;
      drop_bonus_percent = eqb_ℤ_sound a.drop_bonus_percent b.drop_bonus_percent p1 i;
      tool_claims = list_sound claim_same claim_sound a.tool_claims b.tool_claims p2 i;
      next_threshold = eqb_ℤ_sound a.next_threshold b.next_threshold p3 i;
      next_reward_label = str_eq_sound a.next_reward_label b.next_reward_label r3 i;
    }

unfoldable offer_same : Offer → Offer → Bool
unfolding list_same
offer_same a b =
    str_eq a.id b.id
    && (kind_eq a.kind b.kind
        && (list_same str_eq a.card_ids b.card_ids
            && (str_eq a.source b.source && (eqb_ℤ a.reward_threshold b.reward_threshold))))

offer_sound : (a b : Offer) → offer_same a b ≡ true → a ≡ b
unfolding offer_same
offer_sound a b h =
    let (p0, r0) = both _ _ h in
    let (p1, r1) = both _ _ r0 in
    let (p2, r2) = both _ _ r1 in
    let (p3, r3) = both _ _ r2 in
    λ i. record {
      id = str_eq_sound a.id b.id p0 i;
      kind = kind_sound a.kind b.kind p1 i;
      card_ids = list_sound str_eq str_eq_sound a.card_ids b.card_ids p2 i;
      source = str_eq_sound a.source b.source p3 i;
      reward_threshold = eqb_ℤ_sound a.reward_threshold b.reward_threshold r3 i;
    }

unfoldable state_same1 : GameState → GameState → Bool
unfolding list_same offer_same option_same rewards_same slot_same
state_same1 a b =
    str_eq a.run_id b.run_id
    && (str_eq a.user_id b.user_id
        && (nat_same a.revision b.revision
            && (nat_same a.format_version b.format_version
                && (str_eq a.rules_version b.rules_version
                    && (str_eq a.content_version b.content_version
                        && (str_eq a.rng_version b.rng_version))))))

unfoldable state_same2 : GameState → GameState → Bool
unfolding list_same offer_same option_same rewards_same slot_same
state_same2 a b =
    str_eq a.seed b.seed
    && (phase_eq a.phase b.phase
        && (eqb_ℤ a.base_cursor b.base_cursor
            && (eqb_ℤ a.completed_turns b.completed_turns
                && (list_same slot_same a.slots b.slots
                    && (list_same str_eq a.tools b.tools
                        && (option_same offer_same a.offer b.offer))))))

unfoldable state_same3 : GameState → GameState → Bool
unfolding list_same offer_same option_same rewards_same slot_same
state_same3 a b =
    eqb_ℤ a.potion_refreshes b.potion_refreshes
    && (eqb_ℤ a.tool_refreshes b.tool_refreshes
        && (eqb_ℤ a.initial_pet_refreshes b.initial_pet_refreshes
            && (rewards_same a.rewards b.rewards
                && (eqb_ℤ a.score b.score
                    && (eqb_ℤ a.peak_score b.peak_score && (nat_same a.init_rng b.init_rng))))))

unfoldable state_same4 : GameState → GameState → Bool
unfolding list_same offer_same option_same rewards_same slot_same
state_same4 a b =
    nat_same a.offer_rng b.offer_rng
    && (nat_same a.effect_rng b.effect_rng
        && (nat_same a.next_monster_id b.next_monster_id
            && (nat_same a.next_offer_id b.next_offer_id
                && (eqb_ℤ a.opening_tool_family b.opening_tool_family))))

unfoldable pub state_same : GameState → GameState → Bool
unfolding state_same1 state_same2 state_same3 state_same4
state_same a b = state_same1 a b && (state_same2 a b && (state_same3 a b && (state_same4 a b)))

pub state_sound : (a b : GameState) → state_same a b ≡ true → a ≡ b
unfolding state_same state_same1 state_same2 state_same3 state_same4
state_sound a b h =
    let (c0, d0) = both (state_same1 a b) _ h in
    let (p0, r0) = both _ _ c0 in
    let (p1, r1) = both _ _ r0 in
    let (p2, r2) = both _ _ r1 in
    let (p3, r3) = both _ _ r2 in
    let (p4, r4) = both _ _ r3 in
    let (p5, r5) = both _ _ r4 in
    let (c1, d1) = both (state_same2 a b) _ d0 in
    let (p7, r7) = both _ _ c1 in
    let (p8, r8) = both _ _ r7 in
    let (p9, r9) = both _ _ r8 in
    let (p10, r10) = both _ _ r9 in
    let (p11, r11) = both _ _ r10 in
    let (p12, r12) = both _ _ r11 in
    let (c2, d2) = both (state_same3 a b) _ d1 in
    let (p14, r14) = both _ _ c2 in
    let (p15, r15) = both _ _ r14 in
    let (p16, r16) = both _ _ r15 in
    let (p17, r17) = both _ _ r16 in
    let (p18, r18) = both _ _ r17 in
    let (p19, r19) = both _ _ r18 in
    let (p21, r21) = both _ _ d2 in
    let (p22, r22) = both _ _ r21 in
    let (p23, r23) = both _ _ r22 in
    let (p24, r24) = both _ _ r23 in
    λ i. record {
      run_id = str_eq_sound a.run_id b.run_id p0 i;
      user_id = str_eq_sound a.user_id b.user_id p1 i;
      revision = nat_sound a.revision b.revision p2 i;
      format_version = nat_sound a.format_version b.format_version p3 i;
      rules_version = str_eq_sound a.rules_version b.rules_version p4 i;
      content_version = str_eq_sound a.content_version b.content_version p5 i;
      rng_version = str_eq_sound a.rng_version b.rng_version r5 i;
      seed = str_eq_sound a.seed b.seed p7 i;
      phase = phase_sound a.phase b.phase p8 i;
      base_cursor = eqb_ℤ_sound a.base_cursor b.base_cursor p9 i;
      completed_turns = eqb_ℤ_sound a.completed_turns b.completed_turns p10 i;
      slots = list_sound slot_same slot_sound a.slots b.slots p11 i;
      tools = list_sound str_eq str_eq_sound a.tools b.tools p12 i;
      offer = option_sound offer_same offer_sound a.offer b.offer r12 i;
      potion_refreshes = eqb_ℤ_sound a.potion_refreshes b.potion_refreshes p14 i;
      tool_refreshes = eqb_ℤ_sound a.tool_refreshes b.tool_refreshes p15 i;
      initial_pet_refreshes = eqb_ℤ_sound a.initial_pet_refreshes b.initial_pet_refreshes p16 i;
      rewards = rewards_sound a.rewards b.rewards p17 i;
      score = eqb_ℤ_sound a.score b.score p18 i;
      peak_score = eqb_ℤ_sound a.peak_score b.peak_score p19 i;
      init_rng = nat_sound a.init_rng b.init_rng r19 i;
      offer_rng = nat_sound a.offer_rng b.offer_rng p21 i;
      effect_rng = nat_sound a.effect_rng b.effect_rng p22 i;
      next_monster_id = nat_sound a.next_monster_id b.next_monster_id p23 i;
      next_offer_id = nat_sound a.next_offer_id b.next_offer_id p24 i;
      opening_tool_family = eqb_ℤ_sound a.opening_tool_family b.opening_tool_family r24 i;
    }
