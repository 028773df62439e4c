-- ===== src/Agents/Rebuild.antt =====
-- A state rebuilt from an observation, with hidden parts made up: internal/ai/env.go.
use Prim.Native.Nat.{bit_xor}
use Prim.Native.String.{◌++◌ as append_text}
use vorax_simulator.Base.{
  ℕ, suc, ◌%◌, ◌^◌, ◌-◌, ◌+◌, ◌*◌, ◌/◌, String, Bool, false, not, ◌&&◌, List, [], ◌∷◌, ◌++◌, map,
  Option, none, some, str_eq, ltb, ◌==◌, length, get_elem?, keep, if◌then◌else◌,
}
use vorax_simulator.Base.Int.{ℤ, pos, negsuc, leb_ℤ, eqb_ℤ}
use vorax_simulator.Text.{decimal}
use vorax_simulator.Outcome.{Outcome, ok, ◌>>=◌, ◌>>◌, or_panic}
use vorax_simulator.Protocol.{
  GameState, Slot, Monster, CardDefinition, Offer, tool, kind_eq, Phase, preparing, choosing,
  finished, ClaimStatus, locked, pending, claimed, ToolClaim, unspecified, bone, fiend, awakener,
  insect, card_kind_unspecified,
}
use vorax_simulator.Rules.{card, demo_rules, supported_rules, supported_content, rng_version}
use vorax_simulator.Board.{ids_where}
use vorax_simulator.Random.{word}
use vorax_simulator.Validation.{validate_state}
use vorax_simulator.Agents.Observation.{Observation, SeenCard, SlotView, ClaimView}

-- `phaseOf`
unfoldable pub phase_of : String → Phase
phase_of p =
    if str_eq p "PREPARING" then preparing else if str_eq p "FINISHED" then finished else choosing

-- `claimOf`
unfoldable pub claim_of : String → ClaimStatus
claim_of p = if str_eq p "PENDING" then pending else if str_eq p "CLAIMED" then claimed else locked

-- The counters of `derivedToolFamilyAt`, and its leaders.
unfoldable pub count_of : List Slot → ℤ → ℕ
count_of slots f = length (ids_where (λ (m : Monster). eqb_ℤ m.family f) slots)

unfoldable pub leaders : List Slot → List ℤ → ℕ → List ℤ → List ℤ
unfolding count_of
leaders slots [] most found = found
leaders slots (f ∷ fs) most found =
    let n = count_of slots f in
    leaders slots fs (if ltb most n then n else most)
      (if ltb most n then f ∷ [] else if ltb 0 most && (n == most) then found ++ f ∷ [] else found)

unfoldable pub pick_leader : List ℤ → ℕ → Outcome ℤ
pick_leader [] tie = ok unspecified
pick_leader (f ∷ []) tie = ok f
pick_leader (f ∷ g ∷ fs) tie = or_panic (get_elem? (f ∷ g ∷ fs) (tie % suc (suc (length fs))))

-- `derivedToolFamilyAt`
unfoldable pub derived_tool_family : List Slot → ℕ → Outcome ℤ
unfolding leaders pick_leader
derived_tool_family slots tie =
    pick_leader (leaders slots (bone ∷ fiend ∷ awakener ∷ insect ∷ []) 0 []) tie

unfoldable pub place_text : ℤ → String
place_text (pos n) = append_text "m-" (decimal n)
place_text (negsuc n) = append_text "m--" (decimal (suc n))

-- A negative place is none of the six, as its two's complement is not.
unfoldable pub place_number : ℤ → ℕ
place_number (pos n) = n
place_number (negsuc n) = 2 ^ 32 - suc n

unfoldable pub rebuild_slot : SlotView → Slot
unfolding place_text place_number
rebuild_slot v = record {
  index = place_number v.index;
  monster =
      if leb_ℤ (pos 1) v.family
        && (leb_ℤ v.family (pos 4) && (leb_ℤ (pos 1) v.rarity && leb_ℤ v.rarity (pos 4)))
      then some (record {
        id = place_text v.index;
        definition_id = v.definition_id;
        family = v.family;
        rarity = v.rarity;
        activity = v.activity;
        quantity = v.quantity;
        name = v.name;
      })
      else none;
  contribution = pos 0;
}

-- The first claims are those that are seen.
unfoldable pub rebuild_claims : List ToolClaim → List ClaimView → List ToolClaim
unfolding claim_of
rebuild_claims [] seen = []
rebuild_claims (c ∷ cs) [] = c ∷ cs
rebuild_claims (c ∷ cs) (v ∷ vs) =
    (record { threshold = v.threshold; status = claim_of v.status }) ∷ rebuild_claims cs vs

unfoldable pub is_tool_card : Option CardDefinition → Bool
is_tool_card none = false
is_tool_card (some c) = kind_eq c.kind tool

unfoldable pub rebuild_offer : Observation → Option Offer
rebuild_offer o =
    if not (str_eq o.phase "FINISHED") && not (kind_eq o.offer.kind card_kind_unspecified)
    then some (record {
      id = "ai-offer";
      kind = o.offer.kind;
      card_ids = map (λ (c : SeenCard). c.id) o.cards;
      source = "ai";
      reward_threshold = o.offer.reward_threshold;
    })
    else none

-- The words that `rand.Uint64` gives, in the order of the calls.
pub record RandomWords : Type 0 where
  pub init_word : ℕ
  pub offer_word : ℕ
  pub effect_word : ℕ
  pub tie_word : ℕ

-- `RebuildState`
unfoldable pub rebuild_state : RandomWords → Observation → Outcome GameState
unfolding phase_of rebuild_claims rebuild_slot is_tool_card rebuild_offer derived_tool_family
rebuild_state w o = do
  let slots = map rebuild_slot o.slots
  family ← derived_tool_family slots w.tie_word
  let s : GameState = record {
    run_id = "";
    user_id = "";
    revision = 1;
    format_version = 1;
    rules_version = supported_rules;
    content_version = supported_content;
    rng_version = rng_version;
    seed = "";
    phase = phase_of o.phase;
    base_cursor = o.base_cursor;
    completed_turns = o.completed_turns;
    slots = slots;
    tools = keep (λ id. is_tool_card (card demo_rules id)) o.tools;
    offer = rebuild_offer o;
    potion_refreshes = o.potion_refreshes;
    tool_refreshes = o.tool_refreshes;
    initial_pet_refreshes = pos 0;
    rewards = record {
      jars = o.rewards.jars;
      drop_bonus_percent = o.rewards.drop_bonus_percent;
      tool_claims =
          rebuild_claims
            ((record { threshold = pos 8000; status = locked })
              ∷ (record { threshold = pos 28000; status = locked })
              ∷ [])
            o.rewards.tool_claims;
      next_threshold = o.rewards.next_threshold;
      next_reward_label = o.rewards.next_reward_label;
    };
    score = o.score;
    peak_score = o.score;
    init_rng = w.init_word;
    offer_rng = w.offer_word;
    effect_rng = w.effect_word;
    next_monster_id = 1;
    next_offer_id = 1;
    opening_tool_family = family;
  }
  validate_state s demo_rules
  ok s

-- `mixSample64`
unfoldable pub mix_sample : ℕ → ℕ
mix_sample x =
    let x0 = (x + 0x9e37_79b9_7f4a_7c15) % word in
    let x1 = (bit_xor x0 (x0 / 2 ^ 30) * 0xbf58_476d_1ce4_e5b9) % word in
    let x2 = (bit_xor x1 (x1 / 2 ^ 27) * 0x94d0_49bb_1331_11eb) % word in bit_xor x2 (x2 / 2 ^ 31)

-- `buildSimSample`; `base` is the word that the SHA-256 digest of the observation's JSON begins with.
unfoldable pub build_sample : RandomWords → ℕ → Observation → ℕ → Outcome GameState
unfolding mix_sample
build_sample w base o sample = do
  s ← rebuild_state w o
  let key = mix_sample (bit_xor sample 0x9e37_79b9_7f4a_7c15)
  family ←
      derived_tool_family s.slots (mix_sample (bit_xor (bit_xor base key) 0x082e_fa98_ec4e_6c89))
  ok (record s {
    init_rng = mix_sample (bit_xor (bit_xor base key) 0x243f_6a88_85a3_08d3);
    offer_rng = mix_sample (bit_xor (bit_xor base key) 0x1319_8a2e_0370_7344);
    effect_rng = mix_sample (bit_xor (bit_xor base key) 0xa409_3822_299f_31d0);
    opening_tool_family = family;
  })
