-- ===== src/Engine/View.antt =====
-- `View` of internal/engine/engine.go, and `GameplayCopy` of internal/engine/effects.go.
use Prim.Native.String.{◌++◌ as append_text}
use vorax_simulator.Base.{
  suc, String, Bool, false, ◌&&◌, ◌||◌, ltb, List, [], ◌∷◌, map, Option, none, some, length,
  if◌then◌else◌,
}
use vorax_simulator.Base.Int.{ℤ, pos, negsuc, ◌-ℤ◌, ltb_ℤ, eqb_ℤ}
use vorax_simulator.Text.{decimal}
use vorax_simulator.Protocol.{
  GameState, CardDefinition, Offer, CardKind, card_kind_unspecified, unknown, potion, tool, scheme,
  kind_eq, preparing, phase_eq,
}
use vorax_simulator.Rules.{Rules, card}
use vorax_simulator.Rewards.{thresholds}
use vorax_simulator.Targets.{legal_targets}

pub record CardView : Type 0 where
  pub definition : CardDefinition
  pub legal_targets : List (List String)
  pub playable : Bool

-- A tool whose card is gone is nil among the tools.
pub record GameView : Type 0 where
  pub state : GameState
  pub cards : List CardView
  pub tools : List (Option CardDefinition)
  pub can_refresh : Bool
  pub can_skip : Bool
  pub stage_label : String
  pub thresholds : List ℤ

-- `fmt.Sprintf("%d", i)`
unfoldable decimal_int : ℤ → String
decimal_int (pos n) = decimal n
decimal_int (negsuc n) = append_text "-" (decimal (suc n))

unfoldable pub card_view : GameState → CardDefinition → CardView
card_view s c =
    let targets = legal_targets s.slots c in
    record { definition = c; legal_targets = targets; playable = ltb 0 (length targets) }

-- The loop over the ids of the offer; an id without a card is passed over.
unfoldable pub card_views : GameState → Rules → List String → List CardView
unfolding card_view
card_views s r [] = []
card_views s r (id ∷ ids) =
    let rest = card_views s r ids in
    elim (card r id) [ none ↦ rest | some c ↦ card_view s c ∷ rest ]

unfoldable can_refresh_offer : GameState → CardKind → Bool
can_refresh_offer s kind =
    (kind_eq kind potion && ltb_ℤ (pos 0) s.potion_refreshes)
    || (kind_eq kind tool && ltb_ℤ (pos 0) s.tool_refreshes)

unfoldable stage_label_of : GameState → Offer → String
unfolding decimal_int
stage_label_of s o = elim o.kind [
  | card_kind_unspecified ↦ ""
  | unknown ↦ "手术准备"
  | potion ↦ append_text "药剂选择 " (append_text (decimal_int s.base_cursor) " / 8")
  | scheme ↦ append_text "手术方案 " (append_text (decimal_int (s.base_cursor -ℤ pos 8)) " / 3")
  | tool ↦
      if eqb_ℤ o.reward_threshold (pos 0)
      then "开局手术用具"
      else append_text (decimal_int o.reward_threshold) " 分奖励 · 手术用具"
]

unfoldable pub offer_view : GameState → Rules → Option Offer → List CardView × (Bool × String)
unfolding card_views can_refresh_offer stage_label_of
offer_view s r none = ([], (false, "手术准备完成"))
offer_view s r (some o) =
    (card_views s r o.card_ids, (can_refresh_offer s o.kind, stage_label_of s o))

-- `View`
unfoldable pub view : GameState → Rules → GameView
unfolding offer_view
view s r =
    let (views, (refreshable, label)) = offer_view s r s.offer in
    record {
      state = s;
      cards = views;
      tools = map (card r) s.tools;
      can_refresh = refreshable;
      can_skip = phase_eq s.phase preparing;
      stage_label = label;
      thresholds = thresholds;
    }

-- `GameplayCopy`
unfoldable pub gameplay_copy : GameState → GameState
gameplay_copy s = record s { run_id = ""; user_id = ""; revision = 0 }
