-- ===== src/Offers/Boxes.antt =====
-- Drawing potions by rarity: internal/engine/boxes.go.
use vorax_simulator.Base.{
  ℕ, zero, suc, ◌+◌, String, Bool, true, false, not, ◌&&◌, ◌||◌, List, [], ◌∷◌, none, some, str_eq,
  str_lt, ltb, ◌==◌, length, get_elem?, keep, if◌then◌else◌,
}
use vorax_simulator.Base.Int.{ℤ, pos, eqb_ℤ}
use vorax_simulator.Outcome.{Outcome, ok, invalid_content, ◌>>=◌, ◌>>◌, error_if, or_panic}
use vorax_simulator.Protocol.{GameState, CardDefinition, potion, kind_eq, unspecified}
use vorax_simulator.Rules.{Rules}
use vorax_simulator.Streams.{offer_stream, draw}
use vorax_simulator.Targets.{playable}
use vorax_simulator.Offers.Buckets.{bucket_at}

-- `sort.Slice` by id, on a pool whose ids differ.
unfoldable pub insert_card : CardDefinition → List CardDefinition → List CardDefinition
insert_card c [] = c ∷ []
insert_card c (d ∷ ds) = if str_lt d.id c.id then d ∷ insert_card c ds else c ∷ d ∷ ds

unfoldable pub sort_cards : List CardDefinition → List CardDefinition
unfolding insert_card
sort_cards [] = []
sort_cards (c ∷ cs) = insert_card c (sort_cards cs)

-- `potionBox`: the number of cards, and whether the box is a rare one.
unfoldable pub potion_box : CardDefinition → ℕ × Bool
potion_box c =
    if not (kind_eq c.kind potion)
    then (0, false)
    else if str_eq c.handler "potion_normal_box_3"
    then (3, false)
    else if str_eq c.handler "potion_normal_box_5"
    then (5, false)
    else if str_eq c.handler "potion_box_3"
    then (3, true)
    else if str_eq c.handler "potion_box_5"
    then (5, true)
    else (0, false)

-- `[4]int`, the weights of the four potion rarities.
pub record Weights : Type 0 where
  pub white_weight : ℕ
  pub blue_weight : ℕ
  pub gold_weight : ℕ
  pub red_weight : ℕ

abbrev pub weight_list : Weights → List ℕ
weight_list w = w.white_weight ∷ w.blue_weight ∷ w.gold_weight ∷ w.red_weight ∷ []

unfoldable pub potion_rarity_at : ℕ → Weights → ℤ
unfolding bucket_at
potion_rarity_at roll w = elim (bucket_at roll (weight_list w)) [
  | none ↦ unspecified
  | some i ↦ pos (i + 1)
]

-- A box may be drawn only while `boxLimit > 0`.
abbrev may_draw : Bool → CardDefinition → Bool
may_draw boxes c = (potion_box c).0 == 0 || boxes

unfoldable pub remove_card : String → List CardDefinition → List CardDefinition
remove_card id [] = []
remove_card id (c ∷ cs) = if str_eq c.id id then cs else c ∷ remove_card id cs

-- The group that a draw takes its card from: the rarity's, or what is left where that is empty.
unfoldable pub draw_group : ℤ → Bool → List CardDefinition → List CardDefinition
draw_group rarity boxes pool =
    let group = keep (λ c. eqb_ℤ c.rarity rarity && may_draw boxes c) pool in
    if length group == 0 then keep (may_draw boxes) pool else group

-- One round of the loop of `drawPotionCards`: the card, and whether a box may still follow. `total` is
-- the sum of the weights.
unfoldable pub draw_card :
    Weights → ℕ → Bool → List CardDefinition → GameState → Outcome (CardDefinition × GameState)
unfolding draw_group potion_rarity_at
draw_card w total boxes pool s = do
  (roll, s1) ← draw offer_stream total s
  let group = draw_group (potion_rarity_at roll w) boxes pool
  error_if (length group == 0) invalid_content
  (i, s2) ← draw offer_stream (length group) s1
  c ← or_panic (get_elem? group i)
  ok (c, s2)

unfoldable pub draw_cards :
    Weights → ℕ → ℕ → Bool → List CardDefinition → GameState → Outcome (List String × GameState)
unfolding draw_card remove_card
draw_cards w total zero boxes pool s = ok ([], s)
draw_cards w total (suc count) boxes pool s = do
  (c, s1) ← draw_card w total boxes pool s
  (ids, s2) ← draw_cards w total count (boxes && ((potion_box c).0 == 0)) (remove_card c.id pool) s1
  ok (c.id ∷ ids, s2)

-- The cards that an offer of a kind may hold, in the order of their ids.
unfoldable pub potion_pool : GameState → Rules → List CardDefinition
unfolding sort_cards
potion_pool s r =
    sort_cards (keep (λ c. c.enabled && (kind_eq c.kind potion && playable s.slots c)) r.cards)

-- `drawPotionCards`. The weights of the program are no negative numbers; `boxes` is `boxLimit > 0`,
-- which is 0 or 1 in every call.
unfoldable pub draw_potion_cards :
    GameState → Rules → ℕ → Weights → Bool → Outcome (List String × GameState)
unfolding draw_cards potion_pool
draw_potion_cards s r count w boxes = do
  let total = w.white_weight + w.blue_weight + w.gold_weight + w.red_weight
  error_if (total == 0 || (ltb count 1 || ltb 5 count)) invalid_content
  draw_cards w total count boxes (potion_pool s r) s

abbrev pub usual_weights : Weights
usual_weights = record { white_weight = 40; blue_weight = 35; gold_weight = 20; red_weight = 5 }

abbrev pub rare_weights : Weights
rare_weights = record { white_weight = 30; blue_weight = 20; gold_weight = 40; red_weight = 10 }
