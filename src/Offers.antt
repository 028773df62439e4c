-- ===== src/Offers.antt =====
-- The offers of a game: `offerID`, `makeOffer` and `advance` of internal/engine/engine.go. The children
-- draw the cards.
pub mod Named
pub mod Buckets
pub mod Boxes
pub mod Opening
pub mod Frame
pub mod Weights
use Prim.Native.String.{◌++◌ as append_text}
use vorax_simulator.Base.{
  ℕ, zero, suc, ◌+◌, ◌-◌, ◌*◌, ◌%◌, String, Bool, true, false, not, ◌&&◌, ◌||◌, List, [], ◌∷◌, ◌++◌,
  map, Option, none, some, str_eq, str_lt, contains, ltb, ◌==◌, length, get_elem?, remove_at, keep,
  exists_b, if◌then◌else◌,
}
use vorax_simulator.Base.Int.{ℤ, pos, ltb_ℤ, leb_ℤ, eqb_ℤ}
use vorax_simulator.Outcome.{
  Outcome, ok, err, panic, exhausted, invalid_content, ◌>>=◌, ◌>>◌, error_if, or_panic,
}
use vorax_simulator.Text.{decimal}
use vorax_simulator.Protocol.{
  GameState, Slot, Monster, CardDefinition, CardKind, unknown, potion, tool, scheme, kind_eq, Offer,
  ToolClaim, pending, status_eq, finished, unspecified, bone, fiend, awakener, insect,
}
use vorax_simulator.Rules.{Rules}
use vorax_simulator.Board.{ids_where}
use vorax_simulator.Streams.{init_stream, offer_stream, draw}
use vorax_simulator.Targets.{playable}
use vorax_simulator.Random.{word}
use Buckets.{bucket_at, sum_weights}
use Boxes.{sort_cards, draw_potion_cards, usual_weights}
use Opening.{is_opening_tool_offer, opening_tool_weights}

-- The index of the next card of a tool or unknown offer. `toolIndexAt` gives -1, at which the program
-- panics, where no bucket is hit.
unfoldable pub draw_index : Bool → List CardDefinition → GameState → Outcome (ℕ × GameState)
unfolding opening_tool_weights sum_weights bucket_at
draw_index true pool s = do
  let weights = opening_tool_weights pool s.opening_tool_family
  (roll, s1) ← draw offer_stream (sum_weights weights) s
  j ← or_panic (bucket_at roll weights)
  ok (j, s1)
draw_index false pool s = draw offer_stream (length pool) s

unfoldable pub draw_plain :
    ℕ → Bool → List CardDefinition → GameState → Outcome (List String × GameState)
unfolding draw_index
draw_plain zero opening pool s = ok ([], s)
draw_plain (suc count) opening pool s = do
  (j, s1) ← draw_index opening pool s
  c ← or_panic (get_elem? pool j)
  (ids, s2) ← draw_plain count opening (remove_at pool j) s1
  ok (c.id ∷ ids, s2)

unfoldable pub offer_pool : GameState → Rules → CardKind → Bool → List CardDefinition
unfolding sort_cards
offer_pool s r kind opening = sort_cards (
    keep
      (λ c.
        not (opening && eqb_ℤ c.core_family unspecified)
        && (c.enabled
            && (kind_eq c.kind kind && (not (kind_eq kind potion) || playable s.slots c))))
      r.cards)

-- The ids by the kind of the offer.
unfoldable pub offer_ids :
    GameState → Rules → CardKind → ℕ → Bool → Outcome (List String × GameState)
unfolding draw_potion_cards draw_plain offer_pool
offer_ids s r potion count opening = draw_potion_cards s r count usual_weights true
offer_ids s r scheme count opening =
    ok (map (λ (c : CardDefinition). c.id) (offer_pool s r scheme opening), s)
offer_ids s r kind count opening = draw_plain count opening (offer_pool s r kind opening) s

-- `offerID`: the id that the next offer gets.
unfoldable pub offer_id : GameState → String
unfolding decimal
offer_id s = append_text "offer-" (decimal s.next_offer_id)

-- `s.Offer = &pb.Offer{Id: offerID(s), ...}`
unfoldable pub set_offer : CardKind → List String → String → ℤ → GameState → GameState
unfolding offer_id
set_offer kind ids source threshold s = record s {
  offer = some (record {
    id = offer_id s;
    kind = kind;
    card_ids = ids;
    source = source;
    reward_threshold = threshold;
  });
  next_offer_id = (s.next_offer_id + 1) % word;
}

-- `makeOffer`
unfoldable pub make_offer : GameState → Rules → CardKind → String → ℤ → Outcome GameState
unfolding is_opening_tool_offer offer_ids set_offer
make_offer s r kind source threshold = do
  let opening = kind_eq kind tool && is_opening_tool_offer s threshold
  let count = if kind_eq kind unknown then 1 else 3
  error_if (ltb (length (offer_pool s r kind opening)) count) invalid_content
  (ids, s1) ← offer_ids s r kind count opening
  ok (set_offer kind ids source threshold s1)

unfoldable pub first_pending : List ToolClaim → Option ℤ
first_pending [] = none
first_pending (c ∷ cs) = if status_eq c.status pending then some c.threshold else first_pending cs

-- What follows a choice when no reward is pending.
unfoldable pub advance_base : GameState → Rules → Outcome GameState
advance_base s r =
    if leb_ℤ (pos 12) s.base_cursor
    then ok (record s { phase = finished; offer = none })
    else if eqb_ℤ s.base_cursor (pos 0)
    then make_offer s r tool "opening" (pos 0)
    else if ltb_ℤ s.base_cursor (pos 9)
    then make_offer s r potion "base" (pos 0)
    else make_offer s r scheme "base" (pos 0)

-- `advance`
unfoldable pub advance : GameState → Rules → Outcome GameState
unfolding first_pending advance_base
advance s r = elim (first_pending s.rewards.tool_claims) [
  | some threshold ↦ make_offer s r tool "threshold" threshold
  | none ↦ advance_base s r
]
