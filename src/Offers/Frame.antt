-- ===== src/Offers/Frame.antt =====
-- The part of a state that `makeOffer` of internal/engine/engine.go, and the drawing of its cards,
-- may write to.
use vorax_simulator.Base.{
  ap, ℕ, zero, suc, ◌<◌, ◌≡◌, refl, String, Bool, true, false, ◌&&◌, List, Option, none, some,
  length, get_elem?, remove_at, ◌==◌, if◌then◌else◌, inl, inr,
}
use vorax_simulator.Base.Int.{ℤ}
use vorax_simulator.Outcome.{
  Returns-guard, Outcome, ok, err, panic, exhausted, ◌>>=◌, or_panic, Returns, Returns-bind,
}
use vorax_simulator.Protocol.{
  GameState, CardDefinition, CardKind, kind_eq, card_kind_unspecified, unknown, potion, tool,
  scheme,
}
use vorax_simulator.Rules.{Rules}
use vorax_simulator.Random.{word}
use vorax_simulator.Random.Terminates.{random_n-cases}
use vorax_simulator.Streams.{offer_stream, draw, stream_value, set_stream}
use vorax_simulator.Offers.{draw_index, draw_plain, offer_ids, set_offer, make_offer}
use vorax_simulator.Offers.Buckets.{bucket_at}
use vorax_simulator.Offers.Opening.{opening_tool_weights, is_opening_tool_offer}
use vorax_simulator.Offers.Boxes.{
  Weights, usual_weights, draw_group, potion_rarity_at, draw_card, draw_cards, draw_potion_cards,
  remove_card, potion_box,
}

-- A state without what an offer is made of.
abbrev pub outside_offer : GameState → GameState
outside_offer s = record s { offer_rng = 0; offer = none; next_offer_id = 0 }

-- The state differs from `s0` in the offer, its counter and its stream at most.
abbrev pub OfferOnly : GameState → GameState → Type 0
OfferOnly s0 s = (outside_offer s ≡ outside_offer s0) × (s.offer_rng < word)

-- What follows a guard.
abbrev pub Drawn : GameState → ℕ → List String × GameState → Type 0
Drawn s0 count (ids, s) = (length ids ≡ count) × OfferOnly s0 s

Drawn-only :
    (s0 : GameState) (count : ℕ) (m : Outcome (List String × GameState))
    → Returns (Drawn s0 count) m
    → Returns (λ (x : List String × GameState). OfferOnly s0 x.1) m
Drawn-only s0 count (ok x) h = h.1
Drawn-only s0 count (err e) h = tt
Drawn-only s0 count panic h = tt
Drawn-only s0 count exhausted h = h

module _ (s0 : GameState) where
  draw-OfferOnly :
      (n : ℕ) (s : GameState)
      → OfferOnly s0 s
      → Returns (λ (r : ℕ × GameState). OfferOnly s0 r.1) (draw offer_stream n s)
  unfolding draw stream_value set_stream
  draw-OfferOnly n s (same, inside) = elim (random_n-cases s.offer_rng n inside) [
    | inl empty ↦ rw empty tt
    | inr (x, v, e, p, q) ↦ rw e (same, q)
  ]

  -- A draw, and a step that keeps what it gives.
  after_draw :
      {A : Type 0} (n : ℕ) (s : GameState) (f : ℕ × GameState → Outcome (A × GameState))
      → OfferOnly s0 s
      → ((r : ℕ × GameState)
          → OfferOnly s0 r.1
          → Returns (λ (x : A × GameState). OfferOnly s0 x.1) (f r))
      → Returns (λ (x : A × GameState). OfferOnly s0 x.1) (draw offer_stream n s >>= f)
  after_draw n s f h k =
      Returns-bind (λ (r : ℕ × GameState). OfferOnly s0 r.1) _ (draw offer_stream n s) f
        (draw-OfferOnly n s h) k

  or_panic_keeps :
      {A B : Type 0} (o : Option A) (f : A → Outcome (B × GameState))
      → ((a : A) → Returns (λ (x : B × GameState). OfferOnly s0 x.1) (f a))
      → Returns (λ (x : B × GameState). OfferOnly s0 x.1) (or_panic o >>= f)
  or_panic_keeps none f k = tt
  or_panic_keeps (some a) f k = k a

  draw_card-OfferOnly :
      (w : Weights) (total : ℕ) (boxes : Bool) (pool : List CardDefinition) (s : GameState)
      → OfferOnly s0 s
      → Returns
          (λ (r : CardDefinition × GameState). OfferOnly s0 r.1)
          (draw_card w total boxes pool s)
  unfolding draw_card
  draw_card-OfferOnly w total boxes pool s h = after_draw total s _ h λ r h1.
      Returns-guard (λ (x : CardDefinition × GameState). OfferOnly s0 x.1) _ _ _
        (after_draw _ r.1 _ h1 λ i h2.
          or_panic_keeps {A = CardDefinition} {B = CardDefinition}
            (get_elem? (draw_group (potion_rarity_at r.0 w) boxes pool) i.0) (λ c. ok (c, i.1))
            (λ c. h2))

  -- As many ids as were asked for.
  draw_cards-Drawn :
      (w : Weights) (total count : ℕ) (boxes : Bool) (pool : List CardDefinition) (s : GameState)
      → OfferOnly s0 s
      → Returns (Drawn s0 count) (draw_cards w total count boxes pool s)
  unfolding draw_cards
  draw_cards-Drawn w total zero boxes pool s h = (refl, h)
  draw_cards-Drawn w total (suc count) boxes pool s h =
      Returns-bind (λ (r : CardDefinition × GameState). OfferOnly s0 r.1) (Drawn s0 (suc count))
        (draw_card w total boxes pool s) _ (draw_card-OfferOnly w total boxes pool s h)
        λ (c, s1) h1.
          Returns-bind (Drawn s0 count) (Drawn s0 (suc count))
            (draw_cards w total count (boxes && ((potion_box c).0 == 0)) (remove_card c.id pool) s1)
            _ (draw_cards-Drawn w total count _ (remove_card c.id pool) s1 h1)
            (λ r h2. (ap suc h2.0, h2.1))

  draw_potion_cards-keeps :
      (s : GameState) (r : Rules) (count : ℕ) (w : Weights) (boxes : Bool)
      → OfferOnly s0 s
      → Returns (Drawn s0 count) (draw_potion_cards s r count w boxes)
  unfolding draw_potion_cards
  draw_potion_cards-keeps s r count w boxes h =
      Returns-guard (Drawn s0 count) _ _ _ (draw_cards-Drawn w _ count boxes _ s h)

  pub draw_potion_cards-OfferOnly :
      (s : GameState) (r : Rules) (count : ℕ) (w : Weights) (boxes : Bool)
      → OfferOnly s0 s
      → Returns
          (λ (x : List String × GameState). OfferOnly s0 x.1)
          (draw_potion_cards s r count w boxes)
  draw_potion_cards-OfferOnly s r count w boxes h =
      Drawn-only s0 count (draw_potion_cards s r count w boxes)
        (draw_potion_cards-keeps s r count w boxes h)

  draw_index-OfferOnly :
      (opening : Bool) (pool : List CardDefinition) (s : GameState)
      → OfferOnly s0 s
      → Returns (λ (r : ℕ × GameState). OfferOnly s0 r.1) (draw_index opening pool s)
  unfolding draw_index
  draw_index-OfferOnly true pool s h = after_draw _ s _ h λ r h1.
      or_panic_keeps {A = ℕ} {B = ℕ}
        (bucket_at r.0 (opening_tool_weights pool s.opening_tool_family)) (λ j. ok (j, r.1))
        (λ j. h1)
  draw_index-OfferOnly false pool s h = draw-OfferOnly (length pool) s h

  draw_plain-OfferOnly :
      (count : ℕ) (opening : Bool) (pool : List CardDefinition) (s : GameState)
      → OfferOnly s0 s
      → Returns
          (λ (r : List String × GameState). OfferOnly s0 r.1)
          (draw_plain count opening pool s)
  unfolding draw_plain
  draw_plain-OfferOnly zero opening pool s h = h
  draw_plain-OfferOnly (suc count) opening pool s h =
      Returns-bind (λ (r : ℕ × GameState). OfferOnly s0 r.1) _ (draw_index opening pool s) _
        (draw_index-OfferOnly opening pool s h)
        λ (j, s1) h1. or_panic_keeps (get_elem? pool j) _ λ c.
          Returns-bind (λ (r : List String × GameState). OfferOnly s0 r.1) _
            (draw_plain count opening (remove_at pool j) s1) _
            (draw_plain-OfferOnly count opening (remove_at pool j) s1 h1) (λ r h2. h2)

  offer_ids-OfferOnly :
      (s : GameState) (r : Rules) (kind : CardKind) (count : ℕ) (opening : Bool)
      → OfferOnly s0 s
      → Returns
          (λ (x : List String × GameState). OfferOnly s0 x.1)
          (offer_ids s r kind count opening)
  unfolding offer_ids
  offer_ids-OfferOnly s r card_kind_unspecified count opening h =
      draw_plain-OfferOnly count opening _ s h
  offer_ids-OfferOnly s r unknown count opening h = draw_plain-OfferOnly count opening _ s h
  offer_ids-OfferOnly s r potion count opening h =
      draw_potion_cards-OfferOnly s r count usual_weights true h
  offer_ids-OfferOnly s r tool count opening h = draw_plain-OfferOnly count opening _ s h
  offer_ids-OfferOnly s r scheme count opening h = h

  pub set_offer-OfferOnly :
      (kind : CardKind) (ids : List String) (source : String) (t : ℤ) (s : GameState)
      → OfferOnly s0 s
      → OfferOnly s0 (set_offer kind ids source t s)
  unfolding set_offer
  set_offer-OfferOnly kind ids source t s h = h

  make_offer-keeps :
      (s : GameState) (r : Rules) (kind : CardKind) (source : String) (t : ℤ)
      → OfferOnly s0 s
      → Returns (OfferOnly s0) (make_offer s r kind source t)
  unfolding make_offer
  make_offer-keeps s r kind source t h =
      let opening = kind_eq kind tool && is_opening_tool_offer s t in
      let count = if kind_eq kind unknown then 1 else 3 in
      Returns-guard (OfferOnly s0) _ _ _ (
        Returns-bind (λ (x : List String × GameState). OfferOnly s0 x.1) (OfferOnly s0)
          (offer_ids s r kind count opening) (λ (ids, s1). ok (set_offer kind ids source t s1))
          (offer_ids-OfferOnly s r kind count opening h)
          (λ (ids, s1) h1. set_offer-OfferOnly kind ids source t s1 h1))

-- With an offer stream that is a word, making an offer of any kind ends, with no loop of draws running
-- out of rounds; where it gives a state, only the offer, its counter and its stream differ, and the
-- stream is a word again.
pub make_offer-OfferOnly :
    (s : GameState) (r : Rules) (kind : CardKind) (source : String) (t : ℤ)
    → s.offer_rng < word
    → Returns (OfferOnly s) (make_offer s r kind source t)
make_offer-OfferOnly s r kind source t inside = make_offer-keeps s s r kind source t (refl, inside)

-- With an offer stream that is a word, drawing potions ends, for any count, weights and rules; where
-- it gives cards, there are as many as were asked for, and only the offer, its counter and its stream
-- may differ, and the stream is a word again.
pub draw_potion_cards-Drawn :
    (s : GameState) (r : Rules) (count : ℕ) (w : Weights) (boxes : Bool)
    → s.offer_rng < word
    → Returns (Drawn s count) (draw_potion_cards s r count w boxes)
draw_potion_cards-Drawn s r count w boxes inside =
    draw_potion_cards-keeps s s r count w boxes (refl, inside)
