-- ===== src/Offers/Named.antt =====
-- The offers of internal/engine do not depend on the names of the run and the player.
use vorax_simulator.Base.{
  ℕ, zero, suc, ◌≡◌, refl, String, Bool, true, false, List, Option, none, some, length, get_elem?,
  remove_at, Bool-cases, inl, inr,
}
use vorax_simulator.Base.Int.{ℤ, leb_ℤ, ltb_ℤ, eqb_ℤ, pos}
use vorax_simulator.Outcome.{
  Outcome, or_panic, map_outcome, map_outcome-bind, map_outcome-guard, map_outcome-same, ◌>>=◌,
}
use vorax_simulator.Protocol.{
  GameState, CardDefinition, CardKind, card_kind_unspecified, unknown, potion, tool, scheme,
}
use vorax_simulator.Rules.{Rules}
use vorax_simulator.Streams.{offer_stream, draw}
use vorax_simulator.Streams.Named.{named, with_named, renamed_state, draw-named}
use vorax_simulator.Offers.{
  draw_index, draw_plain, offer_pool, offer_ids, set_offer, make_offer, first_pending, advance_base,
  advance,
}
use vorax_simulator.Offers.Boxes.{
  Weights, usual_weights, draw_card, draw_cards, draw_potion_cards, draw_group, potion_rarity_at,
  potion_pool,
}
use vorax_simulator.Offers.Buckets.{bucket_at}
use vorax_simulator.Offers.Opening.{opening_tool_weights}

module _ (run user : String) where
  from_option :
      {A B : Type 0} (o : Option A) (k k' : A → Outcome (B × GameState))
      → ((a : A) → k' a ≡ renamed_state run user (k a))
      → (do a ← or_panic o; k' a) ≡ renamed_state run user (do a ← or_panic o; k a)
  from_option o k k' h =
      map_outcome-bind (λ a. a) (with_named run user) (or_panic o) _ k k' (map_outcome-same _) h

  drawn :
      {B : Type 0} (n : ℕ) (s : GameState) (k k' : ℕ × GameState → Outcome (B × GameState))
      → ((x : ℕ) (t : GameState) → k' (x, named run user t) ≡ renamed_state run user (k (x, t)))
      → (do r ← draw offer_stream n (named run user s); k' r)
        ≡ renamed_state run user (do r ← draw offer_stream n s; k r)
  drawn n s k k' h =
      map_outcome-bind (with_named run user) (with_named run user) (draw offer_stream n s) _ k k'
        (draw-named run user offer_stream n s) (λ (x, t). h x t)

  draw_index-named :
      (opening : Bool) (pool : List CardDefinition) (s : GameState)
      → draw_index opening pool (named run user s)
        ≡ renamed_state run user (draw_index opening pool s)
  unfolding draw_index
  draw_index-named true pool s = drawn _ s _ _ (λ roll t.
      from_option (bucket_at roll (opening_tool_weights pool s.opening_tool_family)) _ _
        (λ j. refl))
  draw_index-named false pool s = draw-named run user offer_stream _ s

  draw_plain-named :
      (count : ℕ) (opening : Bool) (pool : List CardDefinition) (s : GameState)
      → draw_plain count opening pool (named run user s)
        ≡ renamed_state run user (draw_plain count opening pool s)
  unfolding draw_plain
  draw_plain-named zero opening pool s = refl
  draw_plain-named (suc count) opening pool s =
      map_outcome-bind (with_named run user) (with_named run user) (draw_index opening pool s) _ _ _
        (draw_index-named opening pool s)
        (λ (j, t). from_option (get_elem? pool j) _ _ λ c.
          map_outcome-bind (with_named run user) (with_named run user)
            (draw_plain count opening (remove_at pool j) t) _ _ _
            (draw_plain-named count opening (remove_at pool j) t) (λ (ids, u). refl))

  draw_card-named :
      (w : Weights) (total : ℕ) (boxes : Bool) (pool : List CardDefinition) (s : GameState)
      → draw_card w total boxes pool (named run user s)
        ≡ renamed_state run user (draw_card w total boxes pool s)
  unfolding draw_card
  draw_card-named w total boxes pool s = drawn total s _ _ λ roll t.
      let group = draw_group (potion_rarity_at roll w) boxes pool in
      map_outcome-guard (with_named run user) _ _ _ _
        (drawn (length group) t _ _ (λ i u. from_option (get_elem? group i) _ _ (λ c. refl)))

  draw_cards-named :
      (w : Weights) (total count : ℕ) (boxes : Bool) (pool : List CardDefinition) (s : GameState)
      → draw_cards w total count boxes pool (named run user s)
        ≡ renamed_state run user (draw_cards w total count boxes pool s)
  unfolding draw_cards
  draw_cards-named w total zero boxes pool s = refl
  draw_cards-named w total (suc count) boxes pool s =
      map_outcome-bind (with_named run user) (with_named run user) (draw_card w total boxes pool s)
        _ _ _ (draw_card-named w total boxes pool s)
        (λ (c, t).
          map_outcome-bind (with_named run user) (with_named run user)
            (draw_cards w total count _ _ t) _ _ _ (draw_cards-named w total count _ _ t)
            (λ (ids, u). refl))

  pub draw_potion_cards-named :
      (s : GameState) (r : Rules) (count : ℕ) (w : Weights) (boxes : Bool)
      → draw_potion_cards (named run user s) r count w boxes
        ≡ renamed_state run user (draw_potion_cards s r count w boxes)
  unfolding draw_potion_cards potion_pool
  draw_potion_cards-named s r count w boxes =
      map_outcome-guard (with_named run user) _ _ _ _ (draw_cards-named w _ count boxes _ s)

  offer_ids-named :
      (s : GameState) (r : Rules) (kind : CardKind) (count : ℕ) (opening : Bool)
      → offer_ids (named run user s) r kind count opening
        ≡ renamed_state run user (offer_ids s r kind count opening)
  unfolding offer_ids offer_pool
  offer_ids-named s r card_kind_unspecified count opening = draw_plain-named count opening _ s
  offer_ids-named s r unknown count opening = draw_plain-named count opening _ s
  offer_ids-named s r potion count opening = draw_potion_cards-named s r count usual_weights true
  offer_ids-named s r tool count opening = draw_plain-named count opening _ s
  offer_ids-named s r scheme count opening = refl

  pub make_offer-named :
      (s : GameState) (r : Rules) (kind : CardKind) (source : String) (threshold : ℤ)
      → make_offer (named run user s) r kind source threshold
        ≡ map_outcome (named run user) (make_offer s r kind source threshold)
  unfolding make_offer set_offer offer_pool
  make_offer-named s r kind source threshold = map_outcome-guard (named run user) _ _ _ _ (
      map_outcome-bind (with_named run user) (named run user) (offer_ids s r kind _ _) _ _ _
        (offer_ids-named s r kind _ _) (λ (ids, t). refl))

  advance_base-named :
      (s : GameState) (r : Rules)
      → advance_base (named run user s) r ≡ map_outcome (named run user) (advance_base s r)
  unfolding advance_base
  advance_base-named s r = elim (Bool-cases (leb_ℤ (pos 12) s.base_cursor)) [
    | inl e ↦ rw e refl
    | inr e ↦ rw e (elim (Bool-cases (eqb_ℤ s.base_cursor (pos 0))) [
      | inl e ↦ rw e (make_offer-named s r tool "opening" (pos 0))
      | inr e ↦ rw e (elim (Bool-cases (ltb_ℤ s.base_cursor (pos 9))) [
        | inl e ↦ rw e (make_offer-named s r potion "base" (pos 0))
        | inr e ↦ rw e (make_offer-named s r scheme "base" (pos 0))
      ])
    ])
  ]

  offered :
      (o : Option ℤ) (s : GameState) (r : Rules)
      → (elim o [
        | some threshold ↦ make_offer (named run user s) r tool "threshold" threshold
        | none ↦ advance_base (named run user s) r
      ])
        ≡ map_outcome (named run user) (elim o [
          | some threshold ↦ make_offer s r tool "threshold" threshold
          | none ↦ advance_base s r
        ])
  offered none s r = advance_base-named s r
  offered (some threshold) s r = make_offer-named s r tool "threshold" threshold

  pub advance-named :
      (s : GameState) (r : Rules)
      → advance (named run user s) r ≡ map_outcome (named run user) (advance s r)
  unfolding advance
  advance-named s r = offered (first_pending s.rewards.tool_claims) s r
