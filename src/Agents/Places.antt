-- ===== src/Agents/Places.antt =====
-- Targets as places of slots and as ids of monsters: internal/ai turns ids into places for the agent,
-- and its choice back into ids.
use vorax_simulator.Base.{
  ℕ, suc, ◌+◌, ◌<◌, ◌≡◌, refl, ap, ◌∙◌, subst, String, true, false, List, [], ◌∷◌, Option, none,
  some, str_eq, str_eq_iff, All, length, get_elem?, arith, Bool-cases, inl, inr, if◌then◌else◌,
}
use vorax_simulator.Base.Int.{ℤ, pos, ltb_ℤ, leb_ℤ}
use vorax_simulator.Outcome.{ok}
use vorax_simulator.Protocol.{Slot, Monster, CardDefinition}
use vorax_simulator.Targets.{valid_targets, legal_targets}
use vorax_simulator.Targets.Sound.{legal_targets-Accepted}
use vorax_simulator.Agents.Observation.{holds, index_of, places, target_rows}
use vorax_simulator.Agents.Actions.{place_id, place_ids}

-- The slots carry their places, from `k` on.
abbrev pub Placed : ℕ → List Slot → Type 0
Placed k [] = Unit
Placed k (s ∷ ss) = (s.index ≡ k) × Placed (suc k) ss

-- The slot `offset` places on, and its monster.
record Found (k : ℕ) (slots : List Slot) (id : String) (i : ℕ) : Type 0 where
  pub offset : ℕ
  pub slot : Slot
  pub monster : Monster
  pub at : i ≡ k + offset
  pub there : get_elem? slots offset ≡ some slot
  pub occupied : slot.monster ≡ some monster
  pub named : monster.id ≡ id
  pub inside : offset < length slots

here :
    (k : ℕ) (s : Slot) (ss : List Slot) (id : String) (i : ℕ) (o : Option Monster)
    → s.index ≡ k
    → s.monster ≡ o
    → (if holds o id then some s.index else none) ≡ some i
    → Found k (s ∷ ss) id i
unfolding holds
here k s ss id i none at e h = absurd (ground arith)
here k s ss id i (some m) at e h = elim (Bool-cases (str_eq m.id id)) [
  | inl same ↦ record {
    offset = 0;
    slot = s;
    monster = m;
    at = ground arith;
    there = refl;
    occupied = e;
    named = (str_eq_iff m.id id).0 same;
    inside = omega arith;
  }
  | inr other ↦ absurd (ground arith)
]

index_of-Found :
    (k : ℕ) (slots : List Slot) (id : String) (i : ℕ)
    → Placed k slots
    → index_of slots id ≡ some i
    → Found k slots id i
unfolding index_of
index_of-Found k [] id i placed h = absurd (ground arith)
index_of-Found k (s ∷ ss) id i (at, placed) h =
    go (index_of ss id) refl (λ j e. index_of-Found (suc k) ss id j placed e) h
  where
    go :
        (o : Option ℕ)
        → index_of ss id ≡ o
        → ((j : ℕ) → index_of ss id ≡ some j → Found (suc k) ss id j)
        → (elim o [ some j ↦ some j | none ↦ if holds s.monster id then some s.index else none ])
          ≡ some i
        → Found k (s ∷ ss) id i
    go none e rest f = here k s ss id i s.monster at refl f
    go (some j) e rest f =
        let next = rest i (e ∙ f) in
        record {
          offset = suc next.offset;
          slot = next.slot;
          monster = next.monster;
          at = omega (arith, next.at);
          there = next.there;
          occupied = next.occupied;
          named = next.named;
          inside = omega (arith, next.inside);
        }

module _ (slots : List Slot) (placed : Placed 0 slots) where
  place_id-index_of :
      (id : String) (i : ℕ) → index_of slots id ≡ some i → place_id slots (pos i) ≡ ok id
  unfolding place_id
  place_id-index_of id i e =
      let found = index_of-Found 0 slots id i placed e in
      let low : ltb_ℤ (pos i) (pos 0) ≡ false = ground arith in
      let high : leb_ℤ (pos (length slots)) (pos i) ≡ false =
        ground (arith, found.at, found.inside) in
      let same : i ≡ found.offset = omega (arith, found.at) in
      let there : get_elem? slots i ≡ some found.slot = ap (get_elem? slots) same ∙ found.there in
      rw (low, high, there, found.occupied) (ap (λ x. ok x) found.named)

  row_of : Option (List ℤ) → List ℤ
  row_of none = []
  row_of (some row) = row

  places_cons :
      (id : String) (ids : List String) (row : List ℤ) (o : Option ℕ) (p : Option (List ℤ))
      → index_of slots id ≡ o
      → ((r : List ℤ) → p ≡ some r → place_ids slots r ≡ ok ids)
      → (elim o [ none ↦ none | some i ↦ elim p [ none ↦ none | some r ↦ some (pos i ∷ r) ] ])
        ≡ some row
      → place_ids slots row ≡ ok (id ∷ ids)
  unfolding place_ids row_of
  places_cons id ids row none p e rest h = absurd (ground arith)
  places_cons id ids row (some i) none e rest h = absurd (ground arith)
  places_cons id ids row (some i) (some r) e rest h =
      subst (λ x. place_ids slots x ≡ ok (id ∷ ids)) (ap row_of h)
        (rw (place_id-index_of id i e, rest r refl) refl)

  -- On a board whose slots carry their places: where the targets are all on the board, the places that
  -- an agent sees for them lead back to the same targets.
  pub place_ids-places :
      (ids : List String) (row : List ℤ)
      → places slots ids ≡ some row
      → place_ids slots row ≡ ok ids
  unfolding places place_ids
  place_ids-places [] [] h = refl
  place_ids-places [] (x ∷ row) h = absurd (ground arith)
  place_ids-places (id ∷ ids) row h =
      places_cons id ids row (index_of slots id) (places slots ids) refl (place_ids-places ids) h

  -- A row of places that stands for targets with a property.
  abbrev pub LeadsBack : (List String → Type 0) → List ℤ → Type 0
  LeadsBack P row = (ids : List String) × ((place_ids slots row ≡ ok ids) × P ids)

  target_rows-LeadsBack :
      (P : List String → Type 0) (sets : List (List String))
      → All P sets
      → All (LeadsBack P) (target_rows slots sets)
  unfolding target_rows
  target_rows-LeadsBack P [] h = tt
  target_rows-LeadsBack P (ids ∷ sets) (p, ps) =
      row_lem (places slots ids) refl (target_rows-LeadsBack P sets ps)
    where
      row_lem :
          (o : Option (List ℤ))
          → places slots ids ≡ o
          → All (LeadsBack P) (target_rows slots sets)
          → All
              (LeadsBack P)
              (elim o [ none ↦ target_rows slots sets | some row ↦ row ∷ target_rows slots sets ])
      row_lem none e rest = rest
      row_lem (some row) e rest = ((ids, (place_ids-places ids row e, p)), rest)

  -- On a board whose slots carry their places: every row of places that an agent sees for a card is
  -- turned back into targets that `Apply` accepts for that card.
  pub target_rows-Accepted :
      (c : CardDefinition)
      → All
          (LeadsBack (λ ids. valid_targets slots c ids ≡ true))
          (target_rows slots (legal_targets slots c))
  target_rows-Accepted c =
      target_rows-LeadsBack (λ ids. valid_targets slots c ids ≡ true) (legal_targets slots c)
        (legal_targets-Accepted slots c)
