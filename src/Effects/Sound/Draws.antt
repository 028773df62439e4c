-- ===== src/Effects/Sound/Draws.antt =====
-- Random draws keep a context sound, and the definitions that they pick are those of the catalogue.
use mathlib.Core.Option.{some-injective}
use vorax_simulator.Base.{
  ℕ, zero, suc, ◌<◌, ◌≡◌, refl, subst, Bool, ◌&&◌, List, [], ◌∷◌, Option, none, some, arith, length,
  get_elem?, keep, All, Bool-cases, inl, inr,
}
use vorax_simulator.Base.Int.{ℤ, pos, ◌≤ℤ◌, eqb_ℤ}
use vorax_simulator.Outcome.{Outcome, ok, err, panic, exhausted, Returns}
use vorax_simulator.Protocol.{GameState, Slot}
use vorax_simulator.Random.{word}
use vorax_simulator.Random.Terminates.{random_n-cases}
use vorax_simulator.Streams.{Stream, init_stream, effect_stream, draw, stream_value, set_stream}
use vorax_simulator.Monsters.{MonsterDefinition, monster_definitions, definition_pool}
use vorax_simulator.Effects.Context.{Context, Prog, pure, or_crash, ◌>>=◌, draw_from}
use vorax_simulator.Effects.Keeps.{Keeps, Keeps-pure, Keeps-bind, Keeps-if, Runs, Runs-bind}
use vorax_simulator.Effects.Invariant.{IsSound}
use vorax_simulator.Effects.Monsters.{
  pick_definition, pick_from, monster_rarity, family_or_random, rarity_or_random,
  definition_or_pick,
}

-- The streams that the effects draw from.
pub data MonsterStream : Stream → Type 0 where
  for_init : MonsterStream init_stream
  for_effect : MonsterStream effect_stream

-- A sound context with something more that is known of the board and the counter, which no draw
-- touches.
abbrev pub Sound : (List Slot → ℕ → Type 0) → GameState → ℕ → ℕ → Context → Type 0
Sound X s0 fuel slack c = IsSound s0 fuel slack c × X c.state.slots c.state.next_monster_id

module _ (X : List Slot → ℕ → Type 0) {s0 : GameState} {fuel slack : ℕ} where
  set_stream-Sound :
      {r : Stream} (m : MonsterStream r) (v : ℕ) (c : Context)
      → v < word
      → Sound X s0 fuel slack c
      → Sound X s0 fuel slack (record c { state = set_stream r v c.state })
  unfolding set_stream
  set_stream-Sound for_init v c p (h, x) = (
    record {
      framed = h.framed;
      placed = h.placed;
      monsters_ok = h.monsters_ok;
      distinct = h.distinct;
      init_word = p;
      effect_word = h.effect_word;
      counter = h.counter;
      limited = h.limited;
      counted = h.counted;
      fueled = h.fueled;
    },
    x,
  )
  set_stream-Sound for_effect v c p (h, x) = (
    record {
      framed = h.framed;
      placed = h.placed;
      monsters_ok = h.monsters_ok;
      distinct = h.distinct;
      init_word = h.init_word;
      effect_word = p;
      counter = h.counter;
      limited = h.limited;
      counted = h.counted;
      fueled = h.fueled;
    },
    x,
  )

  stream-word :
      {r : Stream} (m : MonsterStream r) (c : Context)
      → IsSound s0 fuel slack c
      → stream_value r c.state < word
  unfolding stream_value
  stream-word for_init c h = h.init_word
  stream-word for_effect c h = h.effect_word

  pub draw_from-Runs :
      {r : Stream} (m : MonsterStream r) (n : ℕ)
      → Runs (Sound X s0 fuel slack) (λ _. Sound X s0 fuel slack) (draw_from r n)
  unfolding draw_from draw
  draw_from-Runs {r} m n = record {
    at = λ c h. elim (random_n-cases (stream_value r c.state) n (stream-word m c h.0)) [
      | inl empty ↦ rw empty tt
      | inr (x, v, e, p, q) ↦ rw e (set_stream-Sound m v c q h)
    ];
  }

-- A definition of the catalogue: a known family and rarity.
abbrev pub DefinitionOk : MonsterDefinition → Type 0
DefinitionOk d =
    (pos 1 ≤ℤ d.family) × (d.family ≤ℤ pos 4) × (pos 1 ≤ℤ d.rarity) × (d.rarity ≤ℤ pos 4)

abbrev pub PickOk : Option MonsterDefinition → Type 0
PickOk none = Unit
PickOk (some d) = DefinitionOk d

monster_definitions-All : All DefinitionOk monster_definitions
unfolding monster_definitions
monster_definitions-All = omega arith

All-keep : {A : Type 0} (Q : A → Type 0) (p : A → Bool) (xs : List A) → All Q xs → All Q (keep p xs)
All-keep Q p [] h = tt
All-keep Q p (x ∷ xs) h = elim (Bool-cases (p x)) [
  | inl kept ↦ rw kept (h.0, All-keep Q p xs h.1)
  | inr dropped ↦ rw dropped (All-keep Q p xs h.1)
]

definition_pool-All : (f r : ℤ) → All DefinitionOk (definition_pool f r)
unfolding definition_pool
definition_pool-All f r =
    All-keep DefinitionOk (λ x. eqb_ℤ x.family f && eqb_ℤ x.rarity r) monster_definitions
      monster_definitions-All

All-get_elem? :
    {A : Type 0} (Q : A → Type 0) (xs : List A) (i : ℕ) (x : A)
    → All Q xs
    → get_elem? xs i ≡ some x
    → Q x
All-get_elem? Q [] i x h e = cc
All-get_elem? Q (y ∷ ys) zero x h e = subst Q (some-injective y x e) h.0
All-get_elem? Q (y ∷ ys) (suc i) x h e = All-get_elem? Q ys i x h.1 e

module _ (X : List Slot → ℕ → Type 0) {s0 : GameState} {fuel slack : ℕ} where
  picked :
      (ds : List MonsterDefinition)
      → All DefinitionOk ds
      → (o : Option MonsterDefinition) → ((d : MonsterDefinition) → o ≡ some d → DefinitionOk d)
      → Runs
          (Sound X s0 fuel slack)
          (λ p c. PickOk p × Sound X s0 fuel slack c)
          (do e ← or_crash o; pure (some e))
  unfolding ◌>>=◌
  picked ds all none known = record { at = λ c h. tt }
  picked ds all (some d) known = record { at = λ c h. (known d refl, h) }

  pick_from-Runs :
      {r : Stream} (m : MonsterStream r) (ds : List MonsterDefinition)
      → All DefinitionOk ds
      → Runs (Sound X s0 fuel slack) (λ p c. PickOk p × Sound X s0 fuel slack c) (pick_from ds r)
  unfolding pick_from pure
  pick_from-Runs m [] all = record { at = λ c h. (tt, h) }
  pick_from-Runs {r} m (d ∷ ds) all =
      Runs-bind (λ _. Sound X s0 fuel slack) (λ p c. PickOk p × Sound X s0 fuel slack c)
        (draw_from r (length (d ∷ ds))) (λ i. do e ← or_crash (get_elem? (d ∷ ds) i); pure (some e))
        (draw_from-Runs X m (length (d ∷ ds)))
        (λ i.
          picked (d ∷ ds) all (get_elem? (d ∷ ds) i)
            (λ e same. All-get_elem? DefinitionOk (d ∷ ds) i e all same))

  pub pick_definition-Runs :
      {r : Stream} (m : MonsterStream r) (f q : ℤ)
      → Runs
          (Sound X s0 fuel slack)
          (λ p c. PickOk p × Sound X s0 fuel slack c)
          (pick_definition f q r)
  unfolding pick_definition
  pick_definition-Runs m f q = pick_from-Runs m (definition_pool f q) (definition_pool-All f q)

abbrev pub Nothing : List Slot → ℕ → Type 0
Nothing ss n = Unit

add-Nothing :
    (s0 : GameState) (fuel slack : ℕ) {A : Type 0} (Q : A → Type 0) (o : Outcome (A × Context))
    → Returns (λ (x : A × Context). Q x.0 × Sound Nothing s0 fuel slack x.1) o
    → Returns (λ (x : A × Context). Q x.0 × IsSound s0 fuel slack x.1) o
add-Nothing s0 fuel slack Q (ok x) p = (p.0, p.1.0)
add-Nothing s0 fuel slack Q (err e) p = tt
add-Nothing s0 fuel slack Q panic p = tt
add-Nothing s0 fuel slack Q exhausted p = p

-- With nothing more known.
module _ {s0 : GameState} {fuel slack : ℕ} where
  forget :
      {A : Type 0} (m : Prog A)
      → Runs (Sound Nothing s0 fuel slack) (λ _. Sound Nothing s0 fuel slack) m
      → Keeps (IsSound s0 fuel slack) m
  forget m k = record { at = λ c h. drop_unit (m c) (k.at c (h, tt)) }
    where
      drop_unit :
          {A : Type 0} (o : Outcome (A × Context))
          → Returns (λ (x : A × Context). Sound Nothing s0 fuel slack x.1) o
          → Returns (λ (x : A × Context). IsSound s0 fuel slack x.1) o
      drop_unit (ok x) p = p.0
      drop_unit (err e) p = tt
      drop_unit panic p = tt
      drop_unit exhausted p = p

  pub draw_from-Keeps :
      {r : Stream} (m : MonsterStream r) (n : ℕ) → Keeps (IsSound s0 fuel slack) (draw_from r n)
  draw_from-Keeps {r} m n = forget (draw_from r n) (draw_from-Runs Nothing m n)

  pub monster_rarity-Keeps :
      {r : Stream} (m : MonsterStream r) → Keeps (IsSound s0 fuel slack) (monster_rarity r)
  unfolding monster_rarity
  monster_rarity-Keeps {r} m =
      Keeps-bind (draw_from r 100) _ (draw_from-Keeps m 100) (λ roll. Keeps-pure _)

  pub family_or_random-Keeps :
      {r : Stream} (m : MonsterStream r) (f : ℤ)
      → Keeps (IsSound s0 fuel slack) (family_or_random f r)
  unfolding family_or_random
  family_or_random-Keeps {r} m f =
      Keeps-if _ _ _ (Keeps-bind (draw_from r 4) _ (draw_from-Keeps m 4) (λ i. Keeps-pure _))
        (Keeps-pure f)

  pub rarity_or_random-Keeps :
      {r : Stream} (m : MonsterStream r) (q : ℤ)
      → Keeps (IsSound s0 fuel slack) (rarity_or_random q r)
  unfolding rarity_or_random
  rarity_or_random-Keeps {r} m q = Keeps-if _ _ _ (monster_rarity-Keeps m) (Keeps-pure q)

  -- The definition that is given, or one that is drawn.
  pub definition_or_pick-Runs :
      {r : Stream} (m : MonsterStream r) (given : Option MonsterDefinition) (f q : ℤ)
      → PickOk given
      → Runs
          (IsSound s0 fuel slack)
          (λ p c. PickOk p × IsSound s0 fuel slack c)
          (definition_or_pick given f q r)
  unfolding definition_or_pick pure
  definition_or_pick-Runs {r} m none f q known = record {
    at = λ c h.
        add-Nothing s0 fuel slack PickOk (pick_definition f q r c)
          ((pick_definition-Runs Nothing m f q).at c (h, tt));
  }
  definition_or_pick-Runs m (some d) f q known = record { at = λ c h. (known, h) }
