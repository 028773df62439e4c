-- ===== src/Effects/Sound/Now.antt =====
-- Reading a monster of a sound context: what is known of its definition.
use vorax_simulator.Base.{ℕ, ◌≡◌, refl, Option, none, some, String}
use vorax_simulator.Protocol.{GameState, Monster}
use vorax_simulator.Monsters.{definition_of}
use vorax_simulator.Board.{get_monster}
use vorax_simulator.Board.Valid.{get_monster-MonsterOk}
use vorax_simulator.Effects.Context.{Context, Prog, pure, gets, ◌>>=◌, slots_of}
use vorax_simulator.Effects.Keeps.{Keeps, Runs, Runs-bind, Keeps-of_Runs}
use vorax_simulator.Effects.Invariant.{IsSound}
use vorax_simulator.Effects.PotionHandlers.{now}
use vorax_simulator.Effects.Monsters.{find_monster}
use vorax_simulator.Effects.Selection.{the_monster}
use vorax_simulator.Effects.Sound.Draws.{DefinitionOk}
use vorax_simulator.Effects.Sound.Stats.{definition_of-DefinitionOk}
use vorax_simulator.Effects.Sound.Choices.{the_monster-Runs}

abbrev Known : GameState → ℕ → Monster → Context → Type 0
Known s0 fuel m c = DefinitionOk (definition_of m) × IsSound s0 fuel 0 c

module _ {s0 : GameState} {fuel : ℕ} where
  -- With what is known of the monster, whatever holds of it is kept by what follows.
  knowing :
      {A : Type 0} (m : Monster) (body : Prog A)
      → (DefinitionOk (definition_of m) → Keeps (IsSound s0 fuel 0) body)
      → Runs (Known s0 fuel m) (λ _. IsSound s0 fuel 0) body
  knowing m body k = record { at = λ c (ok, h). (k ok).at c h }

  pub with_monster :
      {A : Type 0} (id : String) (f : Monster → Prog A)
      → ((m : Monster) → DefinitionOk (definition_of m) → Keeps (IsSound s0 fuel 0) (f m))
      → Keeps (IsSound s0 fuel 0) (the_monster id >>= f)
  with_monster id f k = Keeps-of_Runs _ (
      Runs-bind (λ m. Known s0 fuel m) (λ _. IsSound s0 fuel 0) (the_monster id) f
        (the_monster-Runs id) (λ m. knowing m (f m) (k m)))

  still-Known :
      (m : Monster) (c : Context) (o : Option Monster)
      → get_monster (slots_of c) m.id ≡ o
      → Known s0 fuel m c
      → DefinitionOk (definition_of (elim o [ none ↦ m | some n ↦ n ]))
  still-Known m c none e h = h.0
  still-Known m c (some n) e (ok, h) =
      definition_of-DefinitionOk c.state.next_monster_id n
        (get_monster-MonsterOk c.state.next_monster_id c.state.slots m.id n h.monsters_ok e)

  now-Known :
      (m : Monster)
      → DefinitionOk (definition_of m)
      → Runs (IsSound s0 fuel 0) (λ n. Known s0 fuel n) (now m)
  unfolding now find_monster gets pure ◌>>=◌
  now-Known m ok = record {
    at = λ c h. (still-Known m c (get_monster (slots_of c) m.id) refl (ok, h), h);
  }

  pub with_now :
      {A : Type 0} (m : Monster) (f : Monster → Prog A)
      → DefinitionOk (definition_of m)
      → ((n : Monster) → DefinitionOk (definition_of n) → Keeps (IsSound s0 fuel 0) (f n))
      → Keeps (IsSound s0 fuel 0) (now m >>= f)
  with_now m f ok k = Keeps-of_Runs _ (
      Runs-bind (λ n. Known s0 fuel n) (λ _. IsSound s0 fuel 0) (now m) f (now-Known m ok)
        (λ n. knowing n (f n) (k n)))
