-- ===== src/Effects/Sound/Methods.antt =====
-- The methods of internal/engine/effects.go keep a context sound, if `emit` does.
use vorax_simulator.Base.{
  ℕ, ◌+◌, ◌<◌, refl, Bool, true, false, List, [], ◌∷◌, Option, none, some, String, if◌then◌else◌,
}
use vorax_simulator.Base.Int.{ℤ}
use vorax_simulator.Outcome.{invalid_content}
use vorax_simulator.Protocol.{GameState, Monster}
use vorax_simulator.Monsters.{MonsterDefinition, base}
use vorax_simulator.Random.{word}
use vorax_simulator.Streams.{Stream, effect_stream}
use vorax_simulator.Board.{clear_first, clear_all, put_at, free_slot}
use vorax_simulator.Board.Writes.{
  AllOk-clear_first, Distinct-clear_first, indices-clear_first, AllOk-clear_all, Distinct-clear_all,
  indices-clear_all,
}
use vorax_simulator.Effects.Context.{Prog, Emit, gets, ◌>>=◌, tick, slots_of, write_slots}
use vorax_simulator.Effects.Keeps.{
  Keeps, Keeps-pure, Keeps-gets, Keeps-bind, Keeps-if, Runs, Runs-bind, Keeps-of_Runs,
}
use vorax_simulator.Effects.Invariant.{
  IsSound, Ticked, write_slots-Keeps, fail-Keeps, modify-Keeps, tick-Ticked, if_tick-Keeps,
}
use vorax_simulator.Effects.Monsters.{
  new_monster, fresh_id, add_at, add_defined, add_monster, buff, remove, transform_to, transform,
  devour, pick_definition, family_or_random, rarity_or_random, definition_or_pick, buff_found,
  remove_found, transform_found, mutate_found, awaken_found, transform_monster, devour_found,
}
use vorax_simulator.Effects.Sound.Draws.{
  MonsterStream, for_effect, PickOk, Sound, family_or_random-Keeps, rarity_or_random-Keeps,
  definition_or_pick-Runs,
}
use vorax_simulator.Effects.Sound.Stats.{with_sum-Keeps, with_sum-Spends, Spends, Spends-of_Keeps}
use vorax_simulator.Effects.Sound.Monsters.{
  find_monster-Keeps, IsFresh, fresh_id-Runs, put-IsFresh-Runs, set_stats-Keeps, identify-Keeps,
}

clear_first-Keeps :
    {s0 : GameState} {fuel : ℕ} (id : String)
    → Keeps (IsSound s0 fuel 0) (write_slots (clear_first id))
clear_first-Keeps {s0} {fuel} id =
    write_slots-Keeps s0 fuel 0 (clear_first id) (AllOk-clear_first id) (Distinct-clear_first id)
      (indices-clear_first id)

pub clear_all-Keeps :
    {s0 : GameState} {fuel slack : ℕ} (ids : List String)
    → Keeps (IsSound s0 fuel slack) (write_slots (clear_all ids))
clear_all-Keeps {s0} {fuel} {slack} ids =
    write_slots-Keeps s0 fuel slack (clear_all ids) (AllOk-clear_all ids) (Distinct-clear_all ids)
      (indices-clear_all ids)

module _ {s0 : GameState} {fuel : ℕ} (emit : Emit)
    (emit-Keeps : (kind : String) (ids : List String) (a q : ℤ)
      → Keeps (IsSound s0 fuel 0) (emit kind ids a q)) where
  buff_found-Keeps :
      (m : Option Monster) (a q : ℤ) → Keeps (IsSound s0 fuel 0) (buff_found emit m a q)
  unfolding buff_found
  buff_found-Keeps none a q = Keeps-pure tt
  buff_found-Keeps (some m) a q = with_sum-Keeps tt m.activity a _ λ aa ha.
      with_sum-Keeps tt m.quantity q _
        λ qq hq. Keeps-bind _ _ (set_stats-Keeps m.id aa qq ha hq) (λ _. emit-Keeps _ _ a q)

  pub buff-Keeps : (id : String) (a q : ℤ) → Keeps (IsSound s0 fuel 0) (buff emit id a q)
  unfolding buff
  buff-Keeps id a q =
      if_tick-Keeps _ (Keeps-bind _ _ (find_monster-Keeps id) (λ m. buff_found-Keeps m a q))

  remove_found-Keeps : (m : Option Monster) → Keeps (IsSound s0 fuel 0) (remove_found emit m)
  unfolding remove_found
  remove_found-Keeps none = Keeps-pure tt
  remove_found-Keeps (some m) = Keeps-bind _ _ (Keeps-gets _) λ previous.
      Keeps-bind _ _ (modify-Keeps _ (λ c. refl) (λ c. refl) (λ c. refl) (λ c. refl)) λ _.
        Keeps-bind _ _ (clear_first-Keeps m.id) λ _.
          Keeps-bind _ _ (emit-Keeps _ _ _ _)
            λ _. modify-Keeps _ (λ c. refl) (λ c. refl) (λ c. refl) (λ c. refl)

  pub remove-Keeps : (id : String) → Keeps (IsSound s0 fuel 0) (remove emit id)
  unfolding remove
  remove-Keeps id = if_tick-Keeps _ (Keeps-bind _ _ (find_monster-Keeps id) remove_found-Keeps)

  transform_found-Keeps :
      (m : Option Monster) (d : Option MonsterDefinition) (kind : String)
      → PickOk d
      → Keeps (IsSound s0 fuel 0) (transform_found emit m d kind)
  unfolding transform_found
  transform_found-Keeps none d kind ok = Keeps-pure tt
  transform_found-Keeps (some m) none kind ok = fail-Keeps s0 fuel 0 invalid_content
  transform_found-Keeps (some m) (some d) kind ok =
      with_sum-Keeps tt m.activity (base d.rarity).0 _ λ aa ha.
        with_sum-Keeps tt m.quantity (base d.rarity).1 _
          λ qq hq. Keeps-bind _ _ (identify-Keeps m.id d aa qq ok ha hq) (λ _. emit-Keeps _ _ _ _)

  pub transform_to-Keeps :
      (id : String) (d : Option MonsterDefinition) (kind : String)
      → PickOk d
      → Keeps (IsSound s0 fuel 0) (transform_to emit id d kind)
  unfolding transform_to
  transform_to-Keeps id d kind ok =
      if_tick-Keeps _
        (Keeps-bind _ _ (find_monster-Keeps id) (λ m. transform_found-Keeps m d kind ok))

  -- A definition is picked, and the monster becomes one of that kind.
  pick_transform-Keeps :
      (f r : ℤ) (id kind : String)
      → Keeps
          (IsSound s0 fuel 0)
          (do d ← pick_definition f r effect_stream; transform_to emit id d kind)
  pick_transform-Keeps f r id kind = Keeps-of_Runs _ (
      Runs-bind (λ p c. PickOk p × IsSound s0 fuel 0 c) (λ _. IsSound s0 fuel 0)
        (pick_definition f r effect_stream) (λ d. transform_to emit id d kind)
        (unfold definition_or_pick in definition_or_pick-Runs for_effect none f r tt)
        (λ d. record { at = λ c (ok, h). (transform_to-Keeps id d kind ok).at c h }))

  mutate_found-Keeps : (m : Monster) (f r : ℤ) → Keeps (IsSound s0 fuel 0) (mutate_found emit m f r)
  unfolding mutate_found
  mutate_found-Keeps m f r = Keeps-bind _ _ (family_or_random-Keeps for_effect f) λ f'.
      Keeps-bind _ _ (rarity_or_random-Keeps for_effect r)
        λ r'. pick_transform-Keeps f' r' m.id "mutated"

  awaken_found-Keeps :
      (m : Monster) (r levels : ℤ) → Keeps (IsSound s0 fuel 0) (awaken_found emit m r levels)
  unfolding awaken_found
  awaken_found-Keeps m r levels =
      Keeps-if _ _ _ (Keeps-pure tt) (pick_transform-Keeps m.family _ m.id "awakened")

  transform_monster-Keeps :
      (m : Option Monster) (f r : ℤ) (awakening : Bool) (levels : ℤ)
      → Keeps (IsSound s0 fuel 0) (transform_monster emit m f r awakening levels)
  unfolding transform_monster
  transform_monster-Keeps none f r awakening levels = Keeps-pure tt
  transform_monster-Keeps (some m) f r true levels = awaken_found-Keeps m r levels
  transform_monster-Keeps (some m) f r false levels = mutate_found-Keeps m f r

  pub transform-Keeps :
      (id : String) (f r : ℤ) (awakening : Bool) (levels : ℤ)
      → Keeps (IsSound s0 fuel 0) (transform emit id f r awakening levels)
  unfolding transform
  transform-Keeps id f r awakening levels =
      Keeps-bind _ _ (find_monster-Keeps id) (λ m. transform_monster-Keeps m f r awakening levels)

  devour_found-Keeps :
      (eater prey : Option Monster) → Keeps (IsSound s0 fuel 0) (devour_found emit eater prey)
  unfolding devour_found
  devour_found-Keeps none prey = Keeps-pure tt
  devour_found-Keeps (some eater) none = Keeps-pure tt
  devour_found-Keeps (some eater) (some prey) =
      with_sum-Keeps tt eater.activity prey.activity _ λ a ha.
        with_sum-Keeps tt eater.quantity prey.quantity _ λ q hq.
          Keeps-bind _ _ (set_stats-Keeps eater.id a q ha hq)
            λ _. Keeps-bind _ _ (clear_all-Keeps (prey.id ∷ [])) (λ _. emit-Keeps _ _ _ _)

  pub devour-Keeps :
      (eater_id prey_id : String) → Keeps (IsSound s0 fuel 0) (devour emit eater_id prey_id)
  unfolding devour
  devour-Keeps eater_id prey_id = if_tick-Keeps _ (
      Keeps-if _ _ _ (Keeps-pure tt) (
        Keeps-bind _ _ (find_monster-Keeps eater_id)
          λ eater. Keeps-bind _ _ (find_monster-Keeps prey_id) (devour_found-Keeps eater)))

  module _ (room : s0.next_monster_id + 513 < word) where
    add_defined-Spends :
        (i : ℕ) (d : Option MonsterDefinition) (a q : ℤ)
        → PickOk d
        → Spends s0 fuel (add_defined emit i d a q)
    unfolding add_defined
    add_defined-Spends i none a q ok =
        Spends-of_Keeps _
          (Keeps-bind _ _ (fail-Keeps s0 fuel 0 invalid_content) (λ _. Keeps-pure ""))
    add_defined-Spends i (some d) a q ok = with_sum-Spends "" (base d.rarity).0 a _ λ aa ha.
        with_sum-Spends "" (base d.rarity).1 q _ λ qq hq.
          Runs-bind (λ id. Sound (IsFresh id) s0 fuel 0) (λ _. IsSound s0 fuel 0) fresh_id _
            (fresh_id-Runs room)
            λ id.
              Runs-bind (λ _. IsSound s0 fuel 0) (λ _. IsSound s0 fuel 0)
                (write_slots (put_at i (new_monster id d aa qq))) _
                (put-IsFresh-Runs id i d aa qq ok ha hq)
                λ _. record {
                  at =
                      (Keeps-bind (emit "added" (id ∷ []) aa qq) _ (emit-Keeps _ _ _ _)
                        (λ _. Keeps-pure id)).at;
                }

    add_at-Spends :
        (free : Option ℕ) (f r a q : ℤ) {rng : Stream} (given : Option MonsterDefinition)
        → MonsterStream rng
        → PickOk given
        → Spends s0 fuel (add_at emit free f r a q rng given)
    unfolding add_at
    add_at-Spends none f r a q given m ok =
        Spends-of_Keeps _ (Keeps-bind _ _ (emit-Keeps _ _ _ _) (λ _. Keeps-pure ""))
    add_at-Spends (some i) f r a q {rng} given m ok =
        Runs-bind (λ _. IsSound s0 fuel 1) (λ _. IsSound s0 fuel 0) (family_or_random f rng) _
          (record { at = (family_or_random-Keeps m f).at })
          λ f'.
            Runs-bind (λ _. IsSound s0 fuel 1) (λ _. IsSound s0 fuel 0) (rarity_or_random r rng) _
              (record { at = (rarity_or_random-Keeps m r).at })
              λ r'.
                Runs-bind (λ p c. PickOk p × IsSound s0 fuel 1 c) (λ _. IsSound s0 fuel 0)
                  (definition_or_pick given f' r' rng) _ (definition_or_pick-Runs m given f' r' ok)
                  λ d. record { at = λ c (dok, h). (add_defined-Spends i d a q dok).at c h }

    after_tick :
        (alive : Bool) {A : Type 0} (m n : Prog A)
        → Spends s0 fuel m
        → Keeps (IsSound s0 fuel 0) n
        → Runs (Ticked s0 fuel 0 alive) (λ _. IsSound s0 fuel 0) (if alive then m else n)
    after_tick true m n km kn = record { at = λ c h. km.at c h.0 }
    after_tick false m n km kn = record { at = kn.at }

    pub add_monster-Keeps :
        (f r a q : ℤ) {rng : Stream} (given : Option MonsterDefinition)
        → MonsterStream rng
        → PickOk given
        → Keeps (IsSound s0 fuel 0) (add_monster emit f r a q rng given)
    unfolding add_monster
    add_monster-Keeps f r a q {rng} given m ok = Keeps-of_Runs _ (
        Runs-bind (Ticked s0 fuel 0) (λ _. IsSound s0 fuel 0) tick _ (tick-Ticked s0 fuel 0)
          λ alive.
            Runs-bind (λ _. Ticked s0 fuel 0 alive) (λ _. IsSound s0 fuel 0)
              (gets (λ c. free_slot (slots_of c))) _
              (record { at = (Keeps-gets {P = Ticked s0 fuel 0 alive} _).at })
              λ free. after_tick alive _ _ (add_at-Spends free f r a q given m ok) (Keeps-pure ""))
