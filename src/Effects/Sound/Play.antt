-- ===== src/Effects/Sound/Play.antt =====
-- `emit`, `play` and the making of the first monsters, of internal/engine/effects.go, on a sound
-- context.
use vorax_simulator.Base.{
  ℕ, zero, suc, ◌+◌, ◌<◌, ◌≡◌, refl, Bool, true, false, List, [], ◌∷◌, Option, none, some, String,
  arith,
}
use vorax_simulator.Base.Int.{ℤ, pos}
use vorax_simulator.Outcome.{Outcome, ok, err, panic, exhausted, Returns}
use vorax_simulator.Protocol.{GameState, GameEvent, EffectSpec, CardDefinition, unspecified, rare}
use vorax_simulator.Random.{word}
use vorax_simulator.Streams.{init_stream}
use vorax_simulator.Offers.Opening.{initial_tool_family}
use vorax_simulator.Effects.Context.{Context, Prog, Emit, when, if_tick, tick}
use vorax_simulator.Effects.Keeps.{
  Keeps, Keeps-pure, Keeps-gets, Keeps-bind, Keeps-if, Keeps-when, Keeps-failed, Keeps-for_each,
  Keeps-repeat, Runs, Runs-bind, Keeps-of_Runs,
}
use vorax_simulator.Effects.Invariant.{
  IsSound, Ticked, same_state, modify-Keeps, less_slack, refuel, tick-Ticked, if_tick-Keeps,
}
use vorax_simulator.Effects.Monsters.{add_monster}
use vorax_simulator.Effects.Play.{
  record_event, set_source, set_parent, fire_tools, emit_event, tool_with, emit_fuel, emit,
  remove_neighbour, effect_on, one_effect, play_effects, play, choose_family, with_family,
  set_opening_family, initial_monsters, initialize, initialize_rares,
}
use vorax_simulator.Effects.Sound.Family.{Redrawn, initial_tool_family-Redrawn}
use vorax_simulator.Effects.Sound.Draws.{for_init, for_effect, draw_from-Keeps}
use vorax_simulator.Effects.Sound.Methods.{
  buff-Keeps, remove-Keeps, transform-Keeps, add_monster-Keeps,
}
use vorax_simulator.Effects.Sound.Choices.{selected-Keeps}
use vorax_simulator.Effects.Sound.Handlers.{apply_tool-Keeps, apply_potion-Keeps}

module _ {s0 : GameState} {fuel : ℕ} where
  record_event-Keeps :
      (kind : String) (ids : List String) (a q : ℤ)
      → Keeps (IsSound s0 fuel 0) (record_event kind ids a q)
  unfolding record_event
  record_event-Keeps kind ids a q = record { at = λ c h. same_state c _ refl refl refl refl h }

  set_source-Keeps : (id : String) → Keeps (IsSound s0 fuel 0) (set_source id)
  unfolding set_source
  set_source-Keeps id = modify-Keeps _ (λ c. refl) (λ c. refl) (λ c. refl) (λ c. refl)

  set_parent-Keeps : (n : ℕ) → Keeps (IsSound s0 fuel 0) (set_parent n)
  unfolding set_parent
  set_parent-Keeps n = modify-Keeps _ (λ c. refl) (λ c. refl) (λ c. refl) (λ c. refl)

  module _ (fire : String → GameEvent → Prog (Unit {0}))
      (fire-Keeps : (handler : String) (e : GameEvent)
        → Keeps (IsSound s0 fuel 0) (fire handler e)) where
    fire_tools-Keeps :
        (kind : String) (e : GameEvent) (ids : List String)
        → Keeps (IsSound s0 fuel 0) (fire_tools fire kind e ids)
    unfolding fire_tools
    fire_tools-Keeps kind e [] = Keeps-pure tt
    fire_tools-Keeps kind e (id ∷ ids) = Keeps-bind _ _ (Keeps-gets _) λ found.
        Keeps-if _ _ _ (fire_tools-Keeps kind e ids) (
          Keeps-bind _ _ (set_source-Keeps id) λ _.
            Keeps-bind _ _ (fire-Keeps _ e)
              λ _. Keeps-bind _ _ Keeps-failed λ stop. Keeps-when _ _ (fire_tools-Keeps kind e ids))

    emit_event-Keeps :
        (kind : String) (ids : List String) (a q : ℤ)
        → Keeps (IsSound s0 fuel 0) (emit_event fire kind ids a q)
    unfolding emit_event
    emit_event-Keeps kind ids a q = Keeps-bind _ _ (record_event-Keeps kind ids a q) λ e.
        Keeps-bind _ _ (Keeps-gets _) λ old_source. Keeps-bind _ _ (Keeps-gets _) λ old_parent.
          Keeps-bind _ _ (set_parent-Keeps e.sequence) λ _. Keeps-bind _ _ (Keeps-gets _) λ tools.
            Keeps-bind _ _ (fire_tools-Keeps kind e tools)
              λ _. Keeps-bind _ _ (set_source-Keeps old_source) (λ _. set_parent-Keeps old_parent)

-- Back to the depth of the caller, which has at least as much left.
deeper :
    {A : Type 0} (s0 : GameState) (fuel : ℕ) (o : Outcome (A × Context))
    → Returns (λ (r : A × Context). IsSound s0 fuel 0 r.1) o
    → Returns (λ (r : A × Context). IsSound s0 (suc fuel) 0 r.1) o
deeper s0 fuel (ok (a, c)) h = refuel (suc fuel) c (omega (arith, h.fueled)) h
deeper s0 fuel (err e) h = tt
deeper s0 fuel panic h = tt
deeper s0 fuel exhausted h = h

module _ {s0 : GameState} (room : s0.next_monster_id + 513 < word) where
  tool_with-Keeps :
      {fuel : ℕ} (emit : Emit)
      → ((kind : String) (ids : List String) (a q : ℤ)
          → Keeps (IsSound s0 fuel 0) (emit kind ids a q))
      → (handler : String) (e : GameEvent) → Keeps (IsSound s0 fuel 0) (tool_with emit handler e)
  unfolding tool_with
  tool_with-Keeps emit keep handler e = if_tick-Keeps _ (apply_tool-Keeps emit keep room handler e)

  -- What runs after a step that was counted may use one level less.
  counted-Keeps :
      (fuel : ℕ) (body : Prog (Unit {0}))
      → ((f : ℕ) → fuel ≡ suc f → Keeps (IsSound s0 fuel 0) body)
      → Keeps (IsSound s0 (suc fuel) 0) (if_tick body)
  unfolding if_tick
  counted-Keeps fuel body k = Keeps-of_Runs (if_tick body) (
      Runs-bind (Ticked s0 (suc fuel) 0) (λ _. IsSound s0 (suc fuel) 0) tick
        (λ alive. when alive body) (tick-Ticked s0 (suc fuel) 0) after)
    where
      below :
          (f : ℕ) (c : Context)
          → fuel ≡ f
          → Ticked s0 (suc fuel) 0 true c
          → Returns (λ (r : Unit {0} × Context). IsSound s0 (suc fuel) 0 r.1) (body c)
      below zero c same (h, p, q) = absurd (omega (arith, p, q, same))
      below (suc f) c same (h, p, q) =
          deeper s0 fuel (body c)
            ((k f same).at c (refuel fuel c (omega (arith, p)) (less_slack c h)))

      after :
          (alive : Bool)
          → Runs (Ticked s0 (suc fuel) 0 alive) (λ _. IsSound s0 (suc fuel) 0) (when alive body)
      after true = record { at = λ c h. below fuel c refl h }
      after false = record { at = λ c h. h }

  emit_fuel-Keeps :
      (fuel : ℕ) (kind : String) (ids : List String) (a q : ℤ)
      → Keeps (IsSound s0 (suc fuel) 0) (emit_fuel (suc fuel) kind ids a q)
  unfolding emit_fuel
  emit_fuel-Keeps zero kind ids a q = counted-Keeps zero _ (λ f e. absurd (omega (arith, e)))
  emit_fuel-Keeps (suc fuel) kind ids a q = counted-Keeps (suc fuel) _ (λ f e.
      emit_event-Keeps _ (tool_with-Keeps (emit_fuel (suc fuel)) (emit_fuel-Keeps fuel)) kind ids a
        q)

  -- Where the counter of monsters has room for 513 more ids, `emit`, with one more than the limit of
  -- steps as the fuel of its nested calls, keeps every sound context sound: it never runs out of the
  -- fuel, and ends with a sound context or a panic.
  pub emit-Keeps :
      (kind : String) (ids : List String) (a q : ℤ) → Keeps (IsSound s0 513 0) (emit kind ids a q)
  unfolding emit
  emit-Keeps = emit_fuel-Keeps 512

module _ {s0 : GameState} {fuel : ℕ} where
  set_family-Keeps :
      (f : ℤ) (v : ℕ) (c : Context)
      → v < word
      → IsSound s0 fuel 0 c
      → IsSound s0 fuel 0
          (record c { state = record c.state { init_rng = v; opening_tool_family = f } })
  set_family-Keeps f v c inside h = record {
    framed = h.framed;
    placed = h.placed;
    monsters_ok = h.monsters_ok;
    distinct = h.distinct;
    init_word = inside;
    effect_word = h.effect_word;
    counter = h.counter;
    limited = h.limited;
    counted = h.counted;
    fueled = h.fueled;
  }

  choose_family-Keeps : Keeps (IsSound s0 fuel 0) choose_family
  unfolding choose_family with_family
  choose_family-Keeps = record {
    at = λ c h.
        chosen c h (initial_tool_family c.state) (initial_tool_family-Redrawn c.state h.init_word);
  }
    where
      chosen :
          (c : Context)
          → IsSound s0 fuel 0 c
          → (o : Outcome (ℤ × GameState)) → Returns (Redrawn c.state) o
          → Returns
              (λ (r : Unit {0} × Context). IsSound s0 fuel 0 r.1)
              (elim o [
                | ok (f, s) ↦ ok (tt, record c { state = record s { opening_tool_family = f } })
                | err e ↦ err e
                | panic ↦ panic
                | exhausted ↦ exhausted
              ])
      chosen c h (ok (f, s)) (v, p, e) = rw e (set_family-Keeps f v c p h)
      chosen c h (err e) p = tt
      chosen c h panic p = tt
      chosen c h exhausted p = p

  set_opening_family-Keeps : Keeps (IsSound s0 fuel 0) set_opening_family
  unfolding set_opening_family
  set_opening_family-Keeps =
      Keeps-bind _ _ Keeps-failed (λ stop. Keeps-when _ _ choose_family-Keeps)

module _ {s0 : GameState} {fuel : ℕ} (emit : Emit)
    (emit-Keeps : (kind : String) (ids : List String) (a q : ℤ)
      → Keeps (IsSound s0 fuel 0) (emit kind ids a q))
    (room : s0.next_monster_id + 513 < word) where
  remove_neighbour-Keeps : (o : Option String) → Keeps (IsSound s0 fuel 0) (remove_neighbour emit o)
  unfolding remove_neighbour
  remove_neighbour-Keeps none = Keeps-pure tt
  remove_neighbour-Keeps (some id) = remove-Keeps emit emit-Keeps id

  effect_on-Keeps : (e : EffectSpec) (id : String) → Keeps (IsSound s0 fuel 0) (effect_on emit e id)
  unfolding effect_on
  effect_on-Keeps e id = Keeps-if _ _ _ (buff-Keeps emit emit-Keeps id e.activity e.quantity) (
      Keeps-if _ _ _ (transform-Keeps emit emit-Keeps id e.family e.rarity false (pos 0)) (
        Keeps-if _ _ _ (transform-Keeps emit emit-Keeps id unspecified unspecified true e.count)
          (Keeps-if _ _ _ (Keeps-bind _ _ (Keeps-gets _) remove_neighbour-Keeps) (Keeps-pure tt))))

  one_effect-Keeps :
      (e : EffectSpec) (ids : List String) → Keeps (IsSound s0 fuel 0) (one_effect emit e ids)
  unfolding one_effect
  one_effect-Keeps e ids =
      Keeps-if _ _ _
        (Keeps-repeat _ _ (
          Keeps-bind _ _
            (add_monster-Keeps emit emit-Keeps room e.family e.rarity e.activity e.quantity none
              for_effect tt)
            (λ _. Keeps-pure tt)))
        (Keeps-bind _ _ (selected-Keeps e.selector ids)
          (λ targets. Keeps-for_each targets _ (effect_on-Keeps e)))

  play_effects-Keeps :
      (es : List EffectSpec) (ids : List String) (rest : Prog (Unit {0}))
      → Keeps (IsSound s0 fuel 0) rest
      → Keeps (IsSound s0 fuel 0) (play_effects emit es ids rest)
  unfolding play_effects
  play_effects-Keeps [] ids rest k = k
  play_effects-Keeps (e ∷ es) ids rest k =
      if_tick-Keeps _
        (Keeps-bind _ _ (one_effect-Keeps e ids) (λ _. play_effects-Keeps es ids rest k))

  pub play-Keeps :
      (d : CardDefinition) (ids : List String) → Keeps (IsSound s0 fuel 0) (play emit d ids)
  unfolding play
  play-Keeps d ids =
      play_effects-Keeps d.effects ids _ (apply_potion-Keeps emit emit-Keeps room d.handler ids)

  add_initial :
      (f r : ℤ) → Keeps (IsSound s0 fuel 0) (add_monster emit f r (pos 0) (pos 0) init_stream none)
  add_initial f r = add_monster-Keeps emit emit-Keeps room f r (pos 0) (pos 0) none for_init tt

  initial_monsters-Keeps :
      (i n : ℕ) (family : ℤ) (bones : Bool)
      → Keeps (IsSound s0 fuel 0) (initial_monsters emit i n family bones)
  unfolding initial_monsters
  initial_monsters-Keeps i zero family bones = Keeps-pure tt
  initial_monsters-Keeps i (suc n) family bones =
      Keeps-bind _ _
        (Keeps-if _ _ _ (Keeps-bind _ _ (draw_from-Keeps for_init 3) (λ x. Keeps-pure _))
          (Keeps-pure family))
        λ f.
          Keeps-bind _ _ (add_initial f unspecified)
            (λ _. initial_monsters-Keeps (suc i) n family bones)

  pub initialize-Keeps :
      (count : ℕ) (family : ℤ) (bones : Bool)
      → Keeps (IsSound s0 fuel 0) (initialize emit count family bones)
  unfolding initialize
  initialize-Keeps count family bones =
      Keeps-bind _ _ (initial_monsters-Keeps 0 count family bones) (λ _. set_opening_family-Keeps)

  pub initialize_rares-Keeps : Keeps (IsSound s0 fuel 0) (initialize_rares emit)
  unfolding initialize_rares
  initialize_rares-Keeps =
      Keeps-bind _ _
        (Keeps-for_each _ _ (λ f. Keeps-bind _ _ (add_initial f rare) (λ _. Keeps-pure tt)))
        (λ _. set_opening_family-Keeps)
