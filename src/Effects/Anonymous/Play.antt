-- ===== src/Effects/Anonymous/Play.antt =====
-- `emit`, `play` and the making of the first monsters, of internal/engine/effects.go, work alike under
-- every name of the run and the player.
use vorax_simulator.Base.{
  ◌≡◌, Bool-cases, inl, inr, exists_b, get_elem?, ℕ, zero, suc, refl, Bool, List, [], ◌∷◌, Option,
  none, some, String,
}
use vorax_simulator.Base.Int.{ℤ, eqb_ℤ}
use vorax_simulator.Outcome.{
  Outcome, ok, err, panic, exhausted, or_panic, map_outcome-bind, map_outcome-same,
}
use vorax_simulator.Protocol.{awakener, GameState, Monster, GameEvent, EffectSpec, CardDefinition}
use vorax_simulator.Rules.{card}
use vorax_simulator.Monsters.{MonsterDefinition}
use vorax_simulator.Streams.{Stream, init_stream, draw}
use vorax_simulator.Streams.Named.{named, with_named, renamed_state, draw-named}
use vorax_simulator.Offers.Opening.{choose_leader, leading_families, initial_tool_family}
use vorax_simulator.Effects.Monsters.{buff, transform, add_monster}
use vorax_simulator.Board.{left_from}
use vorax_simulator.Effects.Context.{Context, Prog, Emit, gets, slots_of, out_of_fuel}
use vorax_simulator.Effects.Selection.{selected, filter_ids}
use vorax_simulator.Effects.Play.{
  record_event, set_source, set_parent, fire_tools, emit_event, tool_with, emit_fuel, emit,
  remove_neighbour, effect_on, one_effect, play_effects, play, choose_family, with_family,
  set_opening_family, initial_monsters, initialize, initialize_rares,
}
use vorax_simulator.Effects.Anonymous.Rules.{
  Commutes, Commutes-pure, Commutes-gets, Commutes-modify, Commutes-bind, Commutes-if,
  Commutes-if_tick, Commutes-failed, Commutes-when, Commutes-for_each, Commutes-draw_from, rename,
  renamed, commutes_rules,
}
use vorax_simulator.Effects.Anonymous.Methods.{
  buff-Commutes, remove-Commutes, transform-Commutes, add_monster-Commutes,
}
use vorax_simulator.Effects.Anonymous.Handlers.{apply_tool-Commutes, apply_potion-Commutes}

module _ (run user : String) where
  record_event-Commutes :
      (kind : String) (ids : List String) (a q : ℤ) → Commutes run user (record_event kind ids a q)
  unfolding record_event
  record_event-Commutes kind ids a q = record { at = λ c. refl }

  set_source-Commutes : (id : String) → Commutes run user (set_source id)
  unfolding set_source
  set_source-Commutes id = Commutes-modify run user _ (λ c. refl)

  set_parent-Commutes : (n : ℕ) → Commutes run user (set_parent n)
  unfolding set_parent
  set_parent-Commutes n = Commutes-modify run user _ (λ c. refl)

  found_lem : (id : String) → Commutes run user (gets (λ c. card c.rules id))
  found_lem id = Commutes-gets run user _ (λ c. refl)

  module _ (fire : String → GameEvent → Prog (Unit {0}))
      (fire-Commutes : (handler : String) (e : GameEvent)
        → Commutes run user (fire handler e)) where
    fire_tools-Commutes :
        (kind : String) (e : GameEvent) (ids : List String)
        → Commutes run user (fire_tools fire kind e ids)
    unfolding fire_tools
    fire_tools-Commutes kind e [] = Commutes-pure run user tt
    fire_tools-Commutes kind e (id ∷ ids) = Commutes-bind run user _ _ (found_lem id) λ found.
        Commutes-if run user _ _ _ (fire_tools-Commutes kind e ids) (
          Commutes-bind run user _ _ (set_source-Commutes id) λ _.
            Commutes-bind run user _ _ (fire-Commutes _ e) λ _.
              Commutes-bind run user _ _ (Commutes-failed run user)
                λ stop. Commutes-when run user _ _ (fire_tools-Commutes kind e ids))

    emit_event-Commutes :
        (kind : String) (ids : List String) (a q : ℤ)
        → Commutes run user (emit_event fire kind ids a q)
    unfolding emit_event
    emit_event-Commutes kind ids a q =
        Commutes-bind run user _ _ (record_event-Commutes kind ids a q) λ e.
          Commutes-bind run user _ _ (Commutes-gets run user _ (λ c. refl)) λ old_source.
            Commutes-bind run user _ _ (Commutes-gets run user _ (λ c. refl)) λ old_parent.
              Commutes-bind run user _ _ (set_parent-Commutes e.sequence) λ _.
                Commutes-bind run user _ _ (Commutes-gets run user _ (λ c. refl)) λ tools.
                  search
                    (commutes_rules, fire_tools-Commutes, set_source-Commutes, set_parent-Commutes)

  tool_with-Commutes :
      (inner : Emit)
      → ((kind : String) (ids : List String) (a q : ℤ) → Commutes run user (inner kind ids a q))
      → (handler : String) (e : GameEvent) → Commutes run user (tool_with inner handler e)
  unfolding tool_with
  tool_with-Commutes inner k handler e =
      Commutes-if_tick run user _ (apply_tool-Commutes run user k handler e)

  emit_fuel-Commutes :
      (fuel : ℕ) (kind : String) (ids : List String) (a q : ℤ)
      → Commutes run user (emit_fuel fuel kind ids a q)
  unfolding emit_fuel out_of_fuel
  emit_fuel-Commutes zero kind ids a q = record { at = λ c. refl }
  emit_fuel-Commutes (suc fuel) kind ids a q =
      Commutes-if_tick run user _
        (emit_event-Commutes _ (tool_with-Commutes _ (emit_fuel-Commutes fuel)) kind ids a q)

  pub emit-Commutes :
      (kind : String) (ids : List String) (a q : ℤ) → Commutes run user (emit kind ids a q)
  unfolding emit
  emit-Commutes = emit_fuel-Commutes 513

  remove_neighbour-Commutes : (o : Option String) → Commutes run user (remove_neighbour emit o)
  unfolding remove_neighbour
  remove_neighbour-Commutes none = Commutes-pure run user tt
  remove_neighbour-Commutes (some id) = remove-Commutes run user emit-Commutes id

  left_lem : (id : String) → Commutes run user (gets (λ c. left_from none id (slots_of c)))
  left_lem id = Commutes-gets run user _ (λ c. refl)

  filter_lem : (p : Monster → Bool) → Commutes run user (filter_ids p)
  unfolding filter_ids
  filter_lem p = Commutes-gets run user _ (λ c. refl)

  selected-Commutes :
      (selector : String) (ids : List String) → Commutes run user (selected selector ids)
  unfolding selected
  selected-Commutes selector ids = search (commutes_rules, filter_lem) depth 8

  buffed_lem : (id : String) (a q : ℤ) → Commutes run user (buff emit id a q)
  buffed_lem = buff-Commutes run user emit-Commutes

  changed_lem :
      (id : String) (f r : ℤ) (awakening : Bool) (levels : ℤ)
      → Commutes run user (transform emit id f r awakening levels)
  changed_lem = transform-Commutes run user emit-Commutes

  effect_on-Commutes : (e : EffectSpec) (id : String) → Commutes run user (effect_on emit e id)
  unfolding effect_on
  effect_on-Commutes e id =
      search (commutes_rules, buffed_lem, changed_lem, left_lem, remove_neighbour-Commutes) depth 12

  added_lem :
      (f r a q : ℤ) (rng : Stream) (given : Option MonsterDefinition)
      → Commutes run user (add_monster emit f r a q rng given)
  added_lem = add_monster-Commutes run user emit-Commutes

  one_effect-Commutes :
      (e : EffectSpec) (ids : List String) → Commutes run user (one_effect emit e ids)
  unfolding one_effect
  one_effect-Commutes e ids =
      search (commutes_rules, added_lem, selected-Commutes, effect_on-Commutes) depth 12

  play_effects-Commutes :
      (es : List EffectSpec) (ids : List String) (rest : Prog (Unit {0}))
      → Commutes run user rest
      → Commutes run user (play_effects emit es ids rest)
  unfolding play_effects
  play_effects-Commutes [] ids rest k = k
  play_effects-Commutes (e ∷ es) ids rest k = Commutes-if_tick run user _ (
      Commutes-bind run user _ _ (one_effect-Commutes e ids)
        (λ _. play_effects-Commutes es ids rest k))

  pub play-Commutes : (d : CardDefinition) (ids : List String) → Commutes run user (play emit d ids)
  unfolding play
  play-Commutes d ids =
      play_effects-Commutes d.effects ids _
        (apply_potion-Commutes run user emit-Commutes d.handler ids)

  choose_leader-named :
      (fs : List ℤ) (s : GameState)
      → choose_leader fs (named run user s) ≡ renamed_state run user (choose_leader fs s)
  unfolding choose_leader
  choose_leader-named [] s = refl
  choose_leader-named (f ∷ []) s = refl
  choose_leader-named (f ∷ g ∷ fs) s = elim (Bool-cases (exists_b (eqb_ℤ awakener) (f ∷ g ∷ fs))) [
    | inl e ↦ rw e refl
    | inr e ↦ rw e (
        map_outcome-bind (with_named run user) (with_named run user) (draw init_stream _ s) _ _ _
          (draw-named run user init_stream _ s)
          (λ (i, s1).
            map_outcome-bind (λ h. h) (with_named run user) (or_panic (get_elem? (f ∷ g ∷ fs) i)) _
              _ _ (map_outcome-same _) (λ h. refl)))
  ]

  initial_tool_family-named :
      (s : GameState)
      → initial_tool_family (named run user s) ≡ renamed_state run user (initial_tool_family s)
  unfolding initial_tool_family
  initial_tool_family-named s = choose_leader-named (leading_families s.slots) s

  chosen-renamed :
      (c : Context) (o : Outcome (ℤ × GameState))
      → with_family (rename run user c) (renamed_state run user o)
        ≡ renamed run user (with_family c o)
  unfolding with_family
  chosen-renamed c (ok (f, s)) = refl
  chosen-renamed c (err e) = refl
  chosen-renamed c panic = refl
  chosen-renamed c exhausted = refl

  choose_family-Commutes : Commutes run user choose_family
  unfolding choose_family
  choose_family-Commutes = record {
    at = λ c.
        rw (initial_tool_family-named c.state) (chosen-renamed c (initial_tool_family c.state));
  }

  set_opening_family-Commutes : Commutes run user set_opening_family
  unfolding set_opening_family
  set_opening_family-Commutes = search (commutes_rules, choose_family-Commutes) depth 10

  initial_monsters-Commutes :
      (n i : ℕ) (family : ℤ) (bones : Bool)
      → Commutes run user (initial_monsters emit i n family bones)
  unfolding initial_monsters
  initial_monsters-Commutes zero i family bones = Commutes-pure run user tt
  initial_monsters-Commutes (suc n) i family bones =
      Commutes-bind run user _ _
        (Commutes-if run user _ _ _
          (Commutes-bind run user _ _ (Commutes-draw_from run user init_stream 3)
            (λ x. Commutes-pure run user _))
          (Commutes-pure run user family))
        (λ f.
          Commutes-bind run user _ _ (added_lem f _ _ _ _ _)
            (λ _. initial_monsters-Commutes n (suc i) family bones))

  pub initialize-Commutes :
      (count : ℕ) (family : ℤ) (bones : Bool)
      → Commutes run user (initialize emit count family bones)
  unfolding initialize
  initialize-Commutes count family bones =
      Commutes-bind run user _ _ (initial_monsters-Commutes count 0 family bones)
        (λ _. set_opening_family-Commutes)

  pub initialize_rares-Commutes : Commutes run user (initialize_rares emit)
  unfolding initialize_rares
  initialize_rares-Commutes =
      Commutes-bind run user _ _
        (Commutes-for_each run user _ _ (λ f.
          Commutes-bind run user _ _ (added_lem f _ _ _ _ _) (λ _. Commutes-pure run user tt)))
        (λ _. set_opening_family-Commutes)
