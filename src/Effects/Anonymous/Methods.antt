-- ===== src/Effects/Anonymous/Methods.antt =====
-- The methods of internal/engine/effects.go work alike under every name of the run and the player, if
-- `emit` does.
use vorax_simulator.Base.{ℕ, refl, Bool, true, false, List, [], ◌∷◌, Option, none, some, String}
use vorax_simulator.Base.Int.{ℤ}
use vorax_simulator.Outcome.{invalid_content}
use vorax_simulator.Protocol.{Monster}
use vorax_simulator.Monsters.{MonsterDefinition}
use vorax_simulator.Board.{free_slot, first_of_ids}
use vorax_simulator.Streams.{Stream}
use vorax_simulator.Effects.Context.{Emit, gets, modify, ◌>>=◌, slots_of}
use vorax_simulator.Effects.Monsters.{
  find_monster, pick_from, pick_definition, monster_rarity, family_or_random, rarity_or_random,
  random_family, definition_or_pick, fresh_id, add_defined, add_at, add_monster, buff_found, buff,
  remove_found, remove, transform_found, transform_to, mutate_found, awaken_found,
  transform_monster, transform, devour_found, devour,
}
use vorax_simulator.Effects.Fusion.{
  Fusion, fused, refused, missing, fuse_place, fuse_found, fuse_some, fuse,
}
use vorax_simulator.Effects.Anonymous.Rules.{
  Commutes, Commutes-gets, Commutes-modify, Commutes-pure, Commutes-bind, Commutes-fail,
  commutes_rules,
}

module _ (run user : String) where
  pub find_monster-Commutes : (id : String) → Commutes run user (find_monster id)
  unfolding find_monster
  find_monster-Commutes id = Commutes-gets run user _ (λ c. refl)

  pick_from-Commutes :
      (ds : List MonsterDefinition) (r : Stream) → Commutes run user (pick_from ds r)
  unfolding pick_from
  pick_from-Commutes [] r = Commutes-pure run user none
  pick_from-Commutes (d ∷ ds) r = search (commutes_rules) depth 10

  pub pick_definition-Commutes : (f k : ℤ) (r : Stream) → Commutes run user (pick_definition f k r)
  unfolding pick_definition
  pick_definition-Commutes f k r = pick_from-Commutes _ r

  pub monster_rarity-Commutes : (r : Stream) → Commutes run user (monster_rarity r)
  unfolding monster_rarity
  monster_rarity-Commutes r = search (commutes_rules) depth 10

  pub family_or_random-Commutes : (f : ℤ) (r : Stream) → Commutes run user (family_or_random f r)
  unfolding family_or_random random_family
  family_or_random-Commutes f r = search (commutes_rules) depth 10

  rarity_or_random-Commutes : (f : ℤ) (r : Stream) → Commutes run user (rarity_or_random f r)
  unfolding rarity_or_random
  rarity_or_random-Commutes f r = search (commutes_rules, monster_rarity-Commutes) depth 10

  definition_or_pick-Commutes :
      (d : Option MonsterDefinition) (f k : ℤ) (r : Stream)
      → Commutes run user (definition_or_pick d f k r)
  unfolding definition_or_pick
  definition_or_pick-Commutes none f k r = pick_definition-Commutes f k r
  definition_or_pick-Commutes (some d) f k r = Commutes-pure run user (some d)

  pub fresh_id-Commutes : Commutes run user fresh_id
  unfolding fresh_id modify gets ◌>>=◌
  fresh_id-Commutes = record { at = λ c. refl }

  module _ {emit : Emit}
      (emit-Commutes : (kind : String) (ids : List String) (a q : ℤ)
        → Commutes run user (emit kind ids a q)) where
    add_defined-Commutes :
        (i : ℕ) (d : Option MonsterDefinition) (a q : ℤ)
        → Commutes run user (add_defined emit i d a q)
    unfolding add_defined
    add_defined-Commutes i none a q = search (commutes_rules) depth 10
    add_defined-Commutes i (some d) a q =
        search (commutes_rules, emit-Commutes, fresh_id-Commutes) depth 14

    add_at-Commutes :
        (free : Option ℕ) (f r a q : ℤ) (rng : Stream) (given : Option MonsterDefinition)
        → Commutes run user (add_at emit free f r a q rng given)
    unfolding add_at
    add_at-Commutes none f r a q rng given = search (commutes_rules, emit-Commutes) depth 10
    add_at-Commutes (some i) f r a q rng given =
        search
          (
            commutes_rules, family_or_random-Commutes, rarity_or_random-Commutes,
            definition_or_pick-Commutes, add_defined-Commutes,
          )
          depth 14

    free_lem : Commutes run user (gets (λ c. free_slot (slots_of c)))
    free_lem = Commutes-gets run user _ (λ c. refl)

    pub add_monster-Commutes :
        (f r a q : ℤ) (rng : Stream) (given : Option MonsterDefinition)
        → Commutes run user (add_monster emit f r a q rng given)
    unfolding add_monster
    add_monster-Commutes f r a q rng given =
        search (commutes_rules, free_lem, add_at-Commutes) depth 14

    buff_found-Commutes : (m : Option Monster) (a q : ℤ) → Commutes run user (buff_found emit m a q)
    unfolding buff_found
    buff_found-Commutes none a q = Commutes-pure run user tt
    buff_found-Commutes (some m) a q = search (commutes_rules, emit-Commutes) depth 14

    pub buff-Commutes : (id : String) (a q : ℤ) → Commutes run user (buff emit id a q)
    unfolding buff
    buff-Commutes id a q =
        search (commutes_rules, find_monster-Commutes, buff_found-Commutes) depth 14

    removed_lem : Commutes run user (gets (λ c. c.removed_monster))
    removed_lem = Commutes-gets run user _ (λ c. refl)

    set_removed-Commutes :
        (m : Option Monster) → Commutes run user (modify (λ c. record c { removed_monster = m }))
    set_removed-Commutes m = Commutes-modify run user _ (λ c. refl)

    remove_found-Commutes : (m : Option Monster) → Commutes run user (remove_found emit m)
    unfolding remove_found
    remove_found-Commutes none = Commutes-pure run user tt
    remove_found-Commutes (some m) =
        search (commutes_rules, removed_lem, set_removed-Commutes, emit-Commutes) depth 16

    pub remove-Commutes : (id : String) → Commutes run user (remove emit id)
    unfolding remove
    remove-Commutes id =
        search (commutes_rules, find_monster-Commutes, remove_found-Commutes) depth 14

    transform_found-Commutes :
        (m : Option Monster) (d : Option MonsterDefinition) (kind : String)
        → Commutes run user (transform_found emit m d kind)
    unfolding transform_found
    transform_found-Commutes none d kind = Commutes-pure run user tt
    transform_found-Commutes (some m) none kind = Commutes-fail run user invalid_content
    transform_found-Commutes (some m) (some d) kind =
        search (commutes_rules, emit-Commutes) depth 14

    pub transform_to-Commutes :
        (id : String) (d : Option MonsterDefinition) (kind : String)
        → Commutes run user (transform_to emit id d kind)
    unfolding transform_to
    transform_to-Commutes id d kind =
        search (commutes_rules, find_monster-Commutes, transform_found-Commutes) depth 14

    mutate_found-Commutes : (m : Monster) (f r : ℤ) → Commutes run user (mutate_found emit m f r)
    unfolding mutate_found
    mutate_found-Commutes m f r =
        search
          (
            commutes_rules, family_or_random-Commutes, rarity_or_random-Commutes,
            pick_definition-Commutes, transform_to-Commutes,
          )
          depth 14

    awaken_found-Commutes :
        (m : Monster) (r levels : ℤ) → Commutes run user (awaken_found emit m r levels)
    unfolding awaken_found
    awaken_found-Commutes m r levels =
        search (commutes_rules, pick_definition-Commutes, transform_to-Commutes) depth 14

    transform_monster-Commutes :
        (m : Option Monster) (f r : ℤ) (awakening : Bool) (levels : ℤ)
        → Commutes run user (transform_monster emit m f r awakening levels)
    unfolding transform_monster
    transform_monster-Commutes none f r awakening levels = Commutes-pure run user tt
    transform_monster-Commutes (some m) f r true levels = awaken_found-Commutes m r levels
    transform_monster-Commutes (some m) f r false levels = mutate_found-Commutes m f r

    pub transform-Commutes :
        (id : String) (f r : ℤ) (awakening : Bool) (levels : ℤ)
        → Commutes run user (transform emit id f r awakening levels)
    unfolding transform
    transform-Commutes id f r awakening levels =
        search (commutes_rules, find_monster-Commutes, transform_monster-Commutes) depth 14

    devour_found-Commutes :
        (eater prey : Option Monster) → Commutes run user (devour_found emit eater prey)
    unfolding devour_found
    devour_found-Commutes none prey = Commutes-pure run user tt
    devour_found-Commutes (some eater) none = Commutes-pure run user tt
    devour_found-Commutes (some eater) (some prey) = search (commutes_rules, emit-Commutes) depth 16

    pub devour-Commutes :
        (eater_id prey_id : String) → Commutes run user (devour emit eater_id prey_id)
    unfolding devour
    devour-Commutes eater_id prey_id =
        search (commutes_rules, find_monster-Commutes, devour_found-Commutes) depth 16

    fuse_place-Commutes :
        (dest : Option ℕ) (d : Option MonsterDefinition) (ids : List String) (id : String) (a q : ℤ)
        → Commutes run user (fuse_place emit dest d ids id a q)
    unfolding fuse_place
    fuse_place-Commutes dest none ids id a q = Commutes-fail run user invalid_content
    fuse_place-Commutes dest (some d) ids id a q = search (commutes_rules, emit-Commutes) depth 14

    place_lem : (ids : List String) → Commutes run user (gets (λ c. first_of_ids ids (slots_of c)))
    place_lem ids = Commutes-gets run user _ (λ c. refl)

    fuse_found-Commutes :
        (sums : Fusion) (ids : List String) (f r : ℤ)
        → Commutes run user (fuse_found emit sums ids f r)
    unfolding fuse_found
    fuse_found-Commutes missing ids f r = Commutes-pure run user tt
    fuse_found-Commutes (refused e) ids f r = Commutes-fail run user e
    fuse_found-Commutes (fused a q highest) ids f r =
        search
          (
            commutes_rules, place_lem, family_or_random-Commutes, fresh_id-Commutes,
            pick_definition-Commutes, fuse_place-Commutes,
          )
          depth 16

    fuse_some-Commutes : (ids : List String) (f r : ℤ) → Commutes run user (fuse_some emit ids f r)
    unfolding fuse_some
    fuse_some-Commutes [] f r = Commutes-pure run user tt
    fuse_some-Commutes (id ∷ ids) f r =
        Commutes-bind run user _ _ (Commutes-gets run user _ (λ c. refl))
          (λ sums. fuse_found-Commutes sums (id ∷ ids) f r)

    pub fuse-Commutes : (ids : List String) (f r : ℤ) → Commutes run user (fuse emit ids f r)
    unfolding fuse
    fuse-Commutes ids f r = search (commutes_rules, fuse_some-Commutes) depth 10
