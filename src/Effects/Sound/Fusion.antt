-- ===== src/Effects/Sound/Fusion.antt =====
-- `fuse` keeps a context sound.
use vorax_simulator.Base.{
  ℕ, ◌+◌, ◌<◌, ◌≡◌, refl, Bool, true, false, List, [], ◌∷◌, Option, none, some, String, contains,
  arith, Bool-cases, inl, inr, if◌then◌else◌,
}
use vorax_simulator.Base.Int.{ℤ, pos, ltb_ℤ, InRange}
use vorax_simulator.Outcome.{numeric_overflow, invalid_content}
use vorax_simulator.Protocol.{GameState, Slot, Monster, normal}
use vorax_simulator.Rewards.{checked_add}
use vorax_simulator.Monsters.{MonsterDefinition}
use vorax_simulator.Random.{word}
use vorax_simulator.Streams.{effect_stream}
use vorax_simulator.Board.{get_monster, put_at}
use vorax_simulator.Effects.Context.{
  Prog, Emit, pure, gets, ◌>>=◌, when, tick, if_tick, slots_of, write_slots,
}
use vorax_simulator.Effects.Keeps.{Keeps, Keeps-pure, Keeps-gets, Runs, Runs-bind, Keeps-of_Runs}
use vorax_simulator.Effects.Invariant.{IsSound, Ticked, fail-Keeps, tick-Ticked}
use vorax_simulator.Effects.Monsters.{fresh_id, new_monster, pick_definition, family_or_random}
use vorax_simulator.Effects.Fusion.{
  Fusion, fused, refused, missing, fuse, fuse_place, fuse_found, fuse_some, fuse_sums, fuse_next,
  fused_rarity,
}
use vorax_simulator.Effects.Sound.Draws.{
  for_effect, PickOk, DefinitionOk, Sound, family_or_random-Keeps, pick_definition-Runs,
}
use vorax_simulator.Rewards.Overflow.{checked_add-InRange}
use vorax_simulator.Effects.Sound.Stats.{Spends, Spends-of_Keeps}
use vorax_simulator.Effects.Sound.Monsters.{IsFresh, fresh_id-Runs, put-IsFresh-Runs}
use vorax_simulator.Effects.Sound.Methods.{clear_all-Keeps}

-- The sums of a fusion fit into an int64.
abbrev FusionOk : Fusion → Type 0
FusionOk (fused a q r) = InRange a × InRange q
FusionOk (refused e) = Unit
FusionOk missing = Unit

summed :
    (o p : Option ℤ) (r : ℤ) (next : ℤ → ℤ → ℤ → Fusion)
    → ((a : ℤ) → o ≡ some a → InRange a)
    → ((q : ℤ) → p ≡ some q → InRange q)
    → ((a q r : ℤ) → InRange a → InRange q → FusionOk (next a q r))
    → FusionOk (elim o [
      | none ↦ refused numeric_overflow
      | some a ↦ elim p [ none ↦ refused numeric_overflow | some q ↦ next a q r ]
    ])
summed none p r next ha hq k = tt
summed (some a) none r next ha hq k = tt
summed (some a) (some q) r next ha hq k = k a q r (ha a refl) (hq q refl)

fuse_next-FusionOk :
    (o : Option Monster) (a q r : ℤ) (next : ℤ → ℤ → ℤ → Fusion)
    → ((a q r : ℤ) → InRange a → InRange q → FusionOk (next a q r))
    → FusionOk (fuse_next o a q r next)
unfolding fuse_next
fuse_next-FusionOk none a q r next k = tt
fuse_next-FusionOk (some m) a q r next k =
    summed (checked_add a m.activity) (checked_add q m.quantity)
      (if ltb_ℤ r m.rarity then m.rarity else r) next (λ v e. checked_add-InRange a m.activity v e)
      (λ v e. checked_add-InRange q m.quantity v e) k

fuse_sums-FusionOk :
    (slots : List Slot) (seen ids : List String) (a q r : ℤ)
    → InRange a
    → InRange q
    → FusionOk (fuse_sums slots seen ids a q r)
unfolding fuse_sums
fuse_sums-FusionOk slots seen [] a q r ha hq = (ha, hq)
fuse_sums-FusionOk slots seen (id ∷ ids) a q r ha hq = elim (Bool-cases (contains seen id)) [
  | inl twice ↦ rw twice tt
  | inr once ↦ rw once (
      fuse_next-FusionOk (get_monster slots id) a q r (fuse_sums slots (id ∷ seen) ids)
        (λ a' q' r' ha' hq'. fuse_sums-FusionOk slots (id ∷ seen) ids a' q' r' ha' hq'))
]

-- What follows a tick may give out one id.
tick_body :
    {s0 : GameState} {fuel : ℕ} (alive : Bool) (body : Prog (Unit {0}))
    → Spends s0 fuel body
    → Runs (Ticked s0 fuel 0 alive) (λ _. IsSound s0 fuel 0) (when alive body)
unfolding when pure
tick_body true body k = record { at = λ c h. k.at c h.0 }
tick_body false body k = record { at = λ c h. h }

if_tick-Spends :
    {s0 : GameState} {fuel : ℕ} (body : Prog (Unit {0}))
    → Spends s0 fuel body
    → Keeps (IsSound s0 fuel 0) (if_tick body)
unfolding if_tick
if_tick-Spends {s0} {fuel} body k = Keeps-of_Runs _ (
    Runs-bind (Ticked s0 fuel 0) (λ _. IsSound s0 fuel 0) tick _ (tick-Ticked s0 fuel 0)
      (λ alive. tick_body alive body k))

module _ {s0 : GameState} {fuel : ℕ} (emit : Emit)
    (emit-Keeps : (kind : String) (ids : List String) (a q : ℤ)
      → Keeps (IsSound s0 fuel 0) (emit kind ids a q)) where
  fuse_put :
      (dest : Option ℕ) (d : MonsterDefinition) (ids : List String) (id : String) (a q : ℤ)
      → DefinitionOk d
      → InRange a
      → InRange q
      → Runs
          (Sound (IsFresh id) s0 fuel 0)
          (λ _. IsSound s0 fuel 0)
          (fuse_place emit dest (some d) ids id a q)
  unfolding fuse_place ◌>>=◌
  fuse_put none d ids id a q ok ha hq = record { at = λ c h. tt }
  fuse_put (some i) d ids id a q ok ha hq =
      Runs-bind (λ _. IsSound s0 fuel 0) (λ _. IsSound s0 fuel 0)
        (write_slots (put_at i (new_monster id d a q))) _ (put-IsFresh-Runs id i d a q ok ha hq)
        (λ _. record { at = (emit-Keeps _ _ _ _).at })

  fuse_place-Runs :
      (dest : Option ℕ) (d : Option MonsterDefinition) (ids : List String) (id : String) (a q : ℤ)
      → PickOk d
      → InRange a
      → InRange q
      → Runs
          (Sound (IsFresh id) s0 fuel 0)
          (λ _. IsSound s0 fuel 0)
          (fuse_place emit dest d ids id a q)
  fuse_place-Runs dest none ids id a q ok ha hq =
      unfold fuse_place in record { at = λ c h. (fail-Keeps s0 fuel 0 invalid_content).at c h.0 }
  fuse_place-Runs dest (some d) ids id a q ok ha hq = fuse_put dest d ids id a q ok ha hq

  module _ (room : s0.next_monster_id + 513 < word) where
    fuse_found-Spends :
        (u : Fusion) (ids : List String) (f r : ℤ)
        → FusionOk u
        → Spends s0 fuel (fuse_found emit u ids f r)
    unfolding fuse_found
    fuse_found-Spends missing ids f r ok = Spends-of_Keeps _ (Keeps-pure tt)
    fuse_found-Spends (refused e) ids f r ok = Spends-of_Keeps _ (fail-Keeps s0 fuel 0 e)
    fuse_found-Spends (fused a q highest) ids f r (ha, hq) =
        Runs-bind (λ _. IsSound s0 fuel 1) (λ _. IsSound s0 fuel 0) (gets _) _
          (record { at = (Keeps-gets _).at })
          λ dest.
            Runs-bind (λ _. IsSound s0 fuel 1) (λ _. IsSound s0 fuel 0) (write_slots _) _
              (record { at = (clear_all-Keeps ids).at })
              λ _.
                Runs-bind (λ _. IsSound s0 fuel 1) (λ _. IsSound s0 fuel 0)
                  (family_or_random f effect_stream) _
                  (record { at = (family_or_random-Keeps for_effect f).at })
                  λ f'.
                    Runs-bind (λ id. Sound (IsFresh id) s0 fuel 0) (λ _. IsSound s0 fuel 0) fresh_id
                      _ (fresh_id-Runs room)
                      λ id.
                        Runs-bind (λ p c. PickOk p × Sound (IsFresh id) s0 fuel 0 c)
                          (λ _. IsSound s0 fuel 0)
                          (pick_definition f' (fused_rarity r highest) effect_stream) _
                          (pick_definition-Runs (IsFresh id) for_effect f' (fused_rarity r highest))
                          λ d. record {
                            at = λ c (ok, h). (fuse_place-Runs dest d ids id a q ok ha hq).at c h;
                          }

    sums_known :
        (ids : List String)
        → Runs
            (IsSound s0 fuel 1)
            (λ u c. FusionOk u × IsSound s0 fuel 1 c)
            (gets (λ c. fuse_sums (slots_of c) [] ids (pos 0) (pos 0) normal))
    unfolding gets
    sums_known ids = record {
      at = λ c h. (
        fuse_sums-FusionOk (slots_of c) [] ids (pos 0) (pos 0) normal (omega arith) (omega arith),
        h,
      );
    }

    fuse_some-Spends : (ids : List String) (f r : ℤ) → Spends s0 fuel (fuse_some emit ids f r)
    unfolding fuse_some
    fuse_some-Spends [] f r = Spends-of_Keeps _ (Keeps-pure tt)
    fuse_some-Spends (id ∷ ids) f r =
        Runs-bind (λ u c. FusionOk u × IsSound s0 fuel 1 c) (λ _. IsSound s0 fuel 0) (gets _) _
          (sums_known (id ∷ ids))
          λ u. record { at = λ c (ok, h). (fuse_found-Spends u (id ∷ ids) f r ok).at c h }

    pub fuse-Keeps : (ids : List String) (f r : ℤ) → Keeps (IsSound s0 fuel 0) (fuse emit ids f r)
    unfolding fuse
    fuse-Keeps ids f r = if_tick-Spends _ (fuse_some-Spends ids f r)
