-- ===== src/Engine/Sound/Boards.antt =====
-- What `Apply` keeps of a state, and the steps of its handlers that keep it.
use vorax_simulator.Base.{
  ℕ, ◌+◌, ◌≤◌, ◌<◌, ◌≡◌, refl, ap, ◌∙◌, Bool, String, List, [], ◌∷◌, Option, none, some, arith,
}
use vorax_simulator.Base.Int.{ℤ, pos}
use vorax_simulator.Outcome.{Outcome, ok, err, panic, exhausted, Returns, Returns-bind, Error}
use vorax_simulator.Protocol.{GameState, Slot, Monster, CardKind}
use vorax_simulator.Rules.{Rules}
use vorax_simulator.Random.{word}
use vorax_simulator.Rewards.{update_rewards}
use vorax_simulator.Board.Valid.{AllOk, Distinct, Absent, AbsentMonster, indices}
use vorax_simulator.Rewards.Scores.{Scored, IsScored, update_rewards-IsScored}
use vorax_simulator.Offers.{make_offer}
use vorax_simulator.Offers.Frame.{OfferOnly, make_offer-OfferOnly}
use vorax_simulator.Effects.Context.{Context, Prog, step_limit}
use vorax_simulator.Effects.Keeps.{Keeps}
use vorax_simulator.Effects.Invariant.{IsSound}
use vorax_simulator.Effects.Sound.Play.{emit-Keeps}
use vorax_simulator.Engine.{run, settle, on_state, emit_plain}

-- What no command changes: who plays, the seed and the versions.
abbrev pub identity : GameState → List String × ℕ × ℤ
identity s = (
  s.run_id ∷ s.user_id ∷ s.rules_version ∷ s.content_version ∷ s.rng_version ∷ s.seed ∷ [],
  s.format_version,
  s.initial_pet_refreshes,
)

-- The board is sound, its slots are those of `s0`, and the three streams are words.
abbrev pub StateSound : GameState → GameState → Type 0
StateSound s0 s =
    (identity s ≡ identity s0)
    × (indices s.slots ≡ indices s0.slots)
    × AllOk s.next_monster_id s.slots
    × Distinct s.slots
    × (s.init_rng < word)
    × (s.effect_rng < word)
    × (s.offer_rng < word)

-- Between two steps of a command: no error stands, and no more ids were given out than steps counted.
abbrev pub EngineOk : GameState → Context → Type 0
EngineOk s0 c =
    StateSound s0 c.state
    × (c.limit ≡ step_limit)
    × (c.error ≡ none)
    × (c.steps ≤ step_limit)
    × (c.state.next_monster_id ≤ s0.next_monster_id + c.steps)

abbrev restored : GameState → GameState → GameState
restored s0 s = record s { next_monster_id = s0.next_monster_id }

pub start-IsSound :
    (s0 : GameState) (c : Context) → EngineOk s0 c → IsSound (restored s0 c.state) 513 0 c
start-IsSound s0 c ((_, placed, oks, distinct, iw, ew, ow), limited, clean, counted, given) =
    record {
      framed = refl;
      placed = refl;
      monsters_ok = oks;
      distinct = distinct;
      init_word = iw;
      effect_word = ew;
      counter = omega (arith, given);
      limited = limited;
      counted = omega (arith, counted);
      fueled = omega arith;
    }

end-IsSound :
    (s0 : GameState) (c c' : Context)
    → EngineOk s0 c
    → c'.error ≡ none
    → IsSound (restored s0 c.state) 513 0 c'
    → EngineOk s0 c'
end-IsSound s0 c c' ((same, placed, _, _, _, _, ow), _, _, _, _) clean h = (
  (
    ap (λ s. identity s) h.framed ∙ same,
    h.placed ∙ placed,
    h.monsters_ok,
    h.distinct,
    h.init_word,
    h.effect_word,
    rw (ap (λ (s : GameState). s.offer_rng) h.framed) ow,
  ),
  h.limited,
  clean,
  rw clean at (h.counted),
  omega (arith, h.counter),
)

settled :
    (s0 : GameState) (c c' : Context) (o : Option Error)
    → EngineOk s0 c
    → c'.error ≡ o
    → IsSound (restored s0 c.state) 513 0 c'
    → Returns (EngineOk s0) (elim o [ none ↦ ok c' | some e ↦ err e ])
settled s0 c c' none h clean sound = end-IsSound s0 c c' h clean sound
settled s0 c c' (some e) h clean sound = tt

module _ (s0 : GameState) (room : s0.next_monster_id + 513 < word) where
  -- A method that keeps a context sound, followed by the test of its error.
  pub run-EngineOk :
      (m : Prog (Unit {0})) (c : Context)
      → ((s : GameState) → s.next_monster_id + 513 < word → Keeps (IsSound s 513 0) m)
      → EngineOk s0 c
      → Returns (EngineOk s0) (run m c)
  unfolding run settle
  run-EngineOk m c keep h =
      Returns-bind (λ (r : Unit {0} × Context). IsSound (restored s0 c.state) 513 0 r.1)
        (EngineOk s0) (m c) _ ((keep (restored s0 c.state) room).at c (start-IsSound s0 c h))
        (λ r sound. settled s0 c r.1 r.1.error h refl sound)

  pub emit_plain-EngineOk :
      (kind : String) (c : Context) → EngineOk s0 c → Returns (EngineOk s0) (emit_plain kind c)
  unfolding emit_plain
  emit_plain-EngineOk kind c h =
      run-EngineOk _ c (λ s inside. emit-Keeps inside kind [] (pos 0) (pos 0)) h

-- A function that keeps the state sound and the counter, within a context.
pub on_state-EngineOk :
    (s0 : GameState) (f : GameState → Outcome GameState) (c : Context)
    → Returns (λ s. StateSound s0 s × (s.next_monster_id ≡ c.state.next_monster_id)) (f c.state)
    → EngineOk s0 c
    → Returns (EngineOk s0) (on_state f c)
unfolding on_state
on_state-EngineOk s0 f c known (_, limited, clean, counted, given) =
    Returns-bind (λ s. StateSound s0 s × (s.next_monster_id ≡ c.state.next_monster_id))
      (EngineOk s0) (f c.state) _ known
      λ s (sound, same). (sound, limited, clean, counted, rw same given)

-- An offer.
pub offered :
    (s0 s s' : GameState)
    → StateSound s0 s
    → OfferOnly s s'
    → StateSound s0 s' × (s'.next_monster_id ≡ s.next_monster_id)
offered s0 s s' (same, placed, oks, distinct, iw, ew, ow) (e, inside) =
    let slots_same : s'.slots ≡ s.slots = ap (λ (x : GameState). x.slots) e in
    let counter_same : s'.next_monster_id ≡ s.next_monster_id =
      ap (λ (x : GameState). x.next_monster_id) e in
    (
      (
        ap (λ x. identity x) e ∙ same,
        rw slots_same placed,
        rw (slots_same, counter_same) oks,
        rw slots_same distinct,
        rw (ap (λ (x : GameState). x.init_rng) e) iw,
        rw (ap (λ (x : GameState). x.effect_rng) e) ew,
        inside,
      ),
      counter_same,
    )

pub Returns-le :
    {A : Type 0} (Q R : A → Type 0) (m : Outcome A)
    → ((a : A) → Q a → R a)
    → Returns Q m
    → Returns R m
Returns-le Q R (ok a) k h = k a h
Returns-le Q R (err e) k h = tt
Returns-le Q R panic k h = tt
Returns-le Q R exhausted k h = h

pub make_offer-StateSound :
    (s0 s : GameState) (r : Rules) (kind : CardKind) (source : String) (t : ℤ)
    → StateSound s0 s
    → Returns
        (λ s'. StateSound s0 s' × (s'.next_monster_id ≡ s.next_monster_id))
        (make_offer s r kind source t)
make_offer-StateSound s0 s r kind source t h =
    Returns-le (OfferOnly s) _ (make_offer s r kind source t) (λ s' only. offered s0 s s' h only)
      (make_offer-OfferOnly s r kind source t h.6)

-- Scoring moves no monster.
AllOk-Scored : (n : ℕ) (ss ts : List Slot) → Scored ss ts → AllOk n ss → AllOk n ts
AllOk-Scored n [] [] scored h = tt
AllOk-Scored n [] (t ∷ ts) scored h = absurd scored
AllOk-Scored n (s ∷ ss) [] scored h = tt
AllOk-Scored n (s ∷ ss) (t ∷ ts) (_, same, _, rest) h =
    (rw same (h.0), AllOk-Scored n ss ts rest h.1)

Absent-Scored : (id : String) (ss ts : List Slot) → Scored ss ts → Absent id ss → Absent id ts
Absent-Scored id [] [] scored h = tt
Absent-Scored id [] (t ∷ ts) scored h = absurd scored
Absent-Scored id (s ∷ ss) [] scored h = tt
Absent-Scored id (s ∷ ss) (t ∷ ts) (_, same, _, rest) h =
    (rw same (h.0), Absent-Scored id ss ts rest h.1)

AbsentMonster-Scored :
    (o : Option Monster) (ss ts : List Slot)
    → Scored ss ts
    → AbsentMonster o ss
    → AbsentMonster o ts
AbsentMonster-Scored none ss ts scored h = tt
AbsentMonster-Scored (some m) ss ts scored h = Absent-Scored m.id ss ts scored h

Distinct-Scored : (ss ts : List Slot) → Scored ss ts → Distinct ss → Distinct ts
Distinct-Scored [] [] scored h = tt
Distinct-Scored [] (t ∷ ts) scored h = absurd scored
Distinct-Scored (s ∷ ss) [] scored h = tt
Distinct-Scored (s ∷ ss) (t ∷ ts) (_, same, _, rest) h =
    (rw same (AbsentMonster-Scored s.monster ss ts rest h.0), Distinct-Scored ss ts rest h.1)

indices-Scored : (ss ts : List Slot) → Scored ss ts → indices ts ≡ indices ss
indices-Scored [] [] scored = refl
indices-Scored [] (t ∷ ts) scored = absurd scored
indices-Scored (s ∷ ss) [] scored = absurd scored
indices-Scored (s ∷ ss) (t ∷ ts) (place, _, _, rest) = rw (place, indices-Scored ss ts rest)

scored_state :
    (s0 s s' : GameState)
    → StateSound s0 s
    → IsScored s s'
    → StateSound s0 s' × (s'.next_monster_id ≡ s.next_monster_id)
scored_state s0 s s' (same, placed, oks, distinct, iw, ew, ow) h =
    let counter_same : s'.next_monster_id ≡ s.next_monster_id =
      ap (λ (x : GameState). x.next_monster_id) h.rest in
    (
      (
        ap (λ x. identity x) h.rest ∙ same,
        indices-Scored s.slots s'.slots h.slots ∙ placed,
        rw counter_same (AllOk-Scored s.next_monster_id s.slots s'.slots h.slots oks),
        Distinct-Scored s.slots s'.slots h.slots distinct,
        rw (ap (λ (x : GameState). x.init_rng) h.rest) iw,
        rw (ap (λ (x : GameState). x.effect_rng) h.rest) ew,
        rw (ap (λ (x : GameState). x.offer_rng) h.rest) ow,
      ),
      counter_same,
    )

pub update_rewards-StateSound :
    (s0 s : GameState) (unlock : Bool)
    → StateSound s0 s
    → Returns
        (λ s'. StateSound s0 s' × (s'.next_monster_id ≡ s.next_monster_id))
        (update_rewards s unlock)
update_rewards-StateSound s0 s unlock h =
    Returns-le (IsScored s) _ (update_rewards s unlock) (λ s' scored. scored_state s0 s s' h scored)
      (update_rewards-IsScored s unlock)
