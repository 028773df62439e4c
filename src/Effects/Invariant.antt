-- ===== src/Effects/Invariant.antt =====
-- What holds between the steps of one command, and the steps that keep it.
use vorax_simulator.Base.{
  ℕ, suc, ◌+◌, ◌≤◌, ◌<◌, ◌≡◌, refl, ◌∙◌, Bool, true, false, List, [], Option, none, some, arith,
  ltb, Bool-cases, inl, inr,
}
use vorax_simulator.Base.Int.{pos}
use vorax_simulator.Outcome.{Error}
use vorax_simulator.Protocol.{GameState, Slot}
use vorax_simulator.Random.{word}
use vorax_simulator.Board.Valid.{AllOk, Distinct, indices}
use vorax_simulator.Effects.Context.{
  Context, Prog, modify, when, fail, tick, if_tick, write_slots, step_limit, count_step,
}
use vorax_simulator.Effects.Keeps.{Keeps, Runs, Runs-bind, Keeps-of_Runs}

-- The part of a state that no effect of a card or a tool touches: all but the slots, the streams of
-- monsters and effects, the counter of monsters and the opening family.
abbrev pub frame : GameState → GameState
frame s = record s {
  slots = [];
  init_rng = 0;
  effect_rng = 0;
  next_monster_id = 0;
  opening_tool_family = pos 0;
}

abbrev pub errors_in : Option Error → ℕ
errors_in none = 0
errors_in (some e) = 1

-- `s0` is the state at the start, `fuel` what is left of the depth of `emit`, and `slack` the number
-- of ids that may be given out before the next step is counted.
pub record IsSound (s0 : GameState) (fuel slack : ℕ) (c : Context) : Type 0 where
  pub framed : frame c.state ≡ frame s0
  pub placed : indices c.state.slots ≡ indices s0.slots
  pub monsters_ok : AllOk c.state.next_monster_id c.state.slots
  pub distinct : Distinct c.state.slots
  pub init_word : c.state.init_rng < word
  pub effect_word : c.state.effect_rng < word
  pub counter : c.state.next_monster_id + slack ≤ s0.next_monster_id + c.steps
  pub limited : c.limit ≡ step_limit
  pub counted : c.steps ≤ step_limit + errors_in c.error
  pub fueled : step_limit < c.steps + fuel

module _ (s0 : GameState) (fuel slack : ℕ) where
  -- A write to the slots that keeps the board sound keeps the context sound.
  pub write_slots-Keeps :
      (f : List Slot → List Slot)
      → ((n : ℕ) (ss : List Slot) → AllOk n ss → AllOk n (f ss))
      → ((ss : List Slot) → Distinct ss → Distinct (f ss))
      → ((ss : List Slot) → indices (f ss) ≡ indices ss)
      → Keeps (IsSound s0 fuel slack) (write_slots f)
  unfolding write_slots
  write_slots-Keeps f sound different same = record {
    at = λ c h. record {
      framed = h.framed;
      placed = same c.state.slots ∙ h.placed;
      monsters_ok = sound c.state.next_monster_id c.state.slots h.monsters_ok;
      distinct = different c.state.slots h.distinct;
      init_word = h.init_word;
      effect_word = h.effect_word;
      counter = h.counter;
      limited = h.limited;
      counted = h.counted;
      fueled = h.fueled;
    };
  }

  pub fail-Keeps : (e : Error) → Keeps (IsSound s0 fuel slack) (fail e)
  unfolding fail
  fail-Keeps e = record {
    at = λ c h. record {
      framed = h.framed;
      placed = h.placed;
      monsters_ok = h.monsters_ok;
      distinct = h.distinct;
      init_word = h.init_word;
      effect_word = h.effect_word;
      counter = h.counter;
      limited = h.limited;
      counted = bound c.error h.counted;
      fueled = h.fueled;
    };
  }
    where
      bound : {n : ℕ} (o : Option Error) → n ≤ step_limit + errors_in o → n ≤ step_limit + 1
      bound none p = omega arith
      bound (some e) p = p

-- The fields that no invariant speaks of may be written at will.
module _ {s0 : GameState} {fuel slack : ℕ} where
  pub same_state :
      (c c' : Context)
      → c'.state ≡ c.state
      → c'.steps ≡ c.steps
      → c'.limit ≡ c.limit
      → c'.error ≡ c.error
      → IsSound s0 fuel slack c
      → IsSound s0 fuel slack c'
  same_state c c' es en el ee h = record {
    framed = rw es h.framed;
    placed = rw es h.placed;
    monsters_ok = rw es h.monsters_ok;
    distinct = rw es h.distinct;
    init_word = rw es h.init_word;
    effect_word = rw es h.effect_word;
    counter = rw (es, en) h.counter;
    limited = rw el h.limited;
    counted = rw (en, ee) h.counted;
    fueled = rw en h.fueled;
  }

  pub modify-Keeps :
      (g : Context → Context)
      → ((c : Context) → (g c).state ≡ c.state)
      → ((c : Context) → (g c).steps ≡ c.steps)
      → ((c : Context) → (g c).limit ≡ c.limit)
      → ((c : Context) → (g c).error ≡ c.error)
      → Keeps (IsSound s0 fuel slack) (modify g)
  unfolding modify
  modify-Keeps g es en el ee = record {
    at = λ c h. same_state c (g c) (es c) (en c) (el c) (ee c) h;
  }

  -- Less may be given out, and less fuel was needed.
  pub less_slack : (c : Context) → IsSound s0 fuel (suc slack) c → IsSound s0 fuel slack c
  less_slack c h = record {
    framed = h.framed;
    placed = h.placed;
    monsters_ok = h.monsters_ok;
    distinct = h.distinct;
    init_word = h.init_word;
    effect_word = h.effect_word;
    counter = omega (arith, h.counter);
    limited = h.limited;
    counted = h.counted;
    fueled = h.fueled;
  }

  pub refuel :
      (f : ℕ) (c : Context)
      → step_limit < c.steps + f
      → IsSound s0 fuel slack c
      → IsSound s0 f slack c
  refuel f c p h = record {
    framed = h.framed;
    placed = h.placed;
    monsters_ok = h.monsters_ok;
    distinct = h.distinct;
    init_word = h.init_word;
    effect_word = h.effect_word;
    counter = h.counter;
    limited = h.limited;
    counted = h.counted;
    fueled = p;
  }

-- What a tick leaves: where it was counted, one more id may be given out and one level less of `emit`
-- is left; else an error stands, and nothing is lost.
abbrev pub Ticked : GameState → ℕ → ℕ → Bool → Context → Type 0
Ticked s0 fuel slack true c =
    IsSound s0 fuel (suc slack) c × (step_limit + 1 < c.steps + fuel) × (c.steps ≤ step_limit)
Ticked s0 fuel slack false c = IsSound s0 fuel slack c

count_step-Ticked :
    (s0 : GameState) (fuel slack : ℕ) (o : Option Error) (c : Context)
    → c.error ≡ o
    → IsSound s0 fuel slack c
    → let (b, c') = count_step o c in Ticked s0 fuel slack b c'
count_step-Ticked s0 fuel slack (some e) c same h = h
count_step-Ticked s0 fuel slack none c same h =
    let counted : c.steps ≤ step_limit + 0 = (rw same at (h.counted)) in
    elim (Bool-cases (ltb c.limit (c.steps + 1))) [
      | inl over ↦ rw over (record {
        framed = h.framed;
        placed = h.placed;
        monsters_ok = h.monsters_ok;
        distinct = h.distinct;
        init_word = h.init_word;
        effect_word = h.effect_word;
        counter = omega (arith, h.counter);
        limited = h.limited;
        counted = omega (arith, counted);
        fueled = omega (arith, h.fueled);
      })
      | inr within ↦
          let below : c.steps + 1 ≤ step_limit = ground (arith, h.limited) in
          rw within (
            record {
              framed = h.framed;
              placed = h.placed;
              monsters_ok = h.monsters_ok;
              distinct = h.distinct;
              init_word = h.init_word;
              effect_word = h.effect_word;
              counter = omega (arith, h.counter);
              limited = h.limited;
              counted = rw same (omega (arith, below));
              fueled = omega (arith, h.fueled);
            },
            omega (arith, h.fueled),
            below,
          )
    ]

pub tick-Ticked :
    (s0 : GameState) (fuel slack : ℕ) → Runs (IsSound s0 fuel slack) (Ticked s0 fuel slack) tick
unfolding tick
tick-Ticked s0 fuel slack = record { at = λ c h. count_step-Ticked s0 fuel slack c.error c refl h }

-- What follows a tick runs only where the step was counted.
pub if_tick-Keeps :
    {s0 : GameState} {fuel : ℕ} (body : Prog (Unit {0}))
    → Keeps (IsSound s0 fuel 0) body
    → Keeps (IsSound s0 fuel 0) (if_tick body)
unfolding if_tick
if_tick-Keeps {s0} {fuel} body k = Keeps-of_Runs (if_tick body) (
    Runs-bind (Ticked s0 fuel 0) (λ _. IsSound s0 fuel 0) tick (λ alive. when alive body)
      (tick-Ticked s0 fuel 0) (λ alive. after alive))
  where
    after :
        (alive : Bool) → Runs (Ticked s0 fuel 0 alive) (λ _. IsSound s0 fuel 0) (when alive body)
    after true = record { at = λ c h. k.at c (less_slack c h.0) }
    after false = record { at = λ c h. h }
