-- ===== src/Effects/Sound/Monsters.antt =====
-- `add`, `buff`, `remove`, `transform` and `devour` keep a context sound, if `emit` does.
use vorax_simulator.Base.{
  ℕ, ◌+◌, ◌%◌, ◌≤◌, ◌<◌, ◌≡◌, refl, ◌∙◌, List, Option, none, some, String, arith,
}
use vorax_simulator.Base.Int.{ℤ, InRange}
use vorax_simulator.Outcome.{Error}
use vorax_simulator.Protocol.{GameState, Slot}
use vorax_simulator.Monsters.{MonsterDefinition, identify}
use vorax_simulator.Random.{word}
use vorax_simulator.Board.{update_monster, put_at}
use vorax_simulator.Board.Ids.{monster_id}
use vorax_simulator.Board.Valid.{
  Absent, AllOk-le, fresh-Absent, AllOk-update_monster, Distinct-update_monster,
  indices-update_monster,
}
use vorax_simulator.Board.Writes.{AllOk-put_at, Distinct-put_at, indices-put_at}
use vorax_simulator.Effects.Context.{Context, write_slots}
use vorax_simulator.Effects.Keeps.{Keeps, Keeps-gets, Runs}
use vorax_simulator.Effects.Invariant.{IsSound, errors_in, write_slots-Keeps}
use vorax_simulator.Effects.Monsters.{find_monster, fresh_id, new_monster, set_stats}
use vorax_simulator.Effects.Sound.Draws.{DefinitionOk, Sound}
use vorax_simulator.Effects.Sound.Stats.{
  set_stats-MonsterOk, identify-MonsterOk, new_monster-MonsterOk,
}

pub find_monster-Keeps : {P : Context → Type 0} (id : String) → Keeps P (find_monster id)
unfolding find_monster
find_monster-Keeps id = Keeps-gets _

errors_bound : (o : Option Error) → errors_in o ≤ 1
errors_bound none = omega arith
errors_bound (some e) = omega arith

-- The id given out last is on no slot.
pub record IsFresh (id : String) (ss : List Slot) (n : ℕ) : Type 0 where
  pub number : ℕ
  pub given : id ≡ monster_id number
  pub before : number < n
  pub absent : Absent id ss

module _ {s0 : GameState} {fuel : ℕ} (room : s0.next_monster_id + 513 < word) where
  next_counter :
      (c : Context)
      → IsSound s0 fuel 1 c
      → (c.state.next_monster_id + 1) % word ≡ c.state.next_monster_id + 1
  next_counter c h = omega (arith, h.counter, h.counted, room, errors_bound c.error)

  -- A counted step may take the next id.
  pub fresh_id-Runs : Runs (IsSound s0 fuel 1) (λ id. Sound (IsFresh id) s0 fuel 0) fresh_id
  unfolding fresh_id
  fresh_id-Runs = record {
    at = λ c h. rw (next_counter c h) (
      record {
        framed = h.framed;
        placed = h.placed;
        monsters_ok =
            AllOk-le c.state.next_monster_id (c.state.next_monster_id + 1) c.state.slots
              (omega arith) h.monsters_ok;
        distinct = h.distinct;
        init_word = h.init_word;
        effect_word = h.effect_word;
        counter = omega (arith, h.counter);
        limited = h.limited;
        counted = h.counted;
        fueled = h.fueled;
      },
      record {
        number = c.state.next_monster_id;
        given = refl;
        before = omega arith;
        absent = fresh-Absent c.state.next_monster_id c.state.slots h.monsters_ok;
      },
    );
  }

-- A new monster with a fresh id is put into a slot.
pub put-IsFresh-Runs :
    {s0 : GameState} {fuel : ℕ} (id : String) (i : ℕ) (d : MonsterDefinition) (a q : ℤ)
    → DefinitionOk d
    → InRange a
    → InRange q
    → Runs
        (Sound (IsFresh id) s0 fuel 0)
        (λ _. IsSound s0 fuel 0)
        (write_slots (put_at i (new_monster id d a q)))
unfolding write_slots new_monster identify
put-IsFresh-Runs id i d a q dok ha hq = record {
  at = λ c (h, fresh). record {
    framed = h.framed;
    placed = indices-put_at (new_monster id d a q) i c.state.slots ∙ h.placed;
    monsters_ok =
        AllOk-put_at (new_monster id d a q) c.state.next_monster_id i c.state.slots
          (new_monster-MonsterOk c.state.next_monster_id fresh.number id d a q fresh.given
            fresh.before dok ha hq)
          h.monsters_ok;
    distinct = Distinct-put_at (new_monster id d a q) i c.state.slots fresh.absent h.distinct;
    init_word = h.init_word;
    effect_word = h.effect_word;
    counter = h.counter;
    limited = h.limited;
    counted = h.counted;
    fueled = h.fueled;
  };
}

-- A write of attributes, and of a new kind of monster.
pub set_stats-Keeps :
    {s0 : GameState} {fuel : ℕ} (id : String) (a q : ℤ)
    → InRange a
    → InRange q
    → Keeps (IsSound s0 fuel 0) (write_slots (update_monster id (set_stats a q)))
set_stats-Keeps {s0} {fuel} id a q ha hq =
    write_slots-Keeps s0 fuel 0 (update_monster id (set_stats a q))
      (λ n ss.
        AllOk-update_monster id (set_stats a q) n ss (λ m. set_stats-MonsterOk n a q m ha hq))
      (Distinct-update_monster id (set_stats a q) (unfold set_stats in λ m. refl))
      (indices-update_monster id (set_stats a q))

pub identify-Keeps :
    {s0 : GameState} {fuel : ℕ} (id : String) (d : MonsterDefinition) (a q : ℤ)
    → DefinitionOk d
    → InRange a
    → InRange q
    → Keeps
        (IsSound s0 fuel 0)
        (write_slots (update_monster id (λ n. identify d (set_stats a q n))))
identify-Keeps {s0} {fuel} id d a q dok ha hq =
    write_slots-Keeps s0 fuel 0 (update_monster id (λ n. identify d (set_stats a q n)))
      (λ n ss.
        AllOk-update_monster id _ n ss (λ m h.
          identify-MonsterOk n d (set_stats a q m) dok (set_stats-MonsterOk n a q m ha hq h)))
      (Distinct-update_monster id _ (unfold set_stats identify in λ m. refl))
      (indices-update_monster id _)
