-- ===== src/Effects/Sound/Stats.antt =====
-- Sums of attributes stay between 0 and MaxInt64, and the monsters that the effects make are sound.
use vorax_simulator.Base.{ℕ, ◌<◌, ◌≡◌, refl, Option, none, some, String}
use vorax_simulator.Base.Int.{ℤ, InRange}
use vorax_simulator.Outcome.{numeric_overflow}
use vorax_simulator.Protocol.{GameState, Monster}
use vorax_simulator.Monsters.{MonsterDefinition, identify, definition_of}
use vorax_simulator.Rewards.{checked_add}
use vorax_simulator.Rewards.Overflow.{checked_add-InRange}
use vorax_simulator.Board.Ids.{monster_id}
use vorax_simulator.Board.Valid.{MonsterOk}
use vorax_simulator.Effects.Context.{Context, Prog, fail, pure, ◌>>◌, with_sum, sum_or}
use vorax_simulator.Effects.Keeps.{Keeps, Keeps-bind, Keeps-pure, Runs}
use vorax_simulator.Effects.Invariant.{IsSound, fail-Keeps, less_slack}
use vorax_simulator.Effects.Monsters.{set_stats, new_monster}
use vorax_simulator.Effects.Sound.Draws.{DefinitionOk}

module _ {P : Context → Type 0} {A : Type 0} (default : A)
    (keep_fail : Keeps P (fail numeric_overflow)) where
  sum_or-Keeps :
      (o : Option ℤ) (k : ℤ → Prog A)
      → ((v : ℤ) → o ≡ some v → Keeps P (k v))
      → Keeps P (sum_or default o k)
  sum_or-Keeps none k h = Keeps-bind (fail numeric_overflow) _ keep_fail (λ _. Keeps-pure default)
  sum_or-Keeps (some v) k h = h v refl

pub with_sum-Keeps :
    {s0 : GameState} {fuel slack : ℕ} {A : Type 0} (default : A) (a b : ℤ) (k : ℤ → Prog A)
    → ((v : ℤ) → InRange v → Keeps (IsSound s0 fuel slack) (k v))
    → Keeps (IsSound s0 fuel slack) (with_sum default a b k)
unfolding with_sum
with_sum-Keeps {s0} {fuel} {slack} default a b k h =
    sum_or-Keeps default (fail-Keeps s0 fuel slack numeric_overflow) (checked_add a b) k
      (λ v e. h v (checked_add-InRange a b v e))

-- A method that may give out one id.
abbrev pub Spends : GameState → ℕ → {A : Type 0} → Prog A → Type 0
Spends s0 fuel m = Runs (IsSound s0 fuel 1) (λ _. IsSound s0 fuel 0) m

pub Spends-of_Keeps :
    {s0 : GameState} {fuel : ℕ} {A : Type 0} (m : Prog A)
    → Keeps (IsSound s0 fuel 0) m
    → Spends s0 fuel m
Spends-of_Keeps m k = record { at = λ c h. k.at c (less_slack c h) }

sum_or-Spends :
    {s0 : GameState} {fuel : ℕ} {A : Type 0} (default : A) (o : Option ℤ) (k : ℤ → Prog A)
    → ((v : ℤ) → o ≡ some v → Spends s0 fuel (k v))
    → Spends s0 fuel (sum_or default o k)
sum_or-Spends {s0} {fuel} default none k h =
    Spends-of_Keeps (do fail numeric_overflow; pure default)
      (Keeps-bind (fail numeric_overflow) _ (fail-Keeps s0 fuel 0 numeric_overflow)
        (λ _. Keeps-pure default))
sum_or-Spends default (some v) k h = h v refl

pub with_sum-Spends :
    {s0 : GameState} {fuel : ℕ} {A : Type 0} (default : A) (a b : ℤ) (k : ℤ → Prog A)
    → ((v : ℤ) → InRange v → Spends s0 fuel (k v))
    → Spends s0 fuel (with_sum default a b k)
unfolding with_sum
with_sum-Spends default a b k h =
    sum_or-Spends default (checked_add a b) k (λ v e. h v (checked_add-InRange a b v e))

pub set_stats-MonsterOk :
    (n : ℕ) (a q : ℤ) (m : Monster)
    → InRange a
    → InRange q
    → MonsterOk n m
    → MonsterOk n (set_stats a q m)
unfolding set_stats
set_stats-MonsterOk n a q m ha hq h = record {
  number = h.number;
  given = h.given;
  before = h.before;
  family_low = h.family_low;
  family_high = h.family_high;
  rarity_low = h.rarity_low;
  rarity_high = h.rarity_high;
  activity = ha;
  quantity = hq;
}

pub identify-MonsterOk :
    (n : ℕ) (d : MonsterDefinition) (m : Monster)
    → DefinitionOk d
    → MonsterOk n m
    → MonsterOk n (identify d m)
unfolding identify
identify-MonsterOk n d m (fl, fh, rl, rh) h = record {
  number = h.number;
  given = h.given;
  before = h.before;
  family_low = fl;
  family_high = fh;
  rarity_low = rl;
  rarity_high = rh;
  activity = h.activity;
  quantity = h.quantity;
}

pub new_monster-MonsterOk :
    (n number : ℕ) (id : String) (d : MonsterDefinition) (a q : ℤ)
    → id ≡ monster_id number
    → number < n
    → DefinitionOk d
    → InRange a
    → InRange q
    → MonsterOk n (new_monster id d a q)
unfolding new_monster identify
new_monster-MonsterOk n number id d a q given before (fl, fh, rl, rh) ha hq = record {
  number = number;
  given = given;
  before = before;
  family_low = fl;
  family_high = fh;
  rarity_low = rl;
  rarity_high = rh;
  activity = ha;
  quantity = hq;
}

pub definition_of-DefinitionOk :
    (n : ℕ) (m : Monster) → MonsterOk n m → DefinitionOk (definition_of m)
unfolding definition_of
definition_of-DefinitionOk n m h = (h.family_low, h.family_high, h.rarity_low, h.rarity_high)
