-- ===== src/Board/Valid.antt =====
-- When a board is sound, and that each write to the slots keeps it sound.
use mathlib.Core.Option
use vorax_simulator.Base.{
  ℕ, ◌≤◌, ◌<◌, ◌≡◌, ◌≢◌, refl, sym, ap, ◌∙◌, String, false, List, [], ◌∷◌, Option, none, some,
  str_eq, str_eq_iff, arith, Bool-cases, inl, inr,
}
use vorax_simulator.Base.Int.{pos, ◌≤ℤ◌, InRange}
use vorax_simulator.Protocol.{Monster, Slot}
use vorax_simulator.Board.{holds, get_monster, update_monster}
use vorax_simulator.Board.Ids.{monster_id, monster_id-injective}

-- What holds of each monster on a board whose counter stands at `n`: its id was given out before, its
-- family and rarity are known ones, and its activity and quantity lie between 0 and MaxInt64.
pub record MonsterOk (n : ℕ) (m : Monster) : Type 0 where
  pub number : ℕ
  pub given : m.id ≡ monster_id number
  pub before : number < n
  pub family_low : pos 1 ≤ℤ m.family
  pub family_high : m.family ≤ℤ pos 4
  pub rarity_low : pos 1 ≤ℤ m.rarity
  pub rarity_high : m.rarity ≤ℤ pos 4
  pub activity : InRange m.activity
  pub quantity : InRange m.quantity

abbrev pub SlotOk : ℕ → Option Monster → Type 0
SlotOk n none = Unit
SlotOk n (some m) = MonsterOk n m

abbrev pub AllOk : ℕ → List Slot → Type 0
AllOk n [] = Unit
AllOk n (s ∷ ss) = SlotOk n s.monster × AllOk n ss

-- No slot holds the id.
abbrev pub Absent : String → List Slot → Type 0
Absent id [] = Unit
Absent id (s ∷ ss) = (holds id s.monster ≡ false) × Absent id ss

abbrev pub AbsentMonster : Option Monster → List Slot → Type 0
AbsentMonster none ss = Unit
AbsentMonster (some m) ss = Absent m.id ss

-- No id stands in two slots.
abbrev pub Distinct : List Slot → Type 0
Distinct [] = Unit
Distinct (s ∷ ss) = AbsentMonster s.monster ss × Distinct ss

abbrev pub indices : List Slot → List ℕ
indices [] = []
indices (s ∷ ss) = s.index ∷ indices ss

SlotOk-le : (n k : ℕ) (o : Option Monster) → n ≤ k → SlotOk n o → SlotOk k o
SlotOk-le n k none p h = tt
SlotOk-le n k (some m) p h = record {
  number = h.number;
  given = h.given;
  before = omega (arith, h.before);
  family_low = h.family_low;
  family_high = h.family_high;
  rarity_low = h.rarity_low;
  rarity_high = h.rarity_high;
  activity = h.activity;
  quantity = h.quantity;
}

pub AllOk-le : (n k : ℕ) (ss : List Slot) → n ≤ k → AllOk n ss → AllOk k ss
AllOk-le n k [] p h = tt
AllOk-le n k (s ∷ ss) p h = (SlotOk-le n k s.monster p h.0, AllOk-le n k ss p h.1)

-- A monster that is found is sound.
pub get_monster-MonsterOk :
    (n : ℕ) (ss : List Slot) (id : String) (m : Monster)
    → AllOk n ss
    → get_monster ss id ≡ some m
    → MonsterOk n m
unfolding get_monster
get_monster-MonsterOk n [] id m h e = cc
get_monster-MonsterOk n (s ∷ ss) id m h e = elim (Bool-cases (holds id s.monster)) [
  | inl here ↦
      let found : s.monster ≡ some m = (rw here at e) in
      let whole : SlotOk n (some m) = (rw found at (h.0)) in whole
  | inr there ↦ get_monster-MonsterOk n ss id m h.1 (rw there at e)
]

str_eq-false : (a b : String) → a ≢ b → str_eq a b ≡ false
str_eq-false a b h = ground (arith, str_eq_iff a b)

pub str_eq_comm : (a b : String) → str_eq a b ≡ false → str_eq b a ≡ false
str_eq_comm a b h = ground (arith, str_eq_iff a b, str_eq_iff b a)

fresh_slot : (n : ℕ) (o : Option Monster) → SlotOk n o → holds (monster_id n) o ≡ false
fresh_slot n none h = refl
fresh_slot n (some m) h =
    str_eq-false m.id (monster_id n)
      λ e. absurd (omega (arith, h.before, monster_id-injective h.number n (sym h.given ∙ e)))

-- The next id is not on the board.
pub fresh-Absent : (n : ℕ) (ss : List Slot) → AllOk n ss → Absent (monster_id n) ss
fresh-Absent n [] h = tt
fresh-Absent n (s ∷ ss) h = (fresh_slot n s.monster h.0, fresh-Absent n ss h.1)

-- Writes through the pointer to a monster, which keep its id.
module _ (id : String) (f : Monster → Monster) where
  SlotOk-map :
      (n : ℕ) (o : Option Monster)
      → ((m : Monster) → MonsterOk n m → MonsterOk n (f m))
      → SlotOk n o
      → SlotOk n (Option.map f o)
  SlotOk-map n none keep h = tt
  SlotOk-map n (some m) keep h = keep m h

  pub AllOk-update_monster :
      (n : ℕ) (ss : List Slot)
      → ((m : Monster) → MonsterOk n m → MonsterOk n (f m))
      → AllOk n ss
      → AllOk n (update_monster id f ss)
  unfolding update_monster
  AllOk-update_monster n [] keep h = tt
  AllOk-update_monster n (s ∷ ss) keep h = elim (Bool-cases (holds id s.monster)) [
    | inl here ↦ rw here (SlotOk-map n s.monster keep h.0, h.1)
    | inr there ↦ rw there (h.0, AllOk-update_monster n ss keep h.1)
  ]

module _ (id : String) (f : Monster → Monster) (same : (m : Monster) → (f m).id ≡ m.id) where
  holds-map : (x : String) (o : Option Monster) → holds x (Option.map f o) ≡ holds x o
  holds-map x none = refl
  holds-map x (some m) = rw (same m)

  pub Absent-update_monster :
      (x : String) (ss : List Slot) → Absent x ss → Absent x (update_monster id f ss)
  unfolding update_monster
  Absent-update_monster x [] h = tt
  Absent-update_monster x (s ∷ ss) h = elim (Bool-cases (holds id s.monster)) [
    | inl here ↦ rw here (holds-map x s.monster ∙ h.0, h.1)
    | inr there ↦ rw there (h.0, Absent-update_monster x ss h.1)
  ]

  AbsentMonster-map :
      (o : Option Monster) (ss : List Slot) → AbsentMonster o ss → AbsentMonster (Option.map f o) ss
  AbsentMonster-map none ss h = tt
  AbsentMonster-map (some m) ss h = rw (same m) h

  AbsentMonster-update :
      (o : Option Monster) (ss : List Slot)
      → AbsentMonster o ss
      → AbsentMonster o (update_monster id f ss)
  AbsentMonster-update none ss h = tt
  AbsentMonster-update (some m) ss h = Absent-update_monster m.id ss h

  pub Distinct-update_monster : (ss : List Slot) → Distinct ss → Distinct (update_monster id f ss)
  unfolding update_monster
  Distinct-update_monster [] h = tt
  Distinct-update_monster (s ∷ ss) h = elim (Bool-cases (holds id s.monster)) [
    | inl here ↦ rw here (AbsentMonster-map s.monster ss h.0, h.1)
    | inr there ↦ rw there (AbsentMonster-update s.monster ss h.0, Distinct-update_monster ss h.1)
  ]

pub indices-update_monster :
    (id : String) (f : Monster → Monster) (ss : List Slot)
    → indices (update_monster id f ss) ≡ indices ss
unfolding update_monster
indices-update_monster id f [] = refl
indices-update_monster id f (s ∷ ss) = elim (Bool-cases (holds id s.monster)) [
  | inl here ↦ rw here
  | inr there ↦ rw there (ap (λ l. s.index ∷ l) (indices-update_monster id f ss))
]
