-- ===== src/Board.antt =====
-- The six culture slots: lookups and writes that internal/engine makes on `state.Slots`. A
-- `*pb.Monster` taken from the board is the monster of the first slot that holds its id.
pub mod Valid
pub mod Ids
pub mod Writes
use vorax_simulator.Base.{
  ℕ, zero, suc, String, Bool, false, List, [], ◌∷◌, Option, none, some, str_eq, contains,
  if◌then◌else◌,
}
use mathlib.Core.Option
use vorax_simulator.Protocol.{Monster, Slot}

-- The monsters on the board, from slot 0 on.
unfoldable pub monsters : List Slot → List Monster
monsters [] = []
monsters (s ∷ ss) = elim s.monster [ none ↦ monsters ss | some m ↦ m ∷ monsters ss ]

-- The ids of the monsters that pass a test: `toolFilter`, and the loops that filter in place.
unfoldable pub ids_where : (Monster → Bool) → List Slot → List String
ids_where p [] = []
ids_where p (s ∷ ss) = elim s.monster [
  | none ↦ ids_where p ss
  | some m ↦ if p m then m.id ∷ ids_where p ss else ids_where p ss
]

-- `monsterIDs`
unfoldable pub monster_ids : List Slot → List String
monster_ids [] = []
monster_ids (s ∷ ss) = elim s.monster [ none ↦ monster_ids ss | some m ↦ m.id ∷ monster_ids ss ]

abbrev pub holds : String → Option Monster → Bool
holds id none = false
holds id (some m) = str_eq m.id id

-- `getMonster`
unfoldable pub get_monster : List Slot → String → Option Monster
get_monster [] id = none
get_monster (s ∷ ss) id = if holds id s.monster then s.monster else get_monster ss id

-- A write through the pointer that `getMonster` returned.
unfoldable pub update_monster : String → (Monster → Monster) → List Slot → List Slot
update_monster id f [] = []
update_monster id f (s ∷ ss) =
    if holds id s.monster
    then (record s { monster = Option.map f s.monster }) ∷ ss
    else s ∷ update_monster id f ss

-- `slot.Monster = nil` in the first slot that holds the id.
unfoldable pub clear_first : String → List Slot → List Slot
clear_first id [] = []
clear_first id (s ∷ ss) =
    if holds id s.monster then (record s { monster = none }) ∷ ss else s ∷ clear_first id ss

abbrev pub among : List String → Option Monster → Bool
among ids none = false
among ids (some m) = contains ids m.id

-- `slot.Monster = nil` in every slot whose monster is selected.
unfoldable pub clear_all : List String → List Slot → List Slot
clear_all ids [] = []
clear_all ids (s ∷ ss) =
    (if among ids s.monster then record s { monster = none } else s) ∷ clear_all ids ss

-- The index of the first slot whose monster is selected: `dest` of `fuse`.
unfoldable pub first_of_ids : List String → List Slot → Option ℕ
first_of_ids ids [] = none
first_of_ids ids (s ∷ ss) =
    if among ids s.monster then some zero else Option.map suc (first_of_ids ids ss)

-- `c.state.Slots[i].Monster = m`
unfoldable pub put_at : ℕ → Monster → List Slot → List Slot
put_at i m [] = []
put_at zero m (s ∷ ss) = (record s { monster = some m }) ∷ ss
put_at (suc i) m (s ∷ ss) = s ∷ put_at i m ss

-- The index of the first free slot: the loop of `addMonster`.
unfoldable pub free_slot : List Slot → Option ℕ
free_slot [] = none
free_slot (s ∷ ss) = elim s.monster [ none ↦ some zero | some m ↦ Option.map suc (free_slot ss) ]

-- The nearest monster to the left of the one with the id, if both are there: the two loops of
-- "remove_left". `left` is the last monster met so far.
unfoldable pub left_from : Option String → String → List Slot → Option String
left_from left id [] = none
left_from left id (s ∷ ss) = elim s.monster [
  | none ↦ left_from left id ss
  | some m ↦ if str_eq m.id id then left else left_from (some m.id) id ss
]

-- The next monster to the right of the one with the id: `potionRight`. The flag is its `found`.
unfoldable pub right_from : Bool → String → List Slot → Option String
right_from found id [] = none
right_from found id (s ∷ ss) = elim s.monster [
  | none ↦ right_from found id ss
  | some m ↦ if found then some m.id else right_from (str_eq m.id id) id ss
]
