-- ===== src/Board/Writes.antt =====
-- Emptying slots and filling one keep a board sound.
use vorax_simulator.Base.{
  ℕ, zero, suc, ◌≡◌, refl, ap, String, false, List, [], ◌∷◌, Option, none, some, str_eq, Bool-cases,
  inl, inr,
}
use vorax_simulator.Protocol.{Monster, Slot}
use vorax_simulator.Board.{holds, among, clear_first, clear_all, put_at}
use vorax_simulator.Board.Valid.{
  MonsterOk, AllOk, Absent, AbsentMonster, Distinct, indices, str_eq_comm,
}

module _ (id : String) where
  pub AllOk-clear_first : (n : ℕ) (ss : List Slot) → AllOk n ss → AllOk n (clear_first id ss)
  unfolding clear_first
  AllOk-clear_first n [] h = tt
  AllOk-clear_first n (s ∷ ss) h = elim (Bool-cases (holds id s.monster)) [
    | inl here ↦ rw here (tt, h.1)
    | inr there ↦ rw there (h.0, AllOk-clear_first n ss h.1)
  ]

  Absent-clear_first : (x : String) (ss : List Slot) → Absent x ss → Absent x (clear_first id ss)
  unfolding clear_first
  Absent-clear_first x [] h = tt
  Absent-clear_first x (s ∷ ss) h = elim (Bool-cases (holds id s.monster)) [
    | inl here ↦ rw here (refl, h.1)
    | inr there ↦ rw there (h.0, Absent-clear_first x ss h.1)
  ]

  AbsentMonster-clear_first :
      (o : Option Monster) (ss : List Slot)
      → AbsentMonster o ss
      → AbsentMonster o (clear_first id ss)
  AbsentMonster-clear_first none ss h = tt
  AbsentMonster-clear_first (some m) ss h = Absent-clear_first m.id ss h

  pub Distinct-clear_first : (ss : List Slot) → Distinct ss → Distinct (clear_first id ss)
  unfolding clear_first
  Distinct-clear_first [] h = tt
  Distinct-clear_first (s ∷ ss) h = elim (Bool-cases (holds id s.monster)) [
    | inl here ↦ rw here (tt, h.1)
    | inr there ↦ rw there (AbsentMonster-clear_first s.monster ss h.0, Distinct-clear_first ss h.1)
  ]

  pub indices-clear_first : (ss : List Slot) → indices (clear_first id ss) ≡ indices ss
  unfolding clear_first
  indices-clear_first [] = refl
  indices-clear_first (s ∷ ss) = elim (Bool-cases (holds id s.monster)) [
    | inl here ↦ rw here
    | inr there ↦ rw there (ap (λ l. s.index ∷ l) (indices-clear_first ss))
  ]

module _ (ids : List String) where
  pub AllOk-clear_all : (n : ℕ) (ss : List Slot) → AllOk n ss → AllOk n (clear_all ids ss)
  unfolding clear_all
  AllOk-clear_all n [] h = tt
  AllOk-clear_all n (s ∷ ss) h = elim (Bool-cases (among ids s.monster)) [
    | inl here ↦ rw here (tt, AllOk-clear_all n ss h.1)
    | inr there ↦ rw there (h.0, AllOk-clear_all n ss h.1)
  ]

  pub Absent-clear_all : (x : String) (ss : List Slot) → Absent x ss → Absent x (clear_all ids ss)
  unfolding clear_all
  Absent-clear_all x [] h = tt
  Absent-clear_all x (s ∷ ss) h = elim (Bool-cases (among ids s.monster)) [
    | inl here ↦ rw here (refl, Absent-clear_all x ss h.1)
    | inr there ↦ rw there (h.0, Absent-clear_all x ss h.1)
  ]

  AbsentMonster-clear_all :
      (o : Option Monster) (ss : List Slot)
      → AbsentMonster o ss
      → AbsentMonster o (clear_all ids ss)
  AbsentMonster-clear_all none ss h = tt
  AbsentMonster-clear_all (some m) ss h = Absent-clear_all m.id ss h

  pub Distinct-clear_all : (ss : List Slot) → Distinct ss → Distinct (clear_all ids ss)
  unfolding clear_all
  Distinct-clear_all [] h = tt
  Distinct-clear_all (s ∷ ss) h = elim (Bool-cases (among ids s.monster)) [
    | inl here ↦ rw here (tt, Distinct-clear_all ss h.1)
    | inr there ↦ rw there (AbsentMonster-clear_all s.monster ss h.0, Distinct-clear_all ss h.1)
  ]

  pub indices-clear_all : (ss : List Slot) → indices (clear_all ids ss) ≡ indices ss
  unfolding clear_all
  indices-clear_all [] = refl
  indices-clear_all (s ∷ ss) = elim (Bool-cases (among ids s.monster)) [
    | inl here ↦ rw here (ap (λ l. s.index ∷ l) (indices-clear_all ss))
    | inr there ↦ rw there (ap (λ l. s.index ∷ l) (indices-clear_all ss))
  ]

module _ (m : Monster) where
  pub AllOk-put_at :
      (n i : ℕ) (ss : List Slot) → MonsterOk n m → AllOk n ss → AllOk n (put_at i m ss)
  unfolding put_at
  AllOk-put_at n i [] p h = tt
  AllOk-put_at n zero (s ∷ ss) p h = (p, h.1)
  AllOk-put_at n (suc i) (s ∷ ss) p h = (h.0, AllOk-put_at n i ss p h.1)

  Absent-put_at :
      (x : String) (i : ℕ) (ss : List Slot)
      → str_eq m.id x ≡ false
      → Absent x ss
      → Absent x (put_at i m ss)
  unfolding put_at
  Absent-put_at x i [] p h = tt
  Absent-put_at x zero (s ∷ ss) p h = (p, h.1)
  Absent-put_at x (suc i) (s ∷ ss) p h = (h.0, Absent-put_at x i ss p h.1)

  AbsentMonster-put_at :
      (o : Option Monster) (i : ℕ) (ss : List Slot)
      → holds m.id o ≡ false
      → AbsentMonster o ss
      → AbsentMonster o (put_at i m ss)
  AbsentMonster-put_at none i ss p h = tt
  AbsentMonster-put_at (some b) i ss p h = Absent-put_at b.id i ss (str_eq_comm b.id m.id p) h

  pub Distinct-put_at :
      (i : ℕ) (ss : List Slot) → Absent m.id ss → Distinct ss → Distinct (put_at i m ss)
  unfolding put_at
  Distinct-put_at i [] p h = tt
  Distinct-put_at zero (s ∷ ss) p h = (p.1, h.1)
  Distinct-put_at (suc i) (s ∷ ss) p h =
      (AbsentMonster-put_at s.monster i ss p.0 h.0, Distinct-put_at i ss p.1 h.1)

  pub indices-put_at : (i : ℕ) (ss : List Slot) → indices (put_at i m ss) ≡ indices ss
  unfolding put_at
  indices-put_at i [] = refl
  indices-put_at zero (s ∷ ss) = refl
  indices-put_at (suc i) (s ∷ ss) = ap (λ l. s.index ∷ l) (indices-put_at i ss)
