-- ===== src/Targets/Sound.antt =====
-- `LegalTargets` and `validTargets` of internal/engine/engine.go.
use vorax_simulator.Base.{
  ℕ, zero, suc, ◌≡◌, String, Bool, true, false, List, [], ◌∷◌, ◌++◌, All, contains, length,
  if◌then◌else◌, Bool-cases, inl, inr,
}
use vorax_simulator.Protocol.{Slot, CardDefinition}
use vorax_simulator.Board.{monster_ids}
use vorax_simulator.Targets.{valid_targets, visit_each, visit, legal_targets}

All-append : {A : Type 0} (P : A → Type 0) (xs ys : List A) → All P xs → All P ys → All P (xs ++ ys)
All-append P [] ys hx hy = hy
All-append P (x ∷ xs) ys hx hy = (hx.0, All-append P xs ys hx.1 hy)

module _ (slots : List Slot) (c : CardDefinition) where
  abbrev Accepted : List String → Type 0
  Accepted ids = valid_targets slots c ids ≡ true

  visit_each-Accepted :
      (visit_next : List String → List (List String))
      → ((p : List String) → All Accepted (visit_next p))
      → (p ids : List String) → All Accepted (visit_each visit_next p ids)
  unfolding visit_each
  visit_each-Accepted visit_next known p [] = tt
  visit_each-Accepted visit_next known p (id ∷ ids) = elim (Bool-cases (contains p id)) [
    | inl again ↦ rw (All, again) (visit_each-Accepted visit_next known p ids)
    | inr once ↦
        rw (All, once)
          (All-append Accepted (visit_next (p ++ id ∷ [])) _ (known (p ++ id ∷ []))
            (visit_each-Accepted visit_next known p ids))
  ]

  itself : (p : List String) → All Accepted (if valid_targets slots c p then p ∷ [] else [])
  itself p = elim (Bool-cases (valid_targets slots c p)) [
    | inl good ↦ rw (All, good) (good, tt)
    | inr bad ↦ rw (All, bad) tt
  ]

  cut : (b : Bool) (ps : List (List String)) → All Accepted ps → All Accepted (if b then [] else ps)
  cut true ps h = tt
  cut false ps h = h

  visit-Accepted : (depth : ℕ) (p : List String) → All Accepted (visit depth slots c p)
  unfolding visit
  visit-Accepted zero p = itself p
  visit-Accepted (suc depth) p = All-append Accepted _ _ (itself p) (
      cut _ _
        (visit_each-Accepted (visit depth slots c) (visit-Accepted depth) p (monster_ids slots)))

  -- Each list of targets that `legal_targets` gives is one that `valid_targets` accepts.
  pub legal_targets-Accepted : All (λ ids. valid_targets slots c ids ≡ true) (legal_targets slots c)
  unfolding legal_targets
  legal_targets-Accepted = visit-Accepted (length (monster_ids slots)) []
