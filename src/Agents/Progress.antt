-- ===== src/Agents/Progress.antt =====
-- What the checks of the progress in internal/ai/visible.go make sure of.
use vorax_simulator.Base.{
  ℕ, ◌≡◌, ◌||◌, refl, sym, subst, ap, suc, ◌+◌, not, ◌&&◌, ◌==◌, All, length, str_eq, if◌then◌else◌,
  ◌∙◌, Bool, true, false, String, List, [], ◌∷◌, arith,
}
use vorax_simulator.Base.Int.{ℤ, pos, ◌+ℤ◌, ◌≤ℤ◌, eqb_ℤ, eqb_ℤ_iff}
use vorax_simulator.Outcome.{
  ok, Yields, Yields-guard, Yields-bind, Yields-of, Yields-weaken, uncoded_error,
}
use vorax_simulator.Agents.Observation.{ClaimView}
use vorax_simulator.Agents.Visible.{
  VisibleInput, check_claims, check_progress, base_turns, opening_tools, first_status, known_status,
  check_frame, wrong_versions, wrong_phase, incomplete, out_of_flow, outside, end_cursor,
}

-- How many claims say that they are claimed, and the first that says that it waits.
abbrev pub taken : List ClaimView → ℕ
taken [] = 0
taken (c ∷ cs) = (if str_eq c.status "CLAIMED" then 1 else 0) + taken cs

abbrev pub first_waiting : List ClaimView → ℤ
first_waiting [] = pos 0
first_waiting (c ∷ cs) = if str_eq c.status "PENDING" then c.threshold else first_waiting cs

-- What an accepted screen says of its progress.
pub record IsConsistent (v : VisibleInput) (pending : ℤ) : Type 0 where
  pub low : pos 0 ≤ℤ v.base_cursor
  pub high : v.base_cursor ≤ℤ pos 12
  pub turns : v.completed_turns ≡ base_turns v.base_cursor +ℤ pos (taken v.tool_claims)
  pub tools :
      pos (length v.tools) +ℤ v.unknown_tools
      ≡ pos (taken v.tool_claims) +ℤ opening_tools v.base_cursor
  pub waits : pending ≡ first_waiting v.tool_claims

record Counted (cs : List ClaimView) (n : ℕ) (p : ℤ) (r : ℤ × ℤ) : Type 0 where
  pub counted : r.0 ≡ pos (n + taken cs)
  pub waits : r.1 ≡ (if eqb_ℤ p (pos 0) then first_waiting cs else p)

pub kept_lem : (a b : ℤ) → not (eqb_ℤ a b) ≡ false → a ≡ b
kept_lem a b h = ground (arith, eqb_ℤ_iff a b)

-- One round of the loop.
count_next :
    (c : ClaimView) (cs : List ClaimView) (n : ℕ) (p : ℤ) (r : ℤ × ℤ)
    → eqb_ℤ c.threshold (pos 0) ≡ false
    → Counted cs
        (n + (if str_eq c.status "CLAIMED" then 1 else 0))
        (if str_eq c.status "PENDING" && eqb_ℤ p (pos 0) then c.threshold else p)
        r
    → Counted (c ∷ cs) n p r
count_next c cs n p r nonzero h = record {
  counted = h.counted ∙ ap (λ x. pos x) (omega arith);
  waits = h.waits ∙ wait (str_eq c.status "PENDING") (eqb_ℤ p (pos 0)) refl;
}
  where
    wait :
        (b z : Bool)
        → eqb_ℤ p (pos 0) ≡ z
        → (if eqb_ℤ (if b && z then c.threshold else p) (pos 0)
            then first_waiting cs
            else (if b && z then c.threshold else p))
          ≡ (if z then (if b then c.threshold else first_waiting cs) else p)
    wait true true e = rw nonzero refl
    wait true false e = rw e refl
    wait false true e = rw e refl
    wait false false e = rw e refl

next_count :
    (b : Bool) (n : ℕ) → (if b then pos n +ℤ pos 1 else pos n) ≡ pos (n + (if b then 1 else 0))
unfolding ◌+ℤ◌
next_count true n = ground arith
next_count false n = ground arith

check_claims-Counted :
    (ts : List ℤ) (i : ℕ) (first : String) (cs : List ClaimView) (n : ℕ) (p : ℤ)
    → All (λ t. eqb_ℤ t (pos 0) ≡ false) ts
    → Yields (Counted cs n p) (check_claims ts i first cs (pos n) p)
unfolding check_claims
check_claims-Counted ts i first [] n p h = record { counted = ground arith; waits = ground arith }
check_claims-Counted [] i first (c ∷ cs) n p h = tt
check_claims-Counted (t ∷ ts) i first (c ∷ cs) n p (h, hs) =
    let Q : ℤ × ℤ → Type 0 = Counted (c ∷ cs) n p in
    let p' = if str_eq c.status "PENDING" && eqb_ℤ p (pos 0) then c.threshold else p in
    let n' = n + (if str_eq c.status "CLAIMED" then 1 else 0) in
    Yields-guard Q (not (eqb_ℤ c.threshold t)) uncoded_error _ λ threshold.
      Yields-guard Q (not (known_status c.status)) uncoded_error _ λ _.
        Yields-guard Q (i == 1 && (not (str_eq c.status "LOCKED") && str_eq first "LOCKED"))
          uncoded_error _
          λ _.
            Yields-guard Q (str_eq c.status "CLAIMED" && not (eqb_ℤ p (pos 0))) uncoded_error
              (check_claims ts (suc i) first cs
                (if str_eq c.status "CLAIMED" then pos n +ℤ pos 1 else pos n) p')
              λ _.
                Yields-weaken (Counted cs n' p') Q _ (λ r. count_next c cs n p r (ground arith))
                  (subst (λ x. Yields (Counted cs n' p') (check_claims ts (suc i) first cs x p'))
                    (sym (next_count (str_eq c.status "CLAIMED") n))
                    (check_claims-Counted ts (suc i) first cs n' p' hs))

abbrev InFlow : VisibleInput → Type 0
InFlow v = (pos 0 ≤ℤ v.base_cursor) × (v.base_cursor ≤ℤ pos 12)

in_flow_lem :
    (c : ℤ) (rest : Bool)
    → (outside (pos 0) end_cursor c || rest) ≡ false
    → (pos 0 ≤ℤ c) × (c ≤ℤ pos 12)
in_flow_lem c rest h = (ground arith, ground arith)

check_frame-InFlow : (v : VisibleInput) → Yields (λ _. InFlow v) (check_frame v)
unfolding check_frame
check_frame-InFlow v =
    Yields-guard (λ _. InFlow v) (wrong_versions v) uncoded_error _
      λ _.
        Yields-guard (λ _. InFlow v) (wrong_phase v) uncoded_error _
          λ _.
            Yields-guard (λ _. InFlow v) (incomplete v) uncoded_error _
              λ _.
                Yields-guard (λ _. InFlow v) (out_of_flow v) uncoded_error (ok tt)
                  λ h.
                    in_flow_lem v.base_cursor
                      (outside (pos 0) (end_cursor +ℤ pos 1) v.completed_turns) h

-- A screen whose progress is accepted has a cursor from 0 to 12 and shows as many turns as base choices
-- and claimed tools make, as many tools as were claimed and opened with, and the first claim that waits
-- is the one that is asked for next.
pub check_progress-IsConsistent : (v : VisibleInput) → Yields (IsConsistent v) (check_progress v)
unfolding check_progress
check_progress-IsConsistent v =
    let Q : ℤ → Type 0 = IsConsistent v in
    Yields-bind Q (check_frame v) _ λ _ framed.
      Yields-bind Q
        (check_claims (pos 8000 ∷ pos 28000 ∷ []) 0 (first_status v.tool_claims) v.tool_claims
          (pos 0) (pos 0))
        _
        λ (claimed, pending) e.
          let counted : Counted v.tool_claims 0 (pos 0) (claimed, pending) =
            Yields-of (Counted v.tool_claims 0 (pos 0)) _ (claimed, pending)
              (check_claims-Counted (pos 8000 ∷ pos 28000 ∷ []) 0 (first_status v.tool_claims)
                v.tool_claims 0 (pos 0) (refl, (refl, tt)))
              e in
          let inside : InFlow v =
            Yields-of (λ _. InFlow v) (check_frame v) tt (check_frame-InFlow v) framed in
          let same : claimed ≡ pos (taken v.tool_claims) =
            counted.counted ∙ ap (λ x. pos x) (omega arith) in
          Yields-guard Q (not (eqb_ℤ v.completed_turns (base_turns v.base_cursor +ℤ claimed)))
            uncoded_error _
            λ turns.
              Yields-guard Q
                (not (
                  eqb_ℤ (pos (length v.tools) +ℤ v.unknown_tools)
                    (claimed +ℤ opening_tools v.base_cursor)))
                uncoded_error (ok pending)
                λ tools. record {
                  low = inside.0;
                  high = inside.1;
                  turns = kept_lem _ _ turns ∙ ap (λ x. base_turns v.base_cursor +ℤ x) same;
                  tools = kept_lem _ _ tools ∙ ap (λ x. x +ℤ opening_tools v.base_cursor) same;
                  waits = counted.waits;
                }
