-- ===== src/Agents/Offered.antt =====
-- The offers of accepted screens (internal/ai/visible.go), beside those of internal/engine/engine.go.
use vorax_simulator.Base.{
  ℕ, ◌≡◌, zero, ◌||◌, refl, sym, subst, ap, suc, not, str_eq, ◌∙◌, Bool, false, String, some, arith,
}
use vorax_simulator.Base.Int.{ℤ, pos, ◌≤ℤ◌, eqb_ℤ, eqb_ℤ_iff}
use vorax_simulator.Outcome.{
  Outcome, ok, Yields, Yields-guard, Yields-bind, Yields-of, Yields-any, uncoded_error,
}
use vorax_simulator.Protocol.{
  GameState, CardKind, card_kind_unspecified, unknown, kind_eq, card_kind_number, tool, potion,
  scheme,
}
use vorax_simulator.Rules.{Rules}
use vorax_simulator.Offers.{make_offer, first_pending, advance}
use vorax_simulator.Agents.Rebuild.{RandomWords}
use vorax_simulator.Agents.Visible.{
  expected_offer, VisibleInput, check_progress, check_candidates, check_seen_tools,
  check_seen_slots, from_visible,
}
use vorax_simulator.Agents.Flow.{waiting, Agrees, expected_offer-Agrees}
use vorax_simulator.Agents.Progress.{first_waiting, IsConsistent, check_progress-IsConsistent}

-- An offer of the kind and at the threshold that the screen shows.
abbrev pub IsOffered : VisibleInput → GameState → Rules → Type 0
IsOffered v s r =
    (source : String) × (advance s r ≡ make_offer s r v.offer.kind source v.offer.reward_threshold)

kind_of : ℕ → CardKind
kind_of zero = card_kind_unspecified
kind_of (suc zero) = unknown
kind_of (suc (suc zero)) = potion
kind_of (suc (suc (suc zero))) = tool
kind_of _ = scheme

kind_back : (k : CardKind) → kind_of (card_kind_number k) ≡ k
unfolding kind_of
kind_back card_kind_unspecified = refl
kind_back unknown = refl
kind_back potion = refl
kind_back tool = refl
kind_back scheme = refl

kind_kept : (a b : CardKind) (rest : Bool) → (not (kind_eq a b) || rest) ≡ false → a ≡ b
kind_kept a b rest h =
    let same : card_kind_number a ≡ card_kind_number b = ground arith in
    sym (kind_back a) ∙ ap kind_of same ∙ kind_back b

shown_lem :
    (v : VisibleInput) (s : GameState) (r : Rules) (o : Outcome (CardKind × ℤ)) (kind : CardKind)
    (threshold : ℤ)
    → Agrees s r o
    → o ≡ ok (kind, threshold)
    → v.offer.kind ≡ kind
    → v.offer.reward_threshold ≡ threshold
    → IsOffered v s r
shown_lem v s r o kind threshold agrees e same_kind same =
    let (source, a) = subst (Agrees s r) e agrees in
    (source, a ∙ (λ i. make_offer s r (sym same_kind i) source (sym same i)))

check_candidates-IsOffered :
    (v : VisibleInput) (s : GameState) (r : Rules) (pending : ℤ)
    → str_eq v.phase "FINISHED" ≡ false
    → Agrees s r (expected_offer v.base_cursor pending)
    → Yields (λ _. IsOffered v s r) (check_candidates v pending)
unfolding check_candidates
check_candidates-IsOffered v s r pending going agrees = rw going (
    Yields-bind (λ _. IsOffered v s r) (expected_offer v.base_cursor pending) _
      λ (kind, threshold) e.
        Yields-guard (λ _. IsOffered v s r)
          (not (kind_eq v.offer.kind kind) || not (eqb_ℤ v.offer.reward_threshold threshold))
          uncoded_error _
          λ shown. Yields-any (IsOffered v s r) _ (
            shown_lem v s r (expected_offer v.base_cursor pending) kind threshold agrees e
              (kind_kept v.offer.kind kind _ shown)
              (ground (arith, eqb_ℤ_iff v.offer.reward_threshold threshold))))

-- A screen of a game that goes on is accepted only with an offer that the game makes there: at every
-- state with the cursor that is shown, and where the first claim that waits is the first
-- that is shown to wait, `advance` makes an offer of the kind and at the threshold that are shown.
pub from_visible-IsOffered :
    (w : RandomWords) (v : VisibleInput) (s : GameState) (r : Rules)
    → str_eq v.phase "FINISHED" ≡ false
    → s.base_cursor ≡ v.base_cursor
    → waiting (first_pending s.rewards.tool_claims) ≡ first_waiting v.tool_claims
    → ((t : ℤ) → first_pending s.rewards.tool_claims ≡ some t → eqb_ℤ t (pos 0) ≡ false)
    → Yields (λ _. IsOffered v s r) (from_visible w v)
unfolding from_visible
from_visible-IsOffered w v s r going cursor waits nonzero =
    Yields-bind (λ _. IsOffered v s r) (check_progress v) _
      λ pending e.
        let consistent : IsConsistent v pending =
          Yields-of (IsConsistent v) (check_progress v) pending (check_progress-IsConsistent v) e in
        let agrees : Agrees s r (expected_offer v.base_cursor pending) =
          subst (λ c. Agrees s r (expected_offer c pending)) cursor
            (subst (λ p. Agrees s r (expected_offer s.base_cursor p)) (waits ∙ sym consistent.waits)
              (expected_offer-Agrees s r (subst (λ c. pos 0 ≤ℤ c) (sym cursor) consistent.low)
                (subst (λ c. c ≤ℤ pos 12) (sym cursor) consistent.high) nonzero)) in
        Yields-bind (λ _. IsOffered v s r) (check_seen_tools v.tools) _
          λ _ _.
            Yields-bind (λ _. IsOffered v s r) (check_seen_slots 0 v.slots) _
              λ slots _.
                Yields-bind (λ _. IsOffered v s r) (check_candidates v pending) _
                  λ cards made. Yields-any (IsOffered v s r) _ (
                    Yields-of (λ _. IsOffered v s r) (check_candidates v pending) cards
                      (check_candidates-IsOffered v s r pending going agrees) made)
