-- ===== src/Agents/Lists.antt =====
-- Lists whose members all have a property, and cards found by their ids (internal/engine/rules.go).
use mathlib.Core.Option.{some-injective}
use vorax_simulator.Base.{
  ◌≡◌, refl, ap, ◌∙◌, sym, String, Bool, true, false, List, [], ◌∷◌, ◌++◌, map, some, str_eq,
  str_eq_iff, contains, All, arith, if◌then◌else◌,
}
use vorax_simulator.Protocol.{CardDefinition}
use vorax_simulator.Rules.{Rules, find_card, card}

pub All-append {ℓ κ} :
    {A : Type ℓ} (P : A → Type κ) (xs ys : List A) → All P xs → All P ys → All P (xs ++ ys)
All-append P [] ys h k = k
All-append P (x ∷ xs) ys h k = (h.0, All-append P xs ys h.1 k)

pub All-map {ℓ κ} :
    {A B : Type ℓ} (P : A → Type κ) (Q : B → Type κ) (f : A → B)
    → ((a : A) → P a → Q (f a))
    → (xs : List A) → All P xs
    → All Q (map f xs)
All-map P Q f step [] h = tt
All-map P Q f step (x ∷ xs) h = (step x h.0, All-map P Q f step xs h.1)

contains_more :
    (v : String) (vs xs : List String)
    → All (λ x. contains vs x ≡ true) xs
    → All (λ x. contains (v ∷ vs) x ≡ true) xs
contains_more v vs [] h = tt
contains_more v vs (x ∷ xs) h = (ground (arith, h.0), contains_more v vs xs h.1)

pub contains_each : (vs : List String) → All (λ x. contains vs x ≡ true) vs
contains_each [] = tt
contains_each (v ∷ vs) =
    let same : str_eq v v ≡ true = (str_eq_iff v v).1 refl in
    (ground arith, contains_more v vs vs (contains_each vs))

find_card-id :
    (id : String) (cs : List CardDefinition) (c : CardDefinition)
    → find_card id cs ≡ some c
    → c.id ≡ id
unfolding find_card
find_card-id id [] c h = absurd (ground arith)
find_card-id id (d ∷ cs) c h = first (str_eq d.id id) refl (find_card-id id cs c) h
  where
    first :
        (b : Bool)
        → str_eq d.id id ≡ b
        → (find_card id cs ≡ some c → c.id ≡ id)
        → (if b then some d else find_card id cs) ≡ some c
        → c.id ≡ id
    first true same rest k =
        ap (λ (x : CardDefinition). x.id) (sym (some-injective d c k)) ∙ (str_eq_iff d.id id).0 same
    first false other rest k = rest k

pub card_id_lem : (r : Rules) (id : String) (c : CardDefinition) → card r id ≡ some c → c.id ≡ id
unfolding card
card_id_lem r id c h = find_card-id id r.cards c h
