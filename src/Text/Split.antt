-- ===== src/Text/Split.antt =====
-- `strings.Contains(s, ".")` and `strings.Split(s, ".")` as internal/application/signer.go calls them.
use Prim.Native.Char.{Char, code}
use Prim.Native.String.{◌++◌ as append_text}
use Prim.Native.String.append.{nil, cons}
use vorax_simulator.Base.{
  String, ◌≡◌, refl, ap, ◌∙◌, sym, Bool, false, ◌||◌, ◌==◌, List, [], ◌∷◌, if◌then◌else◌, arith,
}

abbrev is_dot : Char → Bool
is_dot c = code c == 46

unfoldable pub has_dot : String → Bool
has_dot String.[] = false
has_dot (String.◌∷◌ c s) = is_dot c || has_dot s

-- A character in front of the first part.
abbrev prepend : Char → List String → List String
prepend c [] = String.◌∷◌ c "" ∷ []
prepend c (t ∷ ts) = String.◌∷◌ c t ∷ ts

unfoldable pub split_dots : String → List String
split_dots String.[] = "" ∷ []
split_dots (String.◌∷◌ c s) =
    let rest = split_dots s in if is_dot c then "" ∷ rest else prepend c rest

-- `s + "." + t`
abbrev pub dotted : String → String → String
dotted s t = append_text s (append_text "." t)

pub append_assoc :
    (s t u : String) → append_text (append_text s t) u ≡ append_text s (append_text t u)
append_assoc String.[] t u = ap (λ x. append_text x u) (nil t) ∙ sym (nil (append_text t u))
append_assoc (String.◌∷◌ c s) t u =
    ap (λ x. append_text x u) (cons c s t)
    ∙ cons c (append_text s t) u
    ∙ ap (λ x. String.◌∷◌ c x) (append_assoc s t u)
    ∙ sym (cons c s (append_text t u))

or_false : (a b : Bool) → (a || b) ≡ false → (a ≡ false) × (b ≡ false)
or_false a b h = ground arith

-- A text without dots is one part.
pub split_dots-same : (s : String) → has_dot s ≡ false → split_dots s ≡ s ∷ []
unfolding split_dots has_dot
split_dots-same String.[] h = refl
split_dots-same (String.◌∷◌ c s) h =
    let (plain, others) = or_false (is_dot c) (has_dot s) h in
    rw (plain, split_dots-same s others) refl

-- A part without dots before a dot is the first part.
pub split_dots-dotted :
    (s t : String) → has_dot s ≡ false → split_dots (dotted s t) ≡ s ∷ split_dots t
unfolding split_dots has_dot
split_dots-dotted String.[] t h = rw (nil (append_text "." t), cons "." "" t, nil t) refl
split_dots-dotted (String.◌∷◌ c s) t h =
    let (plain, others) = or_false (is_dot c) (has_dot s) h in
    rw (cons c s (append_text "." t), plain, split_dots-dotted s t others) refl
