-- ===== src/Outcome.antt =====
-- What a Go function of this program can do: return a value, return an `error` (its code, the text
-- before the colon of internal/engine's messages; `uncoded_error` stands for an error without such a
-- code, of a library or of `NewSigner`), or panic. `exhausted` is no behaviour of the
-- program: it marks a loop or a recursion of the model whose fuel has run out.
use vorax_simulator.Base.{subst, ◌≡◌, refl, Option, none, some, Bool, true, false}

pub data Error : Type 0 where
  invalid_input version_unavailable invalid_rules invalid_state invalid_command : Error
  stale_offer no_refresh invalid_card invalid_target invalid_content : Error
  effect_limit numeric_overflow : Error
  invalid_token key_unavailable stale_state replay_invalid replay_mismatch internal_error : Error
  uncoded_error : Error

pub data Outcome {ℓ} (A : Type ℓ) : Type ℓ where
  ok : A → Outcome A
  err : Error → Outcome A
  panic : Outcome A
  exhausted : Outcome A

infixl 5 ◌>>=◌ ◌>>◌
abbrev pub ◌>>=◌ {ℓ κ} : {A : Type ℓ} {B : Type κ} → Outcome A → (A → Outcome B) → Outcome B
ok a >>= f = f a
err e >>= f = err e
panic >>= f = panic
exhausted >>= f = exhausted

abbrev pub ◌>>◌ {ℓ} : {B : Type ℓ} → Outcome (Unit {0}) → Outcome B → Outcome B
m >> k = m >>= λ _. k

abbrev pub map_outcome {ℓ κ} : {A : Type ℓ} {B : Type κ} → (A → B) → Outcome A → Outcome B
map_outcome f (ok a) = ok (f a)
map_outcome f (err e) = err e
map_outcome f panic = panic
map_outcome f exhausted = exhausted

-- `if cond { return error }`
abbrev pub error_if : Bool → Error → Outcome (Unit {0})
error_if true e = err e
error_if false e = ok tt

-- `if err != nil { return err }` after a call that yields a value or the one error `e`.
abbrev pub or_error {ℓ} : {A : Type ℓ} → Option A → Error → Outcome A
or_error none e = err e
or_error (some a) e = ok a

-- The dereference of a pointer that may be nil, and `xs[0]` of a list that may be empty.
abbrev pub or_panic {ℓ} : {A : Type ℓ} → Option A → Outcome A
or_panic none = panic
or_panic (some a) = ok a

-- The value, where there is one, satisfies `Q`, and the fuel has not run out. Errors and panics are
-- behaviours of the program, and pass.
abbrev pub Returns {ℓ} : {A : Type ℓ} → (A → Type 0) → Outcome A → Type 0
Returns Q (ok a) = Q a
Returns Q (err e) = Unit
Returns Q panic = Unit
Returns Q exhausted = ⊥

pub Returns-bind {ℓ κ} :
    {A : Type ℓ} {B : Type κ} (Q : A → Type 0) (R : B → Type 0) (m : Outcome A) (f : A → Outcome B)
    → Returns Q m
    → ((a : A) → Q a → Returns R (f a))
    → Returns R (m >>= f)
Returns-bind Q R (ok a) f h k = k a h
Returns-bind Q R (err e) f h k = tt
Returns-bind Q R panic f h k = tt
Returns-bind Q R exhausted f h k = absurd h

-- Two chains whose steps are related by `f` and then `g` are related by `g`.
pub map_outcome-bind {ℓ κ} :
    {A A' : Type ℓ} {B B' : Type κ} (f : A → A') (g : B → B') (m : Outcome A) (m' : Outcome A')
    (k : A → Outcome B) (k' : A' → Outcome B')
    → m' ≡ map_outcome f m
    → ((a : A) → k' (f a) ≡ map_outcome g (k a))
    → (m' >>= k') ≡ map_outcome g (m >>= k)
map_outcome-bind f g (ok a) m' k k' e h = rw e (h a)
map_outcome-bind f g (err x) m' k k' e h = rw e refl
map_outcome-bind f g panic m' k k' e h = rw e refl
map_outcome-bind f g exhausted m' k k' e h = rw e refl

pub map_outcome-guard {ℓ} :
    {B B' : Type ℓ} (g : B → B') (b : Bool) (e : Error) (k : Outcome B) (k' : Outcome B')
    → k' ≡ map_outcome g k
    → (error_if b e >> k') ≡ map_outcome g (error_if b e >> k)
map_outcome-guard g true e k k' h = refl
map_outcome-guard g false e k k' h = h

pub map_outcome-same {ℓ} : {A : Type ℓ} (o : Outcome A) → o ≡ map_outcome (λ a. a) o
map_outcome-same (ok a) = refl
map_outcome-same (err e) = refl
map_outcome-same panic = refl
map_outcome-same exhausted = refl

-- Behind a guard, its condition is false.
pub Returns-guarded {ℓ} :
    {B : Type ℓ} (Q : B → Type 0) (b : Bool) (e : Error) (m : Outcome B)
    → (b ≡ false → Returns Q m)
    → Returns Q (error_if b e >> m)
Returns-guarded Q true e m k = tt
Returns-guarded Q false e m k = k refl

pub Returns-guard {ℓ} :
    {B : Type ℓ} (Q : B → Type 0) (b : Bool) (e : Error) (m : Outcome B)
    → Returns Q m
    → Returns Q (error_if b e >> m)
Returns-guard Q b e m k = Returns-guarded Q b e m (λ _. k)

pub Returns-or_error {ℓ} :
    {A : Type 0} {B : Type ℓ} (Q : B → Type 0) (o : Option A) (e : Error) (f : A → Outcome B)
    → ((a : A) → o ≡ some a → Returns Q (f a))
    → Returns Q (or_error o e >>= f)
Returns-or_error Q none e f k = tt
Returns-or_error Q (some a) e f k = k a refl

-- From a value back to the steps that led to it.
abbrev SameValue {ℓ} : {A : Type ℓ} → A → Outcome A → Type ℓ
SameValue a (ok x) = a ≡ x
SameValue a (err e) = a ≡ a
SameValue a panic = a ≡ a
SameValue a exhausted = a ≡ a

pub ok-injective {ℓ} : {A : Type ℓ} (a b : A) → ok a ≡ ok b → a ≡ b
ok-injective a b h = subst (SameValue a) h refl

-- The value, where there is one, satisfies `Q`.
abbrev pub Yields {ℓ κ} : {A : Type ℓ} → (A → Type κ) → Outcome A → Type κ
Yields Q (ok a) = Q a
Yields Q (err e) = Unit
Yields Q panic = Unit
Yields Q exhausted = Unit

pub Yields-bind {ℓ κ μ} :
    {A : Type ℓ} {B : Type κ} (Q : B → Type μ) (m : Outcome A) (f : A → Outcome B)
    → ((a : A) → m ≡ ok a → Yields Q (f a))
    → Yields Q (m >>= f)
Yields-bind Q (ok a) f k = k a refl
Yields-bind Q (err e) f k = tt
Yields-bind Q panic f k = tt
Yields-bind Q exhausted f k = tt

pub Yields-guard {ℓ κ} :
    {B : Type ℓ} (Q : B → Type κ) (refused : Bool) (e : Error) (m : Outcome B)
    → (refused ≡ false → Yields Q m)
    → Yields Q (error_if refused e >> m)
Yields-guard Q true e m k = tt
Yields-guard Q false e m k = k refl

pub Yields-any {ℓ κ} : {A : Type ℓ} (P : Type κ) (m : Outcome A) → P → Yields (λ _. P) m
Yields-any P (ok a) p = p
Yields-any P (err e) p = tt
Yields-any P panic p = tt
Yields-any P exhausted p = tt

pub Yields-of_Returns {ℓ} : {A : Type ℓ} (Q : A → Type 0) (m : Outcome A) → Returns Q m → Yields Q m
Yields-of_Returns Q (ok a) h = h
Yields-of_Returns Q (err e) h = tt
Yields-of_Returns Q panic h = tt
Yields-of_Returns Q exhausted h = tt

pub Yields-of {ℓ κ} :
    {A : Type ℓ} (Q : A → Type κ) (m : Outcome A) (a : A) → Yields Q m → m ≡ ok a → Q a
Yields-of Q m a h e = subst (λ o. Yields Q o) e h

pub bind_assoc {ℓ κ μ} :
    {A : Type ℓ} {B : Type κ} {C : Type μ} (m : Outcome A) (f : A → Outcome B) (g : B → Outcome C)
    → ((m >>= f) >>= g) ≡ (m >>= λ a. f a >>= g)
bind_assoc (ok a) f g = refl
bind_assoc (err e) f g = refl
bind_assoc panic f g = refl
bind_assoc exhausted f g = refl

pub Yields-weaken {ℓ κ μ} :
    {A : Type ℓ} (Q : A → Type κ) (R : A → Type μ) (m : Outcome A)
    → ((a : A) → Q a → R a)
    → Yields Q m
    → Yields R m
Yields-weaken Q R (ok a) f h = f a h
Yields-weaken Q R (err e) f h = tt
Yields-weaken Q R panic f h = tt
Yields-weaken Q R exhausted f h = tt
