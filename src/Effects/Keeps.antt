-- ===== src/Effects/Keeps.antt =====
-- Methods that keep a property of the context, with a rule for each way to build a method. A method
-- keeps `P` when, from a context with `P`, it returns a context with `P` or panics, and does not run
-- out of the model's fuel.
use vorax_simulator.Base.{
  ℕ, zero, suc, Bool, true, false, List, [], ◌∷◌, Option, none, some, if◌then◌else◌,
}
use vorax_simulator.Outcome.{Outcome, ok, err, panic, exhausted, Returns}
use vorax_simulator.Effects.Context.{
  Context, Prog, pure, gets, or_crash, ◌>>=◌, continue, when, for_each, repeat, failed,
}

pub record Keeps (P : Context → Type 0) {A : Type 0} (m : Prog A) : Type 0 where
  pub at : (c : Context) → P c → Returns (λ (r : A × Context). P r.1) (m c)

module _ {P : Context → Type 0} where
  pub Keeps-pure : {A : Type 0} (a : A) → Keeps P (pure a)
  unfolding pure
  Keeps-pure a = record { at = λ c h. h }

  pub Keeps-gets : {A : Type 0} (f : Context → A) → Keeps P (gets f)
  unfolding gets
  Keeps-gets f = record { at = λ c h. h }

  pub Keeps-or_crash : {A : Type 0} (o : Option A) → Keeps P (or_crash o)
  unfolding or_crash
  Keeps-or_crash none = record { at = λ c h. tt }
  Keeps-or_crash (some a) = record { at = λ c h. h }

  pub Keeps-failed : Keeps P failed
  unfolding failed
  Keeps-failed = record { at = λ c h. h }

  continue-Returns :
      {A B : Type 0} (r : Outcome (A × Context)) (f : A → Prog B)
      → Returns (λ (x : A × Context). P x.1) r
      → ((a : A) → Keeps P (f a))
      → Returns (λ (x : B × Context). P x.1) (continue r f)
  continue-Returns (ok (a, c)) f h k = (k a).at c h
  continue-Returns (err e) f h k = tt
  continue-Returns panic f h k = tt
  continue-Returns exhausted f h k = h

  pub Keeps-bind :
      {A B : Type 0} (m : Prog A) (f : A → Prog B)
      → Keeps P m
      → ((a : A) → Keeps P (f a))
      → Keeps P (m >>= f)
  unfolding ◌>>=◌
  Keeps-bind m f km kf = record { at = λ c h. continue-Returns (m c) f (km.at c h) kf }

  pub Keeps-if :
      {A : Type 0} (b : Bool) (m n : Prog A) → Keeps P m → Keeps P n → Keeps P (if b then m else n)
  Keeps-if true m n km kn = km
  Keeps-if false m n km kn = kn

  pub Keeps-when : (b : Bool) (m : Prog (Unit {0})) → Keeps P m → Keeps P (when b m)
  unfolding when
  Keeps-when true m km = km
  Keeps-when false m km = Keeps-pure tt

  pub Keeps-for_each {ℓ} :
      {A : Type ℓ} (xs : List A) (body : A → Prog (Unit {0}))
      → ((x : A) → Keeps P (body x))
      → Keeps P (for_each xs body)
  unfolding for_each
  Keeps-for_each [] body k = Keeps-pure tt
  Keeps-for_each (x ∷ xs) body k =
      Keeps-bind (body x) (λ _. for_each xs body) (k x) (λ _. Keeps-for_each xs body k)

  pub Keeps-repeat : (n : ℕ) (body : Prog (Unit {0})) → Keeps P body → Keeps P (repeat n body)
  unfolding repeat
  Keeps-repeat zero body k = Keeps-pure tt
  Keeps-repeat (suc n) body k = Keeps-bind body (λ _. repeat n body) k (λ _. Keeps-repeat n body k)

-- From `P`, a value and a context with `Q`: for the places where more is known between two steps.
pub record Runs (P : Context → Type 0) {A : Type 0} (Q : A → Context → Type 0) (m : Prog A)
    : Type 0 where
  pub at : (c : Context) → P c → Returns (λ (r : A × Context). Q r.0 r.1) (m c)

module _ {A B : Type 0} where
  Runs-continue :
      (Q : A → Context → Type 0) (R : B → Context → Type 0) (r : Outcome (A × Context))
      (f : A → Prog B)
      → Returns (λ (x : A × Context). Q x.0 x.1) r
      → ((a : A) → Runs (Q a) R (f a))
      → Returns (λ (x : B × Context). R x.0 x.1) (continue r f)
  Runs-continue Q R (ok (a, c)) f h k = (k a).at c h
  Runs-continue Q R (err e) f h k = tt
  Runs-continue Q R panic f h k = tt
  Runs-continue Q R exhausted f h k = h

  pub Runs-bind :
      {P : Context → Type 0} (Q : A → Context → Type 0) (R : B → Context → Type 0) (m : Prog A)
      (f : A → Prog B)
      → Runs P Q m
      → ((a : A) → Runs (Q a) R (f a))
      → Runs P R (m >>= f)
  unfolding ◌>>=◌
  Runs-bind Q R m f km kf = record { at = λ c h. Runs-continue Q R (m c) f (km.at c h) kf }

module _ {A : Type 0} {P : Context → Type 0} where
  pub Keeps-of_Runs : (m : Prog A) → Runs P (λ _. P) m → Keeps P m
  Keeps-of_Runs m k = record { at = k.at }
