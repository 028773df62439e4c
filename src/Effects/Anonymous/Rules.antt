-- ===== src/Effects/Anonymous/Rules.antt =====
-- Methods that work alike whatever the run and the player are called, with a rule for each way to build
-- a method.
use vorax_simulator.Base.{
  ℕ, zero, suc, ◌+◌, ◌≡◌, refl, ap, ◌∙◌, String, Bool, true, false, List, [], ◌∷◌, Option, none,
  some, if◌then◌else◌, ltb, Bool-cases, inl, inr,
}
use vorax_simulator.Base.Int.{ℤ}
use vorax_simulator.Outcome.{
  Outcome, ok, err, panic, exhausted, map_outcome, Error, numeric_overflow,
}
use vorax_simulator.Protocol.{GameState, Slot}
use vorax_simulator.Rewards.{checked_add}
use vorax_simulator.Streams.{Stream, draw}
use vorax_simulator.Streams.Named.{named, renamed_state, draw-named}
use vorax_simulator.Effects.Context.{
  Context, Prog, pure, gets, or_crash, modify, ◌>>=◌, continue, when, for_each, repeat, fail,
  failed, tick, count_step, if_tick, sum_or, with_sum, draw_from, draw_result, write_slots,
}

module _ (run user : String) where
  abbrev pub rename : Context → Context
  rename c = record c { state = named run user c.state }

  abbrev pub with_renamed : {A : Type 0} → A × Context → A × Context
  with_renamed (a, c) = (a, rename c)

  abbrev pub renamed : {A : Type 0} → Outcome (A × Context) → Outcome (A × Context)
  renamed o = map_outcome with_renamed o

  -- To rename and run is to run and rename.
  pub record Commutes {A : Type 0} (m : Prog A) : Type 0 where
    pub at : (c : Context) → m (rename c) ≡ renamed (m c)

  pub Commutes-pure : {A : Type 0} (a : A) → Commutes (pure a)
  unfolding pure
  Commutes-pure a = record { at = λ c. refl }

  pub Commutes-gets :
      {A : Type 0} (f : Context → A) → ((c : Context) → f (rename c) ≡ f c) → Commutes (gets f)
  unfolding gets
  Commutes-gets f same = record { at = λ c. ap (λ a. ok (a, rename c)) (same c) }

  pub Commutes-or_crash : {A : Type 0} (o : Option A) → Commutes (or_crash o)
  unfolding or_crash
  Commutes-or_crash none = record { at = λ c. refl }
  Commutes-or_crash (some a) = record { at = λ c. refl }

  pub Commutes-modify :
      (g : Context → Context) → ((c : Context) → g (rename c) ≡ rename (g c)) → Commutes (modify g)
  unfolding modify
  Commutes-modify g same = record { at = λ c. ap (λ x. ok (tt, x)) (same c) }

  pub Commutes-failed : Commutes failed
  unfolding failed
  Commutes-failed = Commutes-gets _ (λ c. refl)

  pub Commutes-fail : (e : Error) → Commutes (fail e)
  unfolding fail
  Commutes-fail e = Commutes-modify _ (λ c. refl)

  continue-renamed :
      {A B : Type 0} (r : Outcome (A × Context)) (f : A → Prog B)
      → ((a : A) → Commutes (f a))
      → continue (renamed r) f ≡ renamed (continue r f)
  continue-renamed (ok (a, c)) f k = (k a).at c
  continue-renamed (err e) f k = refl
  continue-renamed panic f k = refl
  continue-renamed exhausted f k = refl

  pub Commutes-bind :
      {A B : Type 0} (m : Prog A) (f : A → Prog B)
      → Commutes m
      → ((a : A) → Commutes (f a))
      → Commutes (m >>= f)
  unfolding ◌>>=◌
  Commutes-bind m f km kf = record {
    at = λ c. ap (λ r. continue r f) (km.at c) ∙ continue-renamed (m c) f kf;
  }

  pub Commutes-if :
      {A : Type 0} (b : Bool) (m n : Prog A)
      → Commutes m
      → Commutes n
      → Commutes (if b then m else n)
  Commutes-if true m n km kn = km
  Commutes-if false m n km kn = kn

  pub Commutes-when : (b : Bool) (m : Prog (Unit {0})) → Commutes m → Commutes (when b m)
  unfolding when
  Commutes-when true m km = km
  Commutes-when false m km = Commutes-pure tt

  pub Commutes-for_each {ℓ} :
      {A : Type ℓ} (xs : List A) (body : A → Prog (Unit {0}))
      → ((x : A) → Commutes (body x))
      → Commutes (for_each xs body)
  unfolding for_each
  Commutes-for_each [] body k = Commutes-pure tt
  Commutes-for_each (x ∷ xs) body k =
      Commutes-bind (body x) (λ _. for_each xs body) (k x) (λ _. Commutes-for_each xs body k)

  pub Commutes-repeat : (n : ℕ) (body : Prog (Unit {0})) → Commutes body → Commutes (repeat n body)
  unfolding repeat
  Commutes-repeat zero body k = Commutes-pure tt
  Commutes-repeat (suc n) body k =
      Commutes-bind body (λ _. repeat n body) k (λ _. Commutes-repeat n body k)

  counted :
      (o : Option Error) (c : Context)
      → let (b, c') = count_step o c in count_step o (rename c) ≡ (b, rename c')
  counted (some e) c = refl
  counted none c = elim (Bool-cases (ltb c.limit (c.steps + 1))) [
    | inl over ↦ rw over refl
    | inr within ↦ rw within refl
  ]

  pub Commutes-tick : Commutes tick
  unfolding tick
  Commutes-tick = record { at = λ c. ap (λ r. ok r) (counted c.error c) }

  pub Commutes-if_tick : (body : Prog (Unit {0})) → Commutes body → Commutes (if_tick body)
  unfolding if_tick
  Commutes-if_tick body k = Commutes-bind tick _ Commutes-tick (λ alive. Commutes-when alive body k)

  sum_or-Commutes :
      {A : Type 0} (default : A) (o : Option ℤ) (k : ℤ → Prog A)
      → ((v : ℤ) → Commutes (k v))
      → Commutes (sum_or default o k)
  sum_or-Commutes default none k h =
      Commutes-bind (fail numeric_overflow) _ (Commutes-fail numeric_overflow)
        (λ _. Commutes-pure default)
  sum_or-Commutes default (some v) k h = h v

  pub Commutes-with_sum :
      {A : Type 0} (default : A) (a b : ℤ) (k : ℤ → Prog A)
      → ((v : ℤ) → Commutes (k v))
      → Commutes (with_sum default a b k)
  unfolding with_sum
  Commutes-with_sum default a b k h = sum_or-Commutes default (checked_add a b) k h

  draw_result-renamed :
      (c : Context) (o : Outcome (ℕ × GameState))
      → draw_result (renamed_state run user o) (rename c) ≡ renamed (draw_result o c)
  unfolding draw_result
  draw_result-renamed c (ok (x, s)) = refl
  draw_result-renamed c (err e) = refl
  draw_result-renamed c panic = refl
  draw_result-renamed c exhausted = refl

  pub Commutes-draw_from : (r : Stream) (n : ℕ) → Commutes (draw_from r n)
  unfolding draw_from
  Commutes-draw_from r n = record {
    at = λ c.
        ap (λ o. draw_result o (rename c)) (draw-named run user r n c.state)
        ∙ draw_result-renamed c (draw r n c.state);
  }

  pub Commutes-write_slots : (f : List Slot → List Slot) → Commutes (write_slots f)
  unfolding write_slots
  Commutes-write_slots f = Commutes-modify _ (λ c. refl)

pub ruleset commutes_rules = (
  Commutes-pure, Commutes-or_crash, Commutes-failed, Commutes-fail, Commutes-bind, Commutes-if,
  Commutes-when, Commutes-for_each, Commutes-repeat, Commutes-draw_from, Commutes-if_tick,
  Commutes-with_sum, Commutes-write_slots, Commutes-tick,
)
