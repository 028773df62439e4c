-- ===== src/Effects/Context.antt =====
-- `context` of internal/engine/effects.go, and the steps that its methods are made of. A method is a
-- `Prog`: it changes the context, and may panic. An error that it meets is stored in the context
-- (`c.err`), as in the code, and does not end the method by itself.
use vorax_simulator.Base.{
  ℕ, zero, suc, ◌+◌, String, Bool, true, false, List, [], ◌∷◌, Option, none, some, ltb,
  if◌then◌else◌,
}
use vorax_simulator.Base.Int.{ℤ}
use vorax_simulator.Outcome.{
  Outcome, ok, err, panic, exhausted, Error, effect_limit, numeric_overflow,
}
use vorax_simulator.Protocol.{Monster, Slot, GameState, GameEvent}
use vorax_simulator.Rules.{Rules}
use vorax_simulator.Streams.{Stream, draw}
use vorax_simulator.Rewards.{checked_add}

pub record Context : Type 0 where
  pub state : GameState
  pub rules : Rules
  pub events : List GameEvent
  pub source : String
  pub parent : ℕ
  pub steps : ℕ
  pub limit : ℕ
  pub error : Option Error
  pub removed_monster : Option Monster

-- The limit that `Apply` gives a context.
abbrev pub step_limit : ℕ
step_limit = 512

abbrev pub Prog : Type 0 → Type 0
Prog A = Context → Outcome (A × Context)

-- The type of `emit`: kind, target ids, activity and quantity of the event.
abbrev pub Emit : Type 0
Emit = String → List String → ℤ → ℤ → Prog (Unit {0})

module _ {A : Type 0} where
  unfoldable pub pure : A → Prog A
  pure a c = ok (a, c)

  unfoldable pub gets : (Context → A) → Prog A
  gets f c = ok (f c, c)

  -- A nil pointer that is dereferenced, an index out of range.
  unfoldable pub or_crash : Option A → Prog A
  or_crash none c = panic
  or_crash (some a) c = ok (a, c)

  -- The model's fuel has run out.
  unfoldable pub out_of_fuel : Prog A
  out_of_fuel c = exhausted

unfoldable pub modify : (Context → Context) → Prog (Unit {0})
modify f c = ok (tt, f c)

module _ {A B : Type 0} where
  abbrev pub continue : Outcome (A × Context) → (A → Prog B) → Outcome (B × Context)
  continue (ok (a, c)) f = f a c
  continue (err e) f = err e
  continue panic f = panic
  continue exhausted f = exhausted

  infixl 5 ◌>>=◌ ◌>>◌
  unfoldable pub ◌>>=◌ : Prog A → (A → Prog B) → Prog B
  unfolding pure gets or_crash out_of_fuel modify
  ◌>>=◌ m f c = continue (m c) f

  abbrev pub ◌>>◌ : Prog A → Prog B → Prog B
  m >> k = m >>= λ _. k

-- `if cond { body }`
unfoldable pub when : Bool → Prog (Unit {0}) → Prog (Unit {0})
when true body = body
when false body = pure tt

-- `for _, x := range xs { body }`
unfoldable pub for_each {ℓ} : {A : Type ℓ} → List A → (A → Prog (Unit {0})) → Prog (Unit {0})
for_each [] body = pure tt
for_each (x ∷ xs) body = do body x; for_each xs body

-- `for i := 0; i < n; i++ { body }`
unfoldable pub repeat : ℕ → Prog (Unit {0}) → Prog (Unit {0})
repeat zero body = pure tt
repeat (suc n) body = do body; repeat n body

-- `c.err = e`
unfoldable pub fail : Error → Prog (Unit {0})
unfolding modify
fail e = modify (λ c. record c { error = some e })

abbrev is_some_error : Option Error → Bool
is_some_error none = false
is_some_error (some e) = true

-- `c.err != nil`
unfoldable pub failed : Prog Bool
unfolding gets
failed = gets (λ c. is_some_error c.error)

abbrev pub count_step : Option Error → Context → Bool × Context
count_step (some e) c = (false, c)
count_step none c =
    if ltb c.limit (c.steps + 1)
    then (false, record c { steps = c.steps + 1; error = some effect_limit })
    else (true, record c { steps = c.steps + 1 })

-- `tick`: false where an error stands or the limit is passed.
unfoldable pub tick : Prog Bool
tick c = ok (count_step c.error c)

-- `if !c.tick() { return }` and the rest of the method.
unfoldable pub if_tick : Prog (Unit {0}) → Prog (Unit {0})
unfolding tick when ◌>>=◌
if_tick body = do alive ← tick; when alive body

-- `x, err := checkedAdd(a, b)`, which stores the error and returns, or goes on with the sum.
module _ {A : Type 0} where
  abbrev pub sum_or : A → Option ℤ → (ℤ → Prog A) → Prog A
  sum_or default none k = do fail numeric_overflow; pure default
  sum_or default (some v) k = k v

  unfoldable pub with_sum : A → ℤ → ℤ → (ℤ → Prog A) → Prog A
  unfolding fail ◌>>=◌
  with_sum default a b k = sum_or default (checked_add a b) k

unfoldable pub draw_result : Outcome (ℕ × GameState) → Context → Outcome (ℕ × Context)
draw_result (ok (x, s)) c = ok (x, record c { state = s })
draw_result (err e) c = err e
draw_result panic c = panic
draw_result exhausted c = exhausted

-- `randomN(rng, n)` on a stream of the context's state.
unfoldable pub draw_from : Stream → ℕ → Prog ℕ
unfolding draw_result
draw_from r n c = draw_result (draw r n c.state) c

-- The slots, and a write to them.
abbrev pub slots_of : Context → List Slot
slots_of c = c.state.slots

unfoldable pub write_slots : (List Slot → List Slot) → Prog (Unit {0})
unfolding modify
write_slots f = modify (λ c. record c { state = record c.state { slots = f c.state.slots } })
