-- ===== src/Text.antt =====
-- Decimal rendering of the uint64 counters: `fmt.Sprintf("%d", n)` as used for ids.
pub mod Split
use Prim.Native.Char.{Char, code}
use vorax_simulator.Base.{
  ℕ, zero, suc, ◌+◌, ◌*◌, ◌-◌, ◌/◌, ◌%◌, ◌<◌, String, ◌≡◌, refl, ap, ◌∙◌, sym, arith, if◌then◌else◌,
  ltb, Bool-cases, inl, inr,
}

-- The digit of a number below ten.
digit : ℕ → Char
digit zero = "0"
digit (suc zero) = "1"
digit (suc (suc zero)) = "2"
digit (suc (suc (suc zero))) = "3"
digit (suc (suc (suc (suc zero)))) = "4"
digit (suc (suc (suc (suc (suc zero))))) = "5"
digit (suc (suc (suc (suc (suc (suc zero)))))) = "6"
digit (suc (suc (suc (suc (suc (suc (suc zero))))))) = "7"
digit (suc (suc (suc (suc (suc (suc (suc (suc zero)))))))) = "8"
digit _ = "9"

-- The digits of `n` before the text `acc`; `fuel` bounds their number.
decimal_loop : ℕ → ℕ → String → String
decimal_loop zero n acc = acc
decimal_loop (suc fuel) n acc =
    let rest = decimal_loop fuel (n / 10) (String.◌∷◌ (digit (n % 10)) acc) in
    if ltb n 10 then String.◌∷◌ (digit n) acc else rest

unfoldable pub decimal : ℕ → String
unfolding decimal_loop digit
decimal n = decimal_loop (suc n) n ""

-- The number that a text of digits stands for, after `v`.
value_from : ℕ → String → ℕ
value_from v String.[] = v
value_from v (String.◌∷◌ c s) = value_from (v * 10 + (code c - 48)) s

code-digit : (d : ℕ) → d < 10 → code (digit d) - 48 ≡ d
unfolding digit
code-digit zero h = refl
code-digit (suc zero) h = refl
code-digit (suc (suc zero)) h = refl
code-digit (suc (suc (suc zero))) h = refl
code-digit (suc (suc (suc (suc zero)))) h = refl
code-digit (suc (suc (suc (suc (suc zero))))) h = refl
code-digit (suc (suc (suc (suc (suc (suc zero)))))) h = refl
code-digit (suc (suc (suc (suc (suc (suc (suc zero))))))) h = refl
code-digit (suc (suc (suc (suc (suc (suc (suc (suc zero)))))))) h = refl
code-digit (suc (suc (suc (suc (suc (suc (suc (suc (suc zero))))))))) h = refl
code-digit (suc (suc (suc (suc (suc (suc (suc (suc (suc (suc n)))))))))) h = absurd (omega arith)

value-decimal_loop :
    (fuel n : ℕ) (acc : String)
    → n < fuel
    → value_from 0 (decimal_loop fuel n acc) ≡ value_from n acc
unfolding decimal_loop value_from
value-decimal_loop zero n acc h = elim h [ ]
value-decimal_loop (suc fuel) n acc h = elim (Bool-cases (ltb n 10)) [
  | inl small ↦ rw small (ap (λ v. value_from v acc) (omega (arith, code-digit n (ground arith))))
  | inr large ↦ rw large (
      value-decimal_loop fuel (n / 10) (String.◌∷◌ (digit (n % 10)) acc) (ground arith)
      ∙ ap (λ v. value_from v acc) (omega (arith, code-digit (n % 10) (omega arith))))
]

-- Reading back the rendered number gives the number.
value-decimal : (n : ℕ) → value_from 0 (decimal n) ≡ n
unfolding decimal value_from
value-decimal n = value-decimal_loop (suc n) n "" (omega arith)

pub decimal-injective : (a b : ℕ) → decimal a ≡ decimal b → a ≡ b
decimal-injective a b h = sym (value-decimal a) ∙ ap (value_from 0) h ∙ value-decimal b

ten : decimal 1024 ≡ "1024"
unfolding decimal
ten = refl
