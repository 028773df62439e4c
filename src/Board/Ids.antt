-- ===== src/Board/Ids.antt =====
-- The ids of monsters: `fmt.Sprintf("monster-%d", c.state.NextMonsterId)` of
-- internal/engine/effects.go.
use Prim.Native.String.{◌++◌ as append_text}
use text.Mathlib.TextLemmas.{append_cancel_left}
use vorax_simulator.Base.{ℕ, String, ◌≡◌}
use vorax_simulator.Text.{decimal, decimal-injective}

unfoldable pub monster_id : ℕ → String
unfolding decimal
monster_id n = append_text "monster-" (decimal n)

-- Counters that give the same id are the same.
pub monster_id-injective : (a b : ℕ) → monster_id a ≡ monster_id b → a ≡ b
unfolding monster_id
monster_id-injective a b e =
    decimal-injective a b (append_cancel_left "monster-" (decimal a) (decimal b) e)
