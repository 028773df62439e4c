-- ===== src/Effects/Sound/Family.antt =====
-- The choice of the family that the first tool offer favours ends, and moves its stream at most.
use vorax_simulator.Base.{
  ℕ, ◌<◌, ◌≡◌, refl, List, [], ◌∷◌, Option, none, some, length, get_elem?, exists_b, inl, inr,
  Bool-cases,
}
use vorax_simulator.Base.Int.{ℤ, eqb_ℤ}
use vorax_simulator.Outcome.{ok, ◌>>=◌, Returns, or_panic}
use vorax_simulator.Protocol.{GameState, awakener}
use vorax_simulator.Random.{word}
use vorax_simulator.Random.Terminates.{random_n-cases}
use vorax_simulator.Streams.{draw, stream_value, set_stream}
use vorax_simulator.Offers.Opening.{initial_tool_family, choose_leader, leading_families}

-- What the choice of the family changes: the stream at most.
abbrev pub Redrawn : GameState → ℤ × GameState → Type 0
Redrawn s (f, s') = (v : ℕ) × (v < word) × (s' ≡ record s { init_rng = v })

drawn_leader :
    (s : GameState) (v : ℕ) (o : Option ℤ)
    → v < word
    → Returns (Redrawn s) (do h ← or_panic o; ok (h, record s { init_rng = v }))
drawn_leader s v none p = tt
drawn_leader s v (some h) p = (v, p, refl)

choose_leader-Redrawn :
    (fs : List ℤ) (s : GameState) → s.init_rng < word → Returns (Redrawn s) (choose_leader fs s)
unfolding choose_leader draw stream_value set_stream
choose_leader-Redrawn [] s inside = (s.init_rng, inside, refl)
choose_leader-Redrawn (f ∷ []) s inside = (s.init_rng, inside, refl)
choose_leader-Redrawn (f ∷ g ∷ fs) s inside =
    elim (Bool-cases (exists_b (eqb_ℤ awakener) (f ∷ g ∷ fs))) [
      | inl awake ↦ rw awake (s.init_rng, inside, refl)
      | inr asleep ↦ rw asleep (elim (random_n-cases s.init_rng (length (f ∷ g ∷ fs)) inside) [
        | inl empty ↦ rw empty tt
        | inr (x, v, e, p, q) ↦ rw e (drawn_leader s v (get_elem? (f ∷ g ∷ fs) x) q)
      ])
    ]

pub initial_tool_family-Redrawn :
    (s : GameState) → s.init_rng < word → Returns (Redrawn s) (initial_tool_family s)
unfolding initial_tool_family
initial_tool_family-Redrawn s inside = choose_leader-Redrawn (leading_families s.slots) s inside
