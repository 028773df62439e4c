-- ===== src/Rewards/Jars.antt =====
-- The jars that `updateRewards` of internal/engine/rewards.go writes, place by place.
use vorax_simulator.Base.{
  ℕ, ◌≡◌, refl, ap, ◌∙◌, Bool, true, false, List, [], ◌∷◌, if◌then◌else◌, arith,
}
use vorax_simulator.Base.Int.{ℤ, pos, leb_ℤ}
use vorax_simulator.Protocol.{JarColor, empty, jar_white, purple, jar_red, rainbow}
use vorax_simulator.Rewards.{paint, paint_jars}

-- The colour of a jar that turns white, purple and red at these scores.
abbrev pub jar_at : ℕ → ℕ → ℕ → ℤ → JarColor
jar_at white violet red score =
    if leb_ℤ (pos red) score
    then jar_red
    else if leb_ℤ (pos violet) score
    then purple
    else if leb_ℤ (pos white) score
    then jar_white
    else empty

-- The six jars; the first has a colour of its own at the top.
abbrev pub jars_at : ℤ → List JarColor
jars_at score =
    (if leb_ℤ (pos 1120000) score then rainbow else jar_at 2000 38000 266000 score)
    ∷ jar_at 2000 57000 342000 score
    ∷ jar_at 2000 76000 418000 score
    ∷ jar_at 18000 114000 512000 score
    ∷ jar_at 18000 152000 607000 score
    ∷ jar_at 18000 190000 721000 score
    ∷ []

abbrev six : JarColor → JarColor → JarColor → JarColor → JarColor → JarColor → List JarColor
six u v w x y z = u ∷ v ∷ w ∷ x ∷ y ∷ z ∷ []

module _ (c u v w x y z : JarColor) where
  set_0 :
      (b : Bool)
      → (if b then six c v w x y z else six u v w x y z) ≡ six (if b then c else u) v w x y z
  set_0 true = refl
  set_0 false = refl

  set_1 :
      (b : Bool)
      → (if b then six u c w x y z else six u v w x y z) ≡ six u (if b then c else v) w x y z
  set_1 true = refl
  set_1 false = refl

  set_2 :
      (b : Bool)
      → (if b then six u v c x y z else six u v w x y z) ≡ six u v (if b then c else w) x y z
  set_2 true = refl
  set_2 false = refl

  set_3 :
      (b : Bool)
      → (if b then six u v w c y z else six u v w x y z) ≡ six u v w (if b then c else x) y z
  set_3 true = refl
  set_3 false = refl

  set_4 :
      (b : Bool)
      → (if b then six u v w x c z else six u v w x y z) ≡ six u v w x (if b then c else y) z
  set_4 true = refl
  set_4 false = refl

  set_5 :
      (b : Bool)
      → (if b then six u v w x y c else six u v w x y z) ≡ six u v w x y (if b then c else z)
  set_5 true = refl
  set_5 false = refl

-- six thresholds paint the six jars one by one.
paint_each :
    (c u v w x y z : JarColor) (score t0 t1 t2 t3 t4 t5 : ℤ)
    → paint c score 0 (t0 ∷ t1 ∷ t2 ∷ t3 ∷ t4 ∷ t5 ∷ []) (six u v w x y z)
      ≡ six
          (if leb_ℤ t0 score then c else u)
          (if leb_ℤ t1 score then c else v)
          (if leb_ℤ t2 score then c else w)
          (if leb_ℤ t3 score then c else x)
          (if leb_ℤ t4 score then c else y)
          (if leb_ℤ t5 score then c else z)
unfolding paint
paint_each c u v w x y z score t0 t1 t2 t3 t4 t5 =
    let u' : JarColor = if leb_ℤ t0 score then c else u in
    let v' : JarColor = if leb_ℤ t1 score then c else v in
    let w' : JarColor = if leb_ℤ t2 score then c else w in
    let x' : JarColor = if leb_ℤ t3 score then c else x in
    let y' : JarColor = if leb_ℤ t4 score then c else y in
    ap (paint c score 1 (t1 ∷ t2 ∷ t3 ∷ t4 ∷ t5 ∷ [])) (set_0 c u v w x y z (leb_ℤ t0 score))
    ∙ ap (paint c score 2 (t2 ∷ t3 ∷ t4 ∷ t5 ∷ [])) (set_1 c u' v w x y z (leb_ℤ t1 score))
    ∙ ap (paint c score 3 (t3 ∷ t4 ∷ t5 ∷ [])) (set_2 c u' v' w x y z (leb_ℤ t2 score))
    ∙ ap (paint c score 4 (t4 ∷ t5 ∷ [])) (set_3 c u' v' w' x y z (leb_ℤ t3 score))
    ∙ ap (paint c score 5 (t5 ∷ [])) (set_4 c u' v' w' x' y z (leb_ℤ t4 score))
    ∙ set_5 c u' v' w' x' y' z (leb_ℤ t5 score)

whites :
    (three all : Bool)
    → (all ≡ true → three ≡ true)
    → (if all
        then six jar_white jar_white jar_white jar_white jar_white jar_white
        else if three
        then six jar_white jar_white jar_white empty empty empty
        else six empty empty empty empty empty empty)
      ≡ (let a = if three then jar_white else empty in
          let b = if all then jar_white else empty in six a a a b b b)
whites true true h = refl
whites true false h = refl
whites false true h = absurd (ground (arith, h refl))
whites false false h = refl

pub paint_jars-jars_at : (score : ℤ) → paint_jars score ≡ jars_at score
unfolding paint_jars
paint_jars-jars_at score =
    let more : leb_ℤ (pos 18000) score ≡ true → leb_ℤ (pos 2000) score ≡ true =
      λ h. ground (arith, h) in
    rw (whites (leb_ℤ (pos 2000) score) (leb_ℤ (pos 18000) score) more, paint_each, paint_each)
      (set_0 rainbow _ _ _ _ _ _ (leb_ℤ (pos 1120000) score))
