-- ===== src/Effects/ToolHandlers.antt =====
-- What the surgical tools do: `applyTool` of internal/engine/tools.go.
use vorax_simulator.Base.{
  ℕ, zero, suc, ◌%◌, String, Bool, true, false, not, ◌&&◌, List, [], ◌∷◌, Option, none, some,
  str_eq, ltb, leb, length, take, drop, ◌==◌, if◌then◌else◌,
}
use vorax_simulator.Base.Int.{ℤ, pos, pos_part, ltb_ℤ, leb_ℤ, eqb_ℤ}
use vorax_simulator.Outcome.{invalid_card}
use vorax_simulator.Protocol.{
  Monster, GameEvent, unspecified, bone, fiend, awakener, insect, normal, magic, rare, boss,
}
use vorax_simulator.Streams.{effect_stream}
use vorax_simulator.Effects.Context.{
  Prog, Emit, pure, gets, ◌>>=◌, ◌>>◌, when, fail, failed, draw_from, slots_of,
}
use vorax_simulator.Effects.Monsters.{add_monster, buff, remove, transform, devour, monster_rarity}
use vorax_simulator.Effects.Fusion.{fuse, extreme}
use vorax_simulator.Effects.Selection.{
  filter_ids, all_ids, family_ids, rarity_ids, sample, event_monster, tool_buff,
}
use vorax_simulator.Board.{monsters}

-- The handlers of the `switch`.
pub data ToolHandler : Type 0 where
  claw cortex goat_suture marrow saw scraper eye metatarsal sinew tanned_restraint : ToolHandler
  pituitary fang frontal_lobe rawhide_restraint growth nettle liver pupa statue : ToolHandler
  cluster_eggs nail mouth hatching_egg brooding_butterfly : ToolHandler

abbrev pub tool_names : List (String × ToolHandler)
tool_names =
    ("claw", claw)
    ∷ ("cortex", cortex)
    ∷ ("goat_suture", goat_suture)
    ∷ ("marrow", marrow)
    ∷ ("saw", saw)
    ∷ ("scraper", scraper)
    ∷ ("eye", eye)
    ∷ ("metatarsal", metatarsal)
    ∷ ("sinew", sinew)
    ∷ ("tanned_restraint", tanned_restraint)
    ∷ ("pituitary", pituitary)
    ∷ ("fang", fang)
    ∷ ("frontal_lobe", frontal_lobe)
    ∷ ("rawhide_restraint", rawhide_restraint)
    ∷ ("growth", growth)
    ∷ ("nettle", nettle)
    ∷ ("liver", liver)
    ∷ ("pupa", pupa)
    ∷ ("statue", statue)
    ∷ ("cluster_eggs", cluster_eggs)
    ∷ ("nail", nail)
    ∷ ("mouth", mouth)
    ∷ ("hatching_egg", hatching_egg)
    ∷ ("brooding_butterfly", brooding_butterfly)
    ∷ []

unfoldable pub named_tool : String → List (String × ToolHandler) → Option ToolHandler
named_tool s [] = none
named_tool s ((k, h) ∷ hs) = if str_eq k s then some h else named_tool s hs

-- `CompletedTurns > 0 && CompletedTurns % n == 0`
unfoldable pub every_turns : ℕ → Prog Bool
unfolding gets
every_turns n =
    gets (λ c. ltb_ℤ (pos 0) c.state.completed_turns && (pos_part c.state.completed_turns % n == 0))

unfoldable pub is_bone : Option Monster → Bool
is_bone none = true
is_bone (some m) = eqb_ℤ m.family bone

unfoldable pub is_fiend : Option Monster → Bool
is_fiend none = false
is_fiend (some m) = eqb_ℤ m.family fiend

-- The first monster of another family than bone with the lowest activity.
unfoldable pub lowest_other : Option Monster → List Monster → Option Monster
lowest_other best [] = best
lowest_other best (m ∷ ms) =
    if eqb_ℤ m.family bone
    then lowest_other best ms
    else lowest_other
        (elim best [
          | none ↦ some m
          | some b ↦ if ltb_ℤ m.activity b.activity then some m else some b
        ])
        ms

module _ (emit : Emit) where
  unfoldable pub sinew_lowest : Option Monster → Prog (Unit {0})
  sinew_lowest none = pure tt
  sinew_lowest (some m) = do
    remove emit m.id
    stop ← failed
    when (not stop) (do
      bones ← family_ids bone
      chosen ← sample bones 1
      tool_buff emit chosen m.activity (pos 0))

  unfoldable pub marrow_monster : Option Monster → Prog (Unit {0})
  marrow_monster none = pure tt
  marrow_monster (some m) = do
    roll ← draw_from effect_stream 100
    when (ltb roll 75)
        (do transform emit m.id fiend unspecified false (pos 0); buff emit m.id (pos 80) (pos 0))

  -- The inner loop of "goat_suture" over one group of a rarity, and the loop over the groups.
  unfoldable pub fuse_triples : ℕ → List String → ℤ → Prog (Unit {0}) → Prog (Unit {0})
  fuse_triples zero group r next = next
  fuse_triples (suc rounds) group r next = if ltb (length group) 3 then next else do
    fuse emit (take 3 group) unspecified r
    stop ← failed
    when (not stop) (fuse_triples rounds (drop 3 group) r next)

  -- `for _, id := range c.toolSample(group, 1) { c.transform(...) }`, which returns at an error.
  unfoldable pub awaken_one : List String → Prog (Unit {0}) → Prog (Unit {0})
  awaken_one [] next = next
  awaken_one (id ∷ ids) next = do
    transform emit id unspecified unspecified true (pos 1)
    stop ← failed
    when (not stop) (awaken_one ids next)

  unfoldable pub pupa_rounds : ℕ → ℕ → Prog (Unit {0})
  pupa_rounds zero count = pure tt
  pupa_rounds (suc rounds) count = do
    stop ← failed
    when (not stop) (do
      ids ← all_ids
      chosen ← sample ids count
      tool_buff emit chosen (pos 0) (pos 8)
      pupa_rounds rounds count)

  unfoldable pub buff_all : ℤ → ℤ → Prog (Unit {0})
  buff_all a q = do ids ← all_ids; tool_buff emit ids a q

  unfoldable pub buff_one : ℤ → ℤ → Prog (Unit {0})
  buff_one a q = do ids ← all_ids; chosen ← sample ids 1; tool_buff emit chosen a q

  unfoldable pub apply_handler : ToolHandler → GameEvent → Prog (Unit {0})
  unfolding sinew_lowest marrow_monster fuse_triples awaken_one pupa_rounds buff_all buff_one
      every_turns is_bone is_fiend lowest_other
  apply_handler claw e = do
    removed ← gets (λ c. c.removed_monster)
    when (not (is_bone removed)) (buff_one (pos 0) (pos 150))
  apply_handler cortex e = do
    ids ← rarity_ids magic
    when (leb 2 (length ids)) (do chosen ← sample ids 2; fuse emit chosen awakener rare)
  apply_handler goat_suture e = do
    normals ← rarity_ids normal
    magics ← rarity_ids magic
    rares ← rarity_ids rare
    fuse_triples (length normals) normals (pos 2) (
        fuse_triples (length magics) magics (pos 3)
          (fuse_triples (length rares) rares (pos 4) (pure tt)))
  apply_handler marrow e = do m ← event_monster e; marrow_monster m
  apply_handler saw e = do
    ids ← filter_ids (λ m. ltb_ℤ (pos 150) m.activity && ltb_ℤ (pos 150) m.quantity)
    tool_buff emit ids (pos 15) (pos 15)
  apply_handler scraper e = do
    ids ← filter_ids (λ m. ltb_ℤ (pos 275) m.quantity)
    tool_buff emit ids (pos 20) (pos 0)
  apply_handler eye e = do id ← extreme true false ""; buff emit id (pos 20) (pos 20)
  apply_handler metatarsal e = do
    bones ← family_ids bone
    when (leb 2 (length bones)) (buff_one (pos 0) (pos 180))
  apply_handler sinew e = do
    bones ← family_ids bone
    when (leb 2 (length bones))
        (do lowest ← gets (λ c. lowest_other none (monsters (slots_of c))); sinew_lowest lowest)
  apply_handler tanned_restraint e = do
    normals ← rarity_ids normal
    magics ← rarity_ids magic
    bosses ← rarity_ids boss
    when (ltb 0 (length normals) && (ltb 0 (length magics) && ltb 0 (length bosses)))
        (buff_all (pos 20) (pos 0))
  apply_handler pituitary e = do
    eligible ← filter_ids (λ m. eqb_ℤ m.family awakener && leb_ℤ rare m.rarity)
    when (ltb 0 (length eligible)) (buff_one (pos 80) (pos 0))
  apply_handler fang e = do
    ids ← filter_ids (λ m. ltb_ℤ (pos 255) m.activity)
    tool_buff emit ids (pos 0) (pos 30)
  apply_handler frontal_lobe e = do
    awakeners ← family_ids awakener
    when (leb 2 (length awakeners)) (do
      eligible ← filter_ids (λ m. leb_ℤ rare m.rarity)
      chosen ← sample eligible 1
      tool_buff emit chosen (pos 80) (pos 0))
  apply_handler rawhide_restraint e = do
    magics ← rarity_ids magic
    when (leb 3 (length magics)) (do id ← extreme true false ""; buff emit id (pos 0) (pos 100))
  apply_handler growth e = do m ← event_monster e; when (is_fiend m) (buff_all (pos 35) (pos 0))
  apply_handler nettle e = do
    normals ← rarity_ids normal
    when (leb 3 (length normals)) (buff_all (pos 0) (pos 30))
  apply_handler liver e = do
    fiends ← family_ids fiend
    when (leb 2 (length fiends)) (buff_all (pos 20) (pos 0))
  apply_handler pupa e = do
    insects ← family_ids insect
    pupa_rounds (length insects) (length insects)
  apply_handler statue e = do
    due ← every_turns 2
    when due (do
      normals ← rarity_ids normal
      magics ← rarity_ids magic
      rares ← rarity_ids rare
      first ← sample normals 1
      awaken_one first (do
        second ← sample magics 1
        awaken_one second (do third ← sample rares 1; awaken_one third (pure tt))))
  apply_handler cluster_eggs e = do
    insects ← family_ids insect
    when (leb 3 (length insects))
        (do add_monster emit insect unspecified (pos 0) (pos 100) effect_stream none; pure tt)
  apply_handler nail e = do id ← extreme false false ""; buff emit id (pos 25) (pos 25)
  apply_handler mouth e = do
    ids ← all_ids
    when (length ids == 2)
        (do add_monster emit unspecified unspecified (pos 0) (pos 0) effect_stream none; pure tt)
    when (length ids == 6) (do
      eater ← extreme true false ""
      prey ← extreme false true eater
      stop ← failed
      when (not stop) (devour emit eater prey))
  apply_handler hatching_egg e = do
    insects ← family_ids insect
    when (leb 2 (length insects)) (buff_all (pos 0) (pos 45))
  apply_handler brooding_butterfly e = do
    due ← every_turns 3
    when due (do
      insects ← family_ids insect
      when (leb 2 (length insects)) (do
        chosen ← sample insects 2
        r ← monster_rarity effect_stream
        fuse emit chosen insect r))

  unfoldable pub apply_named : Option ToolHandler → GameEvent → Prog (Unit {0})
  apply_named none e = fail invalid_card
  apply_named (some h) e = apply_handler h e

  -- `applyTool`
  unfoldable pub apply_tool : String → GameEvent → Prog (Unit {0})
  unfolding apply_named apply_handler named_tool
  apply_tool handler e = apply_named (named_tool handler tool_names) e
