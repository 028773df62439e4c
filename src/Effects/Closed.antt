-- ===== src/Effects/Closed.antt =====
-- An interface for properties of methods: what a property of programs on the context of
-- internal/engine/effects.go needs so that it holds of every tool and every potion. The children derive
-- it for the handlers, once for all such properties.
pub mod Choices
pub mod Tools
pub mod Potions
use vorax_simulator.Base.{ℕ, ◌≡◌, String, Bool, List, Option, none, some}
use vorax_simulator.Base.Int.{ℤ}
use vorax_simulator.Outcome.{Error}
use vorax_simulator.Protocol.{GameState, Monster}
use vorax_simulator.Monsters.{definition_of}
use vorax_simulator.Streams.{effect_stream}
use vorax_simulator.Streams.Named.{named}
use vorax_simulator.Effects.Context.{
  Context, Prog, Emit, pure, gets, or_crash, ◌>>=◌, failed, fail, draw_from,
}
use vorax_simulator.Effects.Monsters.{
  add_monster, buff, remove, transform, transform_to, devour, monster_rarity,
}
use vorax_simulator.Effects.Fusion.{fuse}
use vorax_simulator.Effects.Selection.{the_monster}
use vorax_simulator.Effects.PotionHandlers.{now}

-- What a method reads of a context does not depend on the names of the run and the player.
abbrev pub Nameless : {A : Type 0} → (Context → A) → Type 0
Nameless f =
    (run user : String) (c : Context) → f (record c { state = named run user c.state }) ≡ f c

-- `P` is the property, for the methods with the event function `emit`; `Known` is what it needs to know
-- of a monster that is copied.
pub record IsClosed (emit : Emit) : Type 1 where
  pub P : {A : Type 0} → Prog A → Type 0
  pub Known : Monster → Type 0
  pub on_pure : {A : Type 0} (a : A) → P (pure a)
  pub on_bind :
      {A B : Type 0} (m : Prog A) (f : A → Prog B) → P m → ((a : A) → P (f a)) → P (m >>= f)
  pub on_gets : {A : Type 0} (f : Context → A) → Nameless f → P (gets f)
  pub on_or_crash : {A : Type 0} (o : Option A) → P (or_crash o)
  pub on_failed : P failed
  pub on_fail : (e : Error) → P (fail e)
  pub on_draw : (n : ℕ) → P (draw_from effect_stream n)
  pub on_rarity : P (monster_rarity effect_stream)
  pub on_buff : (id : String) (a q : ℤ) → P (buff emit id a q)
  pub on_remove : (id : String) → P (remove emit id)
  pub on_transform :
      (id : String) (f r : ℤ) (awakening : Bool) (levels : ℤ)
      → P (transform emit id f r awakening levels)
  pub on_devour : (eater prey : String) → P (devour emit eater prey)
  pub on_fuse : (ids : List String) (f r : ℤ) → P (fuse emit ids f r)
  pub on_add : (f r a q : ℤ) → P (add_monster emit f r a q effect_stream none)
  pub on_copy :
      (m : Monster) (f r a q : ℤ)
      → Known m
      → P (add_monster emit f r a q effect_stream (some (definition_of m)))
  pub on_transform_to :
      (id kind : String) (m : Monster)
      → Known m
      → P (transform_to emit id (some (definition_of m)) kind)
  pub on_monster :
      {A : Type 0} (id : String) (f : Monster → Prog A)
      → ((m : Monster) → Known m → P (f m))
      → P (the_monster id >>= f)
  pub on_now :
      {A : Type 0} (m : Monster) (f : Monster → Prog A)
      → Known m
      → ((n : Monster) → Known n → P (f n))
      → P (now m >>= f)
