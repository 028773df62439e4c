-- ===== src/Effects.antt =====
-- `context` of internal/engine/effects.go: its steps, its methods, the handlers of tools and potions,
-- and, in Keeps, Invariant and Sound, what they keep.
pub mod Context
pub mod Keeps
pub mod Invariant
pub mod Closed
pub mod Sound
pub mod Anonymous
pub mod Monsters
pub mod Fusion
pub mod Selection
pub mod ToolHandlers
pub mod PotionHandlers
pub mod Play
