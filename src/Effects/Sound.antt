-- ===== src/Effects/Sound.antt =====
-- The parts of the effects of internal/engine, each on a context that is sound between the steps of
-- one command.
pub mod Draws
pub mod Stats
pub mod Monsters
pub mod Methods
pub mod Choices
pub mod Fusion
pub mod Now
pub mod Handlers
pub mod Family
pub mod Play
