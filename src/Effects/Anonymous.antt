-- ===== src/Effects/Anonymous.antt =====
-- The parts of the effects of internal/engine, each alike whatever the run and the player are called.
pub mod Rules
pub mod Methods
pub mod Handlers
pub mod Play
