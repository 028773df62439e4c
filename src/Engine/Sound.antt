-- ===== src/Engine/Sound.antt =====
-- The handlers of `Apply` of internal/engine/engine.go: what they keep of a state.
pub mod Boards
pub mod Choice
pub mod Commands
