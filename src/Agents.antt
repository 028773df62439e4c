-- ===== src/Agents.antt =====
-- Agents that see what a player sees: internal/ai.
pub mod Observation
pub mod Actions
pub mod Rebuild
pub mod Visible
pub mod Flow
pub mod Progress
pub mod Offered
pub mod Places
pub mod Boards
pub mod Lists
pub mod Legal
