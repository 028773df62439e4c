-- ===== src/Application.antt =====
-- The service that stores a game in a signed text and replays it: internal/application.
pub mod Library
pub mod Signer
pub mod Service
