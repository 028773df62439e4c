-- ===== src/Training.antt =====
-- Games for training clients: internal/training.
pub mod Episode
