-- ===== src/Dev.antt =====
-- kernel/dev: the console.
pub mod Console
