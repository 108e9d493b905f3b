-- ===== src/Worker.antt =====
-- email-worker/src/index.ts: the Worker's routes, the stores that it reads, and its handlers.
pub mod Routes
pub mod Store
pub mod Effects
pub mod Handlers
