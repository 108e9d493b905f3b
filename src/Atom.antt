-- ===== src/Atom.antt =====
-- email-worker/src/atom.ts: the Atom documents that the Worker serves.
pub mod Escape
pub mod Feed
