-- ===== src/Sync/Engine.antt =====
-- packages/sync/src/engine.ts, of which the download of chunks is modelled.
pub mod Fetch
pub mod Read
