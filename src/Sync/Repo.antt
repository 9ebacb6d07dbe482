-- ===== src/Sync/Repo.antt =====
-- packages/sync/src/repo.ts: the local repository. One record holds what the object and its two file
-- systems hold: the working tree with its checkout index, the journal of changes (`repo/changes`), the
-- object stores (`repo/chunks`, `repo/snapshots`), the head (`repo/head`) and the anchor of the last
-- sync (`repo/last-synced`). JSON files are kept as the values that they hold. Only an absent file makes
-- a read fail, and a stream that fails leaves its target as it was.
pub mod State
pub mod Files
pub mod Status
pub mod Conflict
pub mod Merge
pub mod Replay
