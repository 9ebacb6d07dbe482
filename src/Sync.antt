-- ===== src/Sync.antt =====
-- packages/sync: the offline-first sync engine.
pub mod Frame
pub mod Checkout
pub mod Snapshot
pub mod Address
pub mod Ancestry
pub mod TextMerge
pub mod Repo
pub mod Range
pub mod Remote
pub mod Engine
