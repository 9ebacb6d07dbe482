-- ===== src/Budget/Merged.antt =====
-- `mergeRecords` of plugins/budget/src/merge.ts, id by id.
pub mod Ids
pub mod Choice
pub mod Steps
