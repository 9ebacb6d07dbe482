-- ===== src/Budget/RoundTrip.antt =====
-- What the checks of the budget accept, as a value again. plugins/budget/src/model.ts validates a budget
-- before it uses it, and has mostly validated it before.
pub mod Fields
pub mod Records
pub mod Receipts
pub mod Parts
pub mod Transactions
pub mod Whole
pub mod Text
pub mod Unique
pub mod Lines
pub mod Valid
pub mod Push
pub mod File
pub mod Sorted
pub mod Saved
