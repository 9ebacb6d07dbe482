-- ===== src/Budget.antt =====
-- plugins/budget/src: the budget of a vault, a file of accounts, categories, places and transactions in
-- JSON lines.
pub mod Json
pub mod Model
pub mod Dates
pub mod Money
pub mod Fields
pub mod Records
pub mod Transactions
pub mod References
pub mod Sums
pub mod Whole
pub mod File
pub mod Totals
pub mod Merge
pub mod Months
pub mod Update
pub mod Photos
pub mod Fiscal
pub mod ReceiptFields
pub mod Receipts
pub mod RoundTrip
pub mod Index
pub mod Balances
pub mod Resolved
pub mod Rounding
pub mod Updates
pub mod Merged
pub mod Attached
pub mod Calendar
pub mod Stored
