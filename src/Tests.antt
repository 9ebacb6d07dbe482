-- ===== src/Tests.antt =====
-- The theorems at concrete inputs, and runs of the definitions.
mod Frames
mod Devices
mod Chains
mod Merges
mod Ranges
mod Downloads
mod Remotes
mod Replays
mod Addresses
mod TextMerges
mod Budgets
mod BudgetStores
mod BudgetMerges
mod BudgetRuns
mod BudgetPhotos
