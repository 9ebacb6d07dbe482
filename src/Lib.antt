-- ===== src/Lib.antt =====
-- ArxHub, a local-first knowledge hub: the offline sync engine of packages/sync/src and the budget plugin
-- of plugins/budget/src.
--
-- The program. A device keeps a working tree of files and, beside it, a store of content-addressed
-- objects: chunks of file content, and snapshots, each a manifest of the tree with its parent's
-- address. `repo/head` names the newest snapshot. A round of sync fetches the remote head's chain,
-- merges local and remote manifests over their common base, writes the local snapshots again on top of
-- the remote head, and pushes. A checkout index saves reading files whose stat did not change.
--
-- The budget of a vault is one file of JSON lines: accounts, categories, places and transactions, which
-- may carry a fiscal receipt. It is validated whenever it is read, changed, merged or summed up by
-- model.ts; the store writes it by compare-and-swap, and two devices' files are merged by the ids of their records.
--
-- The files.
--   Base: texts and byte strings as lists of code units, results, Boolean tests, and dictionaries as
--     association lists in the order of their keys' first insertion.
--   Sync.Frame: remote/is-object-hash.ts, remote/encode-object-frame.ts, remote/decode-object-frame.ts,
--     the batch format of objects. `decode_loop` runs on fuel, which the frame's length bounds.
--   Sync.Checkout: checkout.ts. `Checkout` holds the index in memory and the one saved on disk;
--     Checkout.Honest has the steps that a device and its user take.
--   Sync.Snapshot: types/snapshot.ts, and `sameEntry` of repo.ts. Sync.Address: snapshot-hash.ts, over
--     packages/stdlib/src/record/stable-stringify.ts.
--   Sync.Ancestry: `ancestry`, `isAncestor` and `findBaseSnapshot` of repo.ts. The walk runs on fuel: one
--     more than there are snapshots, since no snapshot is visited twice.
--   Sync.Repo: repo.ts. State has the record `Repo` with what the object and its stores hold, and
--     `Method`, functions on it that may throw; what was written before a throw stays. Files has the
--     journal, the chunks and the writes of the tree; Status has `status` and `fileStatus`; Conflict has
--     the names of conflict copies, with packages/stdlib/src/fs/split-pathname.ts; Merge has `merge` and
--     what it calls; Replay has `replay`. The search for a free conflict path runs on fuel: one
--     more than there are files.
--   Sync.Range: snapshot-range-reader.ts, and `resolveRange` of packages/vfs/src/ops/read-range.ts. Reads
--     has the reader's methods; its callback for missing chunks is an argument.
--   Sync.Remote: remote/vfs-sync-remote.ts, with packages/vfs/src/ops/compare-and-swap.ts.
--   Sync.Engine: engine.ts. Fetch has `fetchAndStore`, whose rounds are bounded by the number of hashes,
--     since a round takes one at least; Read has `readRange`, with `openRangeReader` of repo.ts.
--   Sync.TextMerge: merge/text-merge.ts, with `diff3Merge` of the library node-diff3 as an argument.
--   Budget: plugins/budget/src. Json has values of unknown type, Model the types of model.ts; Dates, Fields,
--     Records and Transactions its checks of single values, References and Sums those of a whole budget,
--     Whole `validateBudget` and the program's own budgets as values, File `parseBudget` and
--     `serializeBudget`, Totals `accountBalance`, `monthlyTotals` and `categoryTotals`. Money is money.ts
--     and items.ts, Merge merge.ts, Months months.ts, Update store.ts, Photos receipt-photo-store.ts, Fiscal,
--     ReceiptFields and Receipts fiscal.ts. The others are about these: Index, Balances, Resolved,
--     Attached, Calendar, Stored, Rounding, Updates, Merged, RoundTrip.
--   Tests: the theorems at concrete inputs, and runs of the definitions.
--
-- Parameters. The hash function, `JSON.stringify`, `join`
-- of the path library and the content merger that a plugin registers are arguments (`Outside`).
-- `IsNaming` says that the names of one file's conflict copies differ; Conflict.Names relates it to
-- `join`. A remote is the list of its answers to the requests of one fetch, which may be any (`Answers`)
-- or truthful (`IsTruthful`).
--
-- For the budget, `Intl` is the number of fraction digits of a currency, or none; `JSON.parse` and
-- `JSON.stringify`, `TextDecoder` and `TextEncoder`, `URL`, `URLSearchParams`, `Date.parse` and
-- `randomUUID` are arguments too. `others` is what other writers do to a vault in an attempt of an update,
-- of which there are ten: before its read of the file, before its last look for conflict copies, and
-- before its swap.
--
-- Not modelled. JSON texts of the sync engine: a JSON file is the value that it holds. Locks: an operation
-- under a lock is one step. Failures of a file system other than an absent file, and streams that fail
-- half-way. Times are whole milliseconds. The numbers of a budget have no negative zero, and the messages
-- of its errors are left out. The budget's formatting is the host's; the client of the tax service is I/O,
-- as are the other remotes, the servers and the user interface; the distance of places is
-- floating-point geometry, and encryption is a library's.
pub mod Base
pub mod Sync
pub mod Budget
mod Tests
