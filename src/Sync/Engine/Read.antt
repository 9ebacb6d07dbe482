-- ===== src/Sync/Engine/Read.antt =====
-- `readRange` of packages/sync/src/engine.ts, with `openRangeReader` of packages/sync/src/repo.ts: a
-- slice of a file of the head snapshot, whose chunks may all be in the cloud.
use arxhub.Base.{
  Bytes, List, Option, Result, Text, arith, err, illegal_state, inr, is_safe, length, none, ok,
  refl, some, true, ℤ, ◌≡◌, ◌⊎◌,
}
use arxhub.Base.Dict.{Dict, lookup}
use arxhub.Sync.Engine.Fetch.{Answers, fetch_and_store}
use arxhub.Sync.Engine.Fetch.Serving.{IsTruthful, fetch_and_store-IsServing}
use arxhub.Sync.Engine.Fetch.Verified.{IsAddressed}
use arxhub.Sync.Range.Collect.{IsStored}
use arxhub.Sync.Range.Cut.{read_range-cut}
use arxhub.Sync.Range.Ensure.{IsPart}
use arxhub.Sync.Range.Opens.{open_reader-opens}
use arxhub.Sync.Range.Reads.{Reader, cut, open_reader, read_range}
use arxhub.Sync.Repo.Files.{get_head_snapshot, lift, read_chunks}
use arxhub.Sync.Repo.State.{Method, Repo, ◌>>=◌}
use arxhub.Sync.Snapshot.{Snapshot, SnapshotFile}

unfoldable pub open_range_reader :
    (Bytes → Text) → Snapshot → Text → Option (List Text → Method (Unit {0})) → Result Reader
unfolding open_reader
open_range_reader sha256 snapshot path fetch = elim (lookup path snapshot.files) [
  | none ↦ err illegal_state
  | some file ↦ open_reader sha256 snapshot file fetch
]

-- A reader that is new keeps no content yet, and is dropped after the call.
unfoldable pub read_once : Reader → ℤ → Option ℤ → Method Bytes
unfolding read_range
read_once reader offset length? r =
    let (bytes, memo, r') = read_range reader offset length? none r in (bytes, r')

unfoldable pub read_file_range : (Bytes → Text) → Answers → Text → ℤ → Option ℤ → Method Bytes
unfolding get_head_snapshot open_range_reader read_once fetch_and_store
read_file_range sha256 answers path offset length? = do
  head ← get_head_snapshot
  reader ← lift (open_range_reader sha256 head path (some (fetch_and_store sha256 answers)))
  read_once reader offset length?

get_head_snapshot-there :
    (r : Repo) (hash : Text) (snapshot : Snapshot)
    → r.head ≡ some hash
    → lookup hash r.snapshots ≡ some snapshot
    → get_head_snapshot r ≡ (ok snapshot, r)
unfolding get_head_snapshot
get_head_snapshot-there r hash snapshot at_head there = ground (arith, at_head, there)

-- A file of the head snapshot, where a store has all its chunks under their hashes with the sizes that the
-- entry gives for each, the sizes add up to a safe integer, and the entry gives no size of the whole or
-- that sum. The device may have any part of the store, and a remote answers truthfully from it: for every
-- offset and length `readRange` settles as cutting the whole content of the file does.
pub read_file_range-cut :
    (sha256 : Bytes → Text) (answers : Answers) (store : Dict Bytes) (snapshot : Snapshot)
    (file : SnapshotFile) (path hash : Text) (bytes : Bytes) (r : Repo)
    → r.head ≡ some hash
    → lookup hash r.snapshots ≡ some snapshot
    → lookup path snapshot.files ≡ some file
    → IsStored file.chunks store
    → read_chunks file.chunks store ≡ ok bytes
    → (file.size ≡ none) ⊎ (file.size ≡ some (length bytes))
    → is_safe (length bytes) ≡ true
    → IsAddressed sha256 store
    → IsTruthful store answers
    → IsPart r.chunks store
    → (offset : ℤ) (length? : Option ℤ)
    → (r' : Repo) × (read_file_range sha256 answers path offset length? r
        ≡ (cut bytes offset length?, r'))
unfolding read_file_range open_range_reader read_once
read_file_range-cut sha256 answers store snapshot file path hash bytes r at_head there is_listed
      present content declared safe addressed truthful part offset length? =
    let (reader, opened) =
      open_reader-opens sha256 snapshot file (some (fetch_and_store sha256 answers)) store bytes
        present content declared safe in
    let (r', done) =
      read_range-cut store sha256 snapshot file (some (fetch_and_store sha256 answers)) reader bytes
        opened present content r offset length? none
        (inr (
          fetch_and_store sha256 answers,
          refl,
          fetch_and_store-IsServing sha256 store addressed answers truthful,
          part,
        )) in
    (
      r',
      rw
          (
            get_head_snapshot-there r hash snapshot at_head there,
            is_listed,
            opened,
            done,
            read_file_range,
            open_range_reader,
            read_once,
          )
          refl,
    )
