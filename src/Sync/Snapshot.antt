-- ===== src/Sync/Snapshot.antt =====
-- packages/sync/src/types and snapshot-hash.ts: the manifest of a tree and its address.
-- An absent field is `none`. Times are whole milliseconds.
use arxhub.Base.{Bool, List, Option, Text, false, none, some, text_eq, true, ℕ, ◌&&◌}
use arxhub.Base.Dict.{Dict}

pub record SnapshotFileChunk : Type 0 where
  pub hash : Text
  pub size : Option ℕ

pub record SnapshotFile : Type 0 where
  pub file_id : Option Text
  pub identity : Option Text
  pub history_source : Option Text
  pub hash : Text
  pub size : Option ℕ
  pub pathname : Text
  pub chunks : List SnapshotFileChunk

abbrev pub Files : Type 0
Files = Dict SnapshotFile

pub record Snapshot : Type 0 where
  pub hash : Text
  pub parent : Option Text
  pub timestamp : ℕ
  pub files : Files

-- `a === b` of two strings, or of a string and `undefined`.
unfoldable pub same_text : Option Text → Option Text → Bool
same_text none none = true
same_text (some a) (some b) = text_eq a b
same_text _ _ = false

-- `sameEntry` of repo.ts
unfoldable pub same_entry : Option SnapshotFile → Option SnapshotFile → Bool
unfolding same_text
same_entry none none = true
same_entry (some a) (some b) = text_eq a.hash b.hash && same_text a.identity b.identity
same_entry _ _ = false
