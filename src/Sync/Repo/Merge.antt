-- ===== src/Sync/Repo/Merge.antt =====
-- `merge`: the three-way merge of a local and a remote manifest over their base.
pub mod Take
pub mod Slots
pub mod Copy
pub mod Paths
pub mod Gone
use arxhub.Base.{
  Bool, Bytes, List, Option, Result, Text, [], distinct, err, false, if◌then◌else◌, length, none,
  ok, out_of_fuel, some, suc, text_eq, true, type_error, zero, ℕ, ◌++◌, ◌∷◌,
}
use arxhub.Base.Dict.{Dict, keys, lookup}
use arxhub.Sync.Checkout.{flush}
use arxhub.Sync.Repo.Conflict.{conflict_path}
use arxhub.Sync.Repo.Files.{
  add, drop_file, has_chunks, lift, on_checkout, read_chunks, read_tree, record_at, store_content,
  take_file, write_tree,
}
use arxhub.Sync.Repo.State.{Method, gets, pure, throw, ◌>>=◌, ◌>>◌}
use arxhub.Sync.Repo.Status.{hash_at}
use arxhub.Sync.Snapshot.{Files, SnapshotFile}

pub record Unresolved : Type 0 where
  pub pathname : Text
  pub count : ℕ

-- `decisions` are pathnames, since `edit-over-delete` is the only kind.
pub record MergeResult : Type 0 where
  pub conflicts : List Text
  pub unresolved : List Unresolved
  pub decisions : List Text

abbrev pub nothing : MergeResult
nothing = record { conflicts = []; unresolved = []; decisions = [] }

-- What a merge asks of other code: the hash, `join` of the path library, and the content merger that a
-- plugin registered.
pub record Outside : Type 0 where
  pub sha256 : Bytes → Text
  pub merger : Option (Text → Option Bytes → Bytes → Bytes → Option (Bytes × ℕ))
  pub join : Text → Text → Text

abbrev pub report_unresolved : Text → ℕ → MergeResult
report_unresolved path zero = nothing
report_unresolved path (suc n) = record nothing {
  unresolved = record { pathname = path; count = suc n } ∷ [];
}

abbrev pub decided : Text → MergeResult
decided path = record nothing { decisions = path ∷ [] }

abbrev pub joined : MergeResult → MergeResult → MergeResult
joined a b = record {
  conflicts = a.conflicts ++ b.conflicts;
  unresolved = a.unresolved ++ b.unresolved;
  decisions = a.decisions ++ b.decisions;
}

module _ (o : Outside) where
  -- `writeMergedContent`
  unfoldable pub write_merged_content : Text → Bytes → Method (Unit {0})
  unfolding store_content
  write_merged_content path content = store_content path (o.sha256 content) content

  -- The base version's bytes, if this device still has them.
  unfoldable pub base_bytes : Option SnapshotFile → Dict Bytes → Result (Option Bytes)
  unfolding has_chunks read_chunks
  base_bytes none chunks = ok none
  base_bytes (some file) chunks =
      if has_chunks file.chunks chunks
      then elim (read_chunks file.chunks chunks) [ ok bytes ↦ ok (some bytes) | err e ↦ err e ]
      else ok none

  unfoldable pub keep_merged : Text → Option (Bytes × ℕ) → Method (Option ℕ)
  unfolding write_merged_content
  keep_merged path none = pure none
  keep_merged path (some (merged, conflicts)) = do
    write_merged_content path merged
    pure (some conflicts)

  unfoldable pub try_content_merge : Text → Option SnapshotFile → SnapshotFile → Method (Option ℕ)
  unfolding has_chunks base_bytes read_tree read_chunks keep_merged
  try_content_merge path base remote r = elim o.merger [
    | none ↦ (ok none, r)
    | some merge ↦
        if has_chunks remote.chunks r.chunks
        then (do
          base_content ← lift (base_bytes base r.chunks)
          local_content ← read_tree path
          remote_content ← lift (read_chunks remote.chunks r.chunks)
          keep_merged path (merge path base_content local_content remote_content))
            r
        else (ok none, r)
  ]

  -- The loop of `writeConflictFile`: the first path that is free, or that holds this version already.
  unfoldable pub conflict_slot : ℕ → ℕ → SnapshotFile → Method (Text × Bool)
  unfolding hash_at
  conflict_slot zero n remote r = (err out_of_fuel, r)
  conflict_slot (suc fuel) n remote r =
      let path = conflict_path o.join remote.pathname remote.hash n in
      let (found, r') = hash_at o.sha256 path r in
      let later = conflict_slot fuel (suc n) remote r' in
      elim found [
        | err e ↦ (err e, r')
        | ok none ↦ (ok (path, false), r')
        | ok (some hash) ↦ if text_eq hash remote.hash then (ok (path, true), r') else later
      ]

  unfoldable pub fill_slot : SnapshotFile → Text × Bool → Method Text
  unfolding read_chunks write_tree record_at add
  fill_slot remote (path, true) = pure path
  fill_slot remote (path, false) = do
    content ← (λ r. (read_chunks remote.chunks r.chunks, r))
    write_tree path content
    record_at path remote.hash
    add path
    pure path

  -- `writeConflictFile`. A tree of n files cannot fill more than n paths.
  unfoldable pub write_conflict_file : SnapshotFile → Method Text
  unfolding conflict_slot fill_slot
  write_conflict_file remote = do
    fuel ← gets (λ r. suc (length r.tree))
    slot ← conflict_slot fuel 1 remote
    fill_slot remote slot

  unfoldable pub settle : Text → SnapshotFile → Option ℕ → Method MergeResult
  unfolding write_conflict_file
  settle path remote (some conflicts) = pure (report_unresolved path conflicts)
  settle path remote none = do
    copy ← write_conflict_file remote
    pure (record nothing { conflicts = copy ∷ [] })

  -- Both sides have the path, and it is not a plain update of an unchanged local file.
  unfoldable pub merge_both :
      Text → Option SnapshotFile → SnapshotFile → SnapshotFile → Method MergeResult
  unfolding try_content_merge settle
  merge_both path base local remote =
      if text_eq local.hash remote.hash
      then pure nothing
      else (do merged ← try_content_merge path base remote; settle path remote merged)

  -- The body of the loop over the paths: base, local and remote entry of one path.
  unfoldable pub merge_path :
      Text → Option SnapshotFile → Option SnapshotFile → Option SnapshotFile → Method MergeResult
  unfolding take_file drop_file merge_both
  merge_path path none (some local) none = do take_file local; pure nothing
  merge_path path (some base) (some local) none =
      if text_eq local.hash base.hash
      then (do drop_file path; pure nothing)
      else pure (decided path)
  merge_path path none none (some remote) = do take_file remote; pure nothing
  merge_path path (some base) none (some remote) =
      if text_eq remote.hash base.hash
      then (do drop_file path; pure nothing)
      else (do take_file remote; pure (decided path))
  merge_path path (some base) (some local) (some remote) =
      if text_eq base.hash local.hash
      then (do take_file remote; pure nothing)
      else merge_both path (some base) local remote
  merge_path path none (some local) (some remote) = merge_both path none local remote
  -- `localFile.hash`, where `localFile` is undefined
  merge_path path base none none = throw type_error

  unfoldable pub merge_paths : List Text → Files → Files → Files → Method MergeResult
  unfolding merge_path
  merge_paths [] base local remote = pure nothing
  merge_paths (path ∷ paths) base local remote = do
    first ← merge_path path (lookup path base) (lookup path local) (lookup path remote)
    rest ← merge_paths paths base local remote
    pure (joined first rest)

unfoldable pub merge : Outside → Files → Files → Files → Method MergeResult
unfolding merge_paths distinct on_checkout
merge o base local remote = do
  result ← merge_paths o (distinct (keys base ++ (keys local ++ keys remote))) base local remote
  on_checkout flush
  pure result
