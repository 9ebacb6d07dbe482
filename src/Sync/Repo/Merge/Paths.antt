-- ===== src/Sync/Repo/Merge/Paths.antt =====
-- The outcome of one path of a merge.
use arxhub.Base.{Option, Text, [], arith, false, none, ok, some, text_eq, true, ◌∷◌, ◌≡◌, ◌≢◌}
use arxhub.Base.Dict.{lookup}
use arxhub.Sync.Checkout.Honest.{IsHonest}
use arxhub.Sync.Repo.Merge.{Outside, merge_path, nothing}
use arxhub.Sync.Repo.Merge.Copy.{IsKept, write_conflict_file_keeps}
use arxhub.Sync.Repo.Merge.Slots.{IsNaming, world}
use arxhub.Sync.Repo.Merge.Take.{holds}
use arxhub.Sync.Repo.State.{Repo}
use arxhub.Sync.Snapshot.{SnapshotFile, same_text}

-- The content hash of a manifest entry that may be missing.
abbrev pub hash? : Option SnapshotFile → Option Text
hash? none = none
hash? (some file) = some file.hash

-- Two versions that differ, and a base that is not the local one, where the chunks of the remote version
-- are here, the hash that the checkout has for any file is that of its content, and the names of one
-- file's conflict copies differ: with no content merger the merge of
-- the path succeeds and reports one conflict copy, which holds the remote version, and every file that
-- was in the tree, the local version among them, stays as it was. That holds also where the remote
-- version is the base version, so a local edit alone makes such a copy of the old content.
pub merge_path-contended :
    (o : Outside) (path : Text) (base : Option SnapshotFile) (local remote : SnapshotFile)
    (r : Repo)
    → IsNaming o
    → o.merger ≡ none
    → same_text (hash? base) (some local.hash) ≡ false
    → text_eq local.hash remote.hash ≡ false
    → IsHonest o.sha256 (world r)
    → holds remote r ≡ true
    → (copy : Text) × (r' : Repo) × (merge_path o path base (some local) (some remote) r
        ≡ (ok (record nothing { conflicts = copy ∷ [] }), r'))
      × IsKept o remote r copy r'.tree
      × ((q : Text) → lookup q r.tree ≢ none → lookup q r'.tree ≡ lookup q r.tree)
unfolding merge_path same_text
merge_path-contended o path none local remote r naming plain changed differ honest h =
    let (copy, r', e, kept, rest) = write_conflict_file_keeps o remote naming r honest h in
    (copy, r', rw (differ, plain) (ground (arith, e)), kept, rest)
merge_path-contended o path (some base) local remote r naming plain changed differ honest h =
    let (copy, r', e, kept, rest) = write_conflict_file_keeps o remote naming r honest h in
    (copy, r', rw (changed, differ, plain) (ground (arith, e)), kept, rest)
