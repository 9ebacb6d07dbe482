-- ===== src/Sync/Repo/Replay.antt =====
-- `replay` of packages/sync/src/repo.ts: local snapshots are written again on top of a remote head.
pub mod Changes
use arxhub.Base.{
  List, Option, Text, [], distinct, err, file_not_found, if◌then◌else◌, none, ok, some, ◌++◌, ◌∷◌,
}
use arxhub.Base.Dict.{erase, insert, keys, lookup}
use arxhub.Sync.Ancestry.{ancestry}
use arxhub.Budget.Json.{Json}
use arxhub.Sync.Address.{snapshot_hash}
use arxhub.Sync.Repo.State.{Method, Repo}
use arxhub.Sync.Snapshot.{Files, Snapshot, same_entry, same_text}

-- The loop that collects the pending snapshots, newest first.
unfoldable pub pending_since : Option Text → List Snapshot → List Snapshot
unfolding same_text
pending_since base [] = []
pending_since base (s ∷ chain) =
    let rest = pending_since base chain in
    if same_text (some s.hash) base
    then []
    else elim s.parent [ none ↦ [] | some parent ↦ s ∷ rest ]

-- The loop over the paths of one snapshot and its parent.
unfoldable pub replay_paths : List Text → Files → Files → Files → Files
unfolding same_entry
replay_paths [] parent snapshot files = files
replay_paths (path ∷ paths) parent snapshot files =
    let skipped = replay_paths paths parent snapshot files in
    if same_entry (lookup path parent) (lookup path snapshot)
    then skipped
    else elim (lookup path snapshot) [
      | none ↦ replay_paths paths parent snapshot (erase path files)
      | some file ↦ replay_paths paths parent snapshot (insert path file files)
    ]

-- The files of a snapshot that is written again over a head.
unfoldable pub replay_files : Files → Files → Files → Files
unfolding replay_paths distinct
replay_files parent snapshot head =
    replay_paths (distinct (keys parent ++ keys snapshot)) parent snapshot head

-- The parent's snapshot, which is read.
unfoldable pub parent_of : Snapshot → Repo → Option Snapshot
parent_of s r = elim s.parent [ none ↦ none | some parent ↦ lookup parent r.snapshots ]

-- `base?.hash`
abbrev pub hash_of_base : Option Snapshot → Option Text
hash_of_base none = none
hash_of_base (some base) = some base.hash

abbrev pub reversed {ℓ} : {A : Type ℓ} → List A → List A → List A
reversed [] done = done
reversed (x ∷ xs) done = reversed xs (x ∷ done)

-- `JSON.stringify`, and the hash of a string.
module _ (print_json : Json → Text) (sha256 : Text → Text) where
  abbrev pub replayed_on : Snapshot → Files → Snapshot → Snapshot
  replayed_on head parent s =
      let files = replay_files parent s.files head.files in
      let hash = snapshot_hash print_json sha256 (some head.hash) files in
      record s { parent = some head.hash; files = files; hash = hash }

  -- The loop over the pending snapshots, oldest first.
  unfoldable pub replay_all : List Snapshot → Snapshot → Method Snapshot
  unfolding replay_files snapshot_hash
  replay_all [] head r = (ok head, r)
  replay_all (s ∷ pending) head r = elim (parent_of s r) [
    | none ↦ (err file_not_found, r)
    | some parent ↦
        let top = replayed_on head parent.files s in
        replay_all pending top (record r { snapshots = insert top.hash top r.snapshots })
  ]

  unfoldable pub replay : Snapshot → Snapshot → Option Snapshot → Method Snapshot
  unfolding replay_all pending_since ancestry
  replay local remote base r =
      replay_all (reversed (pending_since (hash_of_base base) (ancestry r.snapshots local.hash)) [])
        remote r
