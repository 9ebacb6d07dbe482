-- ===== src/Tests/Replays.antt =====
-- One snapshot of this device over one of another, from a common root. This device gave a file of the root
-- an identity and left its content.
use arxhub.Base.{Option, Text, [], codes, distinct, none, refl, some, text_eq, ◌∷◌, ◌≡◌, ◌⊎◌}
use arxhub.Base.Dict.{insert, keys, lookup}
use arxhub.Sync.Repo.Replay.{replay_files}
use arxhub.Sync.Repo.Replay.Changes.{IsUnchanged, lookup-replay_files}
use arxhub.Sync.Snapshot.{Files, SnapshotFile, same_entry}

abbrev entry : Option Text → Text → Text → SnapshotFile
entry identity path hash = record {
  file_id = none;
  identity = identity;
  history_source = none;
  hash = hash;
  size = some 1;
  pathname = path;
  chunks = record { hash = hash; size = some 1 } ∷ [];
}

abbrev mine : Text
mine = codes "mine"

abbrev root : Files
root = (mine, entry none mine (7 ∷ [])) ∷ []

abbrev named : Files
named = (mine, entry (some (codes "i")) mine (7 ∷ [])) ∷ []

abbrev theirs : Files
theirs = (codes "a", entry none (codes "a") (8 ∷ [])) ∷ (mine, entry none mine (7 ∷ [])) ∷ []

replayed_names : keys (replay_files root named theirs) ≡ codes "a" ∷ mine ∷ []
unfolding replay_files distinct lookup insert keys text_eq same_entry
replayed_names = refl

identity_kept :
    lookup mine (replay_files root named theirs) ≡ some (entry (some (codes "i")) mine (7 ∷ []))
unfolding replay_files distinct lookup insert keys text_eq same_entry
identity_kept = refl

lookup-replay_files_example :
    (IsUnchanged (lookup mine root) (lookup mine named)
      × (lookup mine (replay_files root named theirs) ≡ lookup mine theirs))
    ⊎ (¬ IsUnchanged (lookup mine root) (lookup mine named)
        × (lookup mine (replay_files root named theirs) ≡ lookup mine named))
lookup-replay_files_example = lookup-replay_files mine root named theirs
