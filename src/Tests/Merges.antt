-- ===== src/Tests/Merges.antt =====
-- Merges of one note between two devices. The hash of these tests is the content itself.
use arxhub.Base.{
  Text, [], append-cancel_left, codes, false, none, ok, refl, some, text_eq, ℕ, ◌++◌, ◌∷◌, ◌≡◌, ◌≢◌,
}
use arxhub.Base.Dict.{insert, keys, lookup}
use arxhub.Sync.Checkout.{CheckoutEntry, Index, hash_of, record_hash}
use arxhub.Sync.Checkout.Honest.{IsHonest}
use arxhub.Sync.Repo.Conflict.{conflict_path}
use arxhub.Sync.Repo.Conflict.Names.{conflict_path-injective}
use arxhub.Sync.Repo.Files.{has_chunks}
use arxhub.Sync.Repo.Merge.{Outside, merge, merge_path, nothing, write_conflict_file}
use arxhub.Sync.Repo.Merge.Copy.{IsKept, write_conflict_file_keeps}
use arxhub.Sync.Repo.Merge.Gone.{merge-gone_on_both_sides}
use arxhub.Sync.Repo.Merge.Paths.{merge_path-contended}
use arxhub.Sync.Repo.Merge.Slots.{IsNaming, world}
use arxhub.Sync.Repo.State.{Repo}
use arxhub.Sync.Snapshot.{SnapshotFile, same_text}

abbrev join_names : Text → Text → Text
join_names path name = path ++ (b'/' ∷ name)

abbrev plain : Outside
plain = record { sha256 = λ content. content; merger = none; join = join_names }

join_names-apart : (path a b : Text) → join_names path a ≡ join_names path b → a ≡ b
join_names-apart path a b e = cc (append-cancel_left path (b'/' ∷ a) (b'/' ∷ b) e)

plain-IsNaming : IsNaming plain
plain-IsNaming = conflict_path-injective join_names join_names-apart

abbrev note : Text
note = codes "vault/note"

-- A version of the note whose content is one byte, in a chunk of its own.
abbrev version : ℕ → SnapshotFile
version byte = record {
  file_id = none;
  identity = none;
  history_source = none;
  hash = byte ∷ [];
  size = some 1;
  pathname = note;
  chunks = record { hash = byte ∷ []; size = some 1 } ∷ [];
}

abbrev empty_index : Index
empty_index = record { entries = []; pending = [] }

-- A device that has the version 7 on disk and the chunks of 7 and 8.
abbrev device : Repo
device = record {
  tree = (note, record { content = 7 ∷ []; mtime = 5000 }) ∷ [];
  checkout = record { index = empty_index; dirty = false; saved = empty_index };
  changes = [];
  chunks = (7 ∷ [], 7 ∷ []) ∷ (8 ∷ [], 8 ∷ []) ∷ [];
  snapshots = [];
  head = none;
  last_synced = none;
  now = 9000;
  ids = 0;
}

nothing_listed : (p : Text) (e : CheckoutEntry) → lookup p device.checkout.index.entries ≢ some e
unfolding lookup
nothing_listed p e h = cc

device-IsHonest : IsHonest plain.sha256 (world device)
device-IsHonest = record {
  past = λ p e h. absurd (nothing_listed p e h);
  truth = λ p e file h i j. absurd (nothing_listed p e h);
}

copied :
    (merge plain
      ((note, version 6) ∷ [])
      ((note, version 7) ∷ [])
      ((note, version 8) ∷ [])
      device).0
    ≡ ok (record nothing { conflicts = (codes "vault/conflict-" ++ (8 ∷ codes "-note")) ∷ [] })
unfolding merge conflict_path lookup insert text_eq hash_of keys record_hash
copied = refl

write_conflict_file_keeps_example :
    (copy : Text) × (r' : Repo) × (write_conflict_file plain (version 8) device ≡ (ok copy, r'))
    × IsKept plain (version 8) device copy r'.tree
    × ((q : Text) → lookup q device.tree ≢ none → lookup q r'.tree ≡ lookup q device.tree)
unfolding same_text text_eq lookup has_chunks
write_conflict_file_keeps_example =
    write_conflict_file_keeps plain (version 8) plain-IsNaming device device-IsHonest refl

merge_path-contended_example :
    (copy : Text) × (r' : Repo) × (merge_path plain note
        (some (version 8))
        (some (version 7))
        (some (version 8))
        device
      ≡ (ok (record nothing { conflicts = copy ∷ [] }), r'))
    × IsKept plain (version 8) device copy r'.tree
    × ((q : Text) → lookup q device.tree ≢ none → lookup q r'.tree ≡ lookup q device.tree)
unfolding same_text text_eq lookup has_chunks
merge_path-contended_example =
    merge_path-contended plain note (some (version 8)) (version 7) (version 8) device plain-IsNaming
      refl refl refl device-IsHonest refl

-- Two devices deleted the note since their last round.
merge-gone_on_both_sides_example :
    (merge plain ((note, version 7) ∷ []) [] [] device).0 ≢ ok nothing
unfolding same_text text_eq lookup has_chunks
merge-gone_on_both_sides_example =
    merge-gone_on_both_sides plain ((note, version 7) ∷ []) [] [] note device nothing
      (λ e. absurd (cc)) refl refl
