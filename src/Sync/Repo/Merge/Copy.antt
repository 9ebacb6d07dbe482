-- ===== src/Sync/Repo/Merge/Copy.antt =====
-- What `writeConflictFile` leaves in the tree.
use arxhub.Base.{
  Bool-cases, Text, arith, false, inl, inr, length, none, ok, refl, some, suc, text_eq_iff, true,
  ◌≡◌, ◌≢◌, ◌⊎◌,
}
use arxhub.Base.Dict.{fresh-nil, insert, lookup, lookup-insert, lookup-insert_self}
use arxhub.Sync.Checkout.{Blob, Tree, record_hash, set_entry}
use arxhub.Sync.Checkout.Honest.{IsHonest}
use arxhub.Sync.Repo.Merge.{Outside, conflict_slot, fill_slot, write_conflict_file}
use arxhub.Sync.Repo.Merge.Slots.{IsNaming, Slot, find-Slot, world}
use arxhub.Sync.Repo.Merge.Take.{content_of, fresh_file, has_chunks-read_chunks, holds, journal}
use arxhub.Sync.Repo.State.{Repo}
use arxhub.Sync.Snapshot.{SnapshotFile}

-- A file at the path holds the remote version: the bytes of its chunks, or bytes of its hash.
abbrev pub IsKept : Outside → SnapshotFile → Repo → Text → Tree → Type 0
IsKept o remote r path tree =
    (file : Blob) × (lookup path tree ≡ some file)
    × ((file.content ≡ content_of remote r) ⊎ (o.sha256 file.content ≡ remote.hash))

module _ (o : Outside) (remote : SnapshotFile) (naming : IsNaming o) where
  -- The state after a new copy.
  abbrev copied : Text → Repo → Repo
  copied path r = record r {
    tree = insert path (fresh_file (content_of remote r) r) r.tree;
    checkout =
        set_entry path
          (record {
            size = length (content_of remote r);
            mtime = r.now;
            hash = remote.hash;
            checked_at = r.now;
          })
          r.checkout;
    changes = journal path r.changes;
  }

  fill_slot-free :
      (path : Text) (r : Repo)
      → holds remote r ≡ true
      → fill_slot o remote (path, false) r ≡ (ok path, copied path r)
  unfolding fill_slot record_hash
  fill_slot-free path r h =
      let (bytes, e) = has_chunks-read_chunks remote.chunks r.chunks h in
      ground (arith, e, lookup-insert_self path (fresh_file bytes r) r.tree)

  -- For a remote version whose chunks are here, and a checkout that tells the truth: the call returns,
  -- a file at the path that it returns holds the remote version, and every file that was in the tree
  -- is there as it was.
  pub write_conflict_file_keeps :
      (r : Repo)
      → IsHonest o.sha256 (world r)
      → holds remote r ≡ true
      → (copy : Text) × (r' : Repo) × (write_conflict_file o remote r ≡ (ok copy, r'))
        × IsKept o remote r copy r'.tree
        × ((q : Text) → lookup q r.tree ≢ none → lookup q r'.tree ≡ lookup q r.tree)
  unfolding write_conflict_file
  write_conflict_file_keeps r honest h =
      let (s, found) =
        find-Slot o remote naming (suc (length r.tree)) 0 r honest
          (omega (arith, fresh-nil {0} r.tree)) in
      go s found (Bool-cases s.is_taken)
    where
      go :
          (s : Slot o remote r)
          → conflict_slot o (suc (length r.tree)) 1 remote r
            ≡ (ok (s.path, s.is_taken), record r { checkout = s.checkout })
          → (s.is_taken ≡ true) ⊎ (s.is_taken ≡ false)
          → (copy : Text) × (r' : Repo) × (write_conflict_file o remote r ≡ (ok copy, r'))
            × IsKept o remote r copy r'.tree
            × ((q : Text) → lookup q r.tree ≢ none → lookup q r'.tree ≡ lookup q r.tree)
      go s found (inl taken) =
          let (file, there, same) = s.same taken in
          (
            s.path,
            record r { checkout = s.checkout },
            rw (found, taken, fill_slot),
            (file, there, inr same),
            λ q _. refl,
          )
      go s found (inr free) =
          let r' = copied s.path (record r { checkout = s.checkout }) in
          (
            s.path,
            r',
            rw (found, free) (fill_slot-free s.path (record r { checkout = s.checkout }) h),
            (fresh_file (content_of remote r) r, lookup-insert_self s.path _ r.tree, inl refl),
            λ q there. ground (
              arith,
              lookup-insert s.path q (fresh_file (content_of remote r) r) r.tree,
              s.free free,
              text_eq_iff s.path q,
            ),
          )
