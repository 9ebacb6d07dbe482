-- ===== src/Sync/Repo/Merge/Take.antt =====
-- What the steps of a merge do to the working tree.
use arxhub.Base.{
  Bool, Bytes, List, Option-cases, Result, Text, [], arith, contains, err, if◌then◌else◌, inl, inr,
  length, ok, refl, true, ◌++◌, ◌∷◌, ◌≡◌,
}
use arxhub.Base.Dict.{Dict, insert, lookup, lookup-insert_self}
use arxhub.Sync.Checkout.{Blob, Checkout, clear_pending, record_hash, set_entry}
use arxhub.Sync.Repo.Files.{has_chunks, read_chunks, store_content, take_file, write_file}
use arxhub.Sync.Repo.State.{Repo}
use arxhub.Sync.Snapshot.{SnapshotFile, SnapshotFileChunk}

pub has_chunks-read_chunks :
    (cs : List SnapshotFileChunk) (chunks : Dict Bytes)
    → has_chunks cs chunks ≡ true
    → (bytes : Bytes) × (read_chunks cs chunks ≡ ok bytes)
unfolding has_chunks read_chunks
has_chunks-read_chunks [] chunks h = ([], refl)
has_chunks-read_chunks (c ∷ cs) chunks h = elim (Option-cases (lookup c.hash chunks)) [
  | inl gone ↦ absurd (let e = rw gone at h in cc)
  | inr (bytes, there) ↦
      let (more, e) = has_chunks-read_chunks cs chunks (ground arith) in
      (bytes ++ more, rw (there, e, read_chunks))
]

-- The content that a manifest entry stands for, where its chunks are here.
abbrev pub ok_or_nil : Result Bytes → Bytes
ok_or_nil (err e) = []
ok_or_nil (ok bytes) = bytes

abbrev pub content_of : SnapshotFile → Repo → Bytes
content_of file r = ok_or_nil (read_chunks file.chunks r.chunks)

abbrev pub holds : SnapshotFile → Repo → Bool
holds file r = has_chunks file.chunks r.chunks

-- A file that is written now.
abbrev pub fresh_file : Bytes → Repo → Blob
fresh_file content r = record { content = content; mtime = r.now }

abbrev pub journal : Text → List Text → List Text
journal path changes = if contains changes path then changes else changes ++ path ∷ []

-- The checkout after a file was written and recorded.
abbrev pub recorded : Text → Text → Bytes → Repo → Checkout
recorded path hash content r = clear_pending path (
    set_entry path
      (record { size = length content; mtime = r.now; hash = hash; checked_at = r.now }) r.checkout)

-- The state after a file was written with its bookkeeping.
abbrev pub stored : Text → Text → Bytes → Repo → Repo
stored path hash content r = record r {
  tree = insert path (fresh_file content r) r.tree;
  checkout = recorded path hash content r;
  changes = journal path r.changes;
}

pub store_content_lem :
    (path hash : Text) (content : Bytes) (r : Repo)
    → store_content path hash content r ≡ (ok tt, stored path hash content r)
unfolding store_content record_hash
store_content_lem path hash content r =
    ground (arith, lookup-insert_self path (fresh_file content r) r.tree)

pub take_file-held :
    (file : SnapshotFile) (r : Repo)
    → holds file r ≡ true
    → take_file file r ≡ (
      ok tt,
      record r {
        tree = insert file.pathname (fresh_file (content_of file r) r) r.tree;
        checkout = recorded file.pathname file.hash (content_of file r) r;
        changes = journal file.pathname r.changes;
      },
    )
unfolding take_file record_hash
take_file-held file r h =
    let (bytes, e) = has_chunks-read_chunks file.chunks r.chunks h in
    rw (h, e, write_file) (store_content_lem file.pathname file.hash bytes r)
