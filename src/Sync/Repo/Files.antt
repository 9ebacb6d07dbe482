-- ===== src/Sync/Repo/Files.antt =====
-- How a repository writes files of the working tree, keeps its journal and asks its checkout.
use arxhub.Base.{
  Bool, Bytes, List, Option, Result, Text, [], contains, err, file_not_found, if◌then◌else◌,
  illegal_state, none, ok, some, true, ◌&&◌, ◌++◌, ◌||◌, ◌∷◌,
}
use arxhub.Base.Dict.{Dict, erase, insert, is_some, lookup}
use arxhub.Sync.Checkout.{
  Checkout, clear_pending, flush, forget, is_pending, knows, mark_pending, record_hash,
}
use arxhub.Sync.Repo.State.{Method, Repo, modify, ◌>>=◌, ◌>>◌}
use arxhub.Sync.Snapshot.{Snapshot, SnapshotFile, SnapshotFileChunk}

-- `add`: the journal is a set of paths.
unfoldable pub add : Text → Method (Unit {0})
add path r =
    (ok tt, if contains r.changes path then r else record r { changes = r.changes ++ path ∷ [] })

-- A method of `Checkout` that only changes it.
unfoldable pub on_checkout : (Checkout → Checkout) → Method (Unit {0})
on_checkout f r = (ok tt, record r { checkout = f r.checkout })

-- `hasChunks`
unfoldable pub has_chunks : List SnapshotFileChunk → Dict Bytes → Bool
has_chunks [] chunks = true
has_chunks (c ∷ cs) chunks = is_some (lookup c.hash chunks) && has_chunks cs chunks

-- `readChunks`, and what the stream of `Chunker.merge` yields in all.
unfoldable pub read_chunks : List SnapshotFileChunk → Dict Bytes → Result Bytes
read_chunks [] chunks = ok []
read_chunks (c ∷ cs) chunks =
    let rest = read_chunks cs chunks in
    elim (lookup c.hash chunks) [
      | none ↦ err file_not_found
      | some bytes ↦ elim rest [ ok more ↦ ok (bytes ++ more) | err e ↦ err e ]
    ]

-- A write to the tree at the present time.
unfoldable pub write_tree : Text → Bytes → Method (Unit {0})
write_tree path content r =
    (ok tt, record r { tree = insert path (record { content = content; mtime = r.now }) r.tree })

unfoldable pub read_tree : Text → Method Bytes
read_tree path r = elim (lookup path r.tree) [
  | none ↦ (err file_not_found, r)
  | some file ↦ (ok file.content, r)
]

-- `checkout.record`
unfoldable pub record_at : Text → Text → Method (Unit {0})
record_at path hash r = elim (record_hash r.tree r.now path hash r.checkout) [
  | err e ↦ (err e, r)
  | ok c ↦ (ok tt, record r { checkout = c })
]

abbrev pub lift {ℓ} : {A : Type ℓ} → Result A → Method A
lift a r = (a, r)

-- The bookkeeping of a file that this device writes itself: the content, the stat and hash that the
-- checkout keeps, no pending mark, and an entry of the journal.
unfoldable pub store_content : Text → Text → Bytes → Method (Unit {0})
unfolding write_tree record_at on_checkout add
store_content path hash content = do
  write_tree path content
  record_at path hash
  on_checkout (clear_pending path)
  add path

-- `writeFile`
unfoldable pub write_file : SnapshotFile → Method (Unit {0})
unfolding read_chunks store_content
write_file file r = elim (read_chunks file.chunks r.chunks) [
  | err e ↦ (err e, r)
  | ok content ↦ store_content file.pathname file.hash content r
]

-- `take`: content where the chunks are here, a pending mark where they are not.
unfoldable pub take_file : SnapshotFile → Method (Unit {0})
unfolding has_chunks write_file on_checkout
take_file file r =
    if has_chunks file.chunks r.chunks
    then write_file file r
    else on_checkout (mark_pending file.pathname file.hash) r

-- `this.tree.delete(pathname, { force: true })`, with the two calls that follow it.
unfoldable pub drop_file : Text → Method (Unit {0})
unfolding on_checkout
drop_file path = do
  modify (λ r. record r { tree = erase path r.tree })
  on_checkout (forget path)
  on_checkout (clear_pending path)

-- `getHeadSnapshot`
unfoldable pub get_head_snapshot : Method Snapshot
get_head_snapshot r = elim r.head [
  | none ↦ (err file_not_found, r)
  | some hash ↦ elim (lookup hash r.snapshots) [
    | none ↦ (err file_not_found, r)
    | some s ↦ (ok s, r)
  ]
]

unfoldable pub materialize_file : Text → Option SnapshotFile → Method (Unit {0})
unfolding on_checkout has_chunks write_file
materialize_file path none r = on_checkout (clear_pending path) r
materialize_file path (some file) r =
    if has_chunks file.chunks r.chunks
    then (do write_file file; on_checkout flush) r
    else (err illegal_state, r)

-- `materialize`
unfoldable pub materialize : Text → Method (Unit {0})
unfolding materialize_file get_head_snapshot
materialize path r =
    if is_pending path r.checkout
    then (do head ← get_head_snapshot; materialize_file path (lookup path head.files)) r
    else (ok tt, r)

-- `wantsContent`, under a policy of the device.
unfoldable pub wants_content : (SnapshotFile → Bool) → SnapshotFile → Repo → Bool
wants_content policy file r = policy file || knows file.pathname r.checkout
