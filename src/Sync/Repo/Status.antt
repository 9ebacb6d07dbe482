-- ===== src/Sync/Repo/Status.antt =====
-- `status`: what changed against a snapshot.
use arxhub.Base.{
  Bytes, List, Option, Text, [], contains, if◌then◌else◌, none, ok, some, starts_with, text_eq,
  ◌++◌, ◌||◌, ◌∷◌,
}
use arxhub.Base.Dict.{keys, lookup}
use arxhub.Sync.Checkout.{Tree, clear_pending, flush, forget, hash_of, is_pending}
use arxhub.Sync.Repo.Files.{on_checkout}
use arxhub.Sync.Repo.State.{Method, gets, pure, ◌>>=◌, ◌>>◌}
use arxhub.Sync.Snapshot.{Files, SnapshotFile}

pub data Change : Type 0 where
  created modified deleted : Change

pub record FileStatus : Type 0 where
  pub pathname : Text
  pub type : Change

-- `checkout.hashOf`
unfoldable pub hash_at : (Bytes → Text) → Text → Method (Option Text)
hash_at sha256 path r =
    let (hash, c) = hash_of sha256 r.tree r.now path r.checkout in
    (ok hash, record r { checkout = c })

-- The pathnames that `walk` gives for a path: the file itself, or the files below a directory.
unfoldable pub walk_tree : Text → Tree → List Text
walk_tree path [] = []
walk_tree path ((p, file) ∷ tree) =
    let rest = walk_tree path tree in
    if text_eq p path || starts_with p (path ++ (b'/' ∷ [])) then p ∷ rest else rest

module _ (sha256 : Bytes → Text) where
  unfoldable pub status_absent : Text → Option SnapshotFile → Method (Option Change)
  unfolding on_checkout
  status_absent path none r = (do on_checkout (clear_pending path); pure none) r
  status_absent path (some file) r =
      if is_pending path r.checkout
      then (ok none, r)
      else (do on_checkout (forget path); pure (some deleted)) r

  unfoldable pub compare_entry : Text → Option SnapshotFile → Option Change
  compare_entry hash none = some created
  compare_entry hash (some file) = if text_eq hash file.hash then none else some modified

  unfoldable pub status_found : Text → Option SnapshotFile → Option Text → Method (Option Change)
  unfolding status_absent compare_entry on_checkout
  status_found path file none = status_absent path file
  status_found path file (some hash) = do
    on_checkout (clear_pending path)
    pure (compare_entry hash file)

  -- `fileStatus`
  unfoldable pub file_status : Text → Files → Method (Option Change)
  unfolding hash_at status_found
  file_status path files = do hash ← hash_at sha256 path; status_found path (lookup path files) hash

  abbrev pub listed : Text → Option Change → List FileStatus
  listed path none = []
  listed path (some change) = record { pathname = path; type = change } ∷ []

  -- The first loop, over the manifest.
  unfoldable pub status_of : List Text → Files → Method (List FileStatus)
  unfolding file_status
  status_of [] files = pure []
  status_of (path ∷ paths) files = do
    change ← file_status path files
    rest ← status_of paths files
    pure (listed path change ++ rest)

-- What a walk gives that is not processed yet.
unfoldable pub unprocessed : List Text → List Text → List Text
unprocessed processed [] = []
unprocessed processed (p ∷ ps) =
    let rest = unprocessed processed ps in
    let more = unprocessed (processed ++ p ∷ []) ps in
    if contains processed p then rest else p ∷ more

-- The second loop, over the journal: the paths whose status it asks, in order.
unfoldable pub journal_paths : List Text → List Text → Tree → List Text
unfolding walk_tree unprocessed
journal_paths processed [] tree = []
journal_paths processed (path ∷ paths) tree =
    let found =
      (if contains processed path then [] else unprocessed processed (walk_tree path tree)) in
    found ++ journal_paths (processed ++ found) paths tree

unfoldable pub status : (Bytes → Text) → Files → Method (List FileStatus)
unfolding status_of journal_paths on_checkout
status sha256 files = do
  first ← status_of sha256 (keys files) files
  paths ← gets (λ r. journal_paths (keys files) r.changes r.tree)
  second ← status_of sha256 paths files
  on_checkout flush
  pure (first ++ second)
