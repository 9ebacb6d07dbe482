-- ===== src/Tests/Downloads.antt =====
-- A film of two chunks in the cloud. The hash of these tests is the content itself.
use arxhub.Base.{
  Bytes, Text, [], arith, codes, contains, distinct, err, false, illegal_state, inr, none, ok, pos,
  refl, some, text_eq, text_eq_iff, ◌∷◌, ◌≡◌,
}
use arxhub.Base.Dict.{Dict, insert, lookup}
use arxhub.Sync.Engine.Fetch.{Answers, fetch_and_store}
use arxhub.Sync.Engine.Fetch.Serving.{IsTruthful}
use arxhub.Sync.Engine.Fetch.Verified.{IsAddressed, fetch_and_store-IsAddressed}
use arxhub.Sync.Engine.Read.{read_file_range, read_file_range-cut}
use arxhub.Sync.Range.{build_spans, resolve_range}
use arxhub.Sync.Range.Reads.{absent, collect, cut, open_reader}
use arxhub.Sync.Repo.Files.{read_chunks}
use arxhub.Sync.Repo.State.{Repo}
use arxhub.Sync.Snapshot.{Snapshot, SnapshotFile}

abbrev first_chunk : Bytes
first_chunk = 1 ∷ 2 ∷ 3 ∷ []

abbrev last_chunk : Bytes
last_chunk = 4 ∷ 5 ∷ []

abbrev cloud : Dict Bytes
cloud = (first_chunk, first_chunk) ∷ (last_chunk, last_chunk) ∷ []

abbrev same_hash : Bytes → Text
same_hash content = content

cloud-IsAddressed : IsAddressed same_hash cloud
unfolding lookup
cloud-IsAddressed h bytes e = ground (arith, text_eq_iff first_chunk h, text_eq_iff last_chunk h)

abbrev truthful : Answers
truthful n hashes = ok cloud

-- A remote that swaps the chunks.
abbrev swapped : Answers
swapped n hashes = ok ((first_chunk, last_chunk) ∷ (last_chunk, first_chunk) ∷ [])

truthful-IsTruthful : IsTruthful cloud truthful
truthful-IsTruthful n hashes present = (cloud, refl, λ h c. refl)

abbrev film : SnapshotFile
film = record {
  file_id = none;
  identity = none;
  history_source = none;
  hash = 1 ∷ 2 ∷ 3 ∷ 4 ∷ 5 ∷ [];
  size = some 5;
  pathname = codes "vault/film";
  chunks =
      record { hash = first_chunk; size = some 3 }
      ∷ record { hash = last_chunk; size = some 2 }
      ∷ [];
}

abbrev newest : Snapshot
newest = record {
  hash = codes "s";
  parent = none;
  timestamp = 0;
  files = (codes "vault/film", film) ∷ [];
}

abbrev phone : Repo
phone = record {
  tree = [];
  checkout = record {
    index = record { entries = []; pending = [] };
    dirty = false;
    saved = record { entries = []; pending = [] };
  };
  changes = [];
  chunks = [];
  snapshots = (codes "s", newest) ∷ [];
  head = some (codes "s");
  last_synced = none;
  now = 9000;
  ids = 0;
}

swap_is_refused :
    (read_file_range same_hash swapped (codes "vault/film") (pos 2) (some (pos 2)) phone).0
    ≡ err illegal_state
unfolding read_file_range distinct contains absent lookup insert collect text_eq resolve_range
swap_is_refused = refl

fetch_and_store-IsAddressed_example :
    IsAddressed same_hash
      (fetch_and_store same_hash swapped
        (first_chunk ∷ last_chunk ∷ [])
        (record phone { chunks = cloud })).1.chunks
fetch_and_store-IsAddressed_example =
    fetch_and_store-IsAddressed same_hash swapped (first_chunk ∷ last_chunk ∷ [])
      (record phone { chunks = cloud }) cloud-IsAddressed

read_file_range-cut_example :
    (r' : Repo) × (read_file_range same_hash truthful
        (codes "vault/film")
        (pos 2)
        (some (pos 2))
        phone
      ≡ (cut (1 ∷ 2 ∷ 3 ∷ 4 ∷ 5 ∷ []) (pos 2) (some (pos 2)), r'))
unfolding open_reader build_spans read_chunks lookup text_eq
read_file_range-cut_example =
    read_file_range-cut same_hash truthful cloud newest film (codes "vault/film") (codes "s")
      (1 ∷ 2 ∷ 3 ∷ 4 ∷ 5 ∷ []) phone refl refl refl
      ((first_chunk, refl, refl), ((last_chunk, refl, refl), tt)) refl (inr refl) refl
      cloud-IsAddressed truthful-IsTruthful (λ h bytes e. absurd (cc)) (pos 2) (some (pos 2))
