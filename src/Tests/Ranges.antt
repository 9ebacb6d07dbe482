-- ===== src/Tests/Ranges.antt =====
-- A file of two chunks, of which the device has none, and a callback that copies from a store.
use arxhub.Base.{
  Bytes, List, Option-cases, Text, [], arith, codes, contains, distinct, false, if◌then◌else◌, inl,
  inr, negsuc, none, ok, pos, refl, some, text_eq, text_eq_iff, text_eq_refl, true, ◌∷◌, ◌≡◌,
}
use arxhub.Base.Dict.{Dict, insert, is_some, lookup, lookup-insert}
use arxhub.Sync.Range.{build_spans}
use arxhub.Sync.Range.Cut.{read_range-cut}
use arxhub.Sync.Range.Ensure.{IsServing}
use arxhub.Sync.Range.Reads.{Reader, absent, collect, cut, open_reader, read_range}
use arxhub.Sync.Repo.Files.{read_chunks}
use arxhub.Sync.Repo.State.{Method, Repo}
use arxhub.Sync.Snapshot.{Snapshot, SnapshotFile}

abbrev store : Dict Bytes
store = (codes "a", 1 ∷ 2 ∷ 3 ∷ []) ∷ (codes "b", 4 ∷ 5 ∷ []) ∷ []

copied : List Text → Dict Bytes → Dict Bytes
copied [] d = d
copied (h ∷ hashes) d =
    let rest = copied hashes d in
    elim (lookup h store) [ none ↦ rest | some bytes ↦ insert h bytes rest ]

abbrev serve : List Text → Method (Unit {0})
serve hashes r = (ok tt, record r { chunks = copied hashes r.chunks })

lookup-copied :
    (hashes : List Text) (d : Dict Bytes) (h : Text)
    → ((k : Text) → contains hashes k ≡ true → is_some (lookup k store) ≡ true)
    → lookup h (copied hashes d) ≡ (if contains hashes h then lookup h store else lookup h d)
unfolding copied contains
lookup-copied [] d h there = refl
lookup-copied (x ∷ hashes) d h there =
    let later = lookup-copied hashes d h (λ k c. there k (ground (arith, c))) in
    elim (Option-cases (lookup x store)) [
      | inl gone ↦ absurd (
          let has : is_some (lookup x store) ≡ true = there x (ground (arith, text_eq_refl x)) in
          let e = rw gone at has in cc)
      | inr (bytes, is) ↦
          ground (arith, is, later, lookup-insert x h bytes (copied hashes d), text_eq_iff x h)
    ]

serve-IsServing : IsServing store serve
serve-IsServing hashes r there =
    (record r { chunks = copied hashes r.chunks }, refl, λ h. lookup-copied hashes r.chunks h there)

abbrev film : SnapshotFile
film = record {
  file_id = none;
  identity = none;
  history_source = none;
  hash = codes "film";
  size = some 5;
  pathname = codes "vault/film";
  chunks =
      record { hash = codes "a"; size = some 3 } ∷ record { hash = codes "b"; size = some 2 } ∷ [];
}

abbrev version : Snapshot
version = record {
  hash = codes "s";
  parent = none;
  timestamp = 0;
  files = (codes "vault/film", film) ∷ [];
}

abbrev reader : Reader
reader = record {
  sha256 = λ content. content;
  snapshot = version;
  file = film;
  fetch = some serve;
  spans = some (
      record { chunk = record { hash = codes "a"; size = some 3 }; start = 0; end = 3 }
      ∷ record { chunk = record { hash = codes "b"; size = some 2 }; start = 3; end = 5 }
      ∷ []);
}

abbrev away : Repo
away = record {
  tree = [];
  checkout = record {
    index = record { entries = []; pending = [] };
    dirty = false;
    saved = record { entries = []; pending = [] };
  };
  changes = [];
  chunks = [];
  snapshots = [];
  head = none;
  last_synced = none;
  now = 9000;
  ids = 0;
}

across_the_seam : (read_range reader (pos 2) (some (pos 2)) none away).0 ≡ ok (3 ∷ 4 ∷ [])
unfolding read_range distinct contains absent lookup insert copied collect text_eq
across_the_seam = refl

last_bytes : (read_range reader (negsuc 0) none none away).0 ≡ ok (5 ∷ [])
unfolding read_range distinct contains absent lookup insert copied collect text_eq
last_bytes = refl

read_range-cut_example :
    (r' : Repo) × (read_range reader (pos 2) (some (pos 2)) none away
      ≡ (cut (1 ∷ 2 ∷ 3 ∷ 4 ∷ 5 ∷ []) (pos 2) (some (pos 2)), none, r'))
unfolding open_reader build_spans read_chunks lookup text_eq
read_range-cut_example =
    read_range-cut store (λ content. content) version film (some serve) reader
      (1 ∷ 2 ∷ 3 ∷ 4 ∷ 5 ∷ []) refl ((1 ∷ 2 ∷ 3 ∷ [], refl, refl), ((4 ∷ 5 ∷ [], refl, refl), tt))
      refl away (pos 2) (some (pos 2)) none
      (inr (serve, refl, serve-IsServing, λ h bytes e. absurd (cc)))
