-- ===== src/Sync/Range/Reads.antt =====
-- The reads of a `SnapshotRangeReader`. `memo` is its field `fullContent`, a promise that is kept once it
-- is there, settled either way.
use arxhub.Base.{
  Bytes, List, Option, Result, Text, [], distinct, err, file_not_found, if◌then◌else◌,
  illegal_state, leb, length, ltb, min, none, ok, slice, some, text_eq, ℕ, ℤ, ◌&&◌, ◌++◌, ◌-◌, ◌==◌,
  ◌∷◌,
}
use arxhub.Base.Dict.{Dict, is_some, lookup}
use arxhub.Sync.Range.{ChunkSpan, build_spans, resolve_range}
use arxhub.Sync.Repo.Files.{read_chunks}
use arxhub.Sync.Repo.State.{Method, Repo, gets, pure, throw, ◌>>=◌, ◌>>◌}
use arxhub.Sync.Snapshot.{Snapshot, SnapshotFile, SnapshotFileChunk}

-- The opened reader: `spans` is none for a manifest without chunk sizes. `fetch` is the callback that
-- downloads chunks into the store.
pub record Reader : Type 0 where
  pub sha256 : Bytes → Text
  pub snapshot : Snapshot
  pub file : SnapshotFile
  pub fetch : Option (List Text → Method (Unit {0}))
  pub spans : Option (List ChunkSpan)

-- The constructor
unfoldable pub open_reader :
    (Bytes → Text)
    → Snapshot
    → SnapshotFile
    → Option (List Text → Method (Unit {0}))
    → Result Reader
unfolding build_spans
open_reader sha256 snapshot file fetch = elim (build_spans file) [
  | err e ↦ err e
  | ok spans ↦
      ok
        (record { sha256 = sha256; snapshot = snapshot; file = file; fetch = fetch; spans = spans })
]

unfoldable pub absent : List Text → Dict Bytes → List Text
absent [] chunks = []
absent (hash ∷ hashes) chunks =
    let rest = absent hashes chunks in if is_some (lookup hash chunks) then rest else hash ∷ rest

unfoldable pub download : Option (List Text → Method (Unit {0})) → List Text → Method (Unit {0})
unfolding absent
download fetch [] = pure tt
download none (hash ∷ hashes) = throw illegal_state
download (some fetch) (hash ∷ hashes) = do
  fetch (hash ∷ hashes)
  still ← gets (λ r. absent (hash ∷ hashes) r.chunks)
  elim still [ [] ↦ pure tt | h ∷ hs ↦ throw illegal_state ]

-- `ensureChunks`
unfoldable pub ensure_chunks : Reader → List Text → Method (Unit {0})
unfolding distinct download absent
ensure_chunks reader hashes = do
  missing ← gets (λ r. absent (distinct hashes) r.chunks)
  download reader.fetch missing

abbrev pub chunk_hashes : List SnapshotFileChunk → List Text
chunk_hashes [] = []
chunk_hashes (c ∷ cs) = c.hash ∷ chunk_hashes cs

-- `readLegacyContent`
unfoldable pub read_legacy_content : Reader → Method Bytes
unfolding ensure_chunks read_chunks
read_legacy_content reader = do
  ensure_chunks reader (chunk_hashes reader.file.chunks)
  content ← (λ r. (read_chunks reader.file.chunks r.chunks, r))
  if text_eq (reader.sha256 content) reader.file.hash then pure content else throw illegal_state

-- `loadLegacyContent`, with the promise that it leaves.
unfoldable pub load_legacy_content :
    Reader → Option (Result Bytes) → Repo → Result Bytes × Option (Result Bytes) × Repo
unfolding read_legacy_content
load_legacy_content reader (some settled) r = (settled, some settled, r)
load_legacy_content reader none r =
    let (content, r') = read_legacy_content reader r in (content, some content, r')

-- `this.spans.at(-1)?.end ?? 0`
unfoldable pub end_of : List ChunkSpan → ℕ
end_of [] = 0
end_of (span ∷ []) = span.end
end_of (span ∷ (after ∷ spans)) = end_of (after ∷ spans)

unfoldable pub size_of : Option ℕ → List ChunkSpan → ℕ
unfolding end_of
size_of none spans = end_of spans
size_of (some size) spans = size

-- `spans.filter((span) => span.end > start && span.start < end)`
unfoldable pub intersecting : ℕ → ℕ → List ChunkSpan → List ChunkSpan
intersecting start end [] = []
intersecting start end (span ∷ spans) =
    let rest = intersecting start end spans in
    if ltb start span.end && ltb span.start end then span ∷ rest else rest

abbrev pub span_hashes : List ChunkSpan → List Text
span_hashes [] = []
span_hashes (span ∷ spans) = span.chunk.hash ∷ span_hashes spans

-- The loop over the intersecting spans: what it has put in the result.
unfoldable pub collect : ℕ → ℕ → List ChunkSpan → Dict Bytes → Result Bytes
collect start end [] chunks = ok []
collect start end (span ∷ spans) chunks =
    let rest = collect start end spans chunks in
    elim (lookup span.chunk.hash chunks) [
      | none ↦ err file_not_found
      | some bytes ↦
          let size = span.end - span.start in
          if length bytes == size
          then elim rest [
            | err e ↦ err e
            | ok more ↦ ok (slice (start - span.start) (min size (end - span.start)) bytes ++ more)
          ]
          else err illegal_state
    ]

-- The body of `readRange` for a resolved range.
unfoldable pub read_spans : Reader → List ChunkSpan → ℕ × ℕ → Method Bytes
unfolding intersecting ensure_chunks collect
read_spans reader spans (start, end) = if leb end start then pure [] else (do
  ensure_chunks reader (span_hashes (intersecting start end spans))
  result ← (λ r. (collect start end (intersecting start end spans) r.chunks, r))
  if length result == end - start then pure result else throw illegal_state)

abbrev pub cut : Bytes → ℤ → Option ℤ → Result Bytes
cut bytes offset length? = elim (resolve_range (length bytes) offset length?) [
  | err e ↦ err e
  | ok (start, end) ↦ ok (slice start end bytes)
]

-- `readRange`
unfoldable pub read_range :
    Reader
    → ℤ
    → Option ℤ
    → Option (Result Bytes)
    → Repo
    → Result Bytes × Option (Result Bytes) × Repo
unfolding resolve_range load_legacy_content size_of read_spans
read_range reader offset length? memo r = elim reader.spans [
  | none ↦ elim (resolve_range 0 offset length?) [
    | err e ↦ (err e, memo, r)
    | ok range ↦
        let (content, memo', r') = load_legacy_content reader memo r in
        elim content [
          | err e ↦ (err e, memo', r')
          | ok bytes ↦ (cut bytes offset length?, memo', r')
        ]
  ]
  | some spans ↦ elim (resolve_range (size_of reader.file.size spans) offset length?) [
    | err e ↦ (err e, memo, r)
    | ok range ↦ let (bytes, r') = read_spans reader spans range r in (bytes, memo, r')
  ]
]

-- `head`, of which the size
unfoldable pub head_size :
    Reader → Option (Result Bytes) → Repo → Result ℕ × Option (Result Bytes) × Repo
unfolding load_legacy_content size_of
head_size reader memo r = elim reader.spans [
  | none ↦
      let (content, memo', r') = load_legacy_content reader memo r in
      elim content [ err e ↦ (err e, memo', r') | ok bytes ↦ (ok (length bytes), memo', r') ]
  | some spans ↦ (ok (size_of reader.file.size spans), memo, r)
]
