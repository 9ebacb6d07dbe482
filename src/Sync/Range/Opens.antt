-- ===== src/Sync/Range/Opens.antt =====
-- When the constructor of the reader and `buildSpans` accept a manifest entry.
use arxhub.Base.{
  ==_iff, Bytes, List, Option, Text, [], ap, arith, inl, inr, is_safe, length, length-append, none,
  ok, ok_injective, refl, some, true, ℕ, ◌&&◌, ◌+◌, ◌∷◌, ◌≡◌, ◌⊎◌,
}
use arxhub.Base.Dict.{Dict}
use arxhub.Sync.Range.{ChunkSpan, build_spans, has_safe_size, has_total, spans_from}
use arxhub.Sync.Range.Collect.{IsStored, read_chunks-cons}
use arxhub.Sync.Range.Cut.{sized}
use arxhub.Sync.Range.Reads.{Reader, open_reader}
use arxhub.Sync.Repo.Files.{read_chunks}
use arxhub.Sync.Repo.Merge.{joined}
use arxhub.Sync.Repo.State.{Method}
use arxhub.Sync.Snapshot.{Snapshot, SnapshotFile, SnapshotFileChunk}

spans_from-step :
    (running n total : ℕ) (c : SnapshotFileChunk) (cs : List SnapshotFileChunk)
    (rest : List ChunkSpan)
    → c.size ≡ some n
    → spans_from (running + n) cs ≡ ok (rest, total)
    → is_safe n && is_safe (running + n) ≡ true
    → spans_from running (c ∷ cs)
      ≡ ok (record { chunk = c; start = running; end = running + n } ∷ rest, total)
unfolding spans_from
spans_from-step running n total c cs rest is_sized found safe =
    ground (arith, is_sized, found, safe)

spans_from-IsStored :
    (store : Dict Bytes) (cs : List SnapshotFileChunk) (running total : ℕ) (bytes : Bytes)
    → IsStored cs store
    → read_chunks cs store ≡ ok bytes
    → total ≡ running + length bytes
    → is_safe total ≡ true
    → (spans : List ChunkSpan) × (spans_from running cs ≡ ok (spans, total))
unfolding spans_from read_chunks
spans_from-IsStored store [] running total bytes present content adds safe =
    let empty : [] ≡ bytes = ok_injective content in
    let ends : running ≡ total = omega (arith, adds, ap length empty) in
    ([], ap (λ n. ok ([], n)) ends)
spans_from-IsStored store (c ∷ cs) running total bytes ((b, there, is_sized), present) content adds
      safe =
    let (more, content', joined) = read_chunks-cons c cs store b bytes content there in
    let sums = length-append b more in
    let (rest, found) =
      spans_from-IsStored store cs (running + length b) total more present content'
        (omega (arith, adds, ap length joined, sums)) safe in
    let safe_span : is_safe (length b) && is_safe (running + length b) ≡ true =
      ground (arith, adds, ap length joined, sums, safe) in
    (_, spans_from-step running (length b) total c cs rest is_sized found safe_span)

build_spans-IsStored :
    (file : SnapshotFile) (store : Dict Bytes) (bytes : Bytes)
    → IsStored file.chunks store
    → read_chunks file.chunks store ≡ ok bytes
    → (file.size ≡ none) ⊎ (file.size ≡ some (length bytes))
    → is_safe (length bytes) ≡ true
    → (spans : List ChunkSpan) × (build_spans file ≡ ok (some spans))
unfolding build_spans has_safe_size has_total
build_spans-IsStored file store bytes present content declared safe =
    let all_sized = sized store file bytes file.chunks present in
    let (spans, found) =
      spans_from-IsStored store file.chunks 0 (length bytes) bytes present content (omega arith)
        safe in
    let same = (==_iff (length bytes) (length bytes)).1 refl in
    elim declared [
      | inl undeclared ↦ (spans, ground (arith, undeclared, all_sized, found))
      | inr declares ↦ (spans, ground (arith, declares, all_sized, found, safe, same))
    ]

-- An entry whose chunks have the sizes that it declares, which add up to a safe integer, and which declares no
-- size of its own or that of the content: the reader opens.
pub open_reader-opens :
    (sha256 : Bytes → Text) (snapshot : Snapshot) (file : SnapshotFile)
    (fetch : Option (List Text → Method (Unit {0}))) (store : Dict Bytes) (bytes : Bytes)
    → IsStored file.chunks store
    → read_chunks file.chunks store ≡ ok bytes
    → (file.size ≡ none) ⊎ (file.size ≡ some (length bytes))
    → is_safe (length bytes) ≡ true
    → (reader : Reader) × (open_reader sha256 snapshot file fetch ≡ ok reader)
unfolding open_reader
open_reader-opens sha256 snapshot file fetch store bytes present content declared safe =
    let (spans, built) = build_spans-IsStored file store bytes present content declared safe in
    (
      record {
        sha256 = sha256;
        snapshot = snapshot;
        file = file;
        fetch = fetch;
        spans = some spans;
      },
      ground (arith, built),
    )
