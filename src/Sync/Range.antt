-- ===== src/Sync/Range.antt =====
-- packages/sync/src/snapshot-range-reader.ts, and `resolveRange` of packages/vfs/src/ops/read-range.ts:
-- a reader of parts of one file of a snapshot, by its chunks. Offsets and lengths are integers, and the
-- sizes in a manifest are natural numbers.
pub mod Collect
pub mod Reads
pub mod Ensure
pub mod Listed
pub mod Cut
pub mod Opens
use arxhub.Base.{
  Bool, List, Option, Result, [], err, false, if◌then◌else◌, illegal_state, is_safe, length, min,
  negsuc, none, not, ok, pos, some, suc, true, validation, ℕ, ℤ, ◌&&◌, ◌+◌, ◌-◌, ◌==◌, ◌||◌, ◌∷◌,
}
use arxhub.Base.Dict.{is_some}
use arxhub.Sync.Snapshot.{SnapshotFile, SnapshotFileChunk}

unfoldable pub resolve_range : ℕ → ℤ → Option ℤ → Result (ℕ × ℕ)
resolve_range size offset (some (negsuc n)) = err validation
resolve_range size (negsuc n) (some (pos length)) = err validation
resolve_range size (negsuc n) none = ok (size - suc n, size)
resolve_range size (pos offset) none = ok (min offset size, size)
resolve_range size (pos offset) (some (pos length)) =
    let start = min offset size in ok (start, min (start + length) size)

pub record ChunkSpan : Type 0 where
  pub chunk : SnapshotFileChunk
  pub start : ℕ
  pub end : ℕ

-- `file.chunks.some((chunk) => chunk.size === undefined)`
unfoldable pub has_unsized : List SnapshotFileChunk → Bool
has_unsized [] = false
has_unsized (c ∷ cs) = not (is_some c.size) || has_unsized cs

-- The spans from a position on, and the position after them.
unfoldable pub spans_from : ℕ → List SnapshotFileChunk → Result (List ChunkSpan × ℕ)
spans_from running [] = ok ([], running)
spans_from running (c ∷ cs) = elim c.size [
  | none ↦ err illegal_state
  | some size ↦
      let rest = spans_from (running + size) cs in
      if is_safe size && is_safe (running + size)
      then elim rest [
        | err e ↦ err e
        | ok (spans, total) ↦
            ok (record { chunk = c; start = running; end = running + size } ∷ spans, total)
      ]
      else err illegal_state
]

-- The checks of a declared size, before the chunks are added up and after.
unfoldable pub has_safe_size : Option ℕ → Bool
has_safe_size none = true
has_safe_size (some size) = is_safe size

unfoldable pub has_total : Option ℕ → ℕ → Bool
has_total none total = true
has_total (some size) total = size == total

unfoldable pub build_spans : SnapshotFile → Result (Option (List ChunkSpan))
unfolding has_unsized has_safe_size spans_from has_total
build_spans file =
    if has_unsized file.chunks
    then ok none
    else (if has_safe_size file.size
        then elim (spans_from 0 file.chunks) [
          | err e ↦ err e
          | ok (spans, total) ↦
              if has_total file.size total then ok (some spans) else err illegal_state
        ]
        else err illegal_state)
