-- ===== src/Sync/Range/Cut.antt =====
-- About `readRange` of the reader and cutting the whole file.
use mathlib.Core.Path.{subst}
use arxhub.Base.{
  ==_iff, Bool-cases, Bytes, Error, List, Option, Result, Result-cases, Text, [], arith, contains,
  drop, err, false, inl, inr, leb, length, length-drop, length-take, none, ok, ok_injective, refl,
  slice, some, sym, true, ℕ, ℤ, ◌-◌, ◌==◌, ◌∙◌, ◌∷◌, ◌≡◌, ◌≤◌, ◌⊎◌,
}
use arxhub.Base.Dict.{Dict}
use arxhub.Sync.Range.{ChunkSpan, build_spans, has_unsized, resolve_range, spans_from}
use arxhub.Sync.Range.Collect.{IsStored, collect-slice, size_of-content}
use arxhub.Sync.Range.Ensure.{IsAvailable, ensure_chunks-held}
use arxhub.Sync.Range.Listed.{
  IsHeld-listed, IsStored-there, intersecting-listed, resolve_range-bounds, spans_from-listed,
}
use arxhub.Sync.Range.Reads.{
  Reader, chunk_hashes, cut, intersecting, open_reader, read_range, read_spans, size_of,
  span_hashes,
}
use arxhub.Sync.Repo.Files.{read_chunks}
use arxhub.Sync.Repo.State.{Method, Repo}
use arxhub.Sync.Snapshot.{Snapshot, SnapshotFile, SnapshotFileChunk}

module _ (store : Dict Bytes) (file : SnapshotFile) (bytes : Bytes) where
  -- The reader has the manifest's sizes.
  pub sized : (cs : List SnapshotFileChunk) → IsStored cs store → has_unsized cs ≡ false
  unfolding has_unsized
  sized [] present = refl
  sized (c ∷ cs) ((b, there, is), present) = rw is (sized cs present)

  build_spans-sized :
      IsStored file.chunks store
      → ((code : Error) × (build_spans file ≡ err code))
        ⊎ ((spans : List ChunkSpan) × (build_spans file ≡ ok (some spans)))
  unfolding build_spans
  build_spans-sized present = elim (Result-cases (build_spans file)) [
    | inl bad ↦ inl bad
    | inr (some spans, good) ↦ inr (spans, good)
    | inr (none, good) ↦ absurd (elim (Result-cases (spans_from 0 file.chunks)) [
      | inl (code, bad) ↦
          let h = rw (sized file.chunks present, bad, build_spans) at good in ground arith
      | inr ((spans, total), found) ↦
          let h = rw (sized file.chunks present, found, build_spans) at good in ground arith
    ])
  ]

  read_spans-slice :
      (reader : Reader) (spans : List ChunkSpan) (total s e : ℕ) (r : Repo)
      → spans_from 0 file.chunks ≡ ok (spans, total)
      → IsStored file.chunks store
      → read_chunks file.chunks store ≡ ok bytes
      → IsAvailable store (chunk_hashes file.chunks) reader.fetch r.chunks
      → e ≤ length bytes
      → (r' : Repo) × (read_spans reader spans (s, e) r ≡ (ok (slice s e bytes), r'))
  unfolding read_spans
  read_spans-slice reader spans total s e r f present content available in_bounds =
      elim (Bool-cases (leb e s)) [
        | inl empty ↦
            let none_wanted : e - s ≡ 0 = ground arith in
            (r, rw (empty, none_wanted, read_spans) refl)
        | inr some_wanted ↦
            let hashes = span_hashes (intersecting s e spans) in
            let listed = λ (h : Text) (c : contains hashes h ≡ true).
              sym (spans_from-listed store file.chunks 0 spans total h f present)
              ∙ intersecting-listed s e spans h c in
            let narrowed : IsAvailable store hashes reader.fetch r.chunks = (elim available [
              | inl all_here ↦ inl (λ h c. all_here h (listed h c))
              | inr served ↦ inr served
            ]) in
            let (r', ensured, has) =
              ensure_chunks-held store reader hashes r
                (λ h c. IsStored-there store file.chunks h present (listed h c)) narrowed in
            let collected =
              collect-slice s e (ground arith) store r'.chunks file.chunks 0 spans total bytes f
                present content (IsHeld-listed store r'.chunks (intersecting s e spans) has) in
            let from : s - 0 ≡ s = omega arith in
            let to : e - 0 ≡ e = omega arith in
            let all_of_it : length (slice s e bytes) ≡ e - s =
              ground (arith, length-take (e - s) (drop s bytes), length-drop s bytes) in
            let fits : (length (slice s e bytes) == e - s) ≡ true = (==_iff _ _).1 all_of_it in
            (r', rw (some_wanted, ensured, rw (from, to) at collected, fits, read_spans) refl)
      ]

module _ (reader : Reader) (spans : List ChunkSpan) (offset : ℤ) (length? : Option ℤ)
    (memo : Option (Result Bytes)) (r : Repo) where
  read_range-refused :
      (code : Error)
      → reader.spans ≡ some spans
      → resolve_range (size_of reader.file.size spans) offset length? ≡ err code
      → read_range reader offset length? memo r ≡ (err code, memo, r)
  unfolding read_range
  read_range-refused code has bad = rw (has, bad, read_range) refl

  read_range-found :
      (r' : Repo) (range : ℕ × ℕ) (bytes : Bytes)
      → reader.spans ≡ some spans
      → resolve_range (size_of reader.file.size spans) offset length? ≡ ok range
      → read_spans reader spans range r ≡ (ok bytes, r')
      → read_range reader offset length? memo r ≡ (ok bytes, memo, r')
  unfolding read_range
  read_range-found r' range bytes has good done = rw (has, good, done, read_range) refl

-- A reader opened on a manifest entry whose chunks all have their sizes, where the objects of the entry
-- are here, or a callback serves those that are not: for every offset and length `readRange` settles
-- as cutting the whole content of the file does, to the bytes of the range or to the error of a range that
-- is none. The field `fullContent` stays as it is.
pub read_range-cut :
    (store : Dict Bytes) (sha256 : Bytes → Text) (snapshot : Snapshot) (file : SnapshotFile)
    (fetch : Option (List Text → Method (Unit {0}))) (reader : Reader) (bytes : Bytes)
    → open_reader sha256 snapshot file fetch ≡ ok reader
    → IsStored file.chunks store
    → read_chunks file.chunks store ≡ ok bytes
    → (r : Repo) (offset : ℤ) (length? : Option ℤ) (memo : Option (Result Bytes))
    → IsAvailable store (chunk_hashes file.chunks) fetch r.chunks
    → (r' : Repo) × (read_range reader offset length? memo r ≡ (cut bytes offset length?, memo, r'))
unfolding open_reader
read_range-cut store sha256 snapshot file fetch reader bytes opened present content r offset length?
      memo available =
    elim (build_spans-sized store file bytes present) [
      | inl (code, bad) ↦ absurd (let h = rw (bad, open_reader) at opened in cc)
      | inr (spans, built) ↦
          let is = ok_injective (rw (built, open_reader) at opened) in
          let (total, f, size) = size_of-content store file spans bytes built present content in
          subst
            (λ (x : Reader).
              (r' : Repo) × (read_range x offset length? memo r
                ≡ (cut bytes offset length?, memo, r')))
            is
            (elim (Result-cases (resolve_range (length bytes) offset length?)) [
              | inl (code, bad) ↦ (
                r,
                rw (bad, cut)
                    (read_range-refused (opened_at spans) spans offset length? memo r code refl
                      (rw size bad)),
              )
              | inr ((start, end), good) ↦
                  let (r', done) =
                    read_spans-slice store file bytes (opened_at spans) spans total start end r f
                      present content available
                      (resolve_range-bounds (length bytes) offset length? start end good) in
                  (
                    r',
                    rw (good, cut)
                        (read_range-found (opened_at spans) spans offset length? memo r r'
                          (start, end) (slice start end bytes) refl (rw size good) done),
                  )
            ])
    ]
  where
    opened_at : List ChunkSpan → Reader
    opened_at spans = record {
      sha256 = sha256;
      snapshot = snapshot;
      file = file;
      fetch = fetch;
      spans = some spans;
    }
