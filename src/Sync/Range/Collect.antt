-- ===== src/Sync/Range/Collect.antt =====
-- What the loop of `readRange` puts in its result.
use arxhub.Base.{
  ==_iff, All, Bool, Bool-cases, Bytes, List, Option, Result-cases, [], ap, arith, false,
  if◌then◌else◌, inl, inr, length, length-append, ltb, min, none, ok, ok_injective, refl, slice,
  slice-append, slice-min, slice_past, some, sym, true, ℕ, ◌&&◌, ◌++◌, ◌+◌, ◌-◌, ◌==◌, ◌∙◌, ◌∷◌,
  ◌≡◌, ◌≤◌,
}
use arxhub.Base.Dict.{Dict, lookup}
use arxhub.Sync.Range.{ChunkSpan, build_spans, has_total, spans_from}
use arxhub.Sync.Range.Reads.{collect, end_of, intersecting, size_of}
use arxhub.Sync.Repo.Files.{read_chunks}
use arxhub.Sync.Repo.Merge.{joined}
use arxhub.Sync.Snapshot.{SnapshotFile, SnapshotFileChunk}

-- The store has every chunk of a list, with the size that the manifest declares.
abbrev pub IsStored : List SnapshotFileChunk → Dict Bytes → Type 0
IsStored cs store =
    All
      (λ (c : SnapshotFileChunk).
        (bytes : Bytes) × (lookup c.hash store ≡ some bytes) × (c.size ≡ some (length bytes)))
      cs

-- One store has what another has, for the chunks of some spans.
abbrev pub IsHeld : Dict Bytes → List ChunkSpan → Dict Bytes → Type 0
IsHeld store spans held =
    All (λ (span : ChunkSpan). lookup span.chunk.hash held ≡ lookup span.chunk.hash store) spans

pub spans_from-cons :
    (running n : ℕ) (c : SnapshotFileChunk) (cs : List SnapshotFileChunk) (spans : List ChunkSpan)
    (total : ℕ)
    → spans_from running (c ∷ cs) ≡ ok (spans, total)
    → c.size ≡ some n
    → (rest : List ChunkSpan) × (spans_from (running + n) cs ≡ ok (rest, total))
      × (spans ≡ record { chunk = c; start = running; end = running + n } ∷ rest)
unfolding spans_from
spans_from-cons running n c cs spans total e sized =
    elim (Result-cases (spans_from (running + n) cs)) [
      | inl (code, bad) ↦ absurd (let h = rw (sized, bad, spans_from) at e in ground arith)
      | inr ((rest, t), good) ↦
          let h = rw (sized, good, spans_from) at e in (rest, ground (arith, good), ground arith)
    ]

pub read_chunks-cons :
    (c : SnapshotFileChunk) (cs : List SnapshotFileChunk) (store : Dict Bytes) (b bytes : Bytes)
    → read_chunks (c ∷ cs) store ≡ ok bytes
    → lookup c.hash store ≡ some b
    → (more : Bytes) × (read_chunks cs store ≡ ok more) × (bytes ≡ b ++ more)
unfolding read_chunks
read_chunks-cons c cs store b bytes e there = elim (Result-cases (read_chunks cs store)) [
  | inl (code, bad) ↦ absurd (let h = rw (there, bad, read_chunks) at e in cc)
  | inr (more, good) ↦
      let h = rw (there, good, read_chunks) at e in (more, good, sym (ok_injective h))
]

abbrev is_empty {ℓ} : {A : Type ℓ} → List A → Bool
is_empty [] = true
is_empty (x ∷ xs) = false

module _ (s e : ℕ) (le : s ≤ e) (store held : Dict Bytes) where
  collect-cons :
      (c : SnapshotFileChunk) (running : ℕ) (b more : Bytes) (spans : List ChunkSpan)
      → lookup c.hash held ≡ some b
      → collect s e spans held ≡ ok more
      → collect s e (record { chunk = c; start = running; end = running + length b } ∷ spans) held
        ≡ ok (slice (s - running) (e - running) b ++ more)
  unfolding collect
  collect-cons c running b more spans there later =
      let size : (running + length b) - running ≡ length b = omega arith in
      let fits : (length b == length b) ≡ true = (==_iff (length b) (length b)).1 refl in
      let whole : slice (s - running) (min ((running + length b) - running) (e - running)) b
          ≡ slice (s - running) (e - running) b =
        rw size (slice-min (s - running) (e - running) b) in
      rw (there, size, fits, later, collect) (ap (λ (x : Bytes). ok (x ++ more)) whole)

  outside :
      (running : ℕ) (b : Bytes)
      → (ltb s (running + length b) && ltb running e) ≡ false
      → slice (s - running) (e - running) b ≡ []
  outside running b apart = elim (Bool-cases (ltb s (running + length b))) [
    | inl before ↦
        let nothing_wanted : (e - running) - (s - running) ≡ 0 = ground arith in rw nothing_wanted
    | inr after ↦ slice_past (s - running) (e - running) b (ground arith)
  ]

  -- One span, before those that follow it.
  collect-span :
      (c : SnapshotFileChunk) (running : ℕ) (b more : Bytes) (rest : List ChunkSpan)
      → lookup c.hash store ≡ some b
      → IsHeld store
          (intersecting s e
            (record { chunk = c; start = running; end = running + length b } ∷ rest))
          held
      → (IsHeld store (intersecting s e rest) held
          → collect s e (intersecting s e rest) held
            ≡ ok (slice (s - (running + length b)) (e - (running + length b)) more))
      → collect s e
          (intersecting s e
            (record { chunk = c; start = running; end = running + length b } ∷ rest))
          held
        ≡ ok (slice (s - running) (e - running) (b ++ more))
  unfolding collect intersecting
  collect-span c running b more rest there has later =
      let joined : slice (s - running) (e - running) (b ++ more)
          ≡ slice (s - running) (e - running) b
            ++ slice ((s - running) - length b) ((e - running) - length b) more =
        slice-append (s - running) (e - running) b more (omega arith) in
      let from : (s - running) - length b ≡ s - (running + length b) = omega arith in
      let to : (e - running) - length b ≡ e - (running + length b) = omega arith in
      elim (Bool-cases (ltb s (running + length b) && ltb running e)) [
        | inl wanted ↦
            let (held_here, held_later) = rw (wanted, intersecting) at has in
            rw (joined, from, to, wanted)
              (collect-cons c running b _ (intersecting s e rest) (held_here ∙ there)
                (later held_later))
        | inr unwanted ↦
            let none_of_it : slice (s - running) (e - running) b ≡ [] =
              outside running b unwanted in
            rw (joined, from, to, none_of_it, unwanted) (later (rw (unwanted, intersecting) at has))
      ]

  pub collect-slice :
      (cs : List SnapshotFileChunk) (running : ℕ) (spans : List ChunkSpan) (total : ℕ)
      (bytes : Bytes)
      → spans_from running cs ≡ ok (spans, total)
      → IsStored cs store
      → read_chunks cs store ≡ ok bytes
      → IsHeld store (intersecting s e spans) held
      → collect s e (intersecting s e spans) held ≡ ok (slice (s - running) (e - running) bytes)
  unfolding spans_from collect intersecting read_chunks
  collect-slice [] running spans total bytes f present content has =
      let none_left : spans ≡ [] = ground arith in
      let empty : bytes ≡ [] = ground arith in
      let nothing_there : slice {A = ℕ} (s - running) (e - running) [] ≡ [] =
        slice_past (s - running) (e - running) [] (omega arith) in
      rw (none_left, empty, nothing_there)
  collect-slice (c ∷ cs) running spans total bytes f ((b, there, sized), present) content has =
      let (rest, f', is) = spans_from-cons running (length b) c cs spans total f sized in
      let (more, content', joined) = read_chunks-cons c cs store b bytes content there in
      rw (is, joined)
        (collect-span c running b more rest there (rw is at has)
          (collect-slice cs (running + length b) rest total more f' present content'))

end_of-cons :
    (span : ChunkSpan) (spans : List ChunkSpan)
    → end_of (span ∷ spans) ≡ (if is_empty spans then span.end else end_of spans)
unfolding end_of
end_of-cons span [] = refl
end_of-cons span (after ∷ spans) = refl

-- The spans end where the content does.
pub spans_from-total :
    (store : Dict Bytes) (cs : List SnapshotFileChunk) (running : ℕ) (spans : List ChunkSpan)
    (total : ℕ) (bytes : Bytes)
    → spans_from running cs ≡ ok (spans, total)
    → IsStored cs store
    → read_chunks cs store ≡ ok bytes
    → (total ≡ running + length bytes) × (if is_empty spans then running else end_of spans) ≡ total
unfolding spans_from read_chunks end_of
spans_from-total store [] running spans total bytes f present content =
    let none_left : spans ≡ [] = ground arith in
    let ends : total ≡ running = ground arith in
    let empty : bytes ≡ [] = ground arith in rw (none_left, ends, empty) (omega arith, refl)
spans_from-total store (c ∷ cs) running spans total bytes f ((b, there, sized), present) content =
    let (rest, f', is) = spans_from-cons running (length b) c cs spans total f sized in
    let (more, content', joined) = read_chunks-cons c cs store b bytes content there in
    let (adds, ends) =
      spans_from-total store cs (running + length b) rest total more f' present content' in
    (omega (arith, adds, ap length joined, length-append b more), rw (is, end_of-cons) ends)

size_of-total :
    (size : Option ℕ) (spans : List ChunkSpan) (total : ℕ)
    → has_total size total ≡ true
    → (if is_empty spans then 0 else end_of spans) ≡ total
    → size_of size spans ≡ total
unfolding size_of has_total end_of
size_of-total none [] total fits ends = ends
size_of-total none (span ∷ spans) total fits ends = ends
size_of-total (some size) spans total fits ends = ground arith

pub size_of-content :
    (store : Dict Bytes) (file : SnapshotFile) (spans : List ChunkSpan) (bytes : Bytes)
    → build_spans file ≡ ok (some spans)
    → IsStored file.chunks store
    → read_chunks file.chunks store ≡ ok bytes
    → (total : ℕ) × (spans_from 0 file.chunks ≡ ok (spans, total))
      × (size_of file.size spans ≡ length bytes)
unfolding build_spans size_of has_total end_of
size_of-content store file spans bytes built present content =
    elim (Result-cases (spans_from 0 file.chunks)) [
      | inl (code, bad) ↦ absurd (let h = rw (bad, build_spans) at built in ground arith)
      | inr ((spans', total), good) ↦
          let h = rw (good, build_spans) at built in
          let is : spans' ≡ spans = ground arith in
          let fits : has_total file.size total ≡ true = ground arith in
          let f = rw is at good in
          let (adds, ends) =
            spans_from-total store file.chunks 0 spans total bytes f present content in
          (total, f, size_of-total file.size spans total fits ends ∙ omega (arith, adds))
    ]
