-- ===== src/Sync/Range/Listed.antt =====
-- Which chunks a read of a range asks for, and the bounds of a range.
use arxhub.Base.{
  Bool-cases, Bytes, List, Option, Text, [], ap, arith, contains, inl, inr, length, ltb, min,
  negsuc, none, ok, ok_injective, pos, refl, some, text_eq, text_eq_iff, text_eq_refl, true, ℕ, ℤ,
  ◌&&◌, ◌+◌, ◌∷◌, ◌≡◌, ◌≤◌,
}
use arxhub.Base.Dict.{Dict, is_some, lookup}
use arxhub.Sync.Range.{ChunkSpan, resolve_range, spans_from}
use arxhub.Sync.Range.Collect.{IsHeld, IsStored, spans_from-cons}
use arxhub.Sync.Range.Reads.{chunk_hashes, intersecting, span_hashes}
use arxhub.Sync.Snapshot.{SnapshotFileChunk}

pub resolve_range-bounds :
    (size : ℕ) (offset : ℤ) (length? : Option ℤ) (start end : ℕ)
    → resolve_range size offset length? ≡ ok (start, end)
    → end ≤ size
unfolding resolve_range
resolve_range-bounds size offset (some (negsuc n)) start end e = absurd (cc)
resolve_range-bounds size (negsuc m) (some (pos n)) start end e = absurd (cc)
resolve_range-bounds size (negsuc m) none start end e =
    let is : size ≡ end = ap (λ (x : ℕ × ℕ). x.1) (ok_injective e) in omega arith
resolve_range-bounds size (pos m) none start end e =
    let is : size ≡ end = ap (λ (x : ℕ × ℕ). x.1) (ok_injective e) in omega arith
resolve_range-bounds size (pos m) (some (pos n)) start end e =
    let is : min (min m size + n) size ≡ end = ap (λ (x : ℕ × ℕ). x.1) (ok_injective e) in
    omega arith

pub IsHeld-listed :
    (store held : Dict Bytes) (spans : List ChunkSpan)
    → ((h : Text) → contains (span_hashes spans) h ≡ true → lookup h held ≡ lookup h store)
    → IsHeld store spans held
unfolding contains
IsHeld-listed store held [] has = tt
IsHeld-listed store held (span ∷ spans) has = (
  has span.chunk.hash (ground (arith, text_eq_refl span.chunk.hash)),
  IsHeld-listed store held spans (λ h c. has h (ground arith)),
)

pub intersecting-listed :
    (s e : ℕ) (spans : List ChunkSpan) (h : Text)
    → contains (span_hashes (intersecting s e spans)) h ≡ true
    → contains (span_hashes spans) h ≡ true
unfolding contains intersecting
intersecting-listed s e [] h c = c
intersecting-listed s e (span ∷ spans) h c =
    elim (Bool-cases (ltb s span.end && ltb span.start e)) [
      | inl wanted ↦
          let c' = rw (wanted, intersecting) at c in ground (arith, intersecting-listed s e spans h)
      | inr not_wanted ↦
          let c' = rw (not_wanted, intersecting) at c in
          ground (arith, intersecting-listed s e spans h)
    ]

pub spans_from-listed :
    (store : Dict Bytes) (cs : List SnapshotFileChunk) (running : ℕ) (spans : List ChunkSpan)
    (total : ℕ) (h : Text)
    → spans_from running cs ≡ ok (spans, total)
    → IsStored cs store
    → contains (span_hashes spans) h ≡ contains (chunk_hashes cs) h
unfolding contains spans_from
spans_from-listed store [] running spans total h f present =
    let none_left : spans ≡ [] = ground arith in rw none_left refl
spans_from-listed store (c ∷ cs) running spans total h f ((b, there, sized), present) =
    let (rest, f', is) = spans_from-cons running (length b) c cs spans total f sized in
    rw is (ground (arith, spans_from-listed store cs (running + length b) rest total h f' present))

pub IsStored-there :
    (store : Dict Bytes) (cs : List SnapshotFileChunk) (h : Text)
    → IsStored cs store
    → contains (chunk_hashes cs) h ≡ true
    → is_some (lookup h store) ≡ true
unfolding contains
IsStored-there store [] h present c = cc
IsStored-there store (chunk ∷ cs) h ((b, there, sized), present) c =
    elim (Bool-cases (text_eq chunk.hash h)) [
      | inl same ↦ let is = (text_eq_iff chunk.hash h).0 same in rw (rw is at there) refl
      | inr other ↦ IsStored-there store cs h present (ground arith)
    ]
