-- ===== src/Sync/Frame/Strict.antt =====
-- About decodeObjectFrame on arbitrary bytes.
use mathlib.Core.Path.{subst}
use arxhub.Base.{
  All, Bool, Bytes, Error, Result, Text, [], ap, arith, drop, err, false, if◌then◌else◌, inl, inr,
  length, length-drop, length-take, ltb, ok, refl, suc, sym, take, take-append-drop, true,
  validation, zero, ℕ, ◌%◌, ◌*◌, ◌++◌, ◌+◌, ◌/◌, ◌<◌, ◌^◌, ◌∙◌, ◌∷◌, ◌≡◌, ◌≤◌, ◌⊎◌,
}
use arxhub.Base.Dict.{Dict, insert}
use arxhub.Sync.Frame.{
  decode_loop, decode_object_frame, encode_object_frame, get_u32, is_object_hash, read_record, u32,
}
use arxhub.Sync.Frame.RoundTrip.{IsSized, hash-length, insert_all, record_length}

-- Every element is a byte.
abbrev pub IsBytes : Bytes → Type 0
IsBytes = All (λ b. b < 256)

-- The records that a loop read, with what it had and what it gives.
pub record Reads (frame : Bytes) (acc objects : Dict Bytes) : Type 0 where
  pub records : Dict Bytes
  pub sized : IsSized records
  pub encodes : encode_object_frame records ≡ ok frame
  pub gathers : insert_all acc records ≡ objects

u32-get_u32 :
    (tail : Bytes) → IsBytes tail → 4 ≤ length tail → u32 (get_u32 tail) ++ drop 4 tail ≡ tail
u32-get_u32 [] v l = absurd (omega arith)
u32-get_u32 (a ∷ []) v l = absurd (omega arith)
u32-get_u32 (a ∷ b ∷ []) v l = absurd (omega arith)
u32-get_u32 (a ∷ b ∷ c ∷ []) v l = absurd (omega arith)
u32-get_u32 (a ∷ b ∷ c ∷ d ∷ rest) (va, (vb, (vc, (vd, _)))) l =
    let n = a * 2 ^ 24 + b * 2 ^ 16 + c * 2 ^ 8 + d in
    let ea : n / 2 ^ 24 % 256 ≡ a = omega arith in
    let eb : n / 2 ^ 16 % 256 ≡ b = omega arith in
    let ec : n / 2 ^ 8 % 256 ≡ c = omega arith in
    let ed : n % 256 ≡ d = omega arith in rw (ea, eb, ec, ed)

-- What the three tests of a round establish when it succeeds.
tests-eq-ok :
    {A : Type 0} (a b c : Bool) {x y : A}
    → (if a
        then err validation
        else (if b then (if c then err validation else ok x) else err validation))
      ≡ ok y
    → (a ≡ false) × (b ≡ true) × (c ≡ false) × (x ≡ y)
tests-eq-ok a b c e = ground arith

tests-eq-err :
    {A : Type 0} (a b c : Bool) (x : A) {e : Error}
    → (if a
        then err validation
        else (if b then (if c then err validation else ok x) else err validation))
      ≡ err e
    → e ≡ validation
tests-eq-err a b c x h = ground arith

drop-IsBytes : (n : ℕ) (frame : Bytes) → IsBytes frame → IsBytes (drop n frame)
drop-IsBytes zero frame v = v
drop-IsBytes (suc n) [] v = tt
drop-IsBytes (suc n) (x ∷ frame) v = drop-IsBytes n frame v.1

get_u32-lt : (tail : Bytes) → IsBytes tail → get_u32 tail < 2 ^ 32
get_u32-lt [] v = omega arith
get_u32-lt (a ∷ []) v = omega arith
get_u32-lt (a ∷ b ∷ []) v = omega arith
get_u32-lt (a ∷ b ∷ c ∷ []) v = omega arith
get_u32-lt (a ∷ b ∷ c ∷ d ∷ rest) v = omega arith

ltb→le : (a b : ℕ) → ltb a b ≡ false → b ≤ a
ltb→le a b h = ground arith

read_record-eq-ok :
    (frame : Bytes) (hash : Text) (payload rest : Bytes)
    → IsBytes frame
    → read_record frame ≡ ok (hash, payload, rest)
    → (is_object_hash hash ≡ true)
      × (length payload < 2 ^ 32)
      × (hash ++ (u32 (length payload) ++ (payload ++ rest)) ≡ frame)
unfolding read_record
read_record-eq-ok frame hash payload rest v e =
    let (room, valid, fits, is_record) = tests-eq-ok _ _ _ e in
    let tail = drop 64 frame in
    let body = drop 4 tail in
    let size = get_u32 tail in
    let is_hash : take 64 frame ≡ hash = ap (λ (t : Text × Bytes × Bytes). t.0) is_record in
    let is_payload : take size body ≡ payload = ap (λ (t : Text × Bytes × Bytes). t.1) is_record in
    let is_rest : drop size body ≡ rest = ap (λ (t : Text × Bytes × Bytes). t.2) is_record in
    let fits' = ltb→le (length body) size fits in
    let room' = ltb→le (length frame) 68 room in
    let measured : length payload ≡ size =
      omega (arith, ap length is_payload, length-take size body) in
    let word = u32-get_u32 tail (drop-IsBytes 64 frame v) (omega (arith, length-drop 64 frame)) in
    (
      rw is_hash at valid,
      omega (arith, get_u32-lt tail (drop-IsBytes 64 frame v)),
      rw (measured, ← is_payload, ← is_rest, take-append-drop size body, word, ← is_hash)
          (take-append-drop 64 frame),
    )

IsBytes-append : (xs ys : Bytes) → IsBytes (xs ++ ys) → IsBytes ys
IsBytes-append [] ys v = v
IsBytes-append (x ∷ xs) ys v = IsBytes-append xs ys v.1

IsBytes-record :
    (hash : Text) (payload rest : Bytes)
    → IsBytes (hash ++ (u32 (length payload) ++ (payload ++ rest)))
    → IsBytes rest
IsBytes-record hash payload rest v =
    IsBytes-append payload rest (IsBytes-append (u32 (length payload)) _ (IsBytes-append hash _ v))

encode_object_frame-record :
    (hash : Text) (bytes rest : Bytes) (objects : Dict Bytes)
    → is_object_hash hash ≡ true
    → encode_object_frame objects ≡ ok rest
    → encode_object_frame ((hash, bytes) ∷ objects)
      ≡ ok (hash ++ (u32 (length bytes) ++ (bytes ++ rest)))
unfolding encode_object_frame
encode_object_frame-record hash bytes rest objects valid e = rw (valid, e)

read_record_err : (frame : Bytes) (e : Error) → read_record frame ≡ err e → e ≡ validation
unfolding read_record
read_record_err frame e h =
    let tail = drop 64 frame in
    let body = drop 4 tail in
    tests-eq-err (ltb (length frame) 68) (is_object_hash (take 64 frame))
      (ltb (length body) (get_u32 tail))
      (take 64 frame, take (get_u32 tail) body, drop (get_u32 tail) body) h

-- What a round gives: an error, or a record in front of the rest.
data Round (frame : Bytes) : Type 0 where
  refused : read_record frame ≡ err validation → Round frame
  accepted :
      (hash : Text) (payload rest : Bytes)
      → read_record frame ≡ ok (hash, payload, rest)
      → is_object_hash hash ≡ true
      → length payload < 2 ^ 32
      → hash ++ (u32 (length payload) ++ (payload ++ rest)) ≡ frame
      → Round frame

Round-read_record : (frame : Bytes) → IsBytes frame → Round frame
Round-read_record frame v = go (read_record frame) refl
  where
    go : (r : Result (Text × Bytes × Bytes)) → read_record frame ≡ r → Round frame
    go (err e) h = refused (h ∙ ap err (read_record_err frame e h))
    go (ok (hash, payload, rest)) h =
        let (valid, small, whole) = read_record-eq-ok frame hash payload rest v h in
        accepted hash payload rest h valid small whole

-- The loop either refuses, or has read a batch.
abbrev Outcome : Bytes → Dict Bytes → Result (Dict Bytes) → Type 0
Outcome frame acc r =
    (r ≡ err validation) ⊎ ((objects : Dict Bytes) × (r ≡ ok objects) × Reads frame acc objects)

Outcome-cons :
    (frame : Bytes) (acc : Dict Bytes) (hash : Text) (payload rest : Bytes)
    → is_object_hash hash ≡ true
    → length payload < 2 ^ 32
    → hash ++ (u32 (length payload) ++ (payload ++ rest)) ≡ frame
    → (r : Result (Dict Bytes)) → Outcome rest (insert hash payload acc) r
    → Outcome frame acc r
Outcome-cons frame acc hash payload rest valid small whole r (inl e) = inl e
Outcome-cons frame acc hash payload rest valid small whole r (inr (objects, e, reads)) = inr (
  objects,
  e,
  record {
    records = (hash, payload) ∷ reads.records;
    sized = (small, reads.sized);
    encodes =
        encode_object_frame-record hash payload rest reads.records valid reads.encodes
        ∙ ap ok whole;
    gathers = reads.gathers;
  },
)

decode_loop-Outcome :
    (n : ℕ) (frame : Bytes) (acc : Dict Bytes)
    → IsBytes frame
    → length frame ≤ n
    → Outcome frame acc (decode_loop n frame acc)
unfolding decode_loop
decode_loop-Outcome n [] acc v l = inr (
  acc,
  refl,
  record {
    records = [];
    sized = tt;
    encodes = (unfold encode_object_frame in refl);
    gathers = refl;
  },
)
decode_loop-Outcome zero (x ∷ xs) acc v l = absurd (omega arith)
decode_loop-Outcome (suc n) (x ∷ xs) acc v l = elim (Round-read_record (x ∷ xs) v) [
  | refused h ↦ inl (rw (h, decode_loop))
  | accepted hash payload rest h valid small whole ↦
      let ih =
        decode_loop-Outcome n rest (insert hash payload acc)
          (IsBytes-record hash payload rest (subst IsBytes (sym whole) v))
          (omega
            (arith, ap length whole, record_length hash payload rest, hash-length hash valid)) in
      rw (h, decode_loop) (Outcome-cons (x ∷ xs) acc hash payload rest valid small whole _ ih)
]

-- Whatever bytes arrive, the decoder answers: it refuses them with a `ValidationError`, or they are
-- the encoding of a batch of records, all measured by a `u32`, and the decoded map is what setting
-- those records one after the other gives. So a truncated or padded frame is never read as a smaller
-- or another batch.
pub decode_object_frame_strict :
    (frame : Bytes)
    → IsBytes frame
    → (decode_object_frame frame ≡ err validation)
      ⊎ ((objects : Dict Bytes) × (decode_object_frame frame ≡ ok objects) × Reads frame [] objects)
unfolding decode_object_frame
decode_object_frame_strict frame v = decode_loop-Outcome (length frame) frame [] v (omega arith)
