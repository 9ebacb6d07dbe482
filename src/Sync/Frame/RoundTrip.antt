-- ===== src/Sync/Frame/RoundTrip.antt =====
-- About encodeObjectFrame followed by decodeObjectFrame.
use arxhub.Base.{
  >>=-ok_inv, Bool-cases, Bytes, Text, [], ap, append-nil, append_assoc, arith, contains,
  drop-append, false, if◌then◌else◌, inl, inr, length, length-append, le→ltb, ok, refl, suc,
  take-append, text_eq, text_eq_iff, true, zero, ℕ, ◌++◌, ◌+◌, ◌<◌, ◌^◌, ◌∙◌, ◌∷◌, ◌≡◌, ◌≤◌,
}
use arxhub.Base.Dict.{Dict, insert, keys}
use arxhub.Sync.Frame.{
  decode_loop, decode_object_frame, encode_object_frame, get_u32, is_object_hash, read_record, u32,
}

-- One record of a frame.
abbrev pub record_bytes : Text → Bytes → Bytes
record_bytes hash bytes = hash ++ (u32 (length bytes) ++ bytes)

-- The objects set one after the other, as `objects.set` does.
abbrev pub insert_all : Dict Bytes → Dict Bytes → Dict Bytes
insert_all objects [] = objects
insert_all objects ((k, v) ∷ more) = insert_all (insert k v objects) more

pub get_u32-u32 : (n : ℕ) (rest : Bytes) → n < 2 ^ 32 → get_u32 (u32 n ++ rest) ≡ n
get_u32-u32 n rest h = omega arith

pub hash-length : (h : Text) → is_object_hash h ≡ true → length h ≡ 64
unfolding is_object_hash
hash-length h e = ground arith

read_record-record :
    (hash : Text) (bytes rest : Bytes)
    → is_object_hash hash ≡ true
    → length bytes < 2 ^ 32
    → read_record (hash ++ (u32 (length bytes) ++ (bytes ++ rest))) ≡ ok (hash, bytes, rest)
unfolding read_record
read_record-record hash bytes rest valid small =
    let l = hash-length hash valid in
    let tail = u32 (length bytes) ++ (bytes ++ rest) in
    let e₁ = take-append 64 hash tail l in
    let e₂ = drop-append 64 hash tail l in
    let e₃ = get_u32-u32 (length bytes) (bytes ++ rest) small in
    let e₄ = take-append (length bytes) bytes rest refl in
    let e₅ = drop-append (length bytes) bytes rest refl in
    let e₆ = le→ltb (length (hash ++ tail)) 68 (omega (arith, length-append hash tail)) in
    let e₇ =
      le→ltb (length (bytes ++ rest)) (length bytes) (omega (arith, length-append bytes rest)) in
    rw (e₆, e₁, e₂, e₃, valid, e₇, e₄, e₅)

-- Every payload can be measured by a `u32`.
abbrev pub IsSized : Dict Bytes → Type 0
IsSized [] = Unit
IsSized ((k, v) ∷ objects) = (length v < 2 ^ 32) × IsSized objects

-- A round of the loop over a well-formed record.
pub decode_loop-record :
    (n : ℕ) (hash : Text) (bytes rest : Bytes) (acc : Dict Bytes)
    → is_object_hash hash ≡ true
    → length bytes < 2 ^ 32
    → decode_loop (suc n) (hash ++ (u32 (length bytes) ++ (bytes ++ rest))) acc
      ≡ decode_loop n rest (insert hash bytes acc)
unfolding decode_loop
decode_loop-record n [] bytes rest acc valid small = absurd (omega (arith, hash-length [] valid))
decode_loop-record n (c ∷ hash) bytes rest acc valid small =
    rw (read_record-record (c ∷ hash) bytes rest valid small, decode_loop)

pub encode_object_frame-cons :
    (hash : Text) (bytes frame : Bytes) (objects : Dict Bytes)
    → encode_object_frame ((hash, bytes) ∷ objects) ≡ ok frame
    → (rest : Bytes) × (is_object_hash hash ≡ true)
      × (encode_object_frame objects ≡ ok rest)
      × (hash ++ (u32 (length bytes) ++ (bytes ++ rest)) ≡ frame)
unfolding encode_object_frame
encode_object_frame-cons hash bytes frame objects e = elim (Bool-cases (is_object_hash hash)) [
  | inl valid ↦
      let (rest, e₁, e₂) = >>=-ok_inv (encode_object_frame objects) _ (rw valid at e) in
      (rest, valid, e₁, cc)
  | inr invalid ↦ absurd (let e' = rw invalid at e in cc)
]

pub record_length :
    (h : Text) (b rest : Bytes)
    → length (h ++ (u32 (length b) ++ (b ++ rest))) ≡ length h + (4 + (length b + length rest))
record_length h b rest =
    omega (arith, length-append h (u32 (length b) ++ (b ++ rest)), length-append b rest)

decode_loop-encode_object_frame :
    (objects : Dict Bytes) (n : ℕ) (frame : Bytes) (acc : Dict Bytes)
    → IsSized objects
    → encode_object_frame objects ≡ ok frame
    → length frame ≤ n
    → decode_loop n frame acc ≡ ok (insert_all acc objects)
unfolding encode_object_frame decode_loop
decode_loop-encode_object_frame [] n [] acc s e l = refl
decode_loop-encode_object_frame [] n (x ∷ frame) acc s e l = absurd (cc)
decode_loop-encode_object_frame ((h, b) ∷ objects) zero frame acc s e l =
    let (rest, valid, e₁, e₂) = encode_object_frame-cons h b frame objects e in
    absurd (omega (arith, ap length e₂, record_length h b rest, hash-length h valid))
decode_loop-encode_object_frame ((h, b) ∷ objects) (suc n) frame acc s e l =
    let (rest, valid, e₁, e₂) = encode_object_frame-cons h b frame objects e in
    rw (← e₂, decode_loop-record n h b rest acc valid s.0)
      (decode_loop-encode_object_frame objects n rest (insert h b acc) s.1 e₁
        (omega (arith, ap length e₂, record_length h b rest)))

-- No key is listed twice.
abbrev pub IsDistinct : Dict Bytes → Type 0
IsDistinct [] = Unit
IsDistinct ((k, v) ∷ d) = (contains (keys d) k ≡ false) × IsDistinct d

insert-fresh :
    (k : Text) (v : Bytes) (d : Dict Bytes)
    → contains (keys d) k ≡ false
    → insert k v d ≡ d ++ ((k, v) ∷ [])
unfolding insert contains keys
insert-fresh k v [] f = refl
insert-fresh k v ((j, w) ∷ d) f = ground (arith, insert-fresh k v d)

-- The keys of `d` are not among those of `objects`.
abbrev IsApart : Dict Bytes → Dict Bytes → Type 0
IsApart d [] = Unit
IsApart d ((k, v) ∷ objects) = (contains (keys d) k ≡ false) × IsApart d objects

contains-snoc :
    (k j : Text) (v : Bytes) (d : Dict Bytes)
    → contains (keys (d ++ ((k, v) ∷ []))) j ≡ (if contains (keys d) j then true else text_eq k j)
unfolding contains keys
contains-snoc k j v [] = ground arith
contains-snoc k j v ((i, w) ∷ d) = ground (arith, contains-snoc k j v d)

IsApart-snoc :
    (k : Text) (v : Bytes) (d objects : Dict Bytes)
    → IsApart d objects
    → contains (keys objects) k ≡ false
    → IsApart (d ++ ((k, v) ∷ [])) objects
unfolding contains keys
IsApart-snoc k v d [] a c = tt
IsApart-snoc k v d ((j, w) ∷ objects) a c = (
  ground (arith, contains-snoc k j v d, text_eq_iff k j, text_eq_iff j k),
  IsApart-snoc k v d objects a.1 (ground arith),
)

insert_all-apart :
    (d objects : Dict Bytes)
    → IsApart d objects
    → IsDistinct objects
    → insert_all d objects ≡ d ++ objects
insert_all-apart d [] a u = rw append-nil
insert_all-apart d ((k, v) ∷ objects) a u = rw (
  insert-fresh k v d a.0,
  insert_all-apart (d ++ ((k, v) ∷ [])) objects (IsApart-snoc k v d objects a.1 u.0) u.1,
  append_assoc,
)

IsApart-nil : (objects : Dict Bytes) → IsApart [] objects
unfolding contains keys
IsApart-nil [] = tt
IsApart-nil ((k, v) ∷ objects) = (refl, IsApart-nil objects)

-- Where the encoder accepts a batch whose payloads a `u32` can measure, with every hash in it once,
-- as a `Map` has it, the decoder gives back that batch, in the same order.
pub decode-encode_object_frame :
    (objects : Dict Bytes) (frame : Bytes)
    → IsSized objects
    → IsDistinct objects
    → encode_object_frame objects ≡ ok frame
    → decode_object_frame frame ≡ ok objects
unfolding decode_object_frame
decode-encode_object_frame objects frame s u e =
    decode_loop-encode_object_frame objects (length frame) frame [] s e (omega arith)
    ∙ ap ok (insert_all-apart [] objects (IsApart-nil objects) u)
