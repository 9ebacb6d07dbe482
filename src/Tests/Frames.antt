-- ===== src/Tests/Frames.antt =====
-- Frames of two objects.
use arxhub.Base.{
  Bytes, Text, [], arith, codes, contains, err, ok, refl, text_eq, validation, ◌++◌, ◌∷◌, ◌≡◌, ◌⊎◌,
}
use arxhub.Base.Dict.{Dict, keys}
use arxhub.Sync.Frame.{decode_object_frame, encode_object_frame, is_object_hash}
use arxhub.Sync.Frame.RoundTrip.{decode-encode_object_frame}
use arxhub.Sync.Frame.Strict.{Reads, decode_object_frame_strict}

abbrev address_a : Text
address_a = codes "00000000000000000000000000000000000000000000000000000000000000aa"

abbrev address_b : Text
address_b = codes "0123456789abcdef0123456789abcdef0123456789abcdef0123456789abcdef"

abbrev batch : Dict Bytes
batch = (address_a, 1 ∷ 2 ∷ 3 ∷ []) ∷ (address_b, []) ∷ []

abbrev batch_frame : Bytes
batch_frame = address_a ++ (0 ∷ 0 ∷ 0 ∷ 3 ∷ 1 ∷ 2 ∷ 3 ∷ []) ++ address_b ++ (0 ∷ 0 ∷ 0 ∷ 0 ∷ [])

encodes_batch : encode_object_frame batch ≡ ok batch_frame
unfolding encode_object_frame is_object_hash
encodes_batch = refl

upper_case_hash : encode_object_frame ((codes "AB", []) ∷ []) ≡ err validation
unfolding encode_object_frame is_object_hash
upper_case_hash = refl

truncated_payload : decode_object_frame (address_a ++ (0 ∷ 0 ∷ 0 ∷ 3 ∷ 1 ∷ [])) ≡ err validation
unfolding decode_object_frame is_object_hash
truncated_payload = refl

decode-encode_object_frame_example : decode_object_frame batch_frame ≡ ok batch
unfolding contains keys text_eq
decode-encode_object_frame_example =
    decode-encode_object_frame batch batch_frame (omega arith) (refl, (refl, tt)) encodes_batch

decode_object_frame_strict_example :
    (decode_object_frame batch_frame ≡ err validation)
    ⊎ ((objects : Dict Bytes) × (decode_object_frame batch_frame ≡ ok objects)
        × Reads batch_frame [] objects)
decode_object_frame_strict_example = decode_object_frame_strict batch_frame (omega arith)
