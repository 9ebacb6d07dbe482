-- ===== src/Sync/Frame.antt =====
-- packages/sync/src/remote: object addresses and the binary batch format that carries objects over
-- HTTP, `[64 bytes of hash][u32 big endian length][payload]` for each object. A hash is the list of
-- its code units. A `TextDecoder` reads a byte of 128 or more as no ASCII character, and such a byte
-- fails the test of `is_object_hash` here too.
pub mod RoundTrip
pub mod Strict
use arxhub.Base.{
  ℕ, zero, suc, ◌+◌, ◌*◌, ◌/◌, ◌%◌, ◌^◌, Bool, true, false, ◌&&◌, ◌||◌, List, [], ◌∷◌, ◌++◌, Text,
  Bytes, Result, ok, err, Error, validation, out_of_fuel, ◌>>=◌, ltb, leb, ◌==◌, if◌then◌else◌,
  length, take, drop, all,
}
use arxhub.Base.Dict.{Dict, insert}

-- `[0-9a-f]`
abbrev pub is_hex : ℕ → Bool
is_hex c = (leb b'0' c && leb c b'9') || (leb b'a' c && leb c b'f')

-- `/^[0-9a-f]{64}$/`
unfoldable pub is_object_hash : Text → Bool
is_object_hash value = (length value == 64) && all is_hex value

-- `view.setUint32(offset, n)`, which keeps the low 32 bits, big endian.
abbrev pub u32 : ℕ → Bytes
u32 n = (n / 2 ^ 24 % 256) ∷ (n / 2 ^ 16 % 256) ∷ (n / 2 ^ 8 % 256) ∷ (n % 256) ∷ []

-- `view.getUint32(offset)`
abbrev pub get_u32 : Bytes → ℕ
get_u32 (a ∷ b ∷ c ∷ d ∷ _) = a * 2 ^ 24 + b * 2 ^ 16 + c * 2 ^ 8 + d
get_u32 _ = 0

unfoldable pub encode_object_frame : Dict Bytes → Result Bytes
encode_object_frame [] = ok []
encode_object_frame ((hash, bytes) ∷ objects) =
    let rest = encode_object_frame objects in
    if is_object_hash hash
    then rest >>= (λ frame. ok (hash ++ (u32 (length bytes) ++ (bytes ++ frame))))
    else err validation

-- One round of the loop, on what `offset` has not passed: the hash, the payload and what follows.
unfoldable pub read_record : Bytes → Result (Text × Bytes × Bytes)
read_record frame =
    let hash = take 64 frame in
    let tail = drop 64 frame in
    let body = drop 4 tail in
    if ltb (length frame) (64 + 4)
    then err validation
    else (if is_object_hash hash
        then (if ltb (length body) (get_u32 tail)
            then err validation
            else ok (hash, take (get_u32 tail) body, drop (get_u32 tail) body))
        else err validation)

-- The loop runs while bytes are left. A round takes 68 of them at least, so a fuel of as many rounds
-- as there are bytes is enough.
unfoldable pub decode_loop : ℕ → Bytes → Dict Bytes → Result (Dict Bytes)
decode_loop n [] objects = ok objects
decode_loop zero (_ ∷ _) objects = err out_of_fuel
decode_loop (suc n) (x ∷ xs) objects = elim (read_record (x ∷ xs)) [
  | err e ↦ err e
  | ok (hash, payload, rest) ↦ decode_loop n rest (insert hash payload objects)
]

unfoldable pub decode_object_frame : Bytes → Result (Dict Bytes)
unfolding decode_loop read_record
decode_object_frame frame = decode_loop (length frame) frame []
