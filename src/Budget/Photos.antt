-- ===== src/Budget/Photos.antt =====
-- plugins/budget/src/receipt-photo-store.ts: the photos of receipts in a vault. `uuid` is what
-- `crypto.randomUUID` gives.
use arxhub.Base.{
  Bool, Bytes, Option, Result, Text, [], budget_error, codes, drop, err, file_not_found,
  if◌then◌else◌, leb, length, none, ok, some, starts_with, text_eq, ◌&&◌, ◌++◌, ◌==◌, ◌>>=◌, ◌∷◌,
}
use arxhub.Base.Dict.{Dict, erase, insert, lookup}
use arxhub.Budget.Fields.{max_attachment_size}
use arxhub.Budget.Json.{Json}
use arxhub.Budget.Model.{BudgetAttachment}
use arxhub.Budget.Records.{attachment_from}
use arxhub.Budget.Whole.{attachment_json}

pub data PhotoType : Type 0 where
  jpeg png webp : PhotoType

abbrev pub extension_of : PhotoType → Text
extension_of jpeg = codes "jpg"
extension_of png = codes "png"
extension_of webp = codes "webp"

-- The bytes that a file of the type begins with.
unfoldable pub matches_type : PhotoType → Bytes → Bool
unfolding starts_with
matches_type jpeg bytes = starts_with bytes (255 ∷ (216 ∷ (255 ∷ [])))
matches_type png bytes =
    starts_with bytes (137 ∷ (80 ∷ (78 ∷ (71 ∷ (13 ∷ (10 ∷ (26 ∷ (10 ∷ []))))))))
matches_type webp bytes =
    starts_with bytes (82 ∷ (73 ∷ (70 ∷ (70 ∷ []))))
    && starts_with (drop 8 bytes) (87 ∷ (69 ∷ (66 ∷ (80 ∷ []))))

unfoldable pub photo_type : Text → Result PhotoType
unfolding text_eq
photo_type mime =
    if text_eq mime (codes "image/jpeg")
    then ok jpeg
    else (if text_eq mime (codes "image/png")
        then ok png
        else (if text_eq mime (codes "image/webp") then ok webp else err budget_error))

unfoldable pub validate_photo_bytes : Bytes → Text → Result PhotoType
unfolding photo_type matches_type
validate_photo_bytes bytes mime =
    if leb 1 (length bytes) && leb (length bytes) max_attachment_size
    then photo_type mime >>= (λ type. if matches_type type bytes then ok type else err budget_error)
    else err budget_error

unfoldable pub photo_path : Text → PhotoType → Text
photo_path id type = codes "receipts/" ++ (id ++ (codes "." ++ extension_of type))

unfoldable pub checked_attachment : Json → Result BudgetAttachment
unfolding attachment_from photo_type photo_path text_eq
checked_attachment value = do
  a ← attachment_from value
  type ← photo_type a.mime_type
  if text_eq a.path (photo_path a.id type) then ok a else err budget_error

pub record PhotoFile : Type 0 where
  pub name : Text
  pub mime_type : Text
  pub bytes : Bytes

-- `file.name || ...`
abbrev pub name_or : Text → Text → Text
name_or [] other = other
name_or (c ∷ name) other = c ∷ name

-- The attachment of a file, before it is written.
unfoldable pub new_attachment : Text → PhotoFile → Result BudgetAttachment
unfolding photo_type validate_photo_bytes photo_path checked_attachment
new_attachment uuid file = do
  sized ←
      (if leb 1 (length file.bytes) && leb (length file.bytes) max_attachment_size
        then ok file
        else err budget_error)
  type ← photo_type file.mime_type
  checked ← validate_photo_bytes file.bytes file.mime_type
  checked_attachment (
      attachment_json (record {
        id = uuid;
        path = photo_path uuid type;
        name = name_or file.name (codes "Receipt." ++ extension_of type);
        mime_type = file.mime_type;
        size = length file.bytes;
      }))

-- `ReceiptPhotoStore.add`
unfoldable pub add_photo : Text → PhotoFile → Dict Bytes → Result (BudgetAttachment × Dict Bytes)
unfolding new_attachment insert
add_photo uuid file vault = do a ← new_attachment uuid file; ok (a, insert a.path file.bytes vault)

-- `ReceiptPhotoStore.read`
unfoldable pub read_photo : BudgetAttachment → Dict Bytes → Result Bytes
unfolding checked_attachment lookup validate_photo_bytes
read_photo value vault = do
  a ← checked_attachment (attachment_json value)
  bytes ← stored (lookup a.path vault)
  if length bytes == a.size
      then validate_photo_bytes bytes a.mime_type >>= (λ type. ok bytes)
      else err budget_error
  where
    stored : Option Bytes → Result Bytes
    stored none = err file_not_found
    stored (some bytes) = ok bytes

-- `ReceiptPhotoStore.discard`
unfoldable pub discard_photo : BudgetAttachment → Dict Bytes → Result (Dict Bytes)
unfolding checked_attachment erase
discard_photo value vault = do
  a ← checked_attachment (attachment_json value)
  ok (erase a.path vault)
