-- ===== src/Tests/BudgetPhotos.antt =====
-- A photo of three bytes, without a name of its own.
use arxhub.Base.{Text, [], codes, ok, refl, ◌∷◌, ◌≡◌}
use arxhub.Budget.Model.{BudgetAttachment}
use arxhub.Budget.Photos.{PhotoFile, add_photo, discard_photo, read_photo}
use arxhub.Budget.Stored.{read_photo-add_photo}

abbrev uuid : Text
uuid = codes "01234567-89ab-cdef-0123-456789abcdef"

abbrev photo : PhotoFile
photo = record { name = []; mime_type = codes "image/jpeg"; bytes = 255 ∷ (216 ∷ (255 ∷ [])) }

abbrev attached : BudgetAttachment
attached = record {
  id = uuid;
  path = codes "receipts/01234567-89ab-cdef-0123-456789abcdef.jpg";
  name = codes "Receipt.jpg";
  mime_type = codes "image/jpeg";
  size = 3;
}

added : add_photo uuid photo [] ≡ ok (attached, (attached.path, photo.bytes) ∷ [])
unfolding add_photo
added = refl

read_photo-add_photo_example :
    read_photo attached ((attached.path, photo.bytes) ∷ []) ≡ ok photo.bytes
read_photo-add_photo_example =
    read_photo-add_photo uuid photo [] ((attached.path, photo.bytes) ∷ []) attached added

discarded : discard_photo attached ((attached.path, photo.bytes) ∷ []) ≡ ok []
unfolding discard_photo add_photo
discarded = refl
