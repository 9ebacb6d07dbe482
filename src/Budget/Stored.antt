-- ===== src/Budget/Stored.antt =====
-- `ReceiptPhotoStore` of plugins/budget/src/receipt-photo-store.ts: a photo that was added.
use mathlib.Core.Path.{subst}
use arxhub.Base.{
  ==_iff, >>=-ok_inv, Bool, Bytes, Text, ap, budget_error, codes, contains, err, false,
  if◌then◌else◌, leb, length, ok, ok_injective, refl, sym, text_eq, true, ◌&&◌, ◌++◌, ◌==◌, ◌∙◌,
  ◌≡◌,
}
use arxhub.Base.Dict.{Dict, insert, keys, lookup, lookup-insert_self}
use arxhub.Budget.Fields.{
  display_name, identifier, max_attachment_size, object_with_keys, safe_integer, string_field,
}
use arxhub.Budget.Json.{Json, integer, string}
use arxhub.Budget.Model.{BudgetAttachment}
use arxhub.Budget.Photos.{
  PhotoFile, PhotoType, add_photo, checked_attachment, extension_of, name_or, new_attachment,
  photo_path, photo_type, read_photo, validate_photo_bytes,
}
use arxhub.Budget.Records.{attachment_from, checked_mime, checked_size}
use arxhub.Budget.RoundTrip.Fields.{checked_mime_inv, checked_size_inv, safe_integer_inv}
use arxhub.Budget.RoundTrip.Receipts.{attachment_from-attachment_json}
use arxhub.Budget.Whole.{attachment_json, number}

passed_path :
    (test : Bool) (b a : BudgetAttachment)
    → (if test then ok b else err budget_error) ≡ ok a
    → (test ≡ true) × (b ≡ a)
passed_path true b a h = (refl, ok_injective h)
passed_path false b a h = absurd (cc h)

-- An attachment that was checked is what its value reads as, and passes the check again.
checked_attachment_inv :
    (value : Json) (a : BudgetAttachment)
    → checked_attachment value ≡ ok a
    → (attachment_from value ≡ ok a) × (checked_attachment (attachment_json a) ≡ ok a)
unfolding checked_attachment
checked_attachment_inv value a h =
    let (b, b_is, h₁) = >>=-ok_inv (attachment_from value) _ h in
    let (type, type_is, h₂) = >>=-ok_inv (photo_type b.mime_type) _ h₁ in
    let (same, is) = passed_path (text_eq b.path (photo_path b.id type)) b a h₂ in
    (
      b_is ∙ ap ok is,
      subst (λ r. checked_attachment (attachment_json r) ≡ ok r) is
          (rw (attachment_from-attachment_json value b b_is, checked_attachment)
            (rw type_is (rw same refl))),
    )

-- What the checks of an attachment keep of it.
attachment_from-kept :
    (r a : BudgetAttachment)
    → attachment_from (attachment_json r) ≡ ok a
    → (r.mime_type ≡ a.mime_type) × (r.size ≡ a.size)
unfolding attachment_from object_with_keys lookup contains text_eq keys string_field
attachment_from-kept r a h =
    let (mime, mime_is, h₁) = >>=-ok_inv (checked_mime r.path r.mime_type) _ h in
    let (given, given_is, h₂) = >>=-ok_inv (safe_integer (number r.size)) _ h₁ in
    let (size, size_is, h₃) = >>=-ok_inv (checked_size given) _ h₂ in
    let (id, id_is, h₄) = >>=-ok_inv (identifier (string r.id)) _ h₃ in
    let (name, name_is, h₅) = >>=-ok_inv (display_name (string r.name)) _ h₄ in
    let whole : number r.size ≡ number size =
      safe_integer_inv (number r.size) given given_is
      ∙ ap integer (checked_size_inv given size size_is) in
    let e = ok_injective h₅ in
    (
      checked_mime_inv r.path r.mime_type mime mime_is
          ∙ ap (λ (x : BudgetAttachment). x.mime_type) e,
      cc whole ∙ ap (λ (x : BudgetAttachment). x.size) e,
    )

new_attachment_inv :
    (uuid : Text) (file : PhotoFile) (a : BudgetAttachment)
    → new_attachment uuid file ≡ ok a
    → (checked_attachment (attachment_json a) ≡ ok a)
      × (file.mime_type ≡ a.mime_type)
      × (length file.bytes ≡ a.size)
      × ((type : PhotoType) × (validate_photo_bytes file.bytes file.mime_type ≡ ok type))
unfolding new_attachment
new_attachment_inv uuid file a h =
    let (sized, sized_is, h₁) =
      >>=-ok_inv
        (if leb 1 (length file.bytes) && leb (length file.bytes) max_attachment_size
          then ok file
          else err budget_error)
        _ h in
    let (type, type_is, h₂) = >>=-ok_inv (photo_type file.mime_type) _ h₁ in
    let (checked, bytes_pass, h₃) =
      >>=-ok_inv (validate_photo_bytes file.bytes file.mime_type) _ h₂ in
    let made : BudgetAttachment = record {
      id = uuid;
      path = photo_path uuid type;
      name = name_or file.name (codes "Receipt." ++ extension_of type);
      mime_type = file.mime_type;
      size = length file.bytes;
    } in
    let (read, again_passes) = checked_attachment_inv (attachment_json made) a h₃ in
    let (mime, size) = attachment_from-kept made a read in
    (again_passes, mime, size, (checked, bytes_pass))

-- A photo that was added is read back as the bytes of its file, by the attachment that adding it returned.
pub read_photo-add_photo :
    (uuid : Text) (file : PhotoFile) (vault after : Dict Bytes) (a : BudgetAttachment)
    → add_photo uuid file vault ≡ ok (a, after)
    → read_photo a after ≡ ok file.bytes
unfolding add_photo read_photo
read_photo-add_photo uuid file vault after a h =
    let (b, b_is, h₁) = >>=-ok_inv (new_attachment uuid file) _ h in
    let same : b ≡ a = ap (λ r. r.0) (ok_injective h₁) in
    let written : insert b.path file.bytes vault ≡ after = ap (λ r. r.1) (ok_injective h₁) in
    let (passes, mime, size, (type, valid)) = new_attachment_inv uuid file b b_is in
    let found = lookup-insert_self b.path file.bytes vault in
    let whole : (length file.bytes == b.size) ≡ true = (==_iff (length file.bytes) b.size).1 size in
    let typed = ap (validate_photo_bytes file.bytes) (sym mime) ∙ valid in
    subst (λ r. read_photo r after ≡ ok file.bytes) same
      (subst (λ v. read_photo b v ≡ ok file.bytes) written
        (rw (passes, read_photo) (rw found (rw whole (rw typed refl)))))
