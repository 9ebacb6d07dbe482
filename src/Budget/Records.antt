-- ===== src/Budget/Records.antt =====
-- The records of plugins/budget/src/model.ts, read from values of unknown type. `tagged` is for a line of
-- the file, whose record says its type.
use arxhub.Base.{
  Bool, List, Option, Result, Text, [], codes, err, false, if◌then◌else◌, leb, negsuc, none, ok,
  pos, some, text_eq, true, validation, ℕ, ℤ, ◌&&◌, ◌>>=◌, ◌∷◌,
}
use arxhub.Base.Dict.{Dict, lookup}
use arxhub.Budget.Fields.{
  coordinate, display_name, fiscal_decimal, fiscal_drive, fiscal_operation, identifier,
  max_attachment_size, max_fiscal_total, mime_by_extension, non_negative_money, object_with_keys,
  positive_money, receipt_extension, safe_integer, string_field, transaction_kind, valid_currency,
  valid_issued_at,
}
use arxhub.Budget.Json.{Json, string, value_at}
use arxhub.Budget.Model.{
  BudgetAccount, BudgetAttachment, BudgetCategory, BudgetItem, BudgetPlace, FiscalReceipt,
}
use arxhub.Budget.Money.{validate_quantity}

-- `value === text` of a value of unknown type
unfoldable pub is_text : Text → Json → Bool
unfolding text_eq
is_text text (string s) = text_eq s text
is_text text _ = false

-- The fields of a record of a type, under a tag or not.
unfoldable pub fields_of : Bool → Text → List Text → Json → Result (Dict Json)
unfolding object_with_keys is_text lookup
fields_of false kind names value = object_with_keys names value
fields_of true kind names value = do
  d ← object_with_keys (codes "type" ∷ names) value
  if is_text kind (value_at (codes "type") d) then ok d else err validation

abbrev pub account_keys : List Text
account_keys = codes "id" ∷ codes "name" ∷ codes "currency" ∷ codes "openingBalance" ∷ []

abbrev pub category_keys : List Text
category_keys = codes "id" ∷ codes "name" ∷ codes "kind" ∷ []

abbrev pub place_keys : List Text
place_keys = codes "id" ∷ codes "name" ∷ codes "latitude" ∷ codes "longitude" ∷ []

unfoldable pub account_from : (Text → Option ℕ) → Bool → Json → Result BudgetAccount
unfolding fields_of identifier display_name valid_currency safe_integer lookup
account_from intl tagged value = do
  d ← fields_of tagged (codes "account") account_keys value
  id ← identifier (value_at (codes "id") d)
  name ← display_name (value_at (codes "name") d)
  currency ← valid_currency intl (value_at (codes "currency") d)
  opening ← safe_integer (value_at (codes "openingBalance") d)
  ok (record { id = id; name = name; currency = currency; opening_balance = opening })

unfoldable pub category_from : Bool → Json → Result BudgetCategory
unfolding fields_of identifier display_name transaction_kind lookup
category_from tagged value = do
  d ← fields_of tagged (codes "category") category_keys value
  id ← identifier (value_at (codes "id") d)
  name ← display_name (value_at (codes "name") d)
  kind ← transaction_kind (value_at (codes "kind") d)
  ok (record { id = id; name = name; kind = kind })

unfoldable pub both_or_none : Option Json → Option Json → Bool
both_or_none none none = true
both_or_none (some x) (some y) = true
both_or_none _ _ = false

unfoldable pub place_from : Bool → Json → Result BudgetPlace
unfolding fields_of identifier display_name coordinate both_or_none lookup
place_from tagged value = do
  d ← fields_of tagged (codes "place") place_keys value
  latitude ← coordinate 90 (value_at (codes "latitude") d)
  longitude ← coordinate 180 (value_at (codes "longitude") d)
  id ←
      (if both_or_none latitude longitude
        then identifier (value_at (codes "id") d)
        else err validation)
  name ← display_name (value_at (codes "name") d)
  ok (record { id = id; name = name; latitude = latitude; longitude = longitude })

-- A quantity that `validateQuantity` refuses, whatever it throws.
unfoldable pub quantity_field : Json → Result Text
unfolding validate_quantity
quantity_field (string quantity) = elim (validate_quantity quantity) [
  | err e ↦ err validation
  | ok q ↦ ok quantity
]
quantity_field _ = err validation

abbrev pub item_keys : List Text
item_keys = codes "id" ∷ codes "name" ∷ codes "quantity" ∷ codes "unitPrice" ∷ codes "total" ∷ []

unfoldable pub item_from : Json → Result BudgetItem
unfolding object_with_keys identifier display_name quantity_field non_negative_money lookup
item_from value = do
  d ← object_with_keys item_keys value
  quantity ← quantity_field (value_at (codes "quantity") d)
  id ← identifier (value_at (codes "id") d)
  name ← display_name (value_at (codes "name") d)
  unit_price ← non_negative_money (value_at (codes "unitPrice") d)
  total ← non_negative_money (value_at (codes "total") d)
  ok (record { id = id; name = name; quantity = quantity; unit_price = unit_price; total = total })

abbrev pub attachment_keys : List Text
attachment_keys = codes "id" ∷ codes "path" ∷ codes "name" ∷ codes "mimeType" ∷ codes "size" ∷ []

-- The path of a receipt, whose extension says the media type.
unfoldable pub checked_mime : Text → Text → Result Text
unfolding receipt_extension mime_by_extension text_eq
checked_mime path mime = elim (receipt_extension path) [
  | none ↦ err validation
  | some ext ↦ if text_eq mime (mime_by_extension ext) then ok mime else err validation
]

unfoldable pub checked_size : ℤ → Result ℕ
checked_size (negsuc n) = err validation
checked_size (pos n) = if leb 1 n && leb n max_attachment_size then ok n else err validation

-- `attachmentFrom` and `validateBudgetAttachment`
unfoldable pub attachment_from : Json → Result BudgetAttachment
unfolding object_with_keys identifier display_name string_field safe_integer lookup checked_mime
    checked_size
attachment_from value = do
  d ← object_with_keys attachment_keys value
  path ← string_field (value_at (codes "path") d)
  mime_text ← string_field (value_at (codes "mimeType") d)
  mime ← checked_mime path mime_text
  given ← safe_integer (value_at (codes "size") d)
  size ← checked_size given
  id ← identifier (value_at (codes "id") d)
  name ← display_name (value_at (codes "name") d)
  ok (record { id = id; path = path; name = name; mime_type = mime; size = size })

abbrev pub receipt_keys : List Text
receipt_keys =
    codes "fn" ∷ codes "fd" ∷ codes "fp" ∷ codes "issuedAt" ∷ codes "total" ∷ codes "operation" ∷ []

-- `fiscalReceiptFrom` and `validateFiscalReceipt`
unfoldable pub fiscal_receipt_from : Json → Result FiscalReceipt
unfolding object_with_keys fiscal_drive fiscal_operation positive_money fiscal_decimal lookup
    valid_issued_at
fiscal_receipt_from value = do
  d ← object_with_keys receipt_keys value
  fn ← fiscal_drive (value_at (codes "fn") d)
  operation ← fiscal_operation (value_at (codes "operation") d)
  given ← positive_money (value_at (codes "total") d)
  total ← (if leb given max_fiscal_total then ok given else err validation)
  fd ← fiscal_decimal (value_at (codes "fd") d)
  fp ← fiscal_decimal (value_at (codes "fp") d)
  issued_at ← valid_issued_at (value_at (codes "issuedAt") d)
  ok (record {
    fn = fn;
    fd = fd;
    fp = fp;
    issued_at = issued_at;
    total = total;
    operation = operation;
  })
