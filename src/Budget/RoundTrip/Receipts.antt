-- ===== src/Budget/RoundTrip/Receipts.antt =====
-- Attachments and fiscal receipts of plugins/budget/src/model.ts, read again as they are written.
use mathlib.Core.Path.{subst}
use arxhub.Base.{
  >>=-ok_inv, Bool, ap, codes, contains, err, false, if◌then◌else◌, leb, ok, ok_injective, pos,
  refl, sym, text_eq, true, validation, ℕ, ◌∙◌, ◌≡◌,
}
use arxhub.Base.Dict.{keys, lookup}
use arxhub.Budget.Fields.{
  display_name, fiscal_decimal, fiscal_drive, fiscal_operation, identifier, max_fiscal_total,
  object_with_keys, positive_money, safe_integer, string_field, valid_issued_at,
}
use arxhub.Budget.Json.{Json, integer, string, value_at}
use arxhub.Budget.Model.{BudgetAttachment, FiscalReceipt}
use arxhub.Budget.Records.{
  attachment_from, attachment_keys, checked_mime, checked_size, fiscal_receipt_from, receipt_keys,
}
use arxhub.Budget.RoundTrip.Fields.{
  checked_mime_inv, checked_size_inv, display_name_inv, fiscal_decimal_inv, fiscal_drive_inv,
  fiscal_operation_inv, identifier_inv, positive_money_inv, reread, safe_integer_inv,
  valid_issued_at_inv,
}
use arxhub.Budget.Whole.{attachment_json, number, receipt_json}

attachment_from-fields :
    (a : BudgetAttachment)
    → checked_mime a.path a.mime_type ≡ ok a.mime_type
    → safe_integer (number a.size) ≡ ok (pos a.size)
    → checked_size (pos a.size) ≡ ok a.size
    → identifier (string a.id) ≡ ok a.id
    → display_name (string a.name) ≡ ok a.name
    → attachment_from (attachment_json a) ≡ ok a
unfolding attachment_from object_with_keys lookup contains text_eq keys string_field
attachment_from-fields r a b c e f = rw (a, b, c, e, f) refl

pub attachment_from-attachment_json :
    (value : Json) (a : BudgetAttachment)
    → attachment_from value ≡ ok a
    → attachment_from (attachment_json a) ≡ ok a
unfolding attachment_from
attachment_from-attachment_json value a h =
    let (d, d_is, h₁) = >>=-ok_inv (object_with_keys attachment_keys value) _ h in
    let (path, path_is, h₂) = >>=-ok_inv (string_field (value_at (codes "path") d)) _ h₁ in
    let (mime_text, text_is, h₃) = >>=-ok_inv (string_field (value_at (codes "mimeType") d)) _ h₂ in
    let (mime, mime_is, h₄) = >>=-ok_inv (checked_mime path mime_text) _ h₃ in
    let (given, given_is, h₅) = >>=-ok_inv (safe_integer (value_at (codes "size") d)) _ h₄ in
    let (size, size_is, h₆) = >>=-ok_inv (checked_size given) _ h₅ in
    let (id, id_is, h₇) = >>=-ok_inv (identifier (value_at (codes "id") d)) _ h₆ in
    let (name, name_is, h₈) = >>=-ok_inv (display_name (value_at (codes "name") d)) _ h₇ in
    let whole = checked_size_inv given size size_is in
    subst (λ r. attachment_from (attachment_json r) ≡ ok r) (ok_injective h₈)
      (attachment_from-fields _
        (reread (checked_mime path) (checked_mime_inv path mime_text mime mime_is) mime_is)
        (subst (λ z. safe_integer (integer z) ≡ ok z) whole
          (reread safe_integer (safe_integer_inv (value_at (codes "size") d) given given_is)
            given_is))
        (reread checked_size whole size_is)
        (reread identifier (identifier_inv (value_at (codes "id") d) id id_is) id_is)
        (reread display_name (display_name_inv (value_at (codes "name") d) name name_is) name_is))

fiscal_receipt_from-fields :
    (r : FiscalReceipt)
    → fiscal_drive (string r.fn) ≡ ok r.fn
    → fiscal_operation (number r.operation) ≡ ok r.operation
    → positive_money (number r.total) ≡ ok r.total
    → leb r.total max_fiscal_total ≡ true
    → fiscal_decimal (string r.fd) ≡ ok r.fd
    → fiscal_decimal (string r.fp) ≡ ok r.fp
    → valid_issued_at (string r.issued_at) ≡ ok r.issued_at
    → fiscal_receipt_from (receipt_json r) ≡ ok r
unfolding fiscal_receipt_from object_with_keys lookup contains text_eq keys
fiscal_receipt_from-fields r a b c e f g h = rw (a, b, c, e, f, g, h) refl

bounded :
    (test : Bool) (given total : ℕ)
    → (if test then ok given else err validation) ≡ ok total
    → (test ≡ true) × (given ≡ total)
bounded true given total h = (refl, ok_injective h)
bounded false given total h = absurd (cc h)

pub fiscal_receipt_from-receipt_json :
    (value : Json) (r : FiscalReceipt)
    → fiscal_receipt_from value ≡ ok r
    → fiscal_receipt_from (receipt_json r) ≡ ok r
unfolding fiscal_receipt_from
fiscal_receipt_from-receipt_json value r h =
    let (d, d_is, h₁) = >>=-ok_inv (object_with_keys receipt_keys value) _ h in
    let (fn, fn_is, h₂) = >>=-ok_inv (fiscal_drive (value_at (codes "fn") d)) _ h₁ in
    let (operation, operation_is, h₃) =
      >>=-ok_inv (fiscal_operation (value_at (codes "operation") d)) _ h₂ in
    let (given, given_is, h₄) = >>=-ok_inv (positive_money (value_at (codes "total") d)) _ h₃ in
    let (total, total_is, h₅) =
      >>=-ok_inv (if leb given max_fiscal_total then ok given else err validation) _ h₄ in
    let (fd, fd_is, h₆) = >>=-ok_inv (fiscal_decimal (value_at (codes "fd") d)) _ h₅ in
    let (fp, fp_is, h₇) = >>=-ok_inv (fiscal_decimal (value_at (codes "fp") d)) _ h₆ in
    let (issued_at, issued_is, h₈) =
      >>=-ok_inv (valid_issued_at (value_at (codes "issuedAt") d)) _ h₇ in
    let (small, whole) = bounded (leb given max_fiscal_total) given total total_is in
    subst (λ r. fiscal_receipt_from (receipt_json r) ≡ ok r) (ok_injective h₈)
      (fiscal_receipt_from-fields _
        (reread fiscal_drive (fiscal_drive_inv (value_at (codes "fn") d) fn fn_is) fn_is)
        (reread fiscal_operation
          (fiscal_operation_inv (value_at (codes "operation") d) operation operation_is)
          operation_is)
        (subst (λ n. positive_money (number n) ≡ ok n) whole
          (reread positive_money (positive_money_inv (value_at (codes "total") d) given given_is)
            given_is))
        (ap (λ n. leb n max_fiscal_total) (sym whole) ∙ small)
        (reread fiscal_decimal (fiscal_decimal_inv (value_at (codes "fd") d) fd fd_is) fd_is)
        (reread fiscal_decimal (fiscal_decimal_inv (value_at (codes "fp") d) fp fp_is) fp_is)
        (reread valid_issued_at
          (valid_issued_at_inv (value_at (codes "issuedAt") d) issued_at issued_is) issued_is))
