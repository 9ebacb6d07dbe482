-- ===== src/Budget/RoundTrip/Transactions.antt =====
-- Transactions of plugins/budget/src/model.ts, read again as they are written: in the second version.
use mathlib.Core.Path.{subst}
use arxhub.Base.{
  >>=-ok_inv, Bool, List, Option, Text, codes, contains, false, ok, ok_injective, refl, text_eq,
  true, ◌≡◌,
}
use arxhub.Base.Dict.{Dict, keys, lookup}
use arxhub.Budget.Fields.{
  identifier, kind_name, object_with_keys, positive_money, string_field, transaction_kind,
  valid_date,
}
use arxhub.Budget.Json.{Json, string, value_at}
use arxhub.Budget.Model.{BudgetAttachment, BudgetItem, BudgetTransaction, FiscalReceipt}
use arxhub.Budget.Records.{attachment_from, fields_of, fiscal_receipt_from, is_text, item_from}
use arxhub.Budget.RoundTrip.Fields.{
  identifier_inv, positive_money_inv, reread, transaction_kind_inv, valid_date_inv,
}
use arxhub.Budget.RoundTrip.Parts.{array_of-list_json, null_or-option_json}
use arxhub.Budget.RoundTrip.Receipts.{
  attachment_from-attachment_json, fiscal_receipt_from-receipt_json,
}
use arxhub.Budget.RoundTrip.Records.{item_from-item_json}
use arxhub.Budget.Transactions.{
  Version, array_of, attachments_field, each, items_field, null_or, place_field, receipt_field,
  transaction_from, transaction_keys, unique_by_id, version1, version2,
}
use arxhub.Budget.Whole.{
  attachment_json, item_json, list_json, number, option_json, receipt_json, transaction_json,
}

identifier-string :
    (value : Json) (id : Text) → identifier value ≡ ok id → identifier (string id) ≡ ok id
identifier-string value id h = reread identifier (identifier_inv value id h) h

items_field-items :
    (version : Version) (d : Dict Json) (items : List BudgetItem)
    → items_field version d ≡ ok items
    → array_of item_from (list_json item_json items) ≡ ok items
unfolding items_field array_of each
items_field-items version1 d items h =
    subst (λ l. array_of item_from (list_json item_json l) ≡ ok l) (ok_injective h) refl
items_field-items version2 d items h =
    array_of-list_json item_from item_json item_from-item_json (value_at (codes "items") d) items h

attachments_field-attachments :
    (version : Version) (d : Dict Json) (attachments : List BudgetAttachment)
    → attachments_field version d ≡ ok attachments
    → array_of attachment_from (list_json attachment_json attachments) ≡ ok attachments
unfolding attachments_field array_of each
attachments_field-attachments version1 d attachments h =
    subst (λ l. array_of attachment_from (list_json attachment_json l) ≡ ok l) (ok_injective h) refl
attachments_field-attachments version2 d attachments h =
    array_of-list_json attachment_from attachment_json attachment_from-attachment_json
      (value_at (codes "attachments") d) attachments h

place_field-place :
    (version : Version) (d : Dict Json) (place : Option Text)
    → place_field version d ≡ ok place
    → null_or identifier (option_json string place) ≡ ok place
unfolding place_field null_or
place_field-place version1 d place h =
    subst (λ o. null_or identifier (option_json string o) ≡ ok o) (ok_injective h) refl
place_field-place version2 d place h =
    null_or-option_json identifier string identifier-string (λ a. refl)
      (value_at (codes "placeId") d) place h

receipt_field-receipt :
    (version : Version) (d : Dict Json) (receipt : Option FiscalReceipt)
    → receipt_field version d ≡ ok receipt
    → null_or fiscal_receipt_from (option_json receipt_json receipt) ≡ ok receipt
unfolding receipt_field null_or
receipt_field-receipt version1 d receipt h =
    subst (λ o. null_or fiscal_receipt_from (option_json receipt_json o) ≡ ok o) (ok_injective h)
      refl
receipt_field-receipt version2 d receipt h =
    null_or-option_json fiscal_receipt_from receipt_json fiscal_receipt_from-receipt_json
      (λ a. refl) (value_at (codes "fiscalReceipt") d) receipt h

transaction_from-fields :
    (to_file : Bool) (t : BudgetTransaction) (items : Dict BudgetItem)
    (attachments : Dict BudgetAttachment)
    → array_of item_from (list_json item_json t.items) ≡ ok t.items
    → array_of attachment_from (list_json attachment_json t.attachments) ≡ ok t.attachments
    → unique_by_id (λ (i : BudgetItem). i.id) t.items ≡ ok items
    → unique_by_id (λ (a : BudgetAttachment). a.id) t.attachments ≡ ok attachments
    → identifier (string t.id) ≡ ok t.id
    → identifier (string t.account_id) ≡ ok t.account_id
    → identifier (string t.category_id) ≡ ok t.category_id
    → transaction_kind (string (kind_name t.kind)) ≡ ok t.kind
    → positive_money (number t.amount) ≡ ok t.amount
    → valid_date (string t.date) ≡ ok t.date
    → null_or identifier (option_json string t.place_id) ≡ ok t.place_id
    → null_or fiscal_receipt_from (option_json receipt_json t.fiscal_receipt) ≡ ok t.fiscal_receipt
    → transaction_from to_file version2 (transaction_json to_file t) ≡ ok t
unfolding transaction_from fields_of object_with_keys lookup contains text_eq keys is_text
    string_field items_field attachments_field place_field receipt_field
transaction_from-fields false t items attachments a b c d e f g h i j k l =
    rw (a, b, c, d, e, f, g, h, i, j, k, l) refl
transaction_from-fields true t items attachments a b c d e f g h i j k l =
    rw (a, b, c, d, e, f, g, h, i, j, k, l) refl

pub transaction_from-transaction_json :
    (tagged to_file : Bool) (version : Version) (value : Json) (t : BudgetTransaction)
    → transaction_from tagged version value ≡ ok t
    → transaction_from to_file version2 (transaction_json to_file t) ≡ ok t
unfolding transaction_from
transaction_from-transaction_json tagged to_file version value t h =
    let (d, d_is, h₁) =
      >>=-ok_inv (fields_of tagged (codes "transaction") (transaction_keys version) value) _ h in
    let (items, items_is, h₂) = >>=-ok_inv (items_field version d) _ h₁ in
    let (attachments, attachments_is, h₃) = >>=-ok_inv (attachments_field version d) _ h₂ in
    let (item_index, unique_items, h₄) =
      >>=-ok_inv (unique_by_id (λ (i : BudgetItem). i.id) items) _ h₃ in
    let (attachment_index, unique_attachments, h₅) =
      >>=-ok_inv (unique_by_id (λ (a : BudgetAttachment). a.id) attachments) _ h₄ in
    let (id, id_is, h₆) = >>=-ok_inv (identifier (value_at (codes "id") d)) _ h₅ in
    let (account_id, account_is, h₇) =
      >>=-ok_inv (identifier (value_at (codes "accountId") d)) _ h₆ in
    let (category_id, category_is, h₈) =
      >>=-ok_inv (identifier (value_at (codes "categoryId") d)) _ h₇ in
    let (kind, kind_is, h₉) = >>=-ok_inv (transaction_kind (value_at (codes "kind") d)) _ h₈ in
    let (amount, amount_is, g₁) = >>=-ok_inv (positive_money (value_at (codes "amount") d)) _ h₉ in
    let (date, date_is, g₂) = >>=-ok_inv (valid_date (value_at (codes "date") d)) _ g₁ in
    let (note, note_is, g₃) = >>=-ok_inv (string_field (value_at (codes "note") d)) _ g₂ in
    let (place_id, place_is, g₄) = >>=-ok_inv (place_field version d) _ g₃ in
    let (receipt, receipt_is, g₅) = >>=-ok_inv (receipt_field version d) _ g₄ in
    subst (λ r. transaction_from to_file version2 (transaction_json to_file r) ≡ ok r)
      (ok_injective g₅)
      (transaction_from-fields to_file _ item_index attachment_index
        (items_field-items version d items items_is)
        (attachments_field-attachments version d attachments attachments_is) unique_items
        unique_attachments
        (reread identifier (identifier_inv (value_at (codes "id") d) id id_is) id_is)
        (reread identifier (identifier_inv (value_at (codes "accountId") d) account_id account_is)
          account_is)
        (reread identifier
          (identifier_inv (value_at (codes "categoryId") d) category_id category_is) category_is)
        (reread transaction_kind (transaction_kind_inv (value_at (codes "kind") d) kind kind_is)
          kind_is)
        (reread positive_money (positive_money_inv (value_at (codes "amount") d) amount amount_is)
          amount_is)
        (reread valid_date (valid_date_inv (value_at (codes "date") d) date date_is) date_is)
        (place_field-place version d place_id place_is)
        (receipt_field-receipt version d receipt receipt_is))
