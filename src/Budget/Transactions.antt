-- ===== src/Budget/Transactions.antt =====
-- `transactionFrom` of plugins/budget/src/model.ts, with the version of the file, and `uniqueById`.
use arxhub.Base.{
  Bool, List, Option, Result, Text, [], codes, err, if◌then◌else◌, none, ok, some, validation, ◌++◌,
  ◌>>=◌, ◌∷◌,
}
use arxhub.Base.Dict.{Dict, insert, is_some, lookup, values}
use arxhub.Budget.Fields.{identifier, positive_money, string_field, transaction_kind, valid_date}
use arxhub.Budget.Json.{Json, array, listed_items, null, value_at}
use arxhub.Budget.Model.{BudgetAttachment, BudgetItem, BudgetTransaction, FiscalReceipt}
use arxhub.Budget.Records.{attachment_from, fields_of, fiscal_receipt_from, item_from}

pub data Version : Type 0 where
  version1 version2 : Version

-- `map` over an array, whose function may throw.
unfoldable pub each {ℓ} : {A : Type ℓ} → (Json → Result A) → List Json → Result (List A)
each f [] = ok []
each f (value ∷ values) = f value >>= (λ a. each f values >>= (λ rest. ok (a ∷ rest)))

unfoldable pub array_of {ℓ} : {A : Type ℓ} → (Json → Result A) → Json → Result (List A)
unfolding each
array_of f (array items) = each f (listed_items items)
array_of f _ = err validation

module _ {ℓ} {A : Type ℓ} (id_of : A → Text) where
  -- `uniqueById`, which sets the values one by one.
  unfoldable pub index_onto : Dict A → List A → Result (Dict A)
  unfolding insert lookup
  index_onto result [] = ok result
  index_onto result (value ∷ values) =
      let rest = index_onto (insert (id_of value) value result) values in
      if is_some (lookup (id_of value) result) then err validation else rest

  unfoldable pub unique_by_id : List A → Result (Dict A)
  unfolding index_onto
  unique_by_id values = index_onto [] values

abbrev pub common_keys : List Text
common_keys =
    codes "id"
    ∷ codes "accountId"
    ∷ codes "categoryId"
    ∷ codes "kind"
    ∷ codes "amount"
    ∷ codes "date"
    ∷ codes "note"
    ∷ []

abbrev pub transaction_keys : Version → List Text
transaction_keys version1 = common_keys
transaction_keys version2 =
    common_keys
    ++ (codes "placeId" ∷ codes "items" ∷ codes "attachments" ∷ codes "fiscalReceipt" ∷ [])

unfoldable pub items_field : Version → Dict Json → Result (List BudgetItem)
unfolding array_of item_from lookup
items_field version1 d = ok []
items_field version2 d = array_of item_from (value_at (codes "items") d)

unfoldable pub attachments_field : Version → Dict Json → Result (List BudgetAttachment)
unfolding array_of attachment_from lookup
attachments_field version1 d = ok []
attachments_field version2 d = array_of attachment_from (value_at (codes "attachments") d)

unfoldable pub null_or {ℓ} : {A : Type ℓ} → (Json → Result A) → Json → Result (Option A)
null_or f null = ok none
null_or f value = f value >>= (λ a. ok (some a))

unfoldable pub place_field : Version → Dict Json → Result (Option Text)
unfolding null_or identifier lookup
place_field version1 d = ok none
place_field version2 d = null_or identifier (value_at (codes "placeId") d)

unfoldable pub receipt_field : Version → Dict Json → Result (Option FiscalReceipt)
unfolding null_or fiscal_receipt_from lookup
receipt_field version1 d = ok none
receipt_field version2 d = null_or fiscal_receipt_from (value_at (codes "fiscalReceipt") d)

unfoldable pub transaction_from : Bool → Version → Json → Result BudgetTransaction
unfolding fields_of identifier transaction_kind positive_money valid_date string_field lookup
    items_field attachments_field place_field receipt_field unique_by_id
transaction_from tagged version value = do
  d ← fields_of tagged (codes "transaction") (transaction_keys version) value
  items ← items_field version d
  attachments ← attachments_field version d
  item_index ← unique_by_id (λ (i : BudgetItem). i.id) items
  attachment_index ← unique_by_id (λ (a : BudgetAttachment). a.id) attachments
  id ← identifier (value_at (codes "id") d)
  account_id ← identifier (value_at (codes "accountId") d)
  category_id ← identifier (value_at (codes "categoryId") d)
  kind ← transaction_kind (value_at (codes "kind") d)
  amount ← positive_money (value_at (codes "amount") d)
  date ← valid_date (value_at (codes "date") d)
  note ← string_field (value_at (codes "note") d)
  place_id ← place_field version d
  receipt ← receipt_field version d
  ok (record {
    id = id;
    account_id = account_id;
    category_id = category_id;
    kind = kind;
    amount = amount;
    date = date;
    note = note;
    place_id = place_id;
    items = items;
    attachments = attachments;
    fiscal_receipt = receipt;
  })
