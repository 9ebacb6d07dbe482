-- ===== src/Budget/Receipts.antt =====
-- `parseReceiptJson` of plugins/budget/src/fiscal.ts: a receipt as the tax service gives it. `Date.parse`,
-- `String` of a number and `crypto.randomUUID` are parameters.
use arxhub.Base.{
  Bool, List, Option, Result, Text, [], budget_error, codes, err, if◌then◌else◌, leb, length, none,
  not, ok, some, suc, take, text_eq, true, ℕ, ℤ, ◌&&◌, ◌+◌, ◌==◌, ◌>>=◌, ◌∷◌,
}
use arxhub.Base.Dict.{Dict, lookup, values}
use arxhub.Budget.Dates.{is_empty_text}
use arxhub.Budget.Fiscal.{fiscal_receipt_key}
use arxhub.Budget.Json.{
  Json, array, fraction, infinite, integer, listed_items, member, no_members, object, string,
  value_at,
}
use arxhub.Budget.Model.{BudgetItem, FiscalReceipt}
use arxhub.Budget.Money.{has_nonzero_digit, take_digits}
use arxhub.Budget.ReceiptFields.{
  fiscal_number, integer_value, object_value, receipt_date, text_value, unwrap,
}
use arxhub.Budget.Records.{fiscal_receipt_from}
use arxhub.Budget.Whole.{number}

pub record ImportedReceipt : Type 0 where
  pub fiscal_receipt : FiscalReceipt
  pub merchant_name : Text
  pub address : Text
  pub items : List BudgetItem

-- What the import has to agree on with the receipt that was expected.
unfoldable pub matches : FiscalReceipt → Option FiscalReceipt → Bool
unfolding text_eq fiscal_receipt_key
matches r none = true
matches r (some expected) =
    text_eq (fiscal_receipt_key r) (fiscal_receipt_key expected)
    && ((r.total == expected.total)
        && ((r.operation == expected.operation)
            && text_eq (take 16 r.issued_at) (take 16 expected.issued_at)))

-- `/^\d+(?:\.\d{1,6})?$/` and `/[1-9]/`
unfoldable pub is_receipt_quantity : Text → Bool
unfolding take_digits has_nonzero_digit
is_receipt_quantity text =
    let (whole, rest) = take_digits text in
    not (is_empty_text whole) && (is_ending rest && has_nonzero_digit text)
  where
    is_ending : Text → Bool
    is_ending [] = true
    is_ending (c ∷ more) =
        let (digits, end) = take_digits more in
        (c == b'.') && (is_empty_text end && (leb 1 (length digits) && leb (length digits) 6))

-- `items.reduce`
unfoldable pub total_sum : List BudgetItem → ℕ
total_sum [] = 0
total_sum (i ∷ items) = i.total + total_sum items

abbrev pub item_count : Json → Option (List Json)
item_count (array items) = some (listed_items items)
item_count _ = none

unfoldable pub merchant_name_of : Dict Json → Result Text
unfolding text_value lookup
merchant_name_of d = elim (text_value (value_at (codes "retailPlace") d)) [
  | ok text ↦ ok text
  | err e ↦ text_value (value_at (codes "user") d)
]

unfoldable pub address_of : Dict Json → Text
unfolding lookup
address_of d = elim (value_at (codes "retailPlaceAddress") d) [
  | string text ↦ text
  | _ ↦ elim (value_at (codes "retailAddress") d) [ string text ↦ text | _ ↦ [] ]
]

module _ (date_parse : Text → Option ℤ) (number_text : Json → Text) (random_uuid : ℕ → Text) where
  unfoldable pub receipt_quantity : Json → Result Text
  unfolding is_receipt_quantity text_value
  receipt_quantity value =
      quantity_text value
      >>= (λ text. if is_receipt_quantity text then ok text else err budget_error)
    where
      quantity_text : Json → Result Text
      quantity_text (integer z) = ok (number_text (integer z))
      quantity_text (fraction z digits) = ok (number_text (fraction z digits))
      quantity_text (infinite sign) = ok (number_text (infinite sign))
      quantity_text other = text_value other

  -- The item of an index.
  unfoldable pub receipt_item : ℕ → Json → Result BudgetItem
  unfolding object_value receipt_quantity text_value integer_value lookup
  receipt_item index value = do
    d ← object_value value
    quantity ← receipt_quantity (value_at (codes "quantity") d)
    name ← text_value (value_at (codes "name") d)
    price ← integer_value (value_at (codes "price") d)
    sum ← integer_value (value_at (codes "sum") d)
    ok (record {
      id = random_uuid index;
      name = name;
      quantity = quantity;
      unit_price = price;
      total = sum;
    })

  unfoldable pub receipt_items : ℕ → List Json → Result (List BudgetItem)
  unfolding receipt_item
  receipt_items index [] = ok []
  receipt_items index (value ∷ values) =
      receipt_item index value
      >>= (λ i. receipt_items (suc index) values >>= (λ items. ok (i ∷ items)))

  -- Between one and ten thousand items.
  unfoldable pub items_in : Json → Result (List BudgetItem)
  unfolding receipt_items
  items_in value = elim (item_count value) [
    | none ↦ err budget_error
    | some values ↦
        if leb 1 (length values) && leb (length values) 10000
        then receipt_items 0 values
        else err budget_error
  ]

  unfoldable pub receipt_head : Dict Json → Option FiscalReceipt → Result FiscalReceipt
  unfolding receipt_date fiscal_number integer_value fiscal_receipt_from lookup
  receipt_head d expected = do
    date ← receipt_date date_parse (value_at (codes "dateTime") d) expected
    fn ← fiscal_number (value_at (codes "fiscalDriveNumber") d)
    fd ← fiscal_number (value_at (codes "fiscalDocumentNumber") d)
    fp ← fiscal_number (value_at (codes "fiscalSign") d)
    total ← integer_value (value_at (codes "totalSum") d)
    fiscal_receipt_from (
        object (
          member (codes "fn") (string fn) (
            member (codes "fd") (string fd) (
              member (codes "fp") (string fp) (
                member (codes "issuedAt") (string date) (
                  member (codes "total") (number total) (
                    member (codes "operation") (value_at (codes "operationType") d)
                      no_members)))))))

  unfoldable pub parse_receipt_json : Json → Option FiscalReceipt → Result ImportedReceipt
  unfolding object_value unwrap receipt_head matches items_in total_sum merchant_name_of address_of
  parse_receipt_json value expected = do
    whole ← object_value value
    document ← unwrap (codes "document") whole
    receipt ← unwrap (codes "receipt") document
    d ← unwrap (codes "bso") receipt
    r ← receipt_head d expected
    head ← (if matches r expected then ok r else err budget_error)
    items ← items_in (value_at (codes "items") d)
    summed ← (if total_sum items == head.total then ok items else err budget_error)
    merchant ← merchant_name_of d
    ok (record {
      fiscal_receipt = head;
      merchant_name = merchant;
      address = address_of d;
      items = summed;
    })
