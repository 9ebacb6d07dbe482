-- ===== src/Budget/Whole.antt =====
-- `validateBudget` of plugins/budget/src/model.ts, and the values it is given: a budget of the program's
-- own as the object that it is, and its records as `JSON.stringify` writes them.
use arxhub.Base.{
  Bool, List, Option, Result, Text, [], codes, err, false, if◌then◌else◌, map, none, ok, pos, some,
  true, validation, ℕ, ◌==◌, ◌>>=◌, ◌∷◌,
}
use arxhub.Base.Dict.{Dict, lookup, values}
use arxhub.Budget.Fields.{kind_name, object_with_keys}
use arxhub.Budget.Json.{
  Json, Members, array, dict_of, integer, items_of, member, no_members, null, object, or_null,
  string, value_at,
}
use arxhub.Budget.Model.{
  BudgetAccount, BudgetAttachment, BudgetCategory, BudgetData, BudgetItem, BudgetPlace,
  BudgetTransaction, FiscalReceipt,
}
use arxhub.Budget.Records.{account_from, category_from, place_from}
use arxhub.Budget.References.{validate_references}
use arxhub.Budget.Sums.{validate_aggregate_safety}
use arxhub.Budget.Transactions.{Version, array_of, transaction_from, version1, version2}

abbrev pub number : ℕ → Json
number n = integer (pos n)

abbrev pub is_number : ℕ → Json → Bool
is_number n (integer (pos m)) = m == n
is_number n _ = false

abbrev pub budget_keys : Version → List Text
budget_keys version1 =
    codes "version" ∷ codes "accounts" ∷ codes "categories" ∷ codes "transactions" ∷ []
budget_keys version2 =
    codes "version"
    ∷ codes "accounts"
    ∷ codes "categories"
    ∷ codes "places"
    ∷ codes "transactions"
    ∷ []

unfoldable pub version_of : Json → Result Version
version_of value =
    if is_number 1 value
    then ok version1
    else (if is_number 2 value then ok version2 else err validation)

unfoldable pub places_of : Version → Dict Json → Result (List BudgetPlace)
unfolding array_of place_from lookup
places_of version1 d = ok []
places_of version2 d = array_of (place_from false) (value_at (codes "places") d)

unfoldable pub read_budget : (Text → Option ℕ) → Json → Result BudgetData
unfolding version_of object_with_keys array_of account_from category_from places_of transaction_from
    lookup
read_budget intl (object members) = do
  version ← version_of (value_at (codes "version") (dict_of members))
  d ← object_with_keys (budget_keys version) (object members)
  accounts ← array_of (account_from intl false) (value_at (codes "accounts") d)
  categories ← array_of (category_from false) (value_at (codes "categories") d)
  places ← places_of version d
  transactions ← array_of (transaction_from false version) (value_at (codes "transactions") d)
  ok (record {
    accounts = accounts;
    categories = categories;
    places = places;
    transactions = transactions;
  })
read_budget intl _ = err validation

-- The two checks of a whole budget.
unfoldable pub check_budget : BudgetData → Result BudgetData
unfolding validate_references validate_aggregate_safety
check_budget data_in = do
  receipts ← validate_references data_in
  sums ← validate_aggregate_safety data_in
  ok data_in

unfoldable pub validate_budget : (Text → Option ℕ) → Json → Result BudgetData
unfolding read_budget check_budget
validate_budget intl value = read_budget intl value >>= check_budget

abbrev pub option_json {ℓ} : {A : Type ℓ} → (A → Json) → Option A → Json
option_json f none = null
option_json f (some a) = f a

abbrev pub list_json {ℓ} : {A : Type ℓ} → (A → Json) → List A → Json
list_json f values = array (items_of (map f values))

-- `{ type, ...record }`, or the record itself.
abbrev pub tagged_with : Bool → Text → Members → Json
tagged_with false kind members = object members
tagged_with true kind members = object (member (codes "type") (string kind) members)

abbrev pub account_members : BudgetAccount → Members
account_members a = member (codes "id") (string a.id) (
    member (codes "name") (string a.name) (
      member (codes "currency") (string a.currency)
        (member (codes "openingBalance") (integer a.opening_balance) no_members)))

abbrev pub category_members : BudgetCategory → Members
category_members c = member (codes "id") (string c.id) (
    member (codes "name") (string c.name)
      (member (codes "kind") (string (kind_name c.kind)) no_members))

abbrev pub place_members : BudgetPlace → Members
place_members p = member (codes "id") (string p.id) (
    member (codes "name") (string p.name) (
      member (codes "latitude") (or_null p.latitude)
        (member (codes "longitude") (or_null p.longitude) no_members)))

abbrev pub item_json : BudgetItem → Json
item_json i = object (
    member (codes "id") (string i.id) (
      member (codes "name") (string i.name) (
        member (codes "quantity") (string i.quantity) (
          member (codes "unitPrice") (number i.unit_price)
            (member (codes "total") (number i.total) no_members)))))

abbrev pub attachment_json : BudgetAttachment → Json
attachment_json a = object (
    member (codes "id") (string a.id) (
      member (codes "path") (string a.path) (
        member (codes "name") (string a.name) (
          member (codes "mimeType") (string a.mime_type)
            (member (codes "size") (number a.size) no_members)))))

abbrev pub receipt_json : FiscalReceipt → Json
receipt_json r = object (
    member (codes "fn") (string r.fn) (
      member (codes "fd") (string r.fd) (
        member (codes "fp") (string r.fp) (
          member (codes "issuedAt") (string r.issued_at) (
            member (codes "total") (number r.total)
              (member (codes "operation") (number r.operation) no_members))))))

abbrev pub transaction_members : BudgetTransaction → Members
transaction_members t = member (codes "id") (string t.id) (
    member (codes "accountId") (string t.account_id) (
      member (codes "categoryId") (string t.category_id) (
        member (codes "kind") (string (kind_name t.kind)) (
          member (codes "amount") (number t.amount) (
            member (codes "date") (string t.date) (
              member (codes "note") (string t.note) (
                member (codes "placeId") (option_json string t.place_id) (
                  member (codes "items") (list_json item_json t.items) (
                    member (codes "attachments") (list_json attachment_json t.attachments) (
                      member (codes "fiscalReceipt") (option_json receipt_json t.fiscal_receipt)
                        no_members))))))))))

abbrev pub account_json : Bool → BudgetAccount → Json
account_json tagged a = tagged_with tagged (codes "account") (account_members a)

abbrev pub category_json : Bool → BudgetCategory → Json
category_json tagged c = tagged_with tagged (codes "category") (category_members c)

abbrev pub place_json : Bool → BudgetPlace → Json
place_json tagged p = tagged_with tagged (codes "place") (place_members p)

abbrev pub transaction_json : Bool → BudgetTransaction → Json
transaction_json tagged t = tagged_with tagged (codes "transaction") (transaction_members t)

abbrev pub budget_json : BudgetData → Json
budget_json b = object (
    member (codes "version") (number 2) (
      member (codes "accounts") (list_json (account_json false) b.accounts) (
        member (codes "categories") (list_json (category_json false) b.categories) (
          member (codes "places") (list_json (place_json false) b.places) (
            member (codes "transactions") (list_json (transaction_json false) b.transactions)
              no_members)))))
