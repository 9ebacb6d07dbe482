-- ===== src/Budget/References.antt =====
-- `validateReferences` of plugins/budget/src/model.ts.
use arxhub.Base.{
  Bool, List, Option, Result, Text, [], codes, decimal, decimal_value, err, if◌then◌else◌, none,
  not, ok, some, text_eq, true, validation, ◌&&◌, ◌++◌, ◌==◌, ◌>>=◌, ◌∷◌,
}
use arxhub.Base.Dict.{Dict, insert, is_some, lookup}
use arxhub.Budget.Model.{
  BudgetAccount, BudgetCategory, BudgetData, BudgetPlace, BudgetTransaction, FiscalReceipt, expense,
  income, same_kind,
}
use arxhub.Budget.Transactions.{unique_by_id}

-- `key` of a fiscal receipt: leading zeros do not count.
unfoldable pub receipt_key : FiscalReceipt → Text
unfolding decimal decimal_value
receipt_key r =
    r.fn ++ (0 ∷ (decimal (decimal_value 0 r.fd) ++ (0 ∷ decimal (decimal_value 0 r.fp))))

-- What a fiscal receipt asks of its transaction and the account.
unfoldable pub fits_receipt : BudgetAccount → BudgetTransaction → FiscalReceipt → Bool
unfolding text_eq same_kind
fits_receipt account t r =
    text_eq account.currency (codes "RUB")
    && ((r.total == t.amount)
        && (not ((r.operation == 1) && not (same_kind t.kind expense))
            && not ((r.operation == 2) && not (same_kind t.kind income))))

-- The receipts so far by their keys, each with the transaction it is attached to.
unfoldable pub check_receipt :
    BudgetAccount → BudgetTransaction → Dict Text → Option FiscalReceipt → Result (Dict Text)
unfolding fits_receipt receipt_key insert lookup
check_receipt account t receipts none = ok receipts
check_receipt account t receipts (some r) =
    if fits_receipt account t r && not (is_some (lookup (receipt_key r) receipts))
    then ok (insert (receipt_key r) t.id receipts)
    else err validation

unfoldable pub has_place : Dict BudgetPlace → Option Text → Bool
unfolding lookup
has_place places none = true
has_place places (some id) = is_some (lookup id places)

-- The maps that `validateReferences` builds.
pub record Indexes : Type 0 where
  pub accounts : Dict BudgetAccount
  pub categories : Dict BudgetCategory
  pub places : Dict BudgetPlace

-- The body of the loop.
unfoldable pub check_transaction : Indexes → BudgetTransaction → Dict Text → Result (Dict Text)
unfolding lookup same_kind has_place check_receipt
check_transaction x t receipts = elim (lookup t.account_id x.accounts) [
  | none ↦ err validation
  | some account ↦ elim (lookup t.category_id x.categories) [
    | none ↦ err validation
    | some category ↦
        if same_kind category.kind t.kind && has_place x.places t.place_id
        then check_receipt account t receipts t.fiscal_receipt
        else err validation
  ]
]

unfoldable pub check_transactions :
    Indexes → List BudgetTransaction → Dict Text → Result (Dict Text)
unfolding check_transaction
check_transactions x [] receipts = ok receipts
check_transactions x (t ∷ ts) receipts = check_transaction x t receipts >>= check_transactions x ts

unfoldable pub indexes_of : BudgetData → Result Indexes
unfolding unique_by_id
indexes_of data_in = do
  accounts ← unique_by_id (λ (a : BudgetAccount). a.id) data_in.accounts
  categories ← unique_by_id (λ (c : BudgetCategory). c.id) data_in.categories
  places ← unique_by_id (λ (p : BudgetPlace). p.id) data_in.places
  transactions ← unique_by_id (λ (t : BudgetTransaction). t.id) data_in.transactions
  ok (record { accounts = accounts; categories = categories; places = places })

-- The receipts are what the loop ends with.
unfoldable pub validate_references : BudgetData → Result (Dict Text)
unfolding indexes_of check_transactions
validate_references data_in = do
  x ← indexes_of data_in
  check_transactions x data_in.transactions []
