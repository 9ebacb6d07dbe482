-- ===== src/Tests/Budgets.antt =====
-- A budget of one account, with an expense at a place and its receipt, and a vault with two writers.
use arxhub.Base.{
  All, Option, Text, [], codes, decimal_value, err, is_safe, is_safe_ℤ, length, negsuc, none, ok,
  pos, refl, some, text_eq, true, validation, ℕ, ℤ, ◌*◌, ◌++◌, ◌+ℤ◌, ◌-ℤ◌, ◌^◌, ◌↔◌, ◌∷◌, ◌≡◌,
}
use arxhub.Budget.Attached.{IsAllApart, attached, validate_budget-IsAllApart}
use arxhub.Budget.Balances.{account_balance-amounts, amounts_of}
use arxhub.Budget.Calendar.{IsDate, valid_date_string_iff}
use arxhub.Budget.Calendar.Readers.{date_text}
use arxhub.Budget.Dates.{valid_date_string}
use arxhub.Budget.Model.{
  BudgetAccount, BudgetCategory, BudgetData, BudgetItem, BudgetPlace, BudgetTransaction,
  FiscalReceipt, expense, income,
}
use arxhub.Budget.Money.{calculate_item_total}
use arxhub.Budget.Resolved.{IsResolved, validate_budget-IsResolved}
use arxhub.Budget.RoundTrip.Whole.{validate_budget-budget_json}
use arxhub.Budget.Rounding.{IsNearest, calculate_item_total-IsNearest}
use arxhub.Budget.Rounding.Quantities.{IsNumeral}
use arxhub.Budget.Totals.{account_balance, find_account}
use arxhub.Budget.Whole.{budget_json, validate_budget}

two_digits_each : Text → Option ℕ
two_digits_each currency = some 2

abbrev cash : BudgetAccount
cash = record {
  id = codes "cash";
  name = codes "Cash";
  currency = codes "RUB";
  opening_balance = negsuc 9;
}

abbrev food : BudgetCategory
food = record { id = codes "food"; name = codes "Food"; kind = expense }

abbrev shop : BudgetPlace
shop = record { id = codes "shop"; name = codes "Shop"; latitude = none; longitude = none }

abbrev bread : BudgetItem
bread = record {
  id = codes "bread";
  name = codes "Bread";
  quantity = codes "1.5";
  unit_price = 41;
  total = 62;
}

abbrev slip : FiscalReceipt
slip = record {
  fn = codes "1234567890123456";
  fd = codes "12";
  fp = codes "34";
  issued_at = codes "2024-02-29T10:30";
  total = 62;
  operation = 1;
}

abbrev bought : BudgetTransaction
bought = record {
  id = codes "t1";
  account_id = codes "cash";
  category_id = codes "food";
  kind = expense;
  amount = 62;
  date = codes "2024-02-29";
  note = [];
  place_id = some (codes "shop");
  items = bread ∷ [];
  attachments = [];
  fiscal_receipt = some slip;
}

abbrev sample : BudgetData
sample = record {
  accounts = cash ∷ [];
  categories = food ∷ [];
  places = shop ∷ [];
  transactions = bought ∷ [];
}

sample-valid : validate_budget two_digits_each (budget_json sample) ≡ ok sample
unfolding validate_budget two_digits_each
sample-valid = refl

validate_budget-budget_json_example :
    validate_budget two_digits_each (budget_json sample) ≡ ok sample
validate_budget-budget_json_example =
    validate_budget-budget_json two_digits_each (budget_json sample) sample sample-valid

cash_found : find_account (codes "cash") (cash ∷ []) ≡ some cash
unfolding text_eq
cash_found = refl

account_balance-amounts_example :
    (z : ℤ) × (account_balance two_digits_each sample (codes "cash") ≡ ok z)
    × (is_safe_ℤ z ≡ true)
    × (z
        ≡ (negsuc 9 +ℤ pos (amounts_of income (codes "cash") (bought ∷ [])))
          -ℤ pos (amounts_of expense (codes "cash") (bought ∷ [])))
account_balance-amounts_example =
    account_balance-amounts two_digits_each (budget_json sample) sample (codes "cash") cash
      sample-valid cash_found

validate_budget-IsResolved_example : All (IsResolved sample) (bought ∷ [])
validate_budget-IsResolved_example =
    validate_budget-IsResolved two_digits_each (budget_json sample) sample sample-valid

calculated : calculate_item_total (pos 41) (codes "1.5") ≡ ok 62
unfolding calculate_item_total
calculated = refl

calculate_item_total-IsNearest_example :
    (whole : Text) × (part : Text) × IsNumeral whole part (codes "1.5")
    × (is_safe 62 ≡ true)
    × IsNearest (10 ^ length part) (41 * decimal_value 0 (whole ++ part)) 62
calculate_item_total-IsNearest_example =
    calculate_item_total-IsNearest 41 62 (codes "1.5") calculated

-- The same purchase once more, with a receipt of its own.
abbrev again : BudgetTransaction
again = record bought { id = codes "t2"; fiscal_receipt = some (record slip { fd = codes "013" }) }

abbrev two_receipts : BudgetData
two_receipts = record sample { transactions = bought ∷ again ∷ [] }

two_receipts-valid : validate_budget two_digits_each (budget_json two_receipts) ≡ ok two_receipts
unfolding validate_budget two_digits_each
two_receipts-valid = refl

-- A zero before the document number does not make a receipt another.
same_receipt_refused :
    validate_budget two_digits_each (
      budget_json (record sample {
        transactions =
            bought ∷ record again { fiscal_receipt = some (record slip { fd = codes "012" }) } ∷ [];
      }))
    ≡ err validation
unfolding validate_budget two_digits_each
same_receipt_refused = refl

validate_budget-IsAllApart_example : IsAllApart (attached (bought ∷ again ∷ []))
validate_budget-IsAllApart_example =
    validate_budget-IsAllApart two_digits_each (budget_json two_receipts) two_receipts
      two_receipts-valid

valid_date_string_iff_example :
    (valid_date_string (codes "2024-02-29") ≡ ok (codes "2024-02-29")) ↔ (
      (year : ℕ) × (month : ℕ) × (day : ℕ) × (codes "2024-02-29" ≡ date_text year month day)
      × IsDate year month day)
valid_date_string_iff_example = valid_date_string_iff (codes "2024-02-29")
