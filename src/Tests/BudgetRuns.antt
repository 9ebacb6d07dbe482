-- ===== src/Tests/BudgetRuns.antt =====
-- Runs of the budget's definitions.
use arxhub.Base.{
  Option, Text, [], budget_error, codes, err, false, is_space, negsuc, none, ok, pos, refl, some,
  text_eq, true, validation, ℕ, ◌∷◌, ◌≡◌,
}
use arxhub.Budget.Dates.{valid_date_string, valid_local_date_time}
use arxhub.Budget.Fields.{receipt_extension}
use arxhub.Budget.Fiscal.{fiscal_qr, parse_fiscal_fields, qr_time}
use arxhub.Budget.Json.{string}
use arxhub.Budget.Model.{BudgetAccount, BudgetData, BudgetTransaction, FiscalReceipt, expense}
use arxhub.Budget.Money.{parse_amount}
use arxhub.Budget.Months.{budget_months}
use arxhub.Budget.Totals.{category_totals, monthly_totals}
use arxhub.Budget.Update.{is_conflict_copy}

roubles : Text → Option ℕ
roubles currency = some 2

amounts :
    (parse_amount roubles (codes " -12,5") (codes "RUB") ≡ ok (negsuc 1249))
    × (parse_amount roubles (codes "1.234") (codes "RUB") ≡ err budget_error)
    × (parse_amount roubles (codes "1.") (codes "RUB") ≡ err budget_error)
    × (parse_amount roubles (codes "1") (codes "rub") ≡ err budget_error)
unfolding parse_amount roubles is_space
amounts = (refl, refl, refl, refl)

dates :
    (valid_date_string (codes "2024-02-29") ≡ ok (codes "2024-02-29"))
    × (valid_date_string (codes "2023-02-29") ≡ err validation)
    × (valid_date_string (codes "0000-01-01") ≡ err validation)
    × (valid_local_date_time (codes "2024-02-29T23:59:60") ≡ err validation)
    × (valid_local_date_time (codes "2024-02-29T23:59") ≡ ok (codes "2024-02-29T23:59"))
unfolding valid_date_string valid_local_date_time
dates = (refl, refl, refl, refl, refl)

paths :
    (receipt_extension (codes "receipts/01234567-89ab-cdef-0123-456789abcdef.png")
      ≡ some (codes "png"))
    × (receipt_extension (codes "receipts/01234567-89ab-cdef-0123-456789abcdeF.png") ≡ none)
    × (is_conflict_copy (codes "conflict-01234567-budget-2.jsonl") ≡ true)
    × (is_conflict_copy (codes "conflict-01234567-budgets.jsonl") ≡ false)
unfolding receipt_extension is_conflict_copy
paths = (refl, refl, refl, refl)

abbrev slip : FiscalReceipt
slip = record {
  fn = codes "1234567890123456";
  fd = codes "12";
  fp = codes "34";
  issued_at = codes "2024-02-29T10:30";
  total = 6205;
  operation = 1;
}

by_hand :
    parse_fiscal_fields roubles (record {
      fn = codes "1234567890123456 ";
      fd = codes "0012";
      fp = codes "34";
      issued_at = codes "2024-02-29T10:30";
      amount = codes "62,05";
      operation = string (codes " 1");
    })
    ≡ ok slip
unfolding parse_fiscal_fields roubles is_space text_eq
by_hand = refl

by_code : fiscal_qr slip ≡ ok (codes "t=20240229T1030&s=62.05&fn=1234567890123456&i=12&fp=34&n=1")
unfolding fiscal_qr text_eq
by_code = refl

times :
    (qr_time (codes "20240229T103059") ≡ ok (codes "2024-02-29T10:30:59"))
    × (qr_time (codes "20240229T1030") ≡ ok (codes "2024-02-29T10:30"))
    × (qr_time (codes "20240229T10305") ≡ err budget_error)
unfolding qr_time
times = (refl, refl, refl)

abbrev card : BudgetAccount
card = record {
  id = codes "card";
  name = codes "Card";
  currency = codes "RUB";
  opening_balance = pos 0;
}

abbrev spent : Text → Text → ℕ → BudgetTransaction
spent id date amount = record {
  id = id;
  account_id = codes "card";
  category_id = codes "food";
  kind = expense;
  amount = amount;
  date = date;
  note = [];
  place_id = none;
  items = [];
  attachments = [];
  fiscal_receipt = none;
}

abbrev year_end : BudgetData
year_end = record {
  accounts = card ∷ [];
  categories = record { id = codes "food"; name = codes "Food"; kind = expense } ∷ [];
  places = [];
  transactions =
      spent (codes "a") (codes "2023-12-31") 5
      ∷ spent (codes "b") (codes "2024-01-01") 7
      ∷ spent (codes "c") (codes "2023-12-30") 1
      ∷ [];
}

by_month :
    budget_months year_end (codes "2024-02")
    ≡ ok (
        record {
          year = codes "2024";
          months =
              record { month = codes "2024-02"; expenses = [] }
              ∷ record {
                month = codes "2024-01";
                expenses = record { currency = codes "RUB"; amount = 7 } ∷ [];
              }
              ∷ [];
        }
        ∷ record {
          year = codes "2023";
          months =
              record {
                month = codes "2023-12";
                expenses = record { currency = codes "RUB"; amount = 6 } ∷ [];
              }
              ∷ [];
        }
        ∷ [])
unfolding budget_months
by_month = refl

totals :
    (monthly_totals roubles year_end (codes "2023-12")
      ≡ ok (
          record { currency = codes "RUB"; income_total = 0; expense_total = 6; balance = negsuc 5 }
          ∷ []))
    × (category_totals roubles year_end (codes "2023-12")
        ≡ ok (record { category_id = codes "food"; currency = codes "RUB"; amount = 6 } ∷ []))
unfolding monthly_totals category_totals roubles
totals = (refl, refl)
