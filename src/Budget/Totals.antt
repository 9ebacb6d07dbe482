-- ===== src/Budget/Totals.antt =====
-- `accountBalance`, `monthlyTotals` and `categoryTotals` of plugins/budget/src/model.ts.
use arxhub.Base.{
  Bool, List, Option, Result, Text, [], err, if◌then◌else◌, none, ok, pos, some, sort_by,
  starts_with, sub_ℕ, text_eq, text_less, validation, ℕ, ℤ, ◌++◌, ◌+ℤ◌, ◌>>=◌, ◌∷◌,
}
use arxhub.Base.Dict.{Dict, insert, lookup, values}
use arxhub.Budget.Dates.{is_empty_text, valid_month}
use arxhub.Budget.Model.{
  BudgetAccount, BudgetData, BudgetTransaction, CategoryTotal, MonthlyTotal, expense, income,
}
use arxhub.Budget.Sums.{accounts_by_id, checked_add, checked_sum, safe_big_int, signed_amount}
use arxhub.Budget.Whole.{budget_json, validate_budget}

-- `find` of the value with an id
abbrev pub find_by {ℓ} : {A : Type ℓ} → (A → Text) → Text → List A → Option A
find_by id_of id [] = none
find_by id_of id (a ∷ values) =
    let rest = find_by id_of id values in if text_eq (id_of a) id then some a else rest

abbrev pub find_account : Text → List BudgetAccount → Option BudgetAccount
find_account id accounts = find_by (λ (a : BudgetAccount). a.id) id accounts

-- The loop of `accountBalance`.
unfoldable pub balance_onto : Text → ℤ → List BudgetTransaction → ℤ
unfolding text_eq ◌+ℤ◌
balance_onto id balance [] = balance
balance_onto id balance (t ∷ ts) =
    balance_onto id
      (if text_eq t.account_id id then balance +ℤ signed_amount t.kind t.amount else balance) ts

unfoldable pub balance_in : Text → BudgetData → Result ℤ
unfolding balance_onto safe_big_int text_eq
balance_in id b = elim (find_account id b.accounts) [
  | none ↦ err validation
  | some account ↦ safe_big_int (balance_onto id account.opening_balance b.transactions)
]

unfoldable pub account_balance : (Text → Option ℕ) → BudgetData → Text → Result ℤ
unfolding validate_budget balance_in
account_balance intl value id = validate_budget intl (budget_json value) >>= balance_in id

-- `date.startsWith(`${month}-`)`
abbrev pub is_in_month : Text → BudgetTransaction → Bool
is_in_month month t = starts_with t.date (month ++ (b'-' ∷ []))

unfoldable pub total_of : Text → Dict MonthlyTotal → MonthlyTotal
unfolding lookup
total_of currency totals = elim (lookup currency totals) [
  | none ↦ record { currency = currency; income_total = 0; expense_total = 0; balance = pos 0 }
  | some total ↦ total
]

-- The income and the expense, of which the transaction's kind says which one takes the amount.
unfoldable pub add_kind : BudgetTransaction → MonthlyTotal → Result (ℕ × ℕ)
unfolding checked_sum
add_kind t total = elim t.kind [
  | income ↦ checked_sum total.income_total t.amount >>= (λ sum. ok (sum, total.expense_total))
  | expense ↦ checked_sum total.expense_total t.amount >>= (λ sum. ok (total.income_total, sum))
]

unfoldable pub add_month_total : BudgetTransaction → MonthlyTotal → Result MonthlyTotal
unfolding add_kind checked_add
add_month_total t total = do
  sums ← add_kind t total
  balance ← checked_add (pos sums.0) (sub_ℕ 0 sums.1)
  ok (record {
    currency = total.currency;
    income_total = sums.0;
    expense_total = sums.1;
    balance = balance;
  })

unfoldable pub month_totals_onto :
    Text
    → Dict BudgetAccount
    → Dict MonthlyTotal
    → List BudgetTransaction
    → Result (Dict MonthlyTotal)
unfolding lookup insert total_of add_month_total starts_with
month_totals_onto month accounts totals [] = ok totals
month_totals_onto month accounts totals (t ∷ ts) =
    if is_in_month month t
    then (elim (lookup t.account_id accounts) [
      | none ↦ month_totals_onto month accounts totals ts
      | some account ↦
          add_month_total t (total_of account.currency totals)
          >>= (λ total. month_totals_onto month accounts (insert account.currency total totals) ts)
    ])
    else month_totals_onto month accounts totals ts

unfoldable pub monthly_totals : (Text → Option ℕ) → BudgetData → Text → Result (List MonthlyTotal)
unfolding validate_budget valid_month month_totals_onto values sort_by text_less accounts_by_id
monthly_totals intl value month = do
  b ← validate_budget intl (budget_json value)
  m ← valid_month month
  totals ← month_totals_onto month (accounts_by_id b) [] b.transactions
  ok (sort_by (λ (x y : MonthlyTotal). text_less x.currency y.currency) (values totals))

abbrev pub total_key : Text → Text → Text
total_key category currency = category ++ (0 ∷ currency)

unfoldable pub add_category_total :
    BudgetTransaction → Text → Dict CategoryTotal → Result (Dict CategoryTotal)
unfolding lookup insert checked_sum
add_category_total t currency totals =
    let so_far : ℕ = elim (lookup (total_key t.category_id currency) totals) [
      | none ↦ 0
      | some total ↦ total.amount
    ] in
    checked_sum so_far t.amount >>= (λ sum. ok (
      insert (total_key t.category_id currency)
        (record { category_id = t.category_id; currency = currency; amount = sum }) totals))

unfoldable pub category_totals_onto :
    Text
    → Dict BudgetAccount
    → Dict CategoryTotal
    → List BudgetTransaction
    → Result (Dict CategoryTotal)
unfolding lookup add_category_total starts_with
category_totals_onto month accounts totals [] = ok totals
category_totals_onto month accounts totals (t ∷ ts) =
    if is_in_month month t
    then (elim (lookup t.account_id accounts) [
      | none ↦ category_totals_onto month accounts totals ts
      | some account ↦
          if is_empty_text account.currency
          then category_totals_onto month accounts totals ts
          else add_category_total t account.currency totals
            >>= (λ more. category_totals_onto month accounts more ts)
    ])
    else category_totals_onto month accounts totals ts

-- By category, and by currency within one.
unfoldable pub category_less : CategoryTotal → CategoryTotal → Bool
unfolding text_eq text_less
category_less a b =
    if text_eq a.category_id b.category_id
    then text_less a.currency b.currency
    else text_less a.category_id b.category_id

unfoldable pub category_totals : (Text → Option ℕ) → BudgetData → Text → Result (List CategoryTotal)
unfolding validate_budget valid_month category_totals_onto values sort_by category_less
    accounts_by_id
category_totals intl value month = do
  b ← validate_budget intl (budget_json value)
  m ← valid_month month
  totals ← category_totals_onto month (accounts_by_id b) [] b.transactions
  ok (sort_by category_less (values totals))
