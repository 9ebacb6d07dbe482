-- ===== src/Budget/Months.antt =====
-- plugins/budget/src/months.ts: the months a budget has transactions in, with what was spent in each.
-- `monthName`, which formats a date, is not modelled.
use arxhub.Base.{
  Bool, List, Option, Result, Text, [], err, false, if◌then◌else◌, leb, map, none, ok, some,
  sort_by, sort_texts, take, text_eq, text_less, validation, ℕ, ◌&&◌, ◌++◌, ◌>>=◌, ◌∷◌,
}
use arxhub.Base.Dict.{Dict, insert, keys, lookup}
use arxhub.Budget.Dates.{is_empty_text, read_month}
use arxhub.Budget.Model.{BudgetAccount, BudgetData, BudgetTransaction, expense, income}
use arxhub.Budget.Sums.{checked_sum, index_by, month_of, sum_at}

pub record MonthExpense : Type 0 where
  pub currency : Text
  pub amount : ℕ

pub record BudgetMonth : Type 0 where
  pub month : Text
  pub expenses : List MonthExpense

pub record BudgetYear : Type 0 where
  pub year : Text
  pub months : List BudgetMonth

-- `MONTH`
unfoldable pub is_month : Text → Bool
unfolding read_month
is_month text = elim (read_month text) [
  | none ↦ false
  | some (m, rest) ↦ is_empty_text rest && (leb 1 m.year && (leb 1 m.month && leb m.month 12))
]

unfoldable pub expenses_at : Text → Dict (Dict ℕ) → Dict ℕ
unfolding lookup
expenses_at month months = elim (lookup month months) [ none ↦ [] | some totals ↦ totals ]

-- The sum of one currency in one month, as the transaction leaves it.
unfoldable pub add_expense : Text → Option Text → BudgetTransaction → Dict ℕ → Result (Dict ℕ)
unfolding checked_sum sum_at insert
add_expense month none t totals = ok totals
add_expense month (some currency) t totals = elim t.kind [
  | income ↦ ok totals
  | expense ↦
      checked_sum (sum_at currency totals) t.amount >>= (λ sum. ok (insert currency sum totals))
]

unfoldable pub add_to_month : Dict Text → BudgetTransaction → Dict (Dict ℕ) → Result (Dict (Dict ℕ))
unfolding is_month expenses_at add_expense lookup insert
add_to_month currencies t months =
    if is_month (month_of t)
    then (do
      totals ←
          add_expense (month_of t) (lookup t.account_id currencies) t
            (expenses_at (month_of t) months)
      ok (insert (month_of t) totals months))
    else ok months

unfoldable pub months_onto :
    Dict Text → List BudgetTransaction → Dict (Dict ℕ) → Result (Dict (Dict ℕ))
unfolding add_to_month
months_onto currencies [] months = ok months
months_onto currencies (t ∷ ts) months =
    add_to_month currencies t months >>= months_onto currencies ts

-- `years.at(-1)` of the same year takes the month, or a new year does.
unfoldable pub add_to_years : BudgetMonth → List BudgetYear → List BudgetYear
unfolding text_eq
add_to_years m [] = record { year = take 4 m.month; months = m ∷ [] } ∷ []
add_to_years m (y ∷ []) =
    if text_eq y.year (take 4 m.month)
    then record { year = y.year; months = y.months ++ (m ∷ []) } ∷ []
    else y ∷ (record { year = take 4 m.month; months = m ∷ [] } ∷ [])
add_to_years m (y ∷ (z ∷ years)) = y ∷ add_to_years m (z ∷ years)

unfoldable pub expense_list : Dict ℕ → List MonthExpense
unfolding sort_by text_less
expense_list totals =
    map (λ (currency, amount). record { currency = currency; amount = amount })
      (sort_by (λ (x y : Text × ℕ). text_less x.0 y.0) totals)

unfoldable pub years_onto : Dict (Dict ℕ) → List Text → List BudgetYear → List BudgetYear
unfolding add_to_years expense_list expenses_at
years_onto months [] years = years
years_onto months (month ∷ rest) years = years_onto months rest (
    add_to_years (record { month = month; expenses = expense_list (expenses_at month months) })
      years)

-- `reverse()`
abbrev pub reverse_onto {ℓ} : {A : Type ℓ} → List A → List A → List A
reverse_onto [] acc = acc
reverse_onto (x ∷ xs) acc = reverse_onto xs (x ∷ acc)

unfoldable pub budget_months : BudgetData → Text → Result (List BudgetYear)
unfolding is_month months_onto years_onto index_by sort_texts keys
budget_months b current =
    if is_month current
    then (do
      months ←
          months_onto (index_by (λ (a : BudgetAccount). a.id) (λ a. a.currency) [] b.accounts)
            b.transactions ((current, []) ∷ [])
      ok (years_onto months (reverse_onto (sort_texts (keys months)) []) []))
    else err validation
