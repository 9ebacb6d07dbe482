-- ===== src/Budget/Sums.antt =====
-- `checkedAdd`, `safeBigInt` and `validateAggregateSafety` of plugins/budget/src/model.ts.
use arxhub.Base.{
  Bool, List, Result, Text, [], err, if◌then◌else◌, is_safe, is_safe_ℤ, none, ok, pos, some, sub_ℕ,
  take, true, validation, ℕ, ℤ, ◌&&◌, ◌++◌, ◌+ℤ◌, ◌+◌, ◌>>=◌, ◌∷◌,
}
use arxhub.Base.Dict.{Dict, insert, lookup}
use arxhub.Budget.Model.{
  BudgetAccount, BudgetData, BudgetItem, BudgetTransaction, TransactionKind, expense, income,
}

unfoldable pub checked_add : ℤ → ℤ → Result ℤ
unfolding ◌+ℤ◌
checked_add left right = if is_safe_ℤ (left +ℤ right) then ok (left +ℤ right) else err validation

-- `checkedAdd` of two numbers that are not negative.
unfoldable pub checked_sum : ℕ → ℕ → Result ℕ
checked_sum left right = if is_safe (left + right) then ok (left + right) else err validation

unfoldable pub safe_big_int : ℤ → Result ℤ
safe_big_int value = if is_safe_ℤ value then ok value else err validation

-- The amount of a transaction under its sign.
abbrev pub signed_amount : TransactionKind → ℕ → ℤ
signed_amount income amount = pos amount
signed_amount expense amount = sub_ℕ 0 amount

-- `date.slice(0, 7)`
abbrev pub month_of : BudgetTransaction → Text
month_of t = take 7 t.date

abbrev pub monthly_key : Text → Text → Text
monthly_key month currency = month ++ (0 ∷ currency)

abbrev pub category_key : Text → Text → Text → Text
category_key month category currency = month ++ (0 ∷ (category ++ (0 ∷ currency)))

-- `get(key) ?? 0`
unfoldable pub sum_at : Text → Dict ℕ → ℕ
unfolding lookup
sum_at key sums = elim (lookup key sums) [ none ↦ 0 | some n ↦ n ]

unfoldable pub balance_at : Text → Dict ℤ → ℤ
unfolding lookup
balance_at key balances = elim (lookup key balances) [ none ↦ pos 0 | some z ↦ z ]

pub record Sums : Type 0 where
  pub balances : Dict ℤ
  pub monthly_income : Dict ℕ
  pub monthly_expense : Dict ℕ
  pub category_amounts : Dict ℕ

unfoldable pub item_sum : ℕ → List BudgetItem → Result ℕ
unfolding checked_sum
item_sum total [] = ok total
item_sum total (i ∷ items) = checked_sum total i.total >>= (λ sum. item_sum sum items)

unfoldable pub add_to : Text → ℕ → Dict ℕ → Result (Dict ℕ)
unfolding checked_sum sum_at insert
add_to key amount sums = checked_sum (sum_at key sums) amount >>= (λ sum. ok (insert key sum sums))

-- The map of the transaction's kind takes the amount.
unfoldable pub add_monthly : TransactionKind → Text → ℕ → Sums → Result Sums
unfolding add_to
add_monthly income key amount s = do
  sums ← add_to key amount s.monthly_income
  ok (record {
    balances = s.balances;
    monthly_income = sums;
    monthly_expense = s.monthly_expense;
    category_amounts = s.category_amounts;
  })
add_monthly expense key amount s = do
  sums ← add_to key amount s.monthly_expense
  ok (record {
    balances = s.balances;
    monthly_income = s.monthly_income;
    monthly_expense = sums;
    category_amounts = s.category_amounts;
  })

unfoldable pub add_balance : Text → BudgetTransaction → Sums → Sums
unfolding balance_at insert ◌+ℤ◌
add_balance id t s = record {
  balances = insert id (balance_at id s.balances +ℤ signed_amount t.kind t.amount) s.balances;
  monthly_income = s.monthly_income;
  monthly_expense = s.monthly_expense;
  category_amounts = s.category_amounts;
}

-- The body of the loop, for an account that is there.
unfoldable pub add_transaction : BudgetAccount → BudgetTransaction → Sums → Result Sums
unfolding item_sum add_balance add_monthly checked_add sum_at add_to
add_transaction account t s = do
  items ← item_sum 0 t.items
  m ←
      add_monthly t.kind (monthly_key (month_of t) account.currency) t.amount
        (add_balance account.id t s)
  balance ←
      checked_add (pos (sum_at (monthly_key (month_of t) account.currency) m.monthly_income))
        (sub_ℕ 0 (sum_at (monthly_key (month_of t) account.currency) m.monthly_expense))
  amounts ←
      add_to (category_key (month_of t) t.category_id account.currency) t.amount m.category_amounts
  ok (record {
    balances = m.balances;
    monthly_income = m.monthly_income;
    monthly_expense = m.monthly_expense;
    category_amounts = amounts;
  })

unfoldable pub sum_transactions : Dict BudgetAccount → List BudgetTransaction → Sums → Result Sums
unfolding add_transaction lookup
sum_transactions accounts [] s = ok s
sum_transactions accounts (t ∷ ts) s = elim (lookup t.account_id accounts) [
  | none ↦ sum_transactions accounts ts s
  | some account ↦ add_transaction account t s >>= sum_transactions accounts ts
]

unfoldable pub all_safe : Dict ℤ → Bool
all_safe [] = true
all_safe ((id, balance) ∷ balances) = is_safe_ℤ balance && all_safe balances

-- `new Map(values.map(...))`
unfoldable pub index_by {ℓ κ} :
    {A : Type ℓ} {B : Type κ} → (A → Text) → (A → B) → Dict B → List A → Dict B
unfolding insert
index_by id_of value_of d [] = d
index_by id_of value_of d (a ∷ rest) =
    index_by id_of value_of (insert (id_of a) (value_of a) d) rest

unfoldable pub accounts_by_id : BudgetData → Dict BudgetAccount
unfolding index_by
accounts_by_id data_in = index_by (λ (a : BudgetAccount). a.id) (λ a. a) [] data_in.accounts

unfoldable pub opening_sums : BudgetData → Sums
unfolding index_by
opening_sums data_in = record {
  balances = index_by (λ (a : BudgetAccount). a.id) (λ a. a.opening_balance) [] data_in.accounts;
  monthly_income = [];
  monthly_expense = [];
  category_amounts = [];
}

unfoldable pub validate_aggregate_safety : BudgetData → Result Sums
unfolding accounts_by_id opening_sums sum_transactions all_safe
validate_aggregate_safety data_in = do
  s ← sum_transactions (accounts_by_id data_in) data_in.transactions (opening_sums data_in)
  if all_safe s.balances then ok s else err validation
