-- ===== src/Budget/Balances.antt =====
-- `accountBalance` of plugins/budget/src/model.ts against the check of the sums in `validateBudget`.
use arxhub.Base.{
  >>=-ok_inv, Bool, Bool-cases, List, Option, Option-cases, Text, [], ap, arith, err, false,
  if◌then◌else◌, inl, inr, int_laws, is_safe_ℤ, ok, ok_injective, pos, refl, some, sub_ℕ, sym,
  text_eq, text_eq_iff, true, validation, ℕ, ℤ, ◌&&◌, ◌+ℤ◌, ◌+◌, ◌-ℤ◌, ◌>>=◌, ◌∙◌, ◌∷◌, ◌≡◌,
}
use arxhub.Base.Dict.{Dict, insert, lookup, lookup-insert}
use arxhub.Budget.Index.{index_by-find, index_by-keyed}
use arxhub.Budget.Json.{Json}
use arxhub.Budget.Model.{
  BudgetAccount, BudgetData, BudgetTransaction, TransactionKind, expense, income, same_kind,
}
use arxhub.Budget.References.{indexes_of, validate_references}
use arxhub.Budget.RoundTrip.Whole.{check_budget-validated, validate_budget-budget_json}
use arxhub.Budget.Sums.{
  Sums, accounts_by_id, add_balance, add_monthly, add_to, add_transaction, all_safe, balance_at,
  category_key, checked_add, item_sum, month_of, monthly_key, opening_sums, safe_big_int,
  signed_amount, sum_at, sum_transactions, validate_aggregate_safety,
}
use arxhub.Budget.Totals.{account_balance, balance_in, balance_onto, find_account}
use arxhub.Budget.Transactions.{index_onto, unique_by_id}
use arxhub.Budget.Whole.{check_budget, validate_budget}

-- The amounts of one kind on an account.
unfoldable pub amounts_of : TransactionKind → Text → List BudgetTransaction → ℕ
unfolding same_kind text_eq
amounts_of kind id [] = 0
amounts_of kind id (t ∷ ts) =
    let rest = amounts_of kind id ts in
    if text_eq t.account_id id && same_kind t.kind kind then t.amount + rest else rest

amounts-shift :
    (kind : TransactionKind) (z : ℤ) (n a e : ℕ)
    → ((z +ℤ signed_amount kind n) +ℤ pos a) -ℤ pos e
      ≡ (z +ℤ pos (if same_kind kind income then n + a else a))
        -ℤ pos (if same_kind kind expense then n + e else e)
unfolding same_kind
amounts-shift income z n a e = grind int_laws
amounts-shift expense z n a e = grind int_laws

balance_onto-amounts :
    (id : Text) (z : ℤ) (ts : List BudgetTransaction)
    → balance_onto id z ts ≡ (z +ℤ pos (amounts_of income id ts)) -ℤ pos (amounts_of expense id ts)
unfolding balance_onto amounts_of
balance_onto-amounts id z [] = grind int_laws
balance_onto-amounts id z (t ∷ ts) = elim (Bool-cases (text_eq t.account_id id)) [
  | inl mine ↦ rw mine (
      balance_onto-amounts id (z +ℤ signed_amount t.kind t.amount) ts
      ∙ amounts-shift t.kind z t.amount (amounts_of income id ts) (amounts_of expense id ts))
  | inr other ↦ rw other (balance_onto-amounts id z ts)
]

-- What a transaction does to the balances.
add_monthly-balances :
    (kind : TransactionKind) (key : Text) (amount : ℕ) (s m : Sums)
    → add_monthly kind key amount s ≡ ok m
    → m.balances ≡ s.balances
unfolding add_monthly
add_monthly-balances income key amount s m h =
    let (sums, sums_are, h₁) = >>=-ok_inv (add_to key amount s.monthly_income) _ h in
    ap (λ (r : Sums). r.balances) (sym (ok_injective h₁))
add_monthly-balances expense key amount s m h =
    let (sums, sums_are, h₁) = >>=-ok_inv (add_to key amount s.monthly_expense) _ h in
    ap (λ (r : Sums). r.balances) (sym (ok_injective h₁))

add_transaction-balances :
    (a : BudgetAccount) (t : BudgetTransaction) (s after : Sums)
    → add_transaction a t s ≡ ok after
    → after.balances
      ≡ insert a.id (balance_at a.id s.balances +ℤ signed_amount t.kind t.amount) s.balances
unfolding add_transaction add_balance
add_transaction-balances a t s after h =
    let key = monthly_key (month_of t) a.currency in
    let (items, items_are, h₁) = >>=-ok_inv (item_sum 0 t.items) _ h in
    let (m, m_is, h₂) = >>=-ok_inv (add_monthly t.kind key t.amount (add_balance a.id t s)) _ h₁ in
    let (balance, balance_is, h₃) =
      >>=-ok_inv
        (checked_add (pos (sum_at key m.monthly_income)) (sub_ℕ 0 (sum_at key m.monthly_expense))) _
        h₂ in
    let (amounts, amounts_are, h₄) =
      >>=-ok_inv
        (add_to (category_key (month_of t) t.category_id a.currency) t.amount m.category_amounts) _
        h₃ in
    ap (λ (r : Sums). r.balances) (sym (ok_injective h₄))
    ∙ add_monthly-balances t.kind key t.amount (add_balance a.id t s) m m_is

balance_at-insert :
    (k id : Text) (z : ℤ) (d : Dict ℤ)
    → balance_at id (insert k z d) ≡ (if text_eq k id then z else balance_at id d)
unfolding balance_at
balance_at-insert k id z d = elim (Bool-cases (text_eq k id)) [
  | inl same ↦ rw (lookup-insert k id z d, same, balance_at) refl
  | inr other ↦ rw (lookup-insert k id z d, other, balance_at) refl
]

balance_at-moved :
    (k id : Text) (z : ℤ) (d : Dict ℤ)
    → balance_at id (insert k (balance_at k d +ℤ z) d)
      ≡ (if text_eq k id then balance_at id d +ℤ z else balance_at id d)
balance_at-moved k id z d =
    balance_at-insert k id (balance_at k d +ℤ z) d ∙ (elim (Bool-cases (text_eq k id)) [
      | inl same ↦ rw same (ap (λ j. balance_at j d +ℤ z) ((text_eq_iff k id).0 same))
      | inr other ↦ rw other refl
    ])

-- The balance of an account, along the loop of the check.
sum_transactions-balance :
    (accounts : Dict BudgetAccount)
    → ((k : Text) (c : BudgetAccount) → lookup k accounts ≡ some c → c.id ≡ k)
    → (id : Text) (a : BudgetAccount) → lookup id accounts ≡ some a
    → (ts : List BudgetTransaction) (s after : Sums) → sum_transactions accounts ts s ≡ ok after
    → balance_at id after.balances ≡ balance_onto id (balance_at id s.balances) ts
unfolding sum_transactions balance_onto
sum_transactions-balance accounts keyed id a there [] s after h =
    ap (λ (r : Sums). balance_at id r.balances) (sym (ok_injective h))
sum_transactions-balance accounts keyed id a there (t ∷ ts) s after h =
    elim (Option-cases (lookup t.account_id accounts)) [
      | inl missing ↦
          let rest =
            sum_transactions-balance accounts keyed id a there ts s after
              (rw (missing, sum_transactions) at h) in
          elim (Bool-cases (text_eq t.account_id id)) [
            | inl mine ↦ absurd (cc (missing, there, (text_eq_iff t.account_id id).0 mine))
            | inr other ↦ rw other rest
          ]
      | inr (b, found) ↦
          let (mid, mid_is, h₁) =
            >>=-ok_inv (add_transaction b t s) (sum_transactions accounts ts)
              (rw (found, sum_transactions) at h) in
          let moved =
            ap (balance_at id) (add_transaction-balances b t s mid mid_is)
            ∙ balance_at-moved b.id id (signed_amount t.kind t.amount) s.balances
            ∙ ap
                (λ k.
                  if text_eq k id
                  then balance_at id s.balances +ℤ signed_amount t.kind t.amount
                  else balance_at id s.balances)
                (keyed t.account_id b found) in
          sum_transactions-balance accounts keyed id a there ts mid after h₁
          ∙ ap (λ z. balance_onto id z ts) moved
    ]

all_safe-balance_at :
    (id : Text) (d : Dict ℤ) → all_safe d ≡ true → is_safe_ℤ (balance_at id d) ≡ true
unfolding all_safe balance_at lookup
all_safe-balance_at id [] h = ground arith
all_safe-balance_at id ((j, z) ∷ d) h = ground (arith, all_safe-balance_at id d)

balance_at-some : (id : Text) (d : Dict ℤ) (z : ℤ) → lookup id d ≡ some z → balance_at id d ≡ z
unfolding balance_at
balance_at-some id d z there = rw (there, balance_at) refl

passed_test :
    (test : Bool) (s after : Sums)
    → (if test then ok s else err validation) ≡ ok after
    → test ≡ true
passed_test true s after h = refl
passed_test false s after h = absurd (cc h)

indexes_of-accounts :
    (b : BudgetData) (receipts : Dict Text)
    → validate_references b ≡ ok receipts
    → (r : Dict BudgetAccount) × (index_onto (λ (a : BudgetAccount). a.id) [] b.accounts ≡ ok r)
unfolding validate_references indexes_of unique_by_id
indexes_of-accounts b receipts h =
    let (x, x_is, h₁) = >>=-ok_inv (indexes_of b) _ h in
    let (accounts, accounts_are, h₂) =
      >>=-ok_inv (unique_by_id (λ (a : BudgetAccount). a.id) b.accounts) _ x_is in
    (accounts, accounts_are)

check_budget-balance :
    (b : BudgetData) (id : Text) (a : BudgetAccount)
    → check_budget b ≡ ok b
    → find_account id b.accounts ≡ some a
    → is_safe_ℤ (balance_onto id a.opening_balance b.transactions) ≡ true
unfolding check_budget validate_aggregate_safety accounts_by_id opening_sums
check_budget-balance b id a h found =
    let (receipts, receipts_are, h₁) = >>=-ok_inv (validate_references b) _ h in
    let (sums, sums_are, h₂) = >>=-ok_inv (validate_aggregate_safety b) _ h₁ in
    let (s, s_is, h₃) =
      >>=-ok_inv (sum_transactions (accounts_by_id b) b.transactions (opening_sums b)) _ sums_are in
    let (r, unique) = indexes_of-accounts b receipts receipts_are in
    let there =
      index_by-find (λ (x : BudgetAccount). x.id) (λ x. x) id [] b.accounts r [] a unique found in
    let opening =
      index_by-find (λ (x : BudgetAccount). x.id) (λ x. x.opening_balance) id [] b.accounts r [] a
        unique found in
    let same =
      sum_transactions-balance (accounts_by_id b)
        (index_by-keyed (λ (x : BudgetAccount). x.id) b.accounts) id a there b.transactions
        (opening_sums b) s s_is in
    let own = ap (λ z. balance_onto id z b.transactions) (balance_at-some id _ _ opening) in
    let checked = all_safe-balance_at id s.balances (passed_test (all_safe s.balances) s sums h₃) in
    ap is_safe_ℤ (sym (same ∙ own)) ∙ checked

-- For an account of a budget that was validated, `accountBalance` does not fail, and what it returns is the
-- opening balance with the income and without the expense of the account's transactions, a safe integer.
pub account_balance-amounts :
    (intl : Text → Option ℕ) (value : Json) (b : BudgetData) (id : Text) (a : BudgetAccount)
    → validate_budget intl value ≡ ok b
    → find_account id b.accounts ≡ some a
    → (z : ℤ) × (account_balance intl b id ≡ ok z)
      × (is_safe_ℤ z ≡ true)
      × (z
          ≡ (a.opening_balance +ℤ pos (amounts_of income id b.transactions))
            -ℤ pos (amounts_of expense id b.transactions))
unfolding account_balance balance_in safe_big_int
account_balance-amounts intl value b id a h found =
    let safe = check_budget-balance b id a (check_budget-validated intl value b h) found in
    (
      balance_onto id a.opening_balance b.transactions,
      ap (λ r. r >>= balance_in id) (validate_budget-budget_json intl value b h)
          ∙ rw (found, balance_in) (rw safe refl),
      safe,
      balance_onto-amounts id a.opening_balance b.transactions,
    )
