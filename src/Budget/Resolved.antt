-- ===== src/Budget/Resolved.antt =====
-- What `validateReferences` of plugins/budget/src/model.ts establishes.
use arxhub.Base.{
  >>=-ok_inv, All, Bool-cases, List, Option, Option-cases, Text, [], ap, arith, codes, inl, inr, ok,
  ok_injective, refl, some, sym, text_eq_iff, true, ℕ, ◌&&◌, ◌∙◌, ◌∷◌, ◌≡◌,
}
use arxhub.Base.Dict.{Dict, is_some, lookup}
use arxhub.Budget.Index.{find-unique_by_id}
use arxhub.Budget.Json.{Json}
use arxhub.Budget.Model.{
  BudgetAccount, BudgetCategory, BudgetData, BudgetPlace, BudgetTransaction, FiscalReceipt,
  TransactionKind, expense, income, same_kind,
}
use arxhub.Budget.References.{
  Indexes, check_receipt, check_transaction, check_transactions, fits_receipt, has_place,
  indexes_of, validate_references,
}
use arxhub.Budget.RoundTrip.Records.{guarded}
use arxhub.Budget.RoundTrip.Whole.{check_budget-validated}
use arxhub.Budget.Totals.{find_account, find_by}
use arxhub.Budget.Transactions.{unique_by_id}
use arxhub.Budget.Whole.{check_budget, validate_budget}

-- A transaction whose account, category and place are in the budget, the category being of its kind, and
-- whose fiscal receipt fits it.
pub IsResolved : BudgetData → BudgetTransaction → Type 0
IsResolved b t =
    (account : BudgetAccount) × (find_account t.account_id b.accounts ≡ some account)
    × ((category : BudgetCategory) × (find_by (λ (c : BudgetCategory). c.id) t.category_id
            b.categories
          ≡ some category)
        × (category.kind ≡ t.kind))
    × ((id : Text)
        → t.place_id ≡ some id
        → is_some (find_by (λ (p : BudgetPlace). p.id) id b.places) ≡ true)
    × ((r : FiscalReceipt)
        → t.fiscal_receipt ≡ some r
        → (account.currency ≡ codes "RUB")
          × (r.total ≡ t.amount)
          × (r.operation ≡ 1 → t.kind ≡ expense)
          × (r.operation ≡ 2 → t.kind ≡ income))

same_kind_inv : (k j : TransactionKind) → same_kind k j ≡ true → k ≡ j
unfolding same_kind
same_kind_inv income income h = refl
same_kind_inv income expense h = absurd (cc h)
same_kind_inv expense income h = absurd (cc h)
same_kind_inv expense expense h = refl

fits_receipt_inv :
    (a : BudgetAccount) (t : BudgetTransaction) (r : FiscalReceipt)
    → fits_receipt a t r ≡ true
    → (a.currency ≡ codes "RUB")
      × (r.total ≡ t.amount)
      × (r.operation ≡ 1 → t.kind ≡ expense)
      × (r.operation ≡ 2 → t.kind ≡ income)
unfolding fits_receipt
fits_receipt_inv a t r h = (
  ground (arith, text_eq_iff a.currency (codes "RUB")),
  ground arith,
  λ one. ground (arith, same_kind_inv t.kind expense),
  λ two. ground (arith, same_kind_inv t.kind income),
)

check_receipt_inv :
    (a : BudgetAccount) (t : BudgetTransaction) (receipts after : Dict Text) (r : FiscalReceipt)
    → check_receipt a t receipts (some r) ≡ ok after
    → fits_receipt a t r ≡ true
unfolding check_receipt
check_receipt_inv a t receipts after r h = elim (Bool-cases (fits_receipt a t r)) [
  | inl fits ↦ fits
  | inr unfit ↦ absurd (cc (rw (unfit, check_receipt) at h))
]

-- The places of a budget that the map of their ids has.
has_place_inv :
    (b : BudgetData) (places : Dict BudgetPlace)
    → unique_by_id (λ (p : BudgetPlace). p.id) b.places ≡ ok places
    → (id : Text) → has_place places (some id) ≡ true
    → is_some (find_by (λ (p : BudgetPlace). p.id) id b.places) ≡ true
unfolding has_place
has_place_inv b places unique id h = elim (Option-cases (lookup id places)) [
  | inl missing ↦ absurd (cc (rw (missing, has_place) at h))
  | inr (p, there) ↦
      ap is_some (find-unique_by_id (λ (p : BudgetPlace). p.id) id b.places places p unique there)
]

module _ (b : BudgetData) (x : Indexes)
    (accounts_are : unique_by_id (λ (a : BudgetAccount). a.id) b.accounts ≡ ok x.accounts)
    (categories_are : unique_by_id (λ (c : BudgetCategory). c.id) b.categories ≡ ok x.categories)
    (places_are : unique_by_id (λ (p : BudgetPlace). p.id) b.places ≡ ok x.places) where
  check_transaction-IsResolved :
      (t : BudgetTransaction) (receipts after : Dict Text)
      → check_transaction x t receipts ≡ ok after
      → IsResolved b t
  unfolding check_transaction IsResolved
  check_transaction-IsResolved t receipts after h =
      elim (Option-cases (lookup t.account_id x.accounts)) [
        | inl missing ↦ absurd (cc (rw (missing, check_transaction) at h))
        | inr (account, account_is) ↦ elim (Option-cases (lookup t.category_id x.categories)) [
          | inl missing ↦ absurd (cc (rw (account_is, missing, check_transaction) at h))
          | inr (category, category_is) ↦
              let (test, checked) =
                guarded (same_kind category.kind t.kind && has_place x.places t.place_id)
                  (check_receipt account t receipts t.fiscal_receipt)
                  (rw (account_is, category_is, check_transaction) at h) in
              (
                account,
                find-unique_by_id (λ (a : BudgetAccount). a.id) t.account_id b.accounts x.accounts
                    account accounts_are account_is,
                (
                  category,
                  find-unique_by_id (λ (c : BudgetCategory). c.id) t.category_id b.categories
                      x.categories category categories_are category_is,
                  same_kind_inv category.kind t.kind (ground (arith, test)),
                ),
                λ id is.
                    has_place_inv b x.places places_are id
                      (ap (has_place x.places) (sym is) ∙ ground (arith, test)),
                λ r is. fits_receipt_inv account t r (
                    check_receipt_inv account t receipts after r
                      (ap (check_receipt account t receipts) (sym is) ∙ checked)),
              )
        ]
      ]

  check_transactions-IsResolved :
      (ts : List BudgetTransaction) (receipts after : Dict Text)
      → check_transactions x ts receipts ≡ ok after
      → All (IsResolved b) ts
  unfolding check_transactions
  check_transactions-IsResolved [] receipts after h = tt
  check_transactions-IsResolved (t ∷ ts) receipts after h =
      let (mid, mid_is, h₁) =
        >>=-ok_inv (check_transaction x t receipts) (check_transactions x ts) h in
      (
        check_transaction-IsResolved t receipts mid mid_is,
        check_transactions-IsResolved ts mid after h₁,
      )

-- In a budget that was validated, each transaction has its account, its category of its own kind and its
-- place, if it names one, in the budget, and a fiscal receipt only on an account in roubles, over its own
-- amount, an expense for operation 1 and an income for operation 2.
pub validate_budget-IsResolved :
    (intl : Text → Option ℕ) (value : Json) (b : BudgetData)
    → validate_budget intl value ≡ ok b
    → All (IsResolved b) b.transactions
unfolding check_budget validate_references indexes_of
validate_budget-IsResolved intl value b h =
    let checked = check_budget-validated intl value b h in
    let (receipts, receipts_are, h₁) = >>=-ok_inv (validate_references b) _ checked in
    let (x, x_is, h₂) = >>=-ok_inv (indexes_of b) _ receipts_are in
    let (accounts, accounts_are, g₁) =
      >>=-ok_inv (unique_by_id (λ (a : BudgetAccount). a.id) b.accounts) _ x_is in
    let (categories, categories_are, g₂) =
      >>=-ok_inv (unique_by_id (λ (c : BudgetCategory). c.id) b.categories) _ g₁ in
    let (places, places_are, g₃) =
      >>=-ok_inv (unique_by_id (λ (p : BudgetPlace). p.id) b.places) _ g₂ in
    let (transactions, transactions_are, g₄) =
      >>=-ok_inv (unique_by_id (λ (t : BudgetTransaction). t.id) b.transactions) _ g₃ in
    let is = ok_injective g₄ in
    check_transactions-IsResolved b x (accounts_are ∙ ap (λ (i : Indexes). ok i.accounts) is)
      (categories_are ∙ ap (λ (i : Indexes). ok i.categories) is)
      (places_are ∙ ap (λ (i : Indexes). ok i.places) is) b.transactions [] receipts h₂
