-- ===== src/Budget/Attached.antt =====
-- The fiscal receipts of a budget, as `validateReferences` of plugins/budget/src/model.ts goes over them.
use mathlib.Core.Path.{subst}
use arxhub.Base.{
  >>=-ok_inv, All, Bool-cases, List, Option, Option-cases, Text, [], ap, arith, decimal_value,
  false, inl, inr, none, not, ok, ok_injective, refl, some, sym, text_eq, text_eq_iff, true, ℕ,
  ◌&&◌, ◌∙◌, ◌∷◌, ◌≡◌,
}
use arxhub.Base.Dict.{Dict, insert, is_some, lookup, lookup-insert, lookup-insert_self}
use arxhub.Budget.File.{has_id}
use arxhub.Budget.Json.{Json}
use arxhub.Budget.Merged.Ids.{IsOnce}
use arxhub.Budget.Model.{BudgetAccount, BudgetData, BudgetTransaction, FiscalReceipt, same_kind}
use arxhub.Budget.References.{
  Indexes, check_receipt, check_transaction, check_transactions, fits_receipt, has_place,
  indexes_of, receipt_key, validate_references,
}
use arxhub.Budget.RoundTrip.Records.{guarded}
use arxhub.Budget.RoundTrip.Whole.{check_budget-validated}
use arxhub.Budget.Whole.{check_budget, validate_budget}

-- The keys of the receipts that transactions carry.
unfoldable attached_keys : List BudgetTransaction → List Text
unfolding receipt_key
attached_keys [] = []
attached_keys (t ∷ ts) = elim t.fiscal_receipt [
  | none ↦ attached_keys ts
  | some r ↦ receipt_key r ∷ attached_keys ts
]

check_receipt-new :
    (a : BudgetAccount) (t : BudgetTransaction) (receipts after : Dict Text) (r : FiscalReceipt)
    → check_receipt a t receipts (some r) ≡ ok after
    → (is_some (lookup (receipt_key r) receipts) ≡ false)
      × (insert (receipt_key r) t.id receipts ≡ after)
unfolding check_receipt
check_receipt-new a t receipts after r h =
    let (test, is) =
      guarded (fits_receipt a t r && not (is_some (lookup (receipt_key r) receipts)))
        (ok (insert (receipt_key r) t.id receipts)) h in
    (ground (arith, test), ok_injective is)

-- The check of a transaction is a check of its receipt.
check_transaction-receipt :
    (x : Indexes) (t : BudgetTransaction) (receipts after : Dict Text)
    → check_transaction x t receipts ≡ ok after
    → (a : BudgetAccount) × (check_receipt a t receipts t.fiscal_receipt ≡ ok after)
unfolding check_transaction
check_transaction-receipt x t receipts after h =
    elim (Option-cases (lookup t.account_id x.accounts)) [
      | inl missing ↦ absurd (cc (rw (missing, check_transaction) at h))
      | inr (account, account_is) ↦ elim (Option-cases (lookup t.category_id x.categories)) [
        | inl missing ↦ absurd (cc (rw (account_is, missing, check_transaction) at h))
        | inr (category, category_is) ↦ (
          account,
          (guarded (same_kind category.kind t.kind && has_place x.places t.place_id)
              (check_receipt account t receipts t.fiscal_receipt)
              (rw (account_is, category_is, check_transaction) at h)).1,
        )
      ]
    ]

abbrev IsNew : Dict Text → List Text → Type 0
IsNew receipts ks =
    (k : Text) → has_id (λ (j : Text). j) k ks ≡ true → is_some (lookup k receipts) ≡ false

IsOnce-more :
    (key id : Text) (receipts : Dict Text) (ks : List Text)
    → is_some (lookup key receipts) ≡ false
    → IsOnce ks
    → IsNew (insert key id receipts) ks
    → IsOnce (key ∷ ks) × IsNew receipts (key ∷ ks)
unfolding has_id
IsOnce-more key id receipts ks fresh_key once new = (
  (
    elim (Bool-cases (has_id (λ (j : Text). j) key ks)) [
      | inl among ↦ absurd (cc (new key among, ap is_some (lookup-insert_self key id receipts)))
      | inr outside ↦ outside
    ],
    once,
  ),
  λ k among. elim (Bool-cases (text_eq key k)) [
    | inl same ↦
        ap (λ j. is_some (lookup j receipts)) (sym ((text_eq_iff key k).0 same)) ∙ fresh_key
    | inr other ↦
        rw (lookup-insert key k id receipts, other) at (new k (ground (arith, among, other)))
  ],
)

check_transactions-IsOnce :
    (x : Indexes) (ts : List BudgetTransaction) (receipts after : Dict Text)
    → check_transactions x ts receipts ≡ ok after
    → IsOnce (attached_keys ts) × IsNew receipts (attached_keys ts)
unfolding check_transactions attached_keys has_id
check_transactions-IsOnce x [] receipts after h = (tt, λ k among. absurd (cc among))
check_transactions-IsOnce x (t ∷ ts) receipts after h =
    let (mid, mid_is, h₁) =
      >>=-ok_inv (check_transaction x t receipts) (check_transactions x ts) h in
    let (a, checked) = check_transaction-receipt x t receipts mid mid_is in
    let (once, new) = check_transactions-IsOnce x ts mid after h₁ in
    elim (Option-cases t.fiscal_receipt) [
      | inl without_one ↦
          let same : receipts ≡ mid =
            ok_injective (ap (check_receipt a t receipts) (sym without_one) ∙ checked) in
          rw without_one (once, subst (λ d. IsNew d (attached_keys ts)) (sym same) new)
      | inr (r, carried) ↦
          let (fresh_key, inserted) =
            check_receipt-new a t receipts mid r
              (ap (check_receipt a t receipts) (sym carried) ∙ checked) in
          rw carried (
            IsOnce-more (receipt_key r) t.id receipts (attached_keys ts) fresh_key once
              (subst (λ d. IsNew d (attached_keys ts)) (sym inserted) new))
    ]

-- The receipts that transactions carry, in their order.
unfoldable pub attached : List BudgetTransaction → List FiscalReceipt
attached [] = []
attached (t ∷ ts) = elim t.fiscal_receipt [ none ↦ attached ts | some r ↦ r ∷ attached ts ]

-- Receipts of one drive whose document numbers and whose signs are the same numbers, as texts of digits
-- that may start with zeros.
pub IsSameReceipt : FiscalReceipt → FiscalReceipt → Type 0
IsSameReceipt r s =
    (r.fn ≡ s.fn)
    × (decimal_value 0 r.fd ≡ decimal_value 0 s.fd)
    × (decimal_value 0 r.fp ≡ decimal_value 0 s.fp)

-- No receipt of a list is the same as a later one.
pub IsAllApart : List FiscalReceipt → Type 0
IsAllApart [] = Unit
IsAllApart (r ∷ rs) = All (λ s. ¬ IsSameReceipt r s) rs × IsAllApart rs

receipt_key-same : (r s : FiscalReceipt) → IsSameReceipt r s → receipt_key r ≡ receipt_key s
unfolding IsSameReceipt receipt_key
receipt_key-same r s (drive, fd_is, fp_is) = rw (drive, fd_is, fp_is) refl

attached-All_apart :
    (r : FiscalReceipt) (ts : List BudgetTransaction)
    → has_id (λ (j : Text). j) (receipt_key r) (attached_keys ts) ≡ false
    → All (λ s. ¬ IsSameReceipt r s) (attached ts)
unfolding attached attached_keys has_id
attached-All_apart r [] unseen = tt
attached-All_apart r (t ∷ ts) unseen = elim (Option-cases t.fiscal_receipt) [
  | inl without_one ↦ rw without_one (attached-All_apart r ts (rw without_one at unseen))
  | inr (s, carried) ↦
      let unseen_there = rw carried at unseen in
      rw carried (
        λ same.
            let e = sym (receipt_key-same r s same) in
            absurd (ground (arith, text_eq_iff (receipt_key s) (receipt_key r), e, unseen_there)),
        attached-All_apart r ts (ground (arith, unseen_there)),
      )
]

attached-IsAllApart :
    (ts : List BudgetTransaction) → IsOnce (attached_keys ts) → IsAllApart (attached ts)
unfolding attached attached_keys IsAllApart
attached-IsAllApart [] once = tt
attached-IsAllApart (t ∷ ts) once = elim (Option-cases t.fiscal_receipt) [
  | inl without_one ↦ rw without_one (attached-IsAllApart ts (rw without_one at once))
  | inr (r, carried) ↦
      let (unseen, later) = rw carried at once in
      rw carried (attached-All_apart r ts unseen, attached-IsAllApart ts later)
]

-- In a budget that was validated no two transactions carry the receipt of the same drive, document number and
-- sign, where the numbers are compared as numbers, however many zeros they start with.
pub validate_budget-IsAllApart :
    (intl : Text → Option ℕ) (value : Json) (b : BudgetData)
    → validate_budget intl value ≡ ok b
    → IsAllApart (attached b.transactions)
unfolding check_budget validate_references
validate_budget-IsAllApart intl value b h =
    let checked = check_budget-validated intl value b h in
    let (receipts, receipts_are, h₁) = >>=-ok_inv (validate_references b) _ checked in
    let (x, x_is, h₂) = >>=-ok_inv (indexes_of b) _ receipts_are in
    attached-IsAllApart b.transactions (check_transactions-IsOnce x b.transactions [] receipts h₂).0
