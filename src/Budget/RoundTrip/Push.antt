-- ===== src/Budget/RoundTrip/Push.antt =====
-- A line of the file with a new record, in `parseBudget` of plugins/budget/src/model.ts.
use arxhub.Base.{List, Option, Text, [], false, ok, refl, text_eq, true, ℕ, ◌++◌, ◌∷◌, ◌≡◌}
use arxhub.Base.Dict.{lookup}
use arxhub.Budget.File.{
  add_record, has_id, push_account, push_category, push_new, push_place, push_transaction,
  record_type, type_of,
}
use arxhub.Budget.Model.{BudgetAccount, BudgetCategory, BudgetData, BudgetPlace, BudgetTransaction}
use arxhub.Budget.Records.{is_text}
use arxhub.Budget.RoundTrip.Valid.{IsAccount, IsCategory, IsPlace, IsTransaction}
use arxhub.Budget.Transactions.{version2}
use arxhub.Budget.Whole.{account_json, category_json, place_json, transaction_json}

module _ (intl : Text → Option ℕ) (b : BudgetData) where
  pub add_record-account :
      (accounts : List BudgetAccount) (a : BudgetAccount)
      → IsAccount intl a
      → has_id (λ (x : BudgetAccount). x.id) a.id accounts ≡ false
      → add_record intl version2 (record b { accounts = accounts }) (account_json true a)
        ≡ ok (record b { accounts = accounts ++ (a ∷ []) })
  unfolding add_record record_type type_of is_text text_eq lookup push_account push_new
  add_record-account accounts a valid new = rw valid (rw new refl)

  pub add_record-category :
      (categories : List BudgetCategory) (c : BudgetCategory)
      → IsCategory intl c
      → has_id (λ (x : BudgetCategory). x.id) c.id categories ≡ false
      → add_record intl version2 (record b { categories = categories }) (category_json true c)
        ≡ ok (record b { categories = categories ++ (c ∷ []) })
  unfolding add_record record_type type_of is_text text_eq lookup push_category push_new
  add_record-category categories c valid new = rw valid (rw new refl)

  pub add_record-place :
      (places : List BudgetPlace) (p : BudgetPlace)
      → IsPlace intl p
      → has_id (λ (x : BudgetPlace). x.id) p.id places ≡ false
      → add_record intl version2 (record b { places = places }) (place_json true p)
        ≡ ok (record b { places = places ++ (p ∷ []) })
  unfolding add_record record_type type_of is_text text_eq lookup push_place push_new
  add_record-place places p valid new = rw valid (rw new refl)

  pub add_record-transaction :
      (transactions : List BudgetTransaction) (t : BudgetTransaction)
      → IsTransaction intl t
      → has_id (λ (x : BudgetTransaction). x.id) t.id transactions ≡ false
      → add_record intl version2
          (record b { transactions = transactions })
          (transaction_json true t)
        ≡ ok (record b { transactions = transactions ++ (t ∷ []) })
  unfolding add_record record_type type_of is_text text_eq lookup push_transaction push_new
  add_record-transaction transactions t valid new = rw valid (rw new refl)
