-- ===== src/Budget/RoundTrip/Whole.antt =====
-- `validateBudget` of plugins/budget/src/model.ts on what it returned before.
use mathlib.Core.Path.{subst}
use arxhub.Base.{
  >>=-ok_inv, List, Option, Text, [], ap, codes, contains, false, map, ok, ok_injective, refl,
  text_eq, ℕ, ◌∙◌, ◌∷◌, ◌≡◌,
}
use arxhub.Base.Dict.{Dict, keys, lookup, values}
use arxhub.Budget.Fields.{object_with_keys}
use arxhub.Budget.Json.{Json, array, dict_of, listed_items, object, value_at}
use arxhub.Budget.Model.{BudgetData, BudgetPlace, BudgetTransaction}
use arxhub.Budget.Records.{account_from, category_from, place_from}
use arxhub.Budget.References.{validate_references}
use arxhub.Budget.RoundTrip.Parts.{array_of-list_json, listed_items-items_of}
use arxhub.Budget.RoundTrip.Records.{
  account_from-account_json, category_from-category_json, place_from-place_json,
}
use arxhub.Budget.RoundTrip.Transactions.{transaction_from-transaction_json}
use arxhub.Budget.Sums.{validate_aggregate_safety}
use arxhub.Budget.Transactions.{Version, array_of, each, transaction_from, version1, version2}
use arxhub.Budget.Whole.{
  account_json, budget_json, budget_keys, category_json, check_budget, list_json, place_json,
  places_of, read_budget, transaction_json, validate_budget, version_of,
}

-- The transactions of either version are written in the second.
each-second :
    (version : Version) (values : List Json) (ts : List BudgetTransaction)
    → each (transaction_from false version) values ≡ ok ts
    → each (transaction_from false version2) (map (transaction_json false) ts) ≡ ok ts
unfolding each
each-second version [] ts h =
    subst (λ l. each (transaction_from false version2) (map (transaction_json false) l) ≡ ok l)
      (ok_injective h) refl
each-second version (value ∷ values) ts h =
    let (t, t_is, h₁) = >>=-ok_inv (transaction_from false version value) _ h in
    let (rest, rest_is, h₂) = >>=-ok_inv (each (transaction_from false version) values) _ h₁ in
    subst (λ l. each (transaction_from false version2) (map (transaction_json false) l) ≡ ok l)
      (ok_injective h₂)
      (rw
        (
          transaction_from-transaction_json false false version value t t_is,
          each-second version values rest rest_is,
        )
        refl)

array_of-second :
    (version : Version) (value : Json) (ts : List BudgetTransaction)
    → array_of (transaction_from false version) value ≡ ok ts
    → array_of (transaction_from false version2) (list_json (transaction_json false) ts) ≡ ok ts
unfolding array_of
array_of-second version (array values) ts h =
    rw (listed_items-items_of (map (transaction_json false) ts))
      (each-second version (listed_items values) ts h)
array_of-second version _ ts h = absurd (cc h)

module _ (intl : Text → Option ℕ) where
  places_of-places :
      (version : Version) (d : Dict Json) (places : List BudgetPlace)
      → places_of version d ≡ ok places
      → array_of (place_from false) (list_json (place_json false) places) ≡ ok places
  unfolding places_of array_of each
  places_of-places version1 d places h =
      subst (λ l. array_of (place_from false) (list_json (place_json false) l) ≡ ok l)
        (ok_injective h) refl
  places_of-places version2 d places h =
      array_of-list_json (place_from false) (place_json false) (place_from-place_json false false)
        (value_at (codes "places") d) places h

  read_budget-fields :
      (b : BudgetData)
      → array_of (account_from intl false) (list_json (account_json false) b.accounts)
        ≡ ok b.accounts
      → array_of (category_from false) (list_json (category_json false) b.categories)
        ≡ ok b.categories
      → array_of (place_from false) (list_json (place_json false) b.places) ≡ ok b.places
      → array_of
          (transaction_from false version2)
          (list_json (transaction_json false) b.transactions)
        ≡ ok b.transactions
      → read_budget intl (budget_json b) ≡ ok b
  unfolding read_budget version_of object_with_keys lookup contains text_eq keys places_of
  read_budget-fields b c d e f = rw (c, d, e, f) refl

  pub read_budget-budget_json :
      (value : Json) (b : BudgetData)
      → read_budget intl value ≡ ok b
      → read_budget intl (budget_json b) ≡ ok b
  unfolding read_budget
  read_budget-budget_json (object members) b h =
      let (version, version_is, h₁) =
        >>=-ok_inv (version_of (value_at (codes "version") (dict_of members))) _ h in
      let (d, d_is, h₂) =
        >>=-ok_inv (object_with_keys (budget_keys version) (object members)) _ h₁ in
      let (accounts, accounts_are, h₃) =
        >>=-ok_inv (array_of (account_from intl false) (value_at (codes "accounts") d)) _ h₂ in
      let (categories, categories_are, h₄) =
        >>=-ok_inv (array_of (category_from false) (value_at (codes "categories") d)) _ h₃ in
      let (places, places_are, h₅) = >>=-ok_inv (places_of version d) _ h₄ in
      let (transactions, transactions_are, h₆) =
        >>=-ok_inv (array_of (transaction_from false version) (value_at (codes "transactions") d)) _
          h₅ in
      subst (λ r. read_budget intl (budget_json r) ≡ ok r) (ok_injective h₆)
        (read_budget-fields _
          (array_of-list_json (account_from intl false) (account_json false)
            (account_from-account_json intl false false) (value_at (codes "accounts") d) accounts
            accounts_are)
          (array_of-list_json (category_from false) (category_json false)
            (category_from-category_json false false) (value_at (codes "categories") d) categories
            categories_are)
          (places_of-places version d places places_are)
          (array_of-second version (value_at (codes "transactions") d) transactions
            transactions_are))
  read_budget-budget_json _ b h = absurd (cc h)

  pub check_budget_inv : (b c : BudgetData) → check_budget b ≡ ok c → b ≡ c
  unfolding check_budget
  check_budget_inv b c h =
      let (receipts, receipts_are, h₁) = >>=-ok_inv (validate_references b) _ h in
      let (sums, sums_are, h₂) = >>=-ok_inv (validate_aggregate_safety b) _ h₁ in ok_injective h₂

  pub check_budget-validated :
      (value : Json) (b : BudgetData) → validate_budget intl value ≡ ok b → check_budget b ≡ ok b
  unfolding validate_budget
  check_budget-validated value b h =
      let (c, c_is, h₁) = >>=-ok_inv (read_budget intl value) _ h in
      subst (λ r. check_budget r ≡ ok b) (check_budget_inv c b h₁) h₁

  -- A budget that validation returned passes validation again and comes back as it is, whichever version
  -- of the file it was read from.
  pub validate_budget-budget_json :
      (value : Json) (b : BudgetData)
      → validate_budget intl value ≡ ok b
      → validate_budget intl (budget_json b) ≡ ok b
  unfolding validate_budget
  validate_budget-budget_json value b h =
      let (c, c_is, h₁) = >>=-ok_inv (read_budget intl value) _ h in
      let same : c ≡ b = check_budget_inv c b h₁ in
      rw (read_budget-budget_json value b (c_is ∙ ap ok same)) (check_budget-validated value b h)
