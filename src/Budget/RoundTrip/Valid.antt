-- ===== src/Budget/RoundTrip/Valid.antt =====
-- The records of a budget that `validateBudget` of plugins/budget/src/model.ts returned, each as a line of
-- the file.
use mathlib.Core.Path.{subst}
use arxhub.Base.{
  >>=-ok_inv, All, List, Option, Result, Text, [], codes, false, ok, ok_injective, true, ℕ, ◌∷◌,
  ◌≡◌,
}
use arxhub.Base.Dict.{Dict}
use arxhub.Budget.Fields.{object_with_keys}
use arxhub.Budget.Json.{Json, array, dict_of, listed_items, object, value_at}
use arxhub.Budget.Model.{BudgetAccount, BudgetCategory, BudgetData, BudgetPlace, BudgetTransaction}
use arxhub.Budget.Records.{account_from, category_from, place_from}
use arxhub.Budget.RoundTrip.Records.{
  account_from-account_json, category_from-category_json, place_from-place_json,
}
use arxhub.Budget.RoundTrip.Transactions.{transaction_from-transaction_json}
use arxhub.Budget.Transactions.{Version, array_of, each, transaction_from, version1, version2}
use arxhub.Budget.Whole.{
  account_json, budget_keys, category_json, place_json, places_of, read_budget, transaction_json,
  version_of,
}

module _ {ℓ} {A : Type ℓ} (read : Json → Result A) (P : A → Type 0)
    (holds : (value : Json) (a : A) → read value ≡ ok a → P a) where
  each-All : (items : List Json) (records : List A) → each read items ≡ ok records → All P records
  unfolding each
  each-All [] records h = subst (All P) (ok_injective h) tt
  each-All (value ∷ items) records h =
      let (a, a_is, h₁) = >>=-ok_inv (read value) _ h in
      let (rest, rest_is, h₂) = >>=-ok_inv (each read items) _ h₁ in
      subst (All P) (ok_injective h₂) (holds value a a_is, each-All items rest rest_is)

  array_of-All :
      (value : Json) (records : List A) → array_of read value ≡ ok records → All P records
  unfolding array_of
  array_of-All (array items) records h = each-All (listed_items items) records h
  array_of-All _ records h = absurd (cc h)

module _ (intl : Text → Option ℕ) where
  abbrev pub IsAccount : BudgetAccount → Type 0
  IsAccount a = account_from intl true (account_json true a) ≡ ok a

  abbrev pub IsCategory : BudgetCategory → Type 0
  IsCategory c = category_from true (category_json true c) ≡ ok c

  abbrev pub IsPlace : BudgetPlace → Type 0
  IsPlace p = place_from true (place_json true p) ≡ ok p

  abbrev pub IsTransaction : BudgetTransaction → Type 0
  IsTransaction t = transaction_from true version2 (transaction_json true t) ≡ ok t

  abbrev pub IsWhole : BudgetData → Type 0
  IsWhole b =
      All IsAccount b.accounts
      × All IsCategory b.categories
      × All IsPlace b.places
      × All IsTransaction b.transactions

  places_of-All :
      (version : Version) (d : Dict Json) (places : List BudgetPlace)
      → places_of version d ≡ ok places
      → All IsPlace places
  unfolding places_of
  places_of-All version1 d places h = subst (All IsPlace) (ok_injective h) tt
  places_of-All version2 d places h =
      array_of-All (place_from false) IsPlace (place_from-place_json false true)
        (value_at (codes "places") d) places h

  pub read_budget-IsWhole :
      (value : Json) (b : BudgetData) → read_budget intl value ≡ ok b → IsWhole b
  unfolding read_budget
  read_budget-IsWhole (object members) b h =
      let (version, version_is, h₁) =
        >>=-ok_inv (version_of (value_at (codes "version") (dict_of members))) _ h in
      let (d, d_is, h₂) =
        >>=-ok_inv (object_with_keys (budget_keys version) (object members)) _ h₁ in
      let (accounts, accounts_are, h₃) =
        >>=-ok_inv (array_of (account_from intl false) (value_at (codes "accounts") d)) _ h₂ in
      let (categories, categories_are, h₄) =
        >>=-ok_inv (array_of (category_from false) (value_at (codes "categories") d)) _ h₃ in
      let (places, places_are, h₅) = >>=-ok_inv (places_of version d) _ h₄ in
      let (transactions, transactions_are, h₆) =
        >>=-ok_inv (array_of (transaction_from false version) (value_at (codes "transactions") d)) _
          h₅ in
      subst IsWhole (ok_injective h₆) (
        array_of-All (account_from intl false) IsAccount (account_from-account_json intl false true)
            (value_at (codes "accounts") d) accounts accounts_are,
        array_of-All (category_from false) IsCategory (category_from-category_json false true)
            (value_at (codes "categories") d) categories categories_are,
        places_of-All version d places places_are,
        array_of-All (transaction_from false version) IsTransaction
            (transaction_from-transaction_json false true version)
            (value_at (codes "transactions") d) transactions transactions_are,
      )
  read_budget-IsWhole _ b h = absurd (cc h)
