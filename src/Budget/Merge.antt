-- ===== src/Budget/Merge.antt =====
-- plugins/budget/src/merge.ts: the three-way merge of two budgets by the ids of their records. `TextDecoder`
-- in its fatal mode, which gives none where it throws, `TextEncoder`, `JSON.parse` and `JSON.stringify` are
-- parameters.
use arxhub.Base.{
  Bool, Bytes, List, Option, Result, Text, [], distinct, err, false, if◌then◌else◌, none, not, ok,
  some, sort_texts, text_eq, true, ℕ, ◌&&◌, ◌++◌, ◌||◌, ◌∷◌,
}
use arxhub.Base.Dict.{Dict, keys, lookup, values}
use arxhub.Budget.Dates.{and_then}
use arxhub.Budget.File.{parse_budget, serialize_budget}
use arxhub.Budget.Json.{Json}
use arxhub.Budget.Model.{
  BudgetAccount, BudgetCategory, BudgetData, BudgetPlace, BudgetTransaction, empty_budget,
}
use arxhub.Budget.Sums.{accounts_by_id, index_by}
use arxhub.Budget.Whole.{
  account_json, budget_json, category_json, place_json, transaction_json, validate_budget,
}

-- `JSON.stringify` of two values, of which `undefined` gives no text.
unfoldable pub same_json : Option Text → Option Text → Bool
unfolding text_eq
same_json none none = true
same_json (some s) (some t) = text_eq s t
same_json _ _ = false

module _ {ℓ} {A : Type ℓ} (id_of : A → Text) (print : A → Text) where
  unfoldable pub same_record : Option A → Option A → Bool
  unfolding same_json
  same_record left right =
      same_json (and_then left (λ a. some (print a))) (and_then right (λ a. some (print a)))

  -- The value of one id: `none` is a conflict, `some none` a record that is gone.
  unfoldable pub merge_value : Option A → Option A → Option A → Option (Option A)
  unfolding same_record
  merge_value ancestor ours theirs =
      if same_record ours theirs
      then some ours
      else (if same_record ours ancestor
          then some theirs
          else (if same_record theirs ancestor then some ours else none))

  unfoldable pub records_by_id : List A → Dict A
  unfolding index_by
  records_by_id values = index_by id_of (λ a. a) [] values

  -- `if (value) merged.push(value)`
  unfoldable pub push_value : Option A → List A → List A
  push_value none merged = merged
  push_value (some value) merged = value ∷ merged

  unfoldable pub merge_ids : Dict A → Dict A → Dict A → List Text → Option (List A)
  unfolding merge_value push_value lookup
  merge_ids base local remote [] = some []
  merge_ids base local remote (id ∷ ids) =
      let rest = merge_ids base local remote ids in
      and_then (merge_value (lookup id base) (lookup id local) (lookup id remote))
        (λ value. and_then rest (λ merged. some (push_value value merged)))

  -- The ids of the three, each once, in order.
  unfoldable pub all_ids : Dict A → Dict A → Dict A → List Text
  unfolding sort_texts distinct keys
  all_ids base local remote = sort_texts (distinct (keys base ++ (keys local ++ keys remote)))

  unfoldable pub merge_records : List A → List A → List A → Option (List A)
  unfolding records_by_id merge_ids all_ids
  merge_records base_values local_values remote_values =
      let base = records_by_id base_values in
      let local = records_by_id local_values in
      let remote = records_by_id remote_values in
      merge_ids base local remote (all_ids base local remote)

unfoldable pub is_used : Text → List BudgetTransaction → Bool
unfolding text_eq
is_used id [] = false
is_used id (t ∷ ts) = text_eq t.account_id id || is_used id ts

unfoldable pub is_reinterpreted : Dict BudgetAccount → List BudgetTransaction → BudgetAccount → Bool
unfolding lookup is_used text_eq
is_reinterpreted ancestors transactions account = elim (lookup account.id ancestors) [
  | none ↦ false
  | some ancestor ↦
      not (text_eq ancestor.currency account.currency) && is_used account.id transactions
]

-- `some` of an array
abbrev pub any {ℓ} : {A : Type ℓ} → (A → Bool) → List A → Bool
any p [] = false
any p (x ∷ xs) = p x || any p xs

-- `currencyChangeWouldReinterpretTransactions`
unfoldable pub currency_change_would_reinterpret : Option BudgetData → BudgetData → Bool
unfolding is_reinterpreted records_by_id
currency_change_would_reinterpret none merged = false
currency_change_would_reinterpret (some base) merged =
    any (is_reinterpreted (accounts_by_id base) merged.transactions) merged.accounts

-- `base?.accounts ?? []` and the others
abbrev pub base_or_empty : Option BudgetData → BudgetData
base_or_empty none = empty_budget
base_or_empty (some base) = base

-- `try` with `catch` that returns null
abbrev pub caught {ℓ} : {A : Type ℓ} → Result A → Option A
caught (ok value) = some value
caught (err e) = none

module _ (intl : Text → Option ℕ) (print_json : Json → Text) where
  unfoldable pub merge_data : BudgetData → BudgetData → BudgetData → Option BudgetData
  unfolding merge_records
  merge_data base local remote =
      and_then
        (merge_records (λ (a : BudgetAccount). a.id) (λ a. print_json (account_json false a))
          base.accounts local.accounts remote.accounts)
        (λ accounts.
          and_then
            (merge_records (λ (c : BudgetCategory). c.id) (λ c. print_json (category_json false c))
              base.categories local.categories remote.categories)
            (λ categories.
              and_then
                (merge_records (λ (p : BudgetPlace). p.id) (λ p. print_json (place_json false p))
                  base.places local.places remote.places)
                (λ places.
                  and_then
                    (merge_records (λ (t : BudgetTransaction). t.id)
                      (λ t. print_json (transaction_json false t)) base.transactions
                      local.transactions remote.transactions)
                    (λ transactions. some (record {
                      accounts = accounts;
                      categories = categories;
                      places = places;
                      transactions = transactions;
                    })))))

  -- What is merged is validated, and refused if a currency changed under transactions.
  unfoldable pub merge_parsed : Option BudgetData → BudgetData → BudgetData → Option BudgetData
  unfolding merge_data validate_budget currency_change_would_reinterpret
  merge_parsed base local remote =
      and_then (merge_data (base_or_empty base) local remote) (λ records.
        and_then (caught (validate_budget intl (budget_json records)))
          (λ merged. if currency_change_would_reinterpret base merged then none else some merged))

module _ (intl : Text → Option ℕ) (parse_json : Text → Option Json) (print_json : Json → Text)
    (decode_utf8 : Bytes → Option Text) (encode_utf8 : Text → Bytes) where
  unfoldable pub read_bytes : Bytes → Option BudgetData
  unfolding parse_budget
  read_bytes bytes =
      and_then (decode_utf8 bytes) (λ text. caught (parse_budget intl parse_json text))

  unfoldable pub read_base : Option Bytes → Option (Option BudgetData)
  unfolding read_bytes
  read_base none = some none
  read_base (some bytes) = and_then (read_bytes bytes) (λ base. some (some base))

  unfoldable pub merge_budgets : Option Bytes → Bytes → Bytes → Option Bytes
  unfolding read_base read_bytes merge_parsed serialize_budget
  merge_budgets base_bytes local_bytes remote_bytes = and_then (read_base base_bytes) (λ base.
      and_then (read_bytes local_bytes) (λ local. and_then (read_bytes remote_bytes) (λ remote.
        and_then (merge_parsed intl print_json base local remote) (λ merged.
          and_then (caught (serialize_budget intl print_json merged))
            (λ text. some (encode_utf8 text))))))
