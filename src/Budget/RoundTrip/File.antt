-- ===== src/Budget/RoundTrip/File.antt =====
-- `parseBudget` of plugins/budget/src/model.ts on what `serializeBudget` writes.
use arxhub.Base.{
  >>=-ok_inv, All, List, Option, Result, Text, [], ap, append-nil, codes, contains, map, none, ok,
  refl, sym, text_eq, true, ℕ, ◌++◌, ◌>>=◌, ◌∙◌, ◌∷◌, ◌≡◌,
}
use arxhub.Base.Dict.{keys, lookup}
use arxhub.Budget.Fields.{object_with_keys}
use arxhub.Budget.File.{add_lines, budget_lines, parse_lines, read_header, sort_by_id}
use arxhub.Budget.Json.{Json, member, no_members, string}
use arxhub.Budget.Model.{
  BudgetAccount, BudgetCategory, BudgetData, BudgetPlace, BudgetTransaction, empty_budget,
}
use arxhub.Budget.Records.{is_text}
use arxhub.Budget.References.{indexes_of, validate_references}
use arxhub.Budget.RoundTrip.Lines.{IsRead, add_lines-records, nil-IsFresh, parse_line-print}
use arxhub.Budget.RoundTrip.Push.{
  add_record-account, add_record-category, add_record-place, add_record-transaction,
}
use arxhub.Budget.RoundTrip.Unique.{IsUnique, sort_by-All, sort_by-IsUnique, unique_by_id-IsUnique}
use arxhub.Budget.RoundTrip.Valid.{IsAccount, IsCategory, IsPlace, IsTransaction, IsWhole}
use arxhub.Budget.Transactions.{unique_by_id, version2}
use arxhub.Budget.Whole.{
  account_json, account_members, category_json, category_members, check_budget, number, place_json,
  place_members, transaction_json, transaction_members, version_of,
}

-- A budget with its lists in the order of their ids.
unfoldable pub sorted_budget : BudgetData → BudgetData
unfolding sort_by_id
sorted_budget b = record {
  accounts = sort_by_id (λ (a : BudgetAccount). a.id) b.accounts;
  categories = sort_by_id (λ (c : BudgetCategory). c.id) b.categories;
  places = sort_by_id (λ (p : BudgetPlace). p.id) b.places;
  transactions = sort_by_id (λ (t : BudgetTransaction). t.id) b.transactions;
}

All-append {ℓ} :
    {A : Type ℓ} (P : A → Type 0) (xs ys : List A) → All P (xs ++ ys) → All P xs × All P ys
All-append P [] ys h = (tt, h)
All-append P (x ∷ xs) ys h = let (a, b) = All-append P xs ys h.1 in ((h.0, a), b)

map-append {ℓ κ} :
    {A : Type ℓ} {B : Type κ} (f : A → B) (xs ys : List A) → map f (xs ++ ys) ≡ map f xs ++ map f ys
map-append f [] ys = refl
map-append f (x ∷ xs) ys = ap (λ l. f x ∷ l) (map-append f xs ys)

abbrev pub IsUniqueBudget : BudgetData → Type 0
IsUniqueBudget b =
    IsUnique (λ (a : BudgetAccount). a.id) b.accounts
    × IsUnique (λ (c : BudgetCategory). c.id) b.categories
    × IsUnique (λ (p : BudgetPlace). p.id) b.places
    × IsUnique (λ (t : BudgetTransaction). t.id) b.transactions

pub check_budget-IsUniqueBudget : (b c : BudgetData) → check_budget b ≡ ok c → IsUniqueBudget b
unfolding check_budget validate_references indexes_of
check_budget-IsUniqueBudget b c h =
    let (receipts, receipts_are, h₁) = >>=-ok_inv (validate_references b) _ h in
    let (x, x_is, h₂) = >>=-ok_inv (indexes_of b) _ receipts_are in
    let (accounts, accounts_are, g₁) =
      >>=-ok_inv (unique_by_id (λ (a : BudgetAccount). a.id) b.accounts) _ x_is in
    let (categories, categories_are, g₂) =
      >>=-ok_inv (unique_by_id (λ (c : BudgetCategory). c.id) b.categories) _ g₁ in
    let (places, places_are, g₃) =
      >>=-ok_inv (unique_by_id (λ (p : BudgetPlace). p.id) b.places) _ g₂ in
    let (transactions, transactions_are, g₄) =
      >>=-ok_inv (unique_by_id (λ (t : BudgetTransaction). t.id) b.transactions) _ g₃ in
    (
      unique_by_id-IsUnique (λ (a : BudgetAccount). a.id) b.accounts accounts accounts_are,
      unique_by_id-IsUnique (λ (c : BudgetCategory). c.id) b.categories categories categories_are,
      unique_by_id-IsUnique (λ (p : BudgetPlace). p.id) b.places places places_are,
      unique_by_id-IsUnique (λ (t : BudgetTransaction). t.id) b.transactions transactions
          transactions_are,
    )

sorted_budget-IsUnique : (b : BudgetData) → IsUniqueBudget b → IsUniqueBudget (sorted_budget b)
unfolding sorted_budget
sorted_budget-IsUnique b (u, v, w, x) = (
  sort_by-IsUnique (λ (a : BudgetAccount). a.id) _ b.accounts u,
  sort_by-IsUnique (λ (c : BudgetCategory). c.id) _ b.categories v,
  sort_by-IsUnique (λ (p : BudgetPlace). p.id) _ b.places w,
  sort_by-IsUnique (λ (t : BudgetTransaction). t.id) _ b.transactions x,
)

-- The lines of a budget after the header.
abbrev pub record_lines : BudgetData → List Json
record_lines b =
    map (account_json true) b.accounts
    ++ (map (category_json true) b.categories
        ++ (map (place_json true) b.places ++ map (transaction_json true) b.transactions))

module _ (intl : Text → Option ℕ) (parse_json : Text → Option Json) (print : Json → Text) where
  sorted_budget-IsWhole : (b : BudgetData) → IsWhole intl b → IsWhole intl (sorted_budget b)
  unfolding sorted_budget
  sorted_budget-IsWhole b (u, v, w, x) = (
    sort_by-All (λ (a : BudgetAccount). a.id) _ (IsAccount intl) b.accounts u,
    sort_by-All (λ (c : BudgetCategory). c.id) _ (IsCategory intl) b.categories v,
    sort_by-All (λ (p : BudgetPlace). p.id) _ (IsPlace intl) b.places w,
    sort_by-All (λ (t : BudgetTransaction). t.id) _ (IsTransaction intl) b.transactions x,
  )

  add_lines-budget :
      (b : BudgetData)
      → parse_json [] ≡ none
      → IsWhole intl b
      → IsUniqueBudget b
      → All (IsRead parse_json print) (record_lines b)
      → add_lines intl parse_json version2 empty_budget (map print (record_lines b)) ≡ ok b
  unfolding add_lines
  add_lines-budget b blank (u, v, w, x) (i, j, k, l) read =
      let b₁ : BudgetData = record empty_budget { accounts = b.accounts } in
      let b₂ : BudgetData = record b₁ { categories = b.categories } in
      let b₃ : BudgetData = record b₂ { places = b.places } in
      let accounts = map (account_json true) b.accounts in
      let categories = map (category_json true) b.categories in
      let places = map (place_json true) b.places in
      let transactions = map (transaction_json true) b.transactions in
      let (ra, after_a) = All-append (IsRead parse_json print) accounts _ read in
      let (rc, after_c) = All-append (IsRead parse_json print) categories _ after_a in
      let (rp, rt) = All-append (IsRead parse_json print) places transactions after_c in
      let tail = map print places ++ (map print transactions ++ []) in
      let texts : map print (record_lines b)
          ≡ map print accounts ++ (map print categories ++ tail) =
        map-append print accounts (categories ++ (places ++ transactions))
        ∙ ap (λ l. map print accounts ++ l)
            (map-append print categories (places ++ transactions)
              ∙ ap (λ l. map print categories ++ l)
                  (map-append print places transactions
                    ∙ ap (λ l. map print places ++ l)
                        (sym (append-nil (map print transactions))))) in
      ap (add_lines intl parse_json version2 empty_budget) texts
      ∙ add_lines-records parse_json print intl blank (λ (a : BudgetAccount). a.id)
          (λ a. member (codes "type") (string (codes "account")) (account_members a))
          (IsAccount intl) (λ l. record empty_budget { accounts = l })
          (add_record-account intl empty_budget) [] b.accounts (map print categories ++ tail) u i
          (nil-IsFresh (λ (r : BudgetAccount). r.id) b.accounts) ra
      ∙ add_lines-records parse_json print intl blank (λ (c : BudgetCategory). c.id)
          (λ c. member (codes "type") (string (codes "category")) (category_members c))
          (IsCategory intl) (λ l. record b₁ { categories = l }) (add_record-category intl b₁) []
          b.categories tail v j (nil-IsFresh (λ (r : BudgetCategory). r.id) b.categories) rc
      ∙ add_lines-records parse_json print intl blank (λ (p : BudgetPlace). p.id)
          (λ p. member (codes "type") (string (codes "place")) (place_members p)) (IsPlace intl)
          (λ l. record b₂ { places = l }) (add_record-place intl b₂) [] b.places
          (map print transactions ++ []) w k (nil-IsFresh (λ (r : BudgetPlace). r.id) b.places) rp
      ∙ add_lines-records parse_json print intl blank (λ (t : BudgetTransaction). t.id)
          (λ t. member (codes "type") (string (codes "transaction")) (transaction_members t))
          (IsTransaction intl) (λ l. record b₃ { transactions = l })
          (add_record-transaction intl b₃) [] b.transactions [] x l
          (nil-IsFresh (λ (r : BudgetTransaction). r.id) b.transactions) rt

  -- What the file's lines are read as, and as a whole.
  pub parse_lines-budget_lines :
      (b : BudgetData)
      → parse_json [] ≡ none
      → IsWhole intl b
      → IsUniqueBudget b
      → All (IsRead parse_json print) (budget_lines b)
      → parse_lines intl parse_json (map print (budget_lines b)) ≡ check_budget (sorted_budget b)
  unfolding parse_lines budget_lines read_header version_of object_with_keys lookup contains text_eq
      keys is_text sorted_budget
  parse_lines-budget_lines b blank whole unique read =
      rw
        (parse_line-print parse_json print
          (member (codes "type") (string (codes "budget"))
            (member (codes "version") (number 2) no_members))
          blank read.0)
        (ap (λ (r : Result BudgetData). r >>= check_budget)
          (add_lines-budget (sorted_budget b) blank (sorted_budget-IsWhole b whole)
            (sorted_budget-IsUnique b unique) read.1))
