-- ===== src/Budget/File.antt =====
-- `parseBudget` and `serializeBudget` of plugins/budget/src/model.ts: the lines of the budget's file. The
-- language's `JSON.parse`, which gives none where it throws, and `JSON.stringify` are parameters.
use arxhub.Base.{
  Bool, List, Option, Result, Text, [], codes, err, false, if◌then◌else◌, join_lines, map, none, ok,
  some, sort_by, split_newlines, text_eq, text_less, true, validation, ℕ, ◌&&◌, ◌++◌, ◌==◌, ◌>>=◌,
  ◌||◌, ◌∷◌,
}
use arxhub.Base.Dict.{lookup, values}
use arxhub.Budget.Dates.{is_empty_text}
use arxhub.Budget.Fields.{object_with_keys}
use arxhub.Budget.Json.{Json, dict_of, member, no_members, null, object, string, value_at}
use arxhub.Budget.Model.{
  BudgetAccount, BudgetCategory, BudgetData, BudgetPlace, BudgetTransaction, empty_budget,
}
use arxhub.Budget.Records.{account_from, category_from, is_text, place_from}
use arxhub.Budget.Transactions.{Version, transaction_from, version1, version2}
use arxhub.Budget.Whole.{
  account_json, budget_json, category_json, check_budget, number, place_json, transaction_json,
  validate_budget, version_of,
}

module _ (parse_json : Text → Option Json) where
  unfoldable pub parse_line : Text → Result Json
  parse_line [] = err validation
  parse_line (c ∷ line) = elim (parse_json (c ∷ line)) [
    | none ↦ err validation
    | some (object members) ↦ ok (object members)
    | some _ ↦ err validation
  ]

-- `if (lines.at(-1) === '') lines.pop()`
unfoldable pub drop_last_blank : List Text → List Text
drop_last_blank [] = []
drop_last_blank (line ∷ []) = if is_empty_text line then [] else line ∷ []
drop_last_blank (line ∷ (more ∷ lines)) = line ∷ drop_last_blank (more ∷ lines)

-- A line without a carriage return at its end.
unfoldable pub strip_return : Text → Text
strip_return [] = []
strip_return (c ∷ []) = if c == 13 then [] else c ∷ []
strip_return (c ∷ (d ∷ text)) = c ∷ strip_return (d ∷ text)

-- `value.type` of an object
unfoldable pub type_of : Json → Json
unfolding lookup
type_of (object members) = value_at (codes "type") (dict_of members)
type_of _ = null

unfoldable pub read_header : Json → Result Version
unfolding object_with_keys is_text version_of lookup
read_header value = do
  d ← object_with_keys (codes "type" ∷ codes "version" ∷ []) value
  if is_text (codes "budget") (value_at (codes "type") d)
      then version_of (value_at (codes "version") d)
      else err validation

-- The sets of ids are those of the records that were read.
unfoldable pub has_id {ℓ} : {A : Type ℓ} → (A → Text) → Text → List A → Bool
unfolding text_eq
has_id id_of id [] = false
has_id id_of id (a ∷ rest) = text_eq (id_of a) id || has_id id_of id rest

unfoldable pub push_new {ℓ} : {A : Type ℓ} → (A → Text) → A → List A → Result (List A)
unfolding has_id
push_new id_of a values =
    if has_id id_of (id_of a) values then err validation else ok (values ++ (a ∷ []))

unfoldable pub push_account : BudgetData → BudgetAccount → Result BudgetData
unfolding push_new
push_account b a = do
  accounts ← push_new (λ (x : BudgetAccount). x.id) a b.accounts
  ok (record {
    accounts = accounts;
    categories = b.categories;
    places = b.places;
    transactions = b.transactions;
  })

unfoldable pub push_category : BudgetData → BudgetCategory → Result BudgetData
unfolding push_new
push_category b c = do
  categories ← push_new (λ (x : BudgetCategory). x.id) c b.categories
  ok (record {
    accounts = b.accounts;
    categories = categories;
    places = b.places;
    transactions = b.transactions;
  })

unfoldable pub push_place : BudgetData → BudgetPlace → Result BudgetData
unfolding push_new
push_place b p = do
  places ← push_new (λ (x : BudgetPlace). x.id) p b.places
  ok (record {
    accounts = b.accounts;
    categories = b.categories;
    places = places;
    transactions = b.transactions;
  })

unfoldable pub push_transaction : BudgetData → BudgetTransaction → Result BudgetData
unfolding push_new
push_transaction b t = do
  transactions ← push_new (λ (x : BudgetTransaction). x.id) t b.transactions
  ok (record {
    accounts = b.accounts;
    categories = b.categories;
    places = b.places;
    transactions = transactions;
  })

pub data RecordType : Type 0 where
  account_record category_record place_record transaction_record : RecordType

-- The branch that a record's type takes.
unfoldable pub record_type : Version → Json → Option RecordType
unfolding is_text type_of
record_type version value =
    if is_text (codes "account") (type_of value)
    then some account_record
    else (if is_text (codes "category") (type_of value)
        then some category_record
        else (if is_text (codes "place") (type_of value) && is_second version
            then some place_record
            else (if is_text (codes "transaction") (type_of value)
                then some transaction_record
                else none)))
  where
    is_second : Version → Bool
    is_second version1 = false
    is_second version2 = true

-- The body of the loop over the lines, after `parseLine`.
unfoldable pub add_record : (Text → Option ℕ) → Version → BudgetData → Json → Result BudgetData
unfolding record_type account_from category_from place_from transaction_from push_account
    push_category push_place push_transaction
add_record intl version b value = elim (record_type version value) [
  | none ↦ err validation
  | some account_record ↦ account_from intl true value >>= push_account b
  | some category_record ↦ category_from true value >>= push_category b
  | some place_record ↦ place_from true value >>= push_place b
  | some transaction_record ↦ transaction_from true version value >>= push_transaction b
]

module _ (intl : Text → Option ℕ) (parse_json : Text → Option Json) where
  unfoldable pub add_lines : Version → BudgetData → List Text → Result BudgetData
  unfolding parse_line add_record
  add_lines version b [] = ok b
  add_lines version b (line ∷ lines) =
      parse_line parse_json line
      >>= (λ value. add_record intl version b value >>= (λ more. add_lines version more lines))

  unfoldable pub parse_lines : List Text → Result BudgetData
  unfolding parse_line read_header add_lines check_budget
  parse_lines [] = err validation
  parse_lines (line ∷ lines) = do
    value ← parse_line parse_json line
    version ← read_header value
    b ← add_lines version empty_budget lines
    check_budget b

  unfoldable pub parse_budget : Text → Result BudgetData
  unfolding parse_lines split_newlines drop_last_blank strip_return
  parse_budget [] = err validation
  parse_budget (c ∷ text) =
      parse_lines (map strip_return (drop_last_blank (split_newlines (c ∷ text))))

abbrev pub header_json : Json
header_json = object (
    member (codes "type") (string (codes "budget"))
      (member (codes "version") (number 2) no_members))

-- `[...values].sort(byId)`
unfoldable pub sort_by_id {ℓ} : {A : Type ℓ} → (A → Text) → List A → List A
unfolding sort_by text_less
sort_by_id id_of = sort_by (λ a b. text_less (id_of a) (id_of b))

-- The values that `serializeBudget` writes, one on each line.
unfoldable pub budget_lines : BudgetData → List Json
unfolding sort_by_id
budget_lines b =
    header_json
    ∷ (map (account_json true) (sort_by_id (λ (a : BudgetAccount). a.id) b.accounts)
        ++ (map (category_json true) (sort_by_id (λ (c : BudgetCategory). c.id) b.categories)
            ++ (map (place_json true) (sort_by_id (λ (p : BudgetPlace). p.id) b.places)
                ++ map (transaction_json true)
                    (sort_by_id (λ (t : BudgetTransaction). t.id) b.transactions))))

unfoldable pub serialize_budget : (Text → Option ℕ) → (Json → Text) → BudgetData → Result Text
unfolding validate_budget budget_lines join_lines
serialize_budget intl print_json value = do
  b ← validate_budget intl (budget_json value)
  ok (join_lines (map print_json (budget_lines b)) ++ (10 ∷ []))
