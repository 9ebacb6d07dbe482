-- ===== src/Tests/BudgetStores.antt =====
-- A vault whose budget another writer creates while the first attempt of an update is under way. The values
-- on a line of the file are told apart by their types alone.
use arxhub.Base.{
  All, Bool-cases, Bytes, Option, Result, Text, [], arith, codes, if◌then◌else◌, inl, inr, none, ok,
  pos, refl, some, text_eq, true, ℕ, ◌++◌, ◌==◌, ◌∷◌, ◌≡◌,
}
use arxhub.Base.Dict.{Dict, insert, lookup}
use arxhub.Budget.File.{
  budget_lines, header_json, parse_budget, record_type, serialize_budget, type_of,
}
use arxhub.Budget.Json.{Json, dict_of, null, object, value_at}
use arxhub.Budget.Model.{BudgetAccount, BudgetData}
use arxhub.Budget.Records.{is_text}
use arxhub.Budget.RoundTrip.File.{sorted_budget}
use arxhub.Budget.RoundTrip.Lines.{IsRead}
use arxhub.Budget.RoundTrip.Saved.{
  parse_budget-serialize_budget, parse_budget-serialize_budget_in_order,
}
use arxhub.Budget.RoundTrip.Sorted.{IsSortedFrom}
use arxhub.Budget.RoundTrip.Text.{is_one_line}
use arxhub.Budget.Update.{
  Moment, before_look, before_swap, budget_path, max_budget_update_retries, settled, update,
  update_attempts,
}
use arxhub.Budget.Updates.{IsWritten, update-IsWritten, update-settled}
use arxhub.Budget.Whole.{account_json, budget_json, check_budget, validate_budget}

no_fraction : Text → Option ℕ
no_fraction currency = some 0

abbrev purse : BudgetAccount
purse = record {
  id = codes "purse";
  name = codes "Purse";
  currency = codes "JPY";
  opening_balance = pos 5;
}

abbrev filled : BudgetData
filled = record { accounts = purse ∷ []; categories = []; places = []; transactions = [] }

print_json : Json → Text
print_json value = if is_text (codes "budget") (type_of value) then codes "B" else codes "A"

parse_json : Text → Option Json
parse_json text =
    if text_eq text (codes "B")
    then some header_json
    else (if text_eq text (codes "A") then some (account_json true purse) else none)

decode_utf8 : Bytes → Option Text
decode_utf8 bytes = some bytes

encode_utf8 : Text → Bytes
encode_utf8 text = text

others : Moment → ℕ → Dict Bytes → Dict Bytes
unfolding insert
others before_swap n vault =
    if n == 9 then insert budget_path (codes "B" ++ (10 ∷ [])) vault else vault
others _ n vault = vault

fill : BudgetData → Result BudgetData
fill b = ok filled

abbrev full_vault : Dict Bytes
full_vault = (budget_path, codes "B" ++ (10 ∷ (codes "A" ++ (10 ∷ [])))) ∷ []

updated :
    update no_fraction parse_json print_json decode_utf8 encode_utf8 others fill []
    ≡ (ok filled, full_vault)
unfolding update no_fraction print_json parse_json decode_utf8 encode_utf8 others fill record_type
updated = refl

update-IsWritten_example :
    IsWritten no_fraction parse_json print_json decode_utf8 encode_utf8 others fill filled
      full_vault
update-IsWritten_example =
    update-IsWritten no_fraction parse_json print_json decode_utf8 encode_utf8 others fill []
      full_vault filled updated

quiet :
    (seen : Dict Bytes)
    → (lookup budget_path (others before_look 8 seen) ≡ lookup budget_path seen)
      × (lookup budget_path (others before_swap 8 seen) ≡ lookup budget_path seen)
unfolding others
quiet seen = (refl, refl)

update-settled_example :
    (answer : Result BudgetData) × (after : Dict Bytes) × (update_attempts no_fraction parse_json
        print_json decode_utf8 encode_utf8 others fill max_budget_update_retries []
      ≡ (settled answer, after))
    × (update no_fraction parse_json print_json decode_utf8 encode_utf8 others fill []
        ≡ (answer, after))
update-settled_example =
    update-settled no_fraction parse_json print_json decode_utf8 encode_utf8 others fill 8
      (omega arith) quiet []

print_json-one_line : (j : Json) → is_one_line (print_json j) ≡ true
unfolding print_json
print_json-one_line j = elim (Bool-cases (is_text (codes "budget") (type_of j))) [
  | inl header ↦ rw (header, print_json) refl
  | inr other ↦ rw (other, print_json) refl
]

blank_refused : parse_json [] ≡ none
unfolding parse_json text_eq
blank_refused = refl

filled-valid : validate_budget no_fraction (budget_json filled) ≡ ok filled
unfolding validate_budget no_fraction
filled-valid = refl

filled-IsRead : All (IsRead parse_json print_json) (budget_lines filled)
unfolding budget_lines parse_json print_json is_text type_of text_eq
filled-IsRead = (refl, (refl, tt))

filled-in_order : sorted_budget filled ≡ filled
unfolding sorted_budget
filled-in_order = refl

-- Two accounts, of which the second comes first in the file.
abbrev box : BudgetAccount
box = record purse { id = codes "box" }

abbrev unordered : BudgetData
unordered = record filled { accounts = purse ∷ box ∷ [] }

id_of_json : Json → Json
unfolding lookup
id_of_json (object members) = value_at (codes "id") (dict_of members)
id_of_json _ = null

print_two : Json → Text
unfolding id_of_json
print_two value =
    if is_text (codes "budget") (type_of value)
    then codes "B"
    else (if is_text (codes "box") (id_of_json value) then codes "X" else codes "A")

parse_two : Text → Option Json
parse_two text =
    if text_eq text (codes "B")
    then some header_json
    else (if text_eq text (codes "A")
        then some (account_json true purse)
        else (if text_eq text (codes "X") then some (account_json true box) else none))

print_two-one_line : (j : Json) → is_one_line (print_two j) ≡ true
unfolding print_two
print_two-one_line j = elim (Bool-cases (is_text (codes "budget") (type_of j))) [
  | inl header ↦ rw (header, print_two) refl
  | inr other ↦ elim (Bool-cases (is_text (codes "box") (id_of_json j))) [
    | inl second ↦ rw (other, second, print_two) refl
    | inr else_one ↦ rw (other, else_one, print_two) refl
  ]
]

no_value_in_blank : parse_two [] ≡ none
unfolding parse_two text_eq
no_value_in_blank = refl

unordered-valid : validate_budget no_fraction (budget_json unordered) ≡ ok unordered
unfolding validate_budget no_fraction
unordered-valid = refl

unordered-IsRead : All (IsRead parse_two print_two) (budget_lines unordered)
unfolding budget_lines parse_two print_two is_text type_of text_eq id_of_json
unordered-IsRead = (refl, (refl, (refl, tt)))

parse_budget-serialize_budget_example :
    (text : Text) × (s : BudgetData) × (serialize_budget no_fraction print_two unordered ≡ ok text)
    × IsSortedFrom s unordered
    × (parse_budget no_fraction parse_two text ≡ check_budget s)
parse_budget-serialize_budget_example =
    parse_budget-serialize_budget no_fraction parse_two print_two print_two-one_line
      no_value_in_blank (budget_json unordered) unordered unordered-valid unordered-IsRead

parse_budget-serialize_budget_in_order_example :
    (text : Text) × (serialize_budget no_fraction print_json filled ≡ ok text)
    × (parse_budget no_fraction parse_json text ≡ ok filled)
parse_budget-serialize_budget_in_order_example =
    parse_budget-serialize_budget_in_order no_fraction parse_json print_json print_json-one_line
      blank_refused (budget_json filled) filled filled-valid filled-IsRead filled-in_order
