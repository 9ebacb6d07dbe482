-- ===== src/Budget/RoundTrip/Saved.antt =====
-- A budget that is saved and read again, by `serializeBudget` and `parseBudget` of
-- plugins/budget/src/model.ts.
use mathlib.Core.Path.{subst}
use arxhub.Base.{
  >>=-ok_inv, All, Option, Result, Text, [], ap, join_lines, map, none, ok, true, ℕ, ◌++◌, ◌>>=◌,
  ◌∙◌, ◌∷◌, ◌≡◌,
}
use arxhub.Budget.File.{budget_lines, header_json, parse_budget, parse_lines, serialize_budget}
use arxhub.Budget.Json.{Json}
use arxhub.Budget.Model.{BudgetData}
use arxhub.Budget.RoundTrip.File.{
  IsUniqueBudget, check_budget-IsUniqueBudget, parse_lines-budget_lines, sorted_budget,
}
use arxhub.Budget.RoundTrip.Lines.{IsRead}
use arxhub.Budget.RoundTrip.Sorted.{IsSortedFrom, sorted_budget-IsSortedFrom}
use arxhub.Budget.RoundTrip.Text.{is_one_line, parse_budget-lines}
use arxhub.Budget.RoundTrip.Valid.{IsWhole, read_budget-IsWhole}
use arxhub.Budget.RoundTrip.Whole.{
  check_budget-validated, check_budget_inv, validate_budget-budget_json,
}
use arxhub.Budget.Whole.{check_budget, read_budget, validate_budget}

module _ (intl : Text → Option ℕ) (parse_json : Text → Option Json) (print_json : Json → Text)
    (one_line : (j : Json) → is_one_line (print_json j) ≡ true) (blank : parse_json [] ≡ none) where
  validate_budget_inv :
      (value : Json) (b : BudgetData)
      → validate_budget intl value ≡ ok b
      → IsWhole intl b × IsUniqueBudget b
  unfolding validate_budget
  validate_budget_inv value b h =
      let (c, c_is, h₁) = >>=-ok_inv (read_budget intl value) _ h in
      (
        subst (IsWhole intl) (check_budget_inv intl c b h₁) (read_budget-IsWhole intl value c c_is),
        check_budget-IsUniqueBudget b b (check_budget-validated intl value b h),
      )

  lines_of :
      (b : BudgetData)
      → parse_budget intl parse_json (join_lines (map print_json (budget_lines b)) ++ (10 ∷ []))
        ≡ parse_lines intl parse_json (map print_json (budget_lines b))
  unfolding budget_lines
  lines_of b = parse_budget-lines print_json one_line intl parse_json header_json _

  parsed_sorted :
      (value : Json) (b : BudgetData)
      → validate_budget intl value ≡ ok b
      → All (IsRead parse_json print_json) (budget_lines b)
      → (text : Text) × (serialize_budget intl print_json b ≡ ok text)
        × (parse_budget intl parse_json text ≡ check_budget (sorted_budget b))
  unfolding serialize_budget
  parsed_sorted value b h read =
      let (whole, unique) = validate_budget_inv value b h in
      (
        join_lines (map print_json (budget_lines b)) ++ (10 ∷ []),
        ap
            (λ (r : Result BudgetData).
              r >>= (λ c. ok (join_lines (map print_json (budget_lines c)) ++ (10 ∷ []))))
            (validate_budget-budget_json intl value b h),
        lines_of b ∙ parse_lines-budget_lines intl parse_json print_json b blank whole unique read,
      )

  -- If `JSON.parse` reads the lines that are written as what they were printed from, and reads no value from
  -- an empty text, and nothing is printed over several lines, a budget that was validated is written without
  -- an error, and parsing the text checks one budget again, for its references and sums: the one with the
  -- same records, each list in the order of the ids by their code units.
  pub parse_budget-serialize_budget :
      (value : Json) (b : BudgetData)
      → validate_budget intl value ≡ ok b
      → All (IsRead parse_json print_json) (budget_lines b)
      → (text : Text) × (s : BudgetData) × (serialize_budget intl print_json b ≡ ok text)
        × IsSortedFrom s b
        × (parse_budget intl parse_json text ≡ check_budget s)
  parse_budget-serialize_budget value b h read =
      let (text, written, parsed) = parsed_sorted value b h read in
      (text, sorted_budget b, written, sorted_budget-IsSortedFrom b, parsed)

  -- If `JSON.parse` reads the lines that are written as what they were printed from, and reads no value from
  -- an empty text, and nothing is printed over several lines, a budget that was validated, whose lists are in
  -- the order of their ids, is written without an error and comes back from its file as it was.
  pub parse_budget-serialize_budget_in_order :
      (value : Json) (b : BudgetData)
      → validate_budget intl value ≡ ok b
      → All (IsRead parse_json print_json) (budget_lines b)
      → sorted_budget b ≡ b
      → (text : Text) × (serialize_budget intl print_json b ≡ ok text)
        × (parse_budget intl parse_json text ≡ ok b)
  parse_budget-serialize_budget_in_order value b h read in_order =
      let (text, written, parsed) = parsed_sorted value b h read in
      (text, written, parsed ∙ ap check_budget in_order ∙ check_budget-validated intl value b h)
