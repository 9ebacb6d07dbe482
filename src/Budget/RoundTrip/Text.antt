-- ===== src/Budget/RoundTrip/Text.antt =====
-- The text of a budget's file, in plugins/budget/src/model.ts: what `parseBudget` takes for its lines.
use arxhub.Base.{
  All, Bool, List, Option, Text, [], all, ap, arith, false, join_lines, map, not, refl,
  split_newlines, split_newlines-join_lines, true, ℕ, ◌&&◌, ◌++◌, ◌==◌, ◌∙◌, ◌∷◌, ◌≡◌,
}
use arxhub.Base.Dict.{values}
use arxhub.Budget.File.{drop_last_blank, parse_budget, parse_lines, strip_return}
use arxhub.Budget.Json.{Json}

-- A text on one line: it has neither a newline nor a carriage return.
abbrev pub is_one_line : Text → Bool
is_one_line text = all (λ c. not (c == 10)) text && all (λ c. not (c == 13)) text

drop_last_blank-append : (lines : List Text) → drop_last_blank (lines ++ ([] ∷ [])) ≡ lines
unfolding drop_last_blank
drop_last_blank-append [] = refl
drop_last_blank-append (line ∷ []) = refl
drop_last_blank-append (line ∷ (more ∷ lines)) =
    ap (λ rest. line ∷ rest) (drop_last_blank-append (more ∷ lines))

strip_return-clean : (text : Text) → all (λ c. not (c == 13)) text ≡ true → strip_return text ≡ text
unfolding strip_return
strip_return-clean [] clean = refl
strip_return-clean (c ∷ []) clean =
    let other : (c == 13) ≡ false = ground (arith, clean) in rw (other, strip_return) refl
strip_return-clean (c ∷ (d ∷ text)) clean =
    ap (λ rest. c ∷ rest) (strip_return-clean (d ∷ text) (ground (arith, clean)))

parse_budget-ended :
    (intl : Text → Option ℕ) (parse_json : Text → Option Json) (text : Text)
    → parse_budget intl parse_json (text ++ (10 ∷ []))
      ≡ parse_lines intl parse_json
          (map strip_return (drop_last_blank (split_newlines (text ++ (10 ∷ [])))))
unfolding parse_budget
parse_budget-ended intl parse_json [] = refl
parse_budget-ended intl parse_json (c ∷ text) = refl

module _ (print : Json → Text) (one_line : (j : Json) → is_one_line (print j) ≡ true) where
  strip_return-map : (values : List Json) → map strip_return (map print values) ≡ map print values
  strip_return-map [] = refl
  strip_return-map (j ∷ values) =
      rw (strip_return-clean (print j) (ground (arith, one_line j)), strip_return-map values) refl

  no_newlines :
      (values : List Json)
      → All (λ (l : Text). all (λ c. not (c == 10)) l ≡ true) (map print values)
  no_newlines [] = tt
  no_newlines (j ∷ values) = (ground (arith, one_line j), no_newlines values)

  pub parse_budget-lines :
      (intl : Text → Option ℕ) (parse_json : Text → Option Json) (j : Json) (values : List Json)
      → parse_budget intl parse_json (join_lines (map print (j ∷ values)) ++ (10 ∷ []))
        ≡ parse_lines intl parse_json (map print (j ∷ values))
  parse_budget-lines intl parse_json j values =
      let split =
        split_newlines-join_lines (print j) (map print values) (no_newlines (j ∷ values)) in
      let lines =
        ap (λ ls. map strip_return (drop_last_blank ls)) split
        ∙ ap (map strip_return) (drop_last_blank-append (map print (j ∷ values)))
        ∙ strip_return-map (j ∷ values) in
      parse_budget-ended intl parse_json (join_lines (map print (j ∷ values)))
      ∙ ap (parse_lines intl parse_json) lines
