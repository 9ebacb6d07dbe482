-- ===== src/Budget/RoundTrip/Lines.antt =====
-- The lines of one kind of record, read by `parseBudget` of plugins/budget/src/model.ts.
use arxhub.Base.{
  All, List, Option, Text, [], ap, append-nil, append_assoc, arith, false, map, none, ok, refl,
  some, sym, text_eq, text_eq_iff, ℕ, ◌++◌, ◌||◌, ◌∙◌, ◌∷◌, ◌≡◌,
}
use arxhub.Base.Dict.{values}
use arxhub.Budget.File.{add_lines, add_record, has_id, parse_line}
use arxhub.Budget.Json.{Json, Members, object}
use arxhub.Budget.Model.{BudgetData}
use arxhub.Budget.RoundTrip.Unique.{IsUnique}
use arxhub.Budget.Transactions.{version2}

has_id-append {ℓ} :
    {A : Type ℓ} (id_of : A → Text) (id : Text) (values : List A) (a : A)
    → has_id id_of id (values ++ (a ∷ [])) ≡ (has_id id_of id values || text_eq (id_of a) id)
unfolding has_id
has_id-append id_of id [] a = ground arith
has_id-append id_of id (value ∷ values) a = ground (arith, has_id-append id_of id values a)

-- Records whose ids are none of those of a list.
abbrev pub IsFresh {ℓ} : {A : Type ℓ} → (A → Text) → List A → List A → Type 0
IsFresh id_of values more = All (λ a. has_id id_of (id_of a) values ≡ false) more

pub nil-IsFresh {ℓ} : {A : Type ℓ} (id_of : A → Text) (more : List A) → IsFresh id_of [] more
unfolding has_id
nil-IsFresh id_of [] = tt
nil-IsFresh id_of (a ∷ more) = (refl, nil-IsFresh id_of more)

IsFresh-append {ℓ} :
    {A : Type ℓ} (id_of : A → Text) (values : List A) (a : A) (more : List A)
    → IsFresh id_of values more
    → has_id id_of (id_of a) more ≡ false
    → IsFresh id_of (values ++ (a ∷ [])) more
unfolding has_id
IsFresh-append id_of values a [] new other = tt
IsFresh-append id_of values a (b ∷ more) new other = (
  has_id-append id_of (id_of b) values a
      ∙ ground
          (arith, new.0, other, text_eq_iff (id_of a) (id_of b), text_eq_iff (id_of b) (id_of a)),
  IsFresh-append id_of values a more new.1 (ground (arith, other)),
)

module _ (parse_json : Text → Option Json) (print : Json → Text) where
  abbrev pub IsRead : Json → Type 0
  IsRead j = parse_json (print j) ≡ some j

  pub parse_line-print :
      (members : Members)
      → parse_json [] ≡ none
      → IsRead (object members)
      → parse_line parse_json (print (object members)) ≡ ok (object members)
  unfolding parse_line
  parse_line-print members blank read = of_text (print (object members)) read
    where
      of_text :
          (text : Text)
          → parse_json text ≡ some (object members)
          → parse_line parse_json text ≡ ok (object members)
      of_text [] is = absurd (cc (blank, is))
      of_text (c ∷ text) is = rw (is, parse_line) refl

  module _ {ℓ} {A : Type ℓ} (intl : Text → Option ℕ) (blank : parse_json [] ≡ none)
      (id_of : A → Text) (members : A → Members) (IsValid : A → Type 0) (put : List A → BudgetData)
      (adds : (values : List A) (a : A)
        → IsValid a
        → has_id id_of (id_of a) values ≡ false
        → add_record intl version2 (put values) (object (members a))
          ≡ ok (put (values ++ (a ∷ [])))) where
    pub add_lines-records :
        (values records : List A) (more : List Text)
        → All IsValid records
        → IsUnique id_of records
        → IsFresh id_of values records
        → All IsRead (map (λ a. object (members a)) records)
        → add_lines intl parse_json version2
            (put values)
            (map print (map (λ a. object (members a)) records) ++ more)
          ≡ add_lines intl parse_json version2 (put (values ++ records)) more
    unfolding add_lines
    add_lines-records values [] more valid unique new read =
        ap (λ l. add_lines intl parse_json version2 (put l) more) (sym (append-nil values))
    add_lines-records values (a ∷ records) more valid unique new read =
        rw (parse_line-print (members a) blank read.0, add_lines)
          (rw (adds values a valid.0 new.0) (
            add_lines-records (values ++ (a ∷ [])) records more valid.1 unique.1
              (IsFresh-append id_of values a records new.1 unique.0) read.1
            ∙ ap (λ l. add_lines intl parse_json version2 (put l) more)
                (append_assoc values (a ∷ []) records)))
