-- ===== src/Budget/RoundTrip/Fields.antt =====
-- What a field of plugins/budget/src/model.ts was, given what its check returned.
use arxhub.Base.{
  Bool, Bool-cases, Error, Option, Option-cases, Result, Result-cases, Text, [], all, ap, codes,
  decimal_value, err, false, if◌then◌else◌, inl, inr, is_safe_ℤ, leb, length, negsuc, not, ok,
  ok_injective, pos, some, text_eq, text_eq_iff, trim, true, validation, ℕ, ℤ, ◌&&◌, ◌==◌, ◌||◌,
  ◌∙◌, ◌∷◌, ◌≡◌,
}
use arxhub.Budget.Dates.{
  is_digit, is_empty_text, is_time, is_unreal_date, read_date, valid_date_string,
  valid_local_date_time,
}
use arxhub.Budget.Fields.{
  coordinate, display_name, fiscal_decimal, fiscal_drive, fiscal_operation, has_space, identifier,
  is_within, kind_name, max_attachment_size, mime_by_extension, non_negative_money, positive_money,
  receipt_extension, safe_integer, string_field, transaction_kind, valid_currency, valid_date,
  valid_issued_at,
}
use arxhub.Budget.Json.{
  Json, array, boolean, fraction, infinite, integer, null, object, or_null, string,
}
use arxhub.Budget.Model.{TransactionKind, expense, income}
use arxhub.Budget.Money.{currency_digits, validate_quantity}
use arxhub.Budget.Records.{checked_mime, checked_size, quantity_field}
use arxhub.Budget.Whole.{number}

module _ {ℓ} {A : Type ℓ} (code : Error) where
  -- A value that is returned under a condition is the one that was given.
  passed : (test : Bool) (a b : A) → (if test then ok a else err code) ≡ ok b → a ≡ b
  passed true a b h = ok_injective h
  passed false a b h = absurd (cc h)

  refused : (test : Bool) (a b : A) → (if test then err code else ok a) ≡ ok b → a ≡ b
  refused true a b h = absurd (cc h)
  refused false a b h = ok_injective h

pub identifier_inv : (value : Json) (id : Text) → identifier value ≡ ok id → value ≡ string id
unfolding identifier
identifier_inv (string text) id h =
    ap string (refused validation (is_empty_text text || has_space text) text id h)
identifier_inv _ id h = absurd (cc h)

pub display_name_inv :
    (value : Json) (name : Text) → display_name value ≡ ok name → value ≡ string name
unfolding display_name
display_name_inv (string text) name h =
    ap string (refused validation (is_empty_text (trim text)) text name h)
display_name_inv _ name h = absurd (cc h)

pub string_field_inv : (value : Json) (s : Text) → string_field value ≡ ok s → value ≡ string s
unfolding string_field
string_field_inv (string text) s h = ap string (ok_injective h)
string_field_inv _ s h = absurd (cc h)

pub safe_integer_inv : (value : Json) (z : ℤ) → safe_integer value ≡ ok z → value ≡ integer z
unfolding safe_integer
safe_integer_inv (integer y) z h = ap integer (passed validation (is_safe_ℤ y) y z h)
safe_integer_inv _ z h = absurd (cc h)

pub non_negative_money_inv :
    (value : Json) (n : ℕ) → non_negative_money value ≡ ok n → value ≡ number n
unfolding non_negative_money
non_negative_money_inv value n h = elim (Result-cases (safe_integer value)) [
  | inl (e, is) ↦ absurd (cc (rw (is, non_negative_money) at h))
  | inr (pos m, is) ↦
      let m_n : m ≡ n = ok_injective (rw (is, non_negative_money) at h) in
      safe_integer_inv value (pos m) is ∙ ap number m_n
  | inr (negsuc m, is) ↦ absurd (cc (rw (is, non_negative_money) at h))
]

pub positive_money_inv : (value : Json) (n : ℕ) → positive_money value ≡ ok n → value ≡ number n
unfolding positive_money
positive_money_inv value n h = elim (Result-cases (safe_integer value)) [
  | inl (e, is) ↦ absurd (cc (rw (is, positive_money) at h))
  | inr (pos m, is) ↦
      safe_integer_inv value (pos m) is
      ∙ ap number (refused validation (m == 0) m n (rw (is, positive_money) at h))
  | inr (negsuc m, is) ↦ absurd (cc (rw (is, positive_money) at h))
]

pub transaction_kind_inv :
    (value : Json) (kind : TransactionKind)
    → transaction_kind value ≡ ok kind
    → value ≡ string (kind_name kind)
unfolding transaction_kind
transaction_kind_inv (string text) kind h = elim (Bool-cases (text_eq text (codes "income"))) [
  | inl is_income ↦
      let k : income ≡ kind = ok_injective (rw is_income at h) in
      ap string ((text_eq_iff text (codes "income")).0 is_income ∙ ap kind_name k)
  | inr other ↦ elim (Bool-cases (text_eq text (codes "expense"))) [
    | inl is_expense ↦
        let k : expense ≡ kind = ok_injective (rw (other, is_expense) at h) in
        ap string ((text_eq_iff text (codes "expense")).0 is_expense ∙ ap kind_name k)
    | inr neither ↦ absurd (cc (rw (other, neither) at h))
  ]
]
transaction_kind_inv _ kind h = absurd (cc h)

pub valid_currency_inv :
    (intl : Text → Option ℕ) (value : Json) (code : Text)
    → valid_currency intl value ≡ ok code
    → value ≡ string code
unfolding valid_currency
valid_currency_inv intl (string text) code h = elim (Result-cases (currency_digits intl text)) [
  | inl (e, is) ↦ absurd (cc (rw (is, valid_currency) at h))
  | inr (digits, is) ↦ ap string (ok_injective (rw (is, valid_currency) at h))
]
valid_currency_inv intl _ code h = absurd (cc h)

pub valid_date_string_inv : (text date : Text) → valid_date_string text ≡ ok date → text ≡ date
unfolding valid_date_string
valid_date_string_inv text date h = elim (Option-cases (read_date text)) [
  | inl is ↦ absurd (cc (rw (is, valid_date_string) at h))
  | inr ((month, day, rest), is) ↦
      passed validation (is_empty_text rest && not (is_unreal_date month day)) text date
        (rw (is, valid_date_string) at h)
]

pub valid_date_inv : (value : Json) (date : Text) → valid_date value ≡ ok date → value ≡ string date
unfolding valid_date
valid_date_inv (string text) date h = ap string (valid_date_string_inv text date h)
valid_date_inv _ date h = absurd (cc h)

valid_local_date_time_inv :
    (text at_time : Text) → valid_local_date_time text ≡ ok at_time → text ≡ at_time
unfolding valid_local_date_time
valid_local_date_time_inv text at_time h = elim (Option-cases (read_date text)) [
  | inl is ↦ absurd (cc (rw (is, valid_local_date_time) at h))
  | inr ((month, day, []), is) ↦ absurd (cc (rw (is, valid_local_date_time) at h))
  | inr ((month, day, (c ∷ time)), is) ↦
      passed validation ((c == b'T') && (not (is_unreal_date month day) && is_time time)) text
        at_time (rw (is, valid_local_date_time) at h)
]

pub valid_issued_at_inv :
    (value : Json) (at_time : Text) → valid_issued_at value ≡ ok at_time → value ≡ string at_time
unfolding valid_issued_at
valid_issued_at_inv (string text) at_time h = ap string (valid_local_date_time_inv text at_time h)
valid_issued_at_inv _ at_time h = absurd (cc h)

pub coordinate_inv :
    (limit : ℕ) (value : Json) (o : Option Json) → coordinate limit value ≡ ok o → value ≡ or_null o
unfolding coordinate
coordinate_inv limit null o h = ap or_null (ok_injective h)
coordinate_inv limit (integer z) o h =
    ap or_null (passed validation (is_within limit (integer z)) (some (integer z)) o h)
coordinate_inv limit (fraction z digits) o h =
    ap or_null
      (passed validation (is_within limit (fraction z digits)) (some (fraction z digits)) o h)
coordinate_inv limit (boolean b) o h = absurd (cc h)
coordinate_inv limit (infinite b) o h = absurd (cc h)
coordinate_inv limit (string b) o h = absurd (cc h)
coordinate_inv limit (array b) o h = absurd (cc h)
coordinate_inv limit (object b) o h = absurd (cc h)

pub quantity_field_inv :
    (value : Json) (quantity : Text) → quantity_field value ≡ ok quantity → value ≡ string quantity
unfolding quantity_field
quantity_field_inv (string text) quantity h = elim (Result-cases (validate_quantity text)) [
  | inl (e, is) ↦ absurd (cc (rw (is, quantity_field) at h))
  | inr (q, is) ↦ ap string (ok_injective (rw (is, quantity_field) at h))
]
quantity_field_inv _ quantity h = absurd (cc h)

pub fiscal_decimal_inv : (value : Json) (s : Text) → fiscal_decimal value ≡ ok s → value ≡ string s
unfolding fiscal_decimal
fiscal_decimal_inv (string text) s h = ap string (
    passed validation
      (not (is_empty_text text)
        && all is_digit text
        && not (decimal_value 0 text == 0)
        && leb (decimal_value 0 text) 4294967295)
      text s h)
fiscal_decimal_inv _ s h = absurd (cc h)

pub fiscal_drive_inv : (value : Json) (s : Text) → fiscal_drive value ≡ ok s → value ≡ string s
unfolding fiscal_drive
fiscal_drive_inv (string text) s h =
    ap string (passed validation ((length text == 16) && all is_digit text) text s h)
fiscal_drive_inv _ s h = absurd (cc h)

pub fiscal_operation_inv : (value : Json) (n : ℕ) → fiscal_operation value ≡ ok n → value ≡ number n
unfolding fiscal_operation
fiscal_operation_inv (integer (pos m)) n h =
    ap number (passed validation (leb 1 m && leb m 4) m n h)
fiscal_operation_inv (integer (negsuc m)) n h = absurd (cc h)
fiscal_operation_inv _ n h = absurd (cc h)

pub checked_size_inv : (z : ℤ) (n : ℕ) → checked_size z ≡ ok n → z ≡ pos n
unfolding checked_size
checked_size_inv (pos m) n h =
    ap pos (passed validation (leb 1 m && leb m max_attachment_size) m n h)
checked_size_inv (negsuc m) n h = absurd (cc h)

pub checked_mime_inv : (path mime s : Text) → checked_mime path mime ≡ ok s → mime ≡ s
unfolding checked_mime
checked_mime_inv path mime s h = elim (Option-cases (receipt_extension path)) [
  | inl is ↦ absurd (cc (rw (is, checked_mime) at h))
  | inr (ext, is) ↦
      passed validation (text_eq mime (mime_by_extension ext)) mime s (rw (is, checked_mime) at h)
]

-- A check of a value is a check of what the value is.
pub reread {ℓ κ} :
    {V : Type ℓ} {A : Type κ} (check : V → Result A) {value json : V} {a : A}
    → value ≡ json
    → check value ≡ ok a
    → check json ≡ ok a
reread check is h = rw is at h
