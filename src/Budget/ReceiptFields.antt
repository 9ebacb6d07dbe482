-- ===== src/Budget/ReceiptFields.antt =====
-- The checks of fields of a receipt's JSON in plugins/budget/src/fiscal.ts, and its date. `Date.parse` is a
-- parameter.
use arxhub.Base.{
  Option, Result, Text, [], budget_error, decimal, err, if◌then◌else◌, is_safe, leb, neg_part,
  negsuc, none, ok, pos, pos_part, some, trim, ℕ, ℤ, ◌*◌, ◌++◌, ◌+◌, ◌-ℤ◌, ◌==◌, ◌>>=◌, ◌∷◌,
}
use arxhub.Base.Dict.{Dict, lookup}
use arxhub.Budget.Dates.{is_empty_text}
use arxhub.Budget.Json.{Json, dict_of, fraction, infinite, integer, object, string}
use arxhub.Budget.Model.{FiscalReceipt}

-- `object`
unfoldable pub object_value : Json → Result (Dict Json)
object_value (object members) = ok (dict_of members)
object_value _ = err budget_error

-- `text`
unfoldable pub text_value : Json → Result Text
unfolding trim
text_value (string text) = if is_empty_text (trim text) then err budget_error else ok (trim text)
text_value _ = err budget_error

-- `integer`
unfoldable pub integer_value : Json → Result ℕ
integer_value (integer (pos n)) = if is_safe n then ok n else err budget_error
integer_value _ = err budget_error

unfoldable pub fiscal_number : Json → Result Text
unfolding decimal
fiscal_number (string text) = ok text
fiscal_number (integer (pos n)) = if is_safe n then ok (decimal n) else err budget_error
fiscal_number _ = err budget_error

-- `replace(/Z$/, '')`
unfoldable pub strip_zone : Text → Text
strip_zone [] = []
strip_zone (c ∷ []) = if c == b'Z' then [] else c ∷ []
strip_zone (c ∷ (d ∷ text)) = c ∷ strip_zone (d ∷ text)

-- Milliseconds that a local time may be away from the time of the world.
abbrev pub max_offset : ℕ
max_offset = (14 * 60 * 60 + 60) * 1000

-- A number of seconds, which the expected receipt's local time has to be near.
unfoldable pub stamped_date : (Text → Option ℤ) → ℤ → Option FiscalReceipt → Result Text
unfolding ◌-ℤ◌
stamped_date date_parse (negsuc n) expected = err budget_error
stamped_date date_parse (pos seconds) expected =
    if leb seconds 253402300799
    then (elim expected [
      | none ↦ err budget_error
      | some r ↦ elim (date_parse (r.issued_at ++ (b'Z' ∷ []))) [
        | none ↦ err budget_error
        | some local ↦
            let apart = local -ℤ pos (seconds * 1000) in
            if leb (pos_part apart + neg_part apart) max_offset
            then ok r.issued_at
            else err budget_error
      ]
    ])
    else err budget_error

unfoldable pub receipt_date : (Text → Option ℤ) → Json → Option FiscalReceipt → Result Text
unfolding stamped_date strip_zone text_value
receipt_date date_parse (integer z) expected = stamped_date date_parse z expected
receipt_date date_parse (fraction z digits) expected = err budget_error
receipt_date date_parse (infinite sign) expected = err budget_error
receipt_date date_parse value expected = text_value value >>= (λ text. ok (strip_zone text))

-- `if (key in receipt) receipt = object(receipt[key], key)`
unfoldable pub unwrap : Text → Dict Json → Result (Dict Json)
unfolding lookup object_value
unwrap key d = elim (lookup key d) [ none ↦ ok d | some value ↦ object_value value ]
