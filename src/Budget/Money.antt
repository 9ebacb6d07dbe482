-- ===== src/Budget/Money.antt =====
-- plugins/budget/src/money.ts and items.ts: amounts in minor units. `Intl` is the host's: `intl` gives the
-- fraction digits of a currency, or none where it refuses the currency. Formatting is not modelled.
use arxhub.Base.{
  Bool, Option, Result, Text, [], all, budget_error, decimal_value, err, false, if◌then◌else◌,
  is_safe, leb, length, ltb, negsuc, none, not, ok, pos, some, sub_ℕ, trim, true, validation, ℕ, ℤ,
  ◌%◌, ◌&&◌, ◌*◌, ◌+◌, ◌-◌, ◌/◌, ◌==◌, ◌^◌, ◌||◌, ◌∷◌,
}
use arxhub.Budget.Dates.{is_digit, is_empty_text}

abbrev pub is_upper : ℕ → Bool
is_upper c = leb b'A' c && leb c b'Z'

unfoldable pub currency_digits : (Text → Option ℕ) → Text → Result ℕ
currency_digits intl currency =
    if (length currency == 3) && all is_upper currency
    then (elim (intl currency) [ none ↦ err validation | some digits ↦ ok digits ])
    else err budget_error

-- The longest prefix of digits, and what follows.
unfoldable pub take_digits : Text → Text × Text
take_digits [] = ([], [])
take_digits (c ∷ text) =
    let (digits, rest) = take_digits text in
    if is_digit c then (c ∷ digits, rest) else ([], c ∷ text)

-- The sign of an amount, and what follows.
unfoldable pub take_sign : Text → Bool × Text
take_sign [] = (false, [])
take_sign (c ∷ text) =
    if c == b'-' then (true, text) else (if c == b'+' then (false, text) else (false, c ∷ text))

-- `(?:[.,](\d+))?$`: the digits of the fraction, of which none is an empty text.
unfoldable pub fraction_of : Text → Option Text
unfolding take_digits
fraction_of [] = some []
fraction_of (c ∷ text) =
    let (digits, rest) = take_digits text in
    if (c == b'.' || c == b',') && (is_empty_text rest && not (is_empty_text digits))
    then some digits
    else none

pub record Amount : Type 0 where
  pub is_negative : Bool
  pub whole : Text
  pub fraction : Text

-- `DECIMAL`
unfoldable pub read_amount : Text → Option Amount
unfolding take_sign take_digits fraction_of
read_amount text =
    let (is_negative, unsigned) = take_sign text in
    let (whole, rest) = take_digits unsigned in
    if is_empty_text whole then none else (elim (fraction_of rest) [
      | none ↦ none
      | some fraction ↦
          some (record { is_negative = is_negative; whole = whole; fraction = fraction })
    ])

-- The digits of a fraction, filled up with zeros.
unfoldable pub magnitude : ℕ → Amount → ℕ
unfolding decimal_value
magnitude digits a =
    decimal_value 0 a.whole * 10 ^ digits
    + decimal_value 0 a.fraction * 10 ^ (digits - length a.fraction)

unfoldable pub parse_amount : (Text → Option ℕ) → Text → Text → Result ℤ
unfolding currency_digits read_amount magnitude trim
parse_amount intl input currency = elim (currency_digits intl currency) [
  | err e ↦ err e
  | ok digits ↦ elim (read_amount (trim input)) [
    | none ↦ err budget_error
    | some a ↦
        if ltb digits (length a.fraction)
        then err budget_error
        else (if is_safe (magnitude digits a)
            then ok
                (if a.is_negative then sub_ℕ 0 (magnitude digits a) else pos (magnitude digits a))
            else err validation)
  ]
]

-- `0|[1-9]\d*`
unfoldable pub is_whole : Text → Bool
is_whole [] = false
is_whole (c ∷ text) = not (c == b'0') || is_empty_text text

pub record Quantity : Type 0 where
  pub whole : Text
  pub fraction : Text

-- What follows the whole digits of a quantity: nothing, or a point and one to six digits.
unfoldable pub quantity_of : Text → Text → Option Quantity
unfolding take_digits
quantity_of whole [] = some (record { whole = whole; fraction = [] })
quantity_of whole (c ∷ more) =
    let (digits, end) = take_digits more in
    if (c == b'.') && (is_empty_text end && (leb 1 (length digits) && leb (length digits) 6))
    then some (record { whole = whole; fraction = digits })
    else none

-- `QUANTITY`
unfoldable pub read_quantity : Text → Option Quantity
unfolding take_digits is_whole quantity_of
read_quantity text =
    let (whole, rest) = take_digits text in if is_whole whole then quantity_of whole rest else none

-- `/[1-9]/`
unfoldable pub has_nonzero_digit : Text → Bool
has_nonzero_digit [] = false
has_nonzero_digit (c ∷ text) = (leb b'1' c && leb c b'9') || has_nonzero_digit text

unfoldable pub validate_quantity : Text → Result Quantity
unfolding read_quantity has_nonzero_digit decimal_value
validate_quantity quantity = elim (read_quantity quantity) [
  | none ↦ err budget_error
  | some q ↦
      if (decimal_value 0 q.whole == 0) && not (has_nonzero_digit q.fraction)
      then err budget_error
      else ok q
]

-- `units` and `scale` of a quantity, in millionths at the finest.
abbrev pub scale_of : Quantity → ℕ
scale_of q = 10 ^ length q.fraction

unfoldable pub units_of : Quantity → ℕ
unfolding decimal_value
units_of q = decimal_value 0 q.whole * scale_of q + decimal_value 0 q.fraction

-- The product in minor units, rounded half up.
unfoldable pub round_half_up : ℕ → ℕ → ℕ
round_half_up product scale = product / scale + (if leb scale (product % scale * 2) then 1 else 0)

unfoldable pub calculate_item_total : ℤ → Text → Result ℕ
unfolding validate_quantity units_of round_half_up
calculate_item_total (negsuc n) quantity = err validation
calculate_item_total (pos unit_price) quantity =
    if is_safe unit_price
    then (elim (validate_quantity quantity) [
      | err e ↦ err e
      | ok q ↦
          let rounded = round_half_up (unit_price * units_of q) (scale_of q) in
          if is_safe rounded then ok rounded else err validation
    ])
    else err validation
