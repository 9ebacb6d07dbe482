-- ===== src/Budget/Dates.antt =====
-- The dates of plugins/budget/src/model.ts: `validDateString`, `validMonth` and `validLocalDateTime`.
-- A pattern is read from the left; what it leaves of the text has to be empty.
use arxhub.Base.{
  Bool, Option, Result, Text, [], err, false, if◌then◌else◌, leb, ltb, none, not, ok, some, suc,
  true, validation, zero, ℕ, ◌%◌, ◌&&◌, ◌*◌, ◌+◌, ◌-◌, ◌==◌, ◌||◌, ◌∷◌,
}

abbrev pub is_digit : ℕ → Bool
is_digit c = leb b'0' c && leb c b'9'

-- `\d{n}`, as the number that is read onto `acc`, with the rest of the text.
unfoldable pub read_digits : ℕ → ℕ → Text → Option (ℕ × Text)
read_digits zero acc text = some (acc, text)
read_digits (suc n) acc [] = none
read_digits (suc n) acc (c ∷ text) =
    let rest = read_digits n (acc * 10 + (c - b'0')) text in if is_digit c then rest else none

unfoldable pub read_char : ℕ → Text → Option Text
read_char c [] = none
read_char c (d ∷ text) = if d == c then some text else none

abbrev pub and_then {ℓ κ} : {A : Type ℓ} {B : Type κ} → Option A → (A → Option B) → Option B
and_then none f = none
and_then (some a) f = f a

pub record Month : Type 0 where
  pub year : ℕ
  pub month : ℕ

-- `YYYY-MM`, and what follows.
unfoldable pub read_month : Text → Option (Month × Text)
unfolding read_digits read_char
read_month text = and_then (read_digits 4 0 text) (λ (year, a). and_then (read_char b'-' a) (λ b.
    and_then (read_digits 2 0 b) (λ (month, c). some (record { year = year; month = month }, c))))

-- `YYYY-MM-DD`, and what follows: the month, the day and the rest.
unfoldable pub read_date : Text → Option (Month × ℕ × Text)
unfolding read_month read_digits read_char
read_date text = and_then (read_month text) (λ (month, a).
    and_then (read_char b'-' a)
      (λ b. and_then (read_digits 2 0 b) (λ (day, c). some (month, day, c))))

abbrev pub is_leap : ℕ → Bool
is_leap year = (year % 4 == 0) && (not (year % 100 == 0) || (year % 400 == 0))

-- `days[month - 1]`
abbrev pub days_in_month : ℕ → ℕ → ℕ
days_in_month year month =
    if month == 2
    then (if is_leap year then 29 else 28)
    else (if (month == 4) || (month == 6) || (month == 9) || (month == 11) then 30 else 31)

-- The condition under which the date is refused.
unfoldable pub is_unreal_date : Month → ℕ → Bool
is_unreal_date m day =
    (m.year == 0)
    || ltb m.month 1
    || ltb 12 m.month
    || ltb day 1
    || ltb (days_in_month m.year m.month) day

abbrev pub is_empty_text : Text → Bool
is_empty_text [] = true
is_empty_text (c ∷ text) = false

unfoldable pub valid_date_string : Text → Result Text
unfolding read_date is_unreal_date
valid_date_string date = elim (read_date date) [
  | none ↦ err validation
  | some (month, day, rest) ↦
      if is_empty_text rest && not (is_unreal_date month day) then ok date else err validation
]

unfoldable pub valid_month : Text → Result Text
unfolding read_month
valid_month value = elim (read_month value) [
  | none ↦ err validation
  | some (m, rest) ↦
      if is_empty_text rest && not ((m.year == 0) || ltb m.month 1 || ltb 12 m.month)
      then ok value
      else err validation
]

-- `HH:mm`, and what follows.
unfoldable pub read_time : Text → Option (ℕ × ℕ × Text)
unfolding read_digits read_char
read_time text = and_then (read_digits 2 0 text) (λ (hour, a).
    and_then (read_char b':' a)
      (λ b. and_then (read_digits 2 0 b) (λ (minute, c). some (hour, minute, c))))

-- An optional `:ss`, to the end of the text.
unfoldable pub is_seconds : Text → Bool
unfolding read_digits
is_seconds [] = true
is_seconds (c ∷ text) = (c == b':') && (elim (read_digits 2 0 text) [
  | none ↦ false
  | some (second, rest) ↦ is_empty_text rest && leb second 59
])

unfoldable pub is_time : Text → Bool
unfolding read_time is_seconds
is_time text = elim (read_time text) [
  | none ↦ false
  | some (hour, minute, rest) ↦ leb hour 23 && leb minute 59 && is_seconds rest
]

unfoldable pub valid_local_date_time : Text → Result Text
unfolding read_date is_unreal_date is_time
valid_local_date_time text = elim (read_date text) [
  | none ↦ err validation
  | some (month, day, rest) ↦ elim rest [
    | [] ↦ err validation
    | c ∷ time ↦
        if (c == b'T') && (not (is_unreal_date month day) && is_time time)
        then ok text
        else err validation
  ]
]
