-- ===== src/Budget/Calendar.antt =====
-- `validDateString` of plugins/budget/src/model.ts against the texts of calendar dates.
pub mod Readers
use arxhub.Base.{
  Bool, Option-cases, Text, [], ap, arith, err, false, if◌then◌else◌, inl, inr, not, ok, refl, true,
  validation, ℕ, ◌%◌, ◌<◌, ◌↔◌, ◌∙◌, ◌∷◌, ◌≡◌, ◌≢◌, ◌≤◌,
}
use arxhub.Budget.Calendar.Readers.{date_text, read_date-date_text, read_date_inv}
use arxhub.Budget.Dates.{Month, is_unreal_date, read_date, valid_date_string}

-- A day of the calendar: 30 days have April, June, September and November, and February has 28, or 29 in a
-- year that 4 divides, unless 100 does and 400 does not.
abbrev pub IsDate : ℕ → ℕ → ℕ → Type 0
IsDate year month day =
    (1 ≤ year)
    × (year < 10000)
    × (1 ≤ month)
    × (month ≤ 12)
    × (1 ≤ day)
    × (day ≤ 31)
    × (month ≡ 4 → day ≤ 30)
    × (month ≡ 6 → day ≤ 30)
    × (month ≡ 9 → day ≤ 30)
    × (month ≡ 11 → day ≤ 30)
    × (month ≡ 2 → day ≤ 29)
    × (month ≡ 2 → year % 4 ≢ 0 → day ≤ 28)
    × (month ≡ 2 → year % 100 ≡ 0 → year % 400 ≢ 0 → day ≤ 28)

real-IsDate :
    (m : Month) (day : ℕ)
    → m.year < 10000
    → is_unreal_date m day ≡ false
    → IsDate m.year m.month day
unfolding is_unreal_date
real-IsDate m day small h = (
  ground (arith, h),
  small,
  ground (arith, h),
  ground (arith, h),
  ground (arith, h),
  ground (arith, h),
  λ e. ground (arith, h),
  λ e. ground (arith, h),
  λ e. ground (arith, h),
  λ e. ground (arith, h),
  λ e. ground (arith, h),
  λ e f. ground (arith, h),
  λ e f g. ground (arith, h),
)

IsDate-real : (m : Month) (day : ℕ) → IsDate m.year m.month day → is_unreal_date m day ≡ false
unfolding is_unreal_date
IsDate-real m day (a, b, c, d, e, f, g, h, i, j, k, l, n) = ground (arith, g, h, i, j, k, l, n)

accepted_real :
    (unreal : Bool) (text : Text)
    → (if not unreal then ok text else err validation) ≡ ok text
    → unreal ≡ false
accepted_real true text h = absurd (cc h)
accepted_real false text h = refl

-- A text is accepted as a date just if it is a day of the calendar, of the years 1 to 9999, with four digits
-- for the year and two for the month and for the day.
pub valid_date_string_iff :
    (text : Text)
    → (valid_date_string text ≡ ok text) ↔ (
        (year : ℕ) × (month : ℕ) × (day : ℕ) × (text ≡ date_text year month day)
        × IsDate year month day)
unfolding valid_date_string
valid_date_string_iff text = (accepted, real)
  where
    accepted :
        valid_date_string text ≡ ok text
        → (year : ℕ) × (month : ℕ) × (day : ℕ) × (text ≡ date_text year month day)
          × IsDate year month day
    accepted h = elim (Option-cases (read_date text)) [
      | inl refused ↦ absurd (cc (rw (refused, valid_date_string) at h))
      | inr ((m, day, []), is) ↦
          let (digits, year_small, month_small, day_small) = read_date_inv text m day is in
          (
            m.year,
            m.month,
            day,
            digits,
            real-IsDate m day year_small
                (accepted_real (is_unreal_date m day) text (rw (is, valid_date_string) at h)),
          )
      | inr ((m, day, (c ∷ rest)), is) ↦ absurd (cc (rw (is, valid_date_string) at h))
    ]

    real :
        ((year : ℕ) × (month : ℕ) × (day : ℕ) × (text ≡ date_text year month day)
          × IsDate year month day)
        → valid_date_string text ≡ ok text
    real (year, month, day, digits, is) =
        let m : Month = record { year = year; month = month } in
        let read =
          ap read_date digits
          ∙ read_date-date_text year month day is.1 (omega arith) (omega arith) in
        rw (read, valid_date_string) (rw (IsDate-real m day is) refl)
