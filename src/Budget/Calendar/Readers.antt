-- ===== src/Budget/Calendar/Readers.antt =====
-- The readers of digits and dates that the patterns of plugins/budget/src/model.ts stand for.
use mathlib.Core.Path.{subst}
use arxhub.Base.{
  ==_iff, Bool-cases, Option, Text, [], ap, arith, inl, inr, none, refl, some, suc, true, ℕ, ◌%◌,
  ◌*◌, ◌+◌, ◌-◌, ◌/◌, ◌<◌, ◌==◌, ◌∙◌, ◌∷◌, ◌≡◌,
}
use arxhub.Budget.Dates.{Month, and_then, is_digit, read_char, read_date, read_digits, read_month}

abbrev pub four : ℕ → Text → Text
four n rest =
    (b'0' + n / 1000) ∷ ((b'0' + n / 100 % 10) ∷ ((b'0' + n / 10 % 10) ∷ ((b'0' + n % 10) ∷ rest)))

abbrev pub two : ℕ → Text → Text
two n rest = (b'0' + n / 10) ∷ ((b'0' + n % 10) ∷ rest)

-- A year of four digits, with a month and a day of two.
abbrev pub date_text : ℕ → ℕ → ℕ → Text
date_text year month day = four year (b'-' ∷ two month (b'-' ∷ two day []))

read_digits-two : (n : ℕ) (rest : Text) → n < 100 → read_digits 2 0 (two n rest) ≡ some (n, rest)
unfolding read_digits
read_digits-two n rest lt = ground arith

-- Two digits that are read onto a number.
two_more :
    (acc : ℕ) (text rest : Text) (n : ℕ)
    → read_digits 2 acc text ≡ some (n, rest)
    → (v : ℕ) × (v < 100) × (n ≡ acc * 100 + v) × (text ≡ two v rest)
unfolding read_digits
two_more acc [] rest n h = absurd (cc h)
two_more acc (c ∷ []) rest n h = absurd (ground (arith, h))
two_more acc (c ∷ (d ∷ text)) rest n h =
    let v = (c - b'0') * 10 + (d - b'0') in
    let hc : c ≡ b'0' + v / 10 = ground (arith, h) in
    let hd : d ≡ b'0' + v % 10 = ground (arith, h) in
    let small : v < 100 = ground (arith, h) in
    let sum : n ≡ acc * 100 + v = ground (arith, h) in
    let ht : text ≡ rest = ground (arith, h) in (v, small, sum, cc (hc, hd, ht))

two_inv :
    (text rest : Text) (n : ℕ)
    → read_digits 2 0 text ≡ some (n, rest)
    → (text ≡ two n rest) × (n < 100)
two_inv text rest n h =
    let (v, small, sum, is) = two_more 0 text rest n h in
    let same : v ≡ n = omega arith in (is ∙ ap (λ k. two k rest) same, omega arith)

read_digits-four :
    (n : ℕ) (rest : Text) → n < 10000 → read_digits 4 0 (four n rest) ≡ some (n, rest)
unfolding read_digits
read_digits-four n rest lt = ground arith

-- A digit, and the digits after it.
digit_inv :
    (n acc : ℕ) (text : Text) (r : ℕ × Text)
    → read_digits (suc n) acc text ≡ some r
    → (c : ℕ) × (more : Text) × (text ≡ c ∷ more)
      × (is_digit c ≡ true)
      × (read_digits n (acc * 10 + (c - b'0')) more ≡ some r)
unfolding read_digits
digit_inv n acc [] r h = absurd (cc h)
digit_inv n acc (c ∷ more) r h = elim (Bool-cases (is_digit c)) [
  | inl digit ↦ (c, more, refl, digit, rw (digit, read_digits) at h)
  | inr other ↦ absurd (cc (rw (other, read_digits) at h))
]

four_inv :
    (text rest : Text) (n : ℕ)
    → read_digits 4 0 text ≡ some (n, rest)
    → (text ≡ four n rest) × (n < 10000)
four_inv text rest n h =
    let (a, after_a, is_a, digit_a, h₁) = digit_inv 3 0 text (n, rest) h in
    let (b, after_b, is_b, digit_b, h₂) = digit_inv 2 (0 * 10 + (a - b'0')) after_a (n, rest) h₁ in
    let (v, small, sum, is) =
      two_more ((0 * 10 + (a - b'0')) * 10 + (b - b'0')) after_b rest n h₂ in
    let ha : a ≡ b'0' + n / 1000 = ground (arith, digit_a, digit_b) in
    let hb : b ≡ b'0' + n / 100 % 10 = ground (arith, digit_a, digit_b) in
    let hc : b'0' + v / 10 ≡ b'0' + n / 10 % 10 = omega arith in
    let hd : b'0' + v % 10 ≡ b'0' + n % 10 = omega arith in
    (cc (is_a, is_b, is, ha, hb, hc, hd), ground (arith, digit_a, digit_b))

read_char_inv : (c : ℕ) (text rest : Text) → read_char c text ≡ some rest → text ≡ c ∷ rest
unfolding read_char
read_char_inv c [] rest h = absurd (cc h)
read_char_inv c (d ∷ text) rest h = elim (Bool-cases (d == c)) [
  | inl same ↦ cc ((==_iff d c).0 same, (rw (same, read_char) at h))
  | inr other ↦ absurd (cc (rw (other, read_char) at h))
]

some_inj {ℓ} : {A : Type ℓ} {a b : A} → some a ≡ some b → a ≡ b
some_inj h = cc h

-- Both steps of a chain of readers.
and_then_inv {ℓ κ} :
    {A : Type ℓ} {B : Type κ} (first : Option A) (f : A → Option B) {b : B}
    → and_then first f ≡ some b
    → (a : A) × (first ≡ some a) × (f a ≡ some b)
and_then_inv none f h = absurd (cc h)
and_then_inv (some a) f h = (a, refl, h)

pub read_date-date_text :
    (year month day : ℕ)
    → year < 10000
    → month < 100
    → day < 100
    → read_date (date_text year month day) ≡ some (record { year = year; month = month }, day, [])
unfolding read_date read_month read_char
read_date-date_text year month day a b c =
    rw
      (
        read_digits-four year (b'-' ∷ two month (b'-' ∷ two day [])) a,
        read_digits-two month (b'-' ∷ two day []) b,
        read_digits-two day [] c,
      )
      refl

pub read_date_inv :
    (text : Text) (m : Month) (day : ℕ)
    → read_date text ≡ some (m, day, [])
    → (text ≡ date_text m.year m.month day) × (m.year < 10000) × (m.month < 100) × (day < 100)
unfolding read_date read_month
read_date_inv text m day h =
    let (read, month_is, h₁) = and_then_inv (read_month text) _ h in
    let (after_month, dash, h₂) = and_then_inv (read_char b'-' read.1) _ h₁ in
    let (last, day_is, h₃) = and_then_inv (read_digits 2 0 after_month) _ h₂ in
    let (first, year_is, g₁) = and_then_inv (read_digits 4 0 text) _ month_is in
    let (after_year, dash_too, g₂) = and_then_inv (read_char b'-' first.1) _ g₁ in
    let (second, number_is, g₃) = and_then_inv (read_digits 2 0 after_year) _ g₂ in
    let (year_digits, year_small) = four_inv text first.1 first.0 year_is in
    let (month_digits, month_small) = two_inv after_year second.1 second.0 number_is in
    let (day_digits, day_small) = two_inv after_month last.1 last.0 day_is in
    let dash_1 = read_char_inv b'-' first.1 after_year dash_too in
    let dash_2 = read_char_inv b'-' read.1 after_month dash in
    let got = some_inj g₃ in
    let all_got = some_inj h₃ in
    let y : first.0 ≡ m.year = ap (λ r. r.0.year) got ∙ ap (λ r. r.0.year) all_got in
    let mo : second.0 ≡ m.month = ap (λ r. r.0.month) got ∙ ap (λ r. r.0.month) all_got in
    let d : last.0 ≡ day = ap (λ r. r.1) all_got in
    let end : last.1 ≡ [] = ap (λ r. r.2) all_got in
    let rest_1 : second.1 ≡ read.1 = ap (λ r. r.1) got in
    (
      cc (year_digits, month_digits, day_digits, dash_1, dash_2, y, mo, d, end, rest_1),
      subst (λ k. k < 10000) y year_small,
      subst (λ k. k < 100) mo month_small,
      subst (λ k. k < 100) d day_small,
    )
