-- ===== src/Budget/Rounding.antt =====
-- `calculateItemTotal` of plugins/budget/src/items.ts: how the product is rounded.
pub mod Quantities
use mathlib.Core.Path.{subst}
use arxhub.Base.{
  Bool-cases, Option-cases, Result-cases, Text, ap, arith, decimal_value, inl, inr, is_safe, leb,
  length, not, ok, ok_injective, pos, some, suc, sym, true, zero, ℕ, ◌%◌, ◌&&◌, ◌*◌, ◌++◌, ◌+◌, ◌/◌,
  ◌<◌, ◌==◌, ◌^◌, ◌∙◌, ◌≡◌, ◌≤◌,
}
use arxhub.Budget.Json.{fraction}
use arxhub.Budget.Money.{
  Quantity, calculate_item_total, has_nonzero_digit, read_quantity, round_half_up, scale_of,
  units_of, validate_quantity,
}
use arxhub.Budget.RoundTrip.Records.{guarded}
use arxhub.Budget.Rounding.Quantities.{IsNumeral, decimal_value-append, read_quantity-IsNumeral}

-- A number of whole units that is nearest to a number of parts, of which a unit has `scale`: no more than
-- half a unit above it, and less than half a unit below.
pub IsNearest : ℕ → ℕ → ℕ → Type 0
IsNearest scale parts units =
    (2 * (units * scale) ≤ 2 * parts + scale) × (2 * parts < 2 * (units * scale) + scale)

power-suc : (n : ℕ) → (s : ℕ) × (suc s ≡ 10 ^ n)
power-suc zero = (0, omega arith)
power-suc (suc n) = let (s, is) = power-suc n in (s * 10 + 9, omega arith)

round_half_up-IsNearest : (s parts : ℕ) → IsNearest (suc s) parts (round_half_up parts (suc s))
unfolding round_half_up IsNearest
round_half_up-IsNearest s parts =
    let divided : parts / suc s * suc s + parts % suc s ≡ parts = omega arith in
    let below : parts % suc s < suc s = omega arith in
    let up : (parts / suc s + 1) * suc s ≡ parts / suc s * suc s + suc s = omega arith in
    let down : (parts / suc s + 0) * suc s ≡ parts / suc s * suc s = omega arith in
    elim (Bool-cases (leb (suc s) (parts % suc s * 2))) [
      | inl yes_up ↦ rw (yes_up) ((ground (arith), ground (arith)))
      | inr no_up ↦ rw (no_up) ((ground (arith), ground (arith)))
    ]

validate_quantity-read :
    (quantity : Text) (q : Quantity)
    → validate_quantity quantity ≡ ok q
    → read_quantity quantity ≡ some q
unfolding validate_quantity
validate_quantity-read quantity q h = elim (Option-cases (read_quantity quantity)) [
  | inl none_read ↦ absurd (cc (rw (none_read, validate_quantity) at h))
  | inr (r, read) ↦
      let accepted = rw (read, validate_quantity) at h in
      elim (Bool-cases ((decimal_value 0 r.whole == 0) && not (has_nonzero_digit r.fraction))) [
        | inl refused ↦ absurd (cc (rw (refused) at accepted))
        | inr fits ↦ read ∙ ap some (ok_injective (rw (fits) at accepted))
      ]
]

-- The number of parts of a quantity is its digits read as one number.
units_of-digits : (q : Quantity) → units_of q ≡ decimal_value 0 (q.whole ++ q.fraction)
unfolding units_of
units_of-digits q = sym (decimal_value-append 0 q.whole q.fraction)

-- Where the total of an item is calculated, the quantity is a decimal numeral, whole digits or whole digits
-- with a point and a fraction, and the total is a safe integer nearest to the unit price times that number, a
-- half being rounded up: with n digits of the fraction, nearest to the price times all the digits read
-- as one number, over 10 to the power of n.
pub calculate_item_total-IsNearest :
    (price total : ℕ) (quantity : Text)
    → calculate_item_total (pos price) quantity ≡ ok total
    → (whole : Text) × (part : Text) × IsNumeral whole part quantity
      × (is_safe total ≡ true)
      × IsNearest (10 ^ length part) (price * decimal_value 0 (whole ++ part)) total
unfolding calculate_item_total
calculate_item_total-IsNearest price total quantity h =
    let (safe_price, h₁) = guarded (is_safe price) _ h in
    elim (Result-cases (validate_quantity quantity)) [
      | inl (e, refused) ↦ absurd (cc (rw refused at h₁))
      | inr (q, accepted) ↦
          let rounded = round_half_up (price * units_of q) (scale_of q) in
          let (safe_total, is) = guarded (is_safe rounded) (ok rounded) (rw accepted at h₁) in
          let (s, whole) = power-suc (length q.fraction) in
          (
            q.whole,
            q.fraction,
            read_quantity-IsNumeral quantity q (validate_quantity-read quantity q accepted),
            ap is_safe (sym (ok_injective is)) ∙ safe_total,
            subst (λ units. IsNearest (scale_of q) (price * units) total) (units_of-digits q)
                (subst (IsNearest (scale_of q) (price * units_of q)) (ok_injective is) (
                  subst
                    (λ k. IsNearest k (price * units_of q) (round_half_up (price * units_of q) k))
                    whole (round_half_up-IsNearest s (price * units_of q)))),
          )
    ]
