-- ===== src/Base/Decimals.antt =====
-- Decimal numerals of natural numbers.
use Prim.Native.Nat.{ℕ, zero, suc, ◌+◌, ◌-◌, ◌*◌, ◌/◌, ◌%◌, ◌<◌}
use mathlib.Core.Path.{◌≡◌, ap, ◌∙◌}
use mathlib.Core.Logic.{◌≢◌}
use mathlib.Core.List.{[], ◌∷◌}
use native.Mathlib.Omega.{arith}
use arxhub.Base.Tests.{◌==◌, if◌then◌else◌}
use arxhub.Base.Texts.{Text}

-- A number in decimal digits. It has no more digits than the fuel, which is the number and one more.
unfoldable pub decimal_digits : ℕ → ℕ → Text → Text
decimal_digits zero n more = more
decimal_digits (suc fuel) n more =
    let digit = b'0' + n % 10 in
    let rest = decimal_digits fuel (n / 10) (digit ∷ more) in
    if n / 10 == 0 then digit ∷ more else rest

unfoldable pub decimal : ℕ → Text
unfolding decimal_digits
decimal n = decimal_digits (suc n) n []

-- A decimal numeral, read from the left onto what was read before.
unfoldable pub decimal_value : ℕ → Text → ℕ
decimal_value acc [] = acc
decimal_value acc (c ∷ text) = decimal_value (acc * 10 + (c - b'0')) text

decimal_value-decimal_digits :
    (fuel n : ℕ) (more : Text)
    → n < fuel
    → decimal_value 0 (decimal_digits fuel n more) ≡ decimal_value n more
unfolding decimal_digits decimal_value
decimal_value-decimal_digits zero n more lt = absurd (omega arith)
decimal_value-decimal_digits (suc fuel) n more lt =
    let digit = b'0' + n % 10 in
    let read : n / 10 * 10 + (digit - b'0') ≡ n = omega arith in
    let rest : n / 10 ≢ 0
        → decimal_value 0 (decimal_digits fuel (n / 10) (digit ∷ more)) ≡ decimal_value n more =
      (λ big.
        decimal_value-decimal_digits fuel (n / 10) (digit ∷ more) (omega arith)
        ∙ ap (λ k. decimal_value k more) read) in
    ground (arith, rest, read)

pub decimal-injective : (n m : ℕ) → decimal n ≡ decimal m → n ≡ m
unfolding decimal decimal_value
decimal-injective n m e =
    let a = decimal_value-decimal_digits (suc n) n [] (omega arith) in
    let b = decimal_value-decimal_digits (suc m) m [] (omega arith) in cc
