-- ===== src/Budget/Rounding/Quantities.antt =====
-- The quantity of an item of a receipt, as `validateQuantity` of plugins/budget/src/items.ts reads it: its
-- text and its number.
use mathlib.Core.Path.{subst}
use arxhub.Base.{
  Bool, Bool-cases, Text, [], all, ap, append-nil, arith, decimal_value, false, if◌then◌else◌, inl,
  inr, leb, length, none, refl, some, suc, sym, true, ℕ, ◌&&◌, ◌*◌, ◌++◌, ◌+◌, ◌-◌, ◌==◌, ◌^◌, ◌∙◌,
  ◌∷◌, ◌≡◌, ◌⊎◌,
}
use arxhub.Budget.Dates.{is_digit, is_empty_text}
use arxhub.Budget.Money.{Quantity, is_whole, quantity_of, read_quantity, take_digits}

abbrev pub IsDigits : Text → Type 0
IsDigits text = all is_digit text ≡ true

-- A text is a number of whole digits, or one with a point and the digits of a fraction after them.
pub IsNumeral : Text → Text → Text → Type 0
IsNumeral whole part text =
    IsDigits whole
    × IsDigits part
    × (((text ≡ whole) × (part ≡ [])) ⊎ (text ≡ whole ++ (b'.' ∷ part)))

take_digits_inv :
    (text : Text)
    → (text ≡ (take_digits text).0 ++ (take_digits text).1) × IsDigits ((take_digits text).0)
unfolding take_digits
take_digits_inv [] = (refl, refl)
take_digits_inv (c ∷ text) =
    let (split, digits) = take_digits_inv text in
    elim (Bool-cases (is_digit c)) [
      | inl digit ↦ rw digit (ap (λ s. c ∷ s) split, rw digit digits)
      | inr other ↦ rw other (refl, refl)
    ]

empty_inv : (text : Text) → is_empty_text text ≡ true → text ≡ []
empty_inv [] h = refl
empty_inv (c ∷ text) h = absurd (cc h)

some_injective : {a b : Quantity} → some a ≡ some b → a ≡ b
some_injective h = cc

guarded_option :
    (test : Bool) (value q : Quantity)
    → (if test then some value else none) ≡ some q
    → (test ≡ true) × (value ≡ q)
guarded_option true value q h = (refl, some_injective h)
guarded_option false value q h = absurd (cc h)

quantity_of_inv :
    (whole rest : Text) (q : Quantity)
    → quantity_of whole rest ≡ some q
    → (q.whole ≡ whole)
      × IsDigits q.fraction
      × (((rest ≡ []) × (q.fraction ≡ [])) ⊎ (rest ≡ b'.' ∷ q.fraction))
unfolding quantity_of
quantity_of_inv whole [] q h =
    let is = some_injective h in
    (
      sym (ap (λ x. x.whole) is),
      subst (λ x. IsDigits x.fraction) is refl,
      inl (refl, sym (ap (λ x. x.fraction) is)),
    )
quantity_of_inv whole (c ∷ more) q h =
    let (split, digits) = take_digits_inv more in
    let (fits, is) =
      guarded_option
        ((c == b'.')
          && (is_empty_text ((take_digits more).1)
              && (leb 1 (length ((take_digits more).0)) && leb (length ((take_digits more).0)) 6)))
        (record { whole = whole; fraction = (take_digits more).0 }) q h in
    let point : c ≡ b'.' = ground (arith, fits) in
    let ended = empty_inv ((take_digits more).1) (ground (arith, fits)) in
    let all_of_it : more ≡ (take_digits more).0 =
      (split ∙ ap (λ t. (take_digits more).0 ++ t) ended ∙ append-nil ((take_digits more).0)) in
    (
      sym (ap (λ x. x.whole) is),
      subst (λ x. IsDigits x.fraction) is digits,
      inr (cc (point, all_of_it, ap (λ x. x.fraction) is)),
    )

pub read_quantity-IsNumeral :
    (text : Text) (q : Quantity) → read_quantity text ≡ some q → IsNumeral q.whole q.fraction text
unfolding read_quantity IsNumeral
read_quantity-IsNumeral text q h =
    let (split, whole_is) = take_digits_inv text in
    elim (Bool-cases (is_whole ((take_digits text).0))) [
      | inr refused ↦ absurd (cc (rw (refused) at h))
      | inl accepted ↦
          let (is, digits, ends) =
            quantity_of_inv ((take_digits text).0) ((take_digits text).1) q (rw (accepted) at h) in
          (
            subst IsDigits (sym is) whole_is,
            digits,
            elim ends [
              | inl (none_left, no_fraction) ↦ inl (
                split
                    ∙ ap (λ t. (take_digits text).0 ++ t) none_left
                    ∙ append-nil ((take_digits text).0)
                    ∙ sym is,
                no_fraction,
              )
              | inr point ↦ inr (
                  split
                  ∙ ap (λ t. (take_digits text).0 ++ t) point
                  ∙ ap (λ t. t ++ (b'.' ∷ q.fraction)) (sym is))
            ],
          )
    ]

spread :
    (acc d scale larger rest more value : ℕ)
    → larger ≡ 10 * scale
    → value ≡ (acc * 10 + d) * scale + rest
    → more ≡ (0 * 10 + d) * scale + rest
    → value ≡ acc * larger + more
spread acc d scale larger rest more value e a b = rw (e, a, b) (omega arith)

decimal_value_onto :
    (acc : ℕ) (text : Text) → decimal_value acc text ≡ acc * 10 ^ length text + decimal_value 0 text
unfolding decimal_value
decimal_value_onto acc [] = ground arith
decimal_value_onto acc (c ∷ text) =
    let a = decimal_value_onto (acc * 10 + (c - b'0')) text in
    let b = decimal_value_onto (0 * 10 + (c - b'0')) text in
    let p : 10 ^ suc (length text) ≡ 10 * 10 ^ length text = omega arith in
    spread acc (c - b'0') (10 ^ length text) (10 ^ suc (length text)) (decimal_value 0 text) _ _ p a
      b

-- The digits of a text read on after those of another.
pub decimal_value-append :
    (acc : ℕ) (s t : Text)
    → decimal_value acc (s ++ t) ≡ decimal_value acc s * 10 ^ length t + decimal_value 0 t
unfolding decimal_value
decimal_value-append acc [] t = decimal_value_onto acc t
decimal_value-append acc (c ∷ s) t = decimal_value-append (acc * 10 + (c - b'0')) s t
