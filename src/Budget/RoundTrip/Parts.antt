-- ===== src/Budget/RoundTrip/Parts.antt =====
-- Arrays and fields that may be null, in plugins/budget/src/model.ts, read again as they are written.
use mathlib.Core.Path.{subst}
use arxhub.Base.{
  >>=-ok_inv, List, Option, Result, [], ap, map, ok, ok_injective, refl, some, ◌>>=◌, ◌∙◌, ◌∷◌, ◌≡◌,
}
use arxhub.Base.Dict.{values}
use arxhub.Budget.Json.{
  Json, array, boolean, fraction, infinite, integer, items_of, listed_items, null, object, string,
}
use arxhub.Budget.Transactions.{array_of, each, null_or}
use arxhub.Budget.Whole.{list_json, option_json}

pub listed_items-items_of : (values : List Json) → listed_items (items_of values) ≡ values
listed_items-items_of [] = refl
listed_items-items_of (value ∷ values) = ap (λ rest. value ∷ rest) (listed_items-items_of values)

module _ {ℓ} {A : Type ℓ} (read : Json → Result A) (json : A → Json)
    (again : (value : Json) (a : A) → read value ≡ ok a → read (json a) ≡ ok a) where
  each-map_again :
      (values : List Json) (results : List A)
      → each read values ≡ ok results
      → each read (map json results) ≡ ok results
  unfolding each
  each-map_again [] results h = subst (λ l. each read (map json l) ≡ ok l) (ok_injective h) refl
  each-map_again (value ∷ values) results h =
      let (a, a_is, h₁) = >>=-ok_inv (read value) _ h in
      let (rest, rest_is, h₂) = >>=-ok_inv (each read values) _ h₁ in
      subst (λ l. each read (map json l) ≡ ok l) (ok_injective h₂)
        (rw (again value a a_is, each-map_again values rest rest_is) refl)

  pub array_of-list_json :
      (value : Json) (results : List A)
      → array_of read value ≡ ok results
      → array_of read (list_json json results) ≡ ok results
  unfolding array_of
  array_of-list_json (array values) results h =
      rw (listed_items-items_of (map json results)) (each-map_again (listed_items values) results h)
  array_of-list_json _ results h = absurd (cc h)

  module _
      (is_value : (a : A) → null_or read (json a) ≡ (read (json a) >>= (λ b. ok (some b)))) where
    some_again :
        (value : Json) (o : Option A)
        → (read value >>= (λ a. ok (some a))) ≡ ok o
        → null_or read (option_json json o) ≡ ok o
    some_again value o h =
        let (a, a_is, h₁) = >>=-ok_inv (read value) _ h in
        subst (λ r. null_or read (option_json json r) ≡ ok r) (ok_injective h₁)
          (is_value a ∙ ap (λ r. r >>= (λ b. ok (some b))) (again value a a_is))

    pub null_or-option_json :
        (value : Json) (o : Option A)
        → null_or read value ≡ ok o
        → null_or read (option_json json o) ≡ ok o
    unfolding null_or
    null_or-option_json null o h =
        subst (λ r. null_or read (option_json json r) ≡ ok r) (ok_injective h) refl
    null_or-option_json (boolean b) o h = some_again (boolean b) o h
    null_or-option_json (integer z) o h = some_again (integer z) o h
    null_or-option_json (fraction z digits) o h = some_again (fraction z digits) o h
    null_or-option_json (infinite b) o h = some_again (infinite b) o h
    null_or-option_json (string s) o h = some_again (string s) o h
    null_or-option_json (array items) o h = some_again (array items) o h
    null_or-option_json (object members) o h = some_again (object members) o h
