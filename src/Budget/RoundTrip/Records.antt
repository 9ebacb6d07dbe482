-- ===== src/Budget/RoundTrip/Records.antt =====
-- The records of plugins/budget/src/model.ts without parts of their own, read again as they are written.
use mathlib.Core.Path.{subst}
use arxhub.Base.{
  >>=-ok_inv, Bool, Option, Result, Text, codes, contains, err, false, if◌then◌else◌, ok,
  ok_injective, refl, text_eq, true, validation, ℕ, ◌≡◌,
}
use arxhub.Base.Dict.{keys, lookup}
use arxhub.Budget.Fields.{
  coordinate, display_name, identifier, kind_name, non_negative_money, object_with_keys,
  safe_integer, transaction_kind, valid_currency,
}
use arxhub.Budget.Json.{Json, integer, or_null, string, value_at}
use arxhub.Budget.Model.{BudgetAccount, BudgetCategory, BudgetItem, BudgetPlace}
use arxhub.Budget.Records.{
  account_from, account_keys, both_or_none, category_from, category_keys, fields_of, is_text,
  item_from, item_keys, place_from, place_keys, quantity_field,
}
use arxhub.Budget.RoundTrip.Fields.{
  coordinate_inv, display_name_inv, identifier_inv, non_negative_money_inv, quantity_field_inv,
  reread, safe_integer_inv, transaction_kind_inv, valid_currency_inv,
}
use arxhub.Budget.Whole.{account_json, category_json, item_json, number, place_json}

module _ (intl : Text → Option ℕ) where
  account_from-fields :
      (to_file : Bool) (a : BudgetAccount)
      → identifier (string a.id) ≡ ok a.id
      → display_name (string a.name) ≡ ok a.name
      → valid_currency intl (string a.currency) ≡ ok a.currency
      → safe_integer (integer a.opening_balance) ≡ ok a.opening_balance
      → account_from intl to_file (account_json to_file a) ≡ ok a
  unfolding account_from fields_of object_with_keys lookup contains text_eq keys is_text
  account_from-fields false r a b c e = rw (a, b, c, e) refl
  account_from-fields true r a b c e = rw (a, b, c, e) refl

  pub account_from-account_json :
      (tagged to_file : Bool) (value : Json) (a : BudgetAccount)
      → account_from intl tagged value ≡ ok a
      → account_from intl to_file (account_json to_file a) ≡ ok a
  unfolding account_from
  account_from-account_json tagged to_file value a h =
      let (d, d_is, h₁) = >>=-ok_inv (fields_of tagged (codes "account") account_keys value) _ h in
      let (id, id_is, h₂) = >>=-ok_inv (identifier (value_at (codes "id") d)) _ h₁ in
      let (name, name_is, h₃) = >>=-ok_inv (display_name (value_at (codes "name") d)) _ h₂ in
      let (currency, currency_is, h₄) =
        >>=-ok_inv (valid_currency intl (value_at (codes "currency") d)) _ h₃ in
      let (opening, opening_is, h₅) =
        >>=-ok_inv (safe_integer (value_at (codes "openingBalance") d)) _ h₄ in
      subst (λ r. account_from intl to_file (account_json to_file r) ≡ ok r) (ok_injective h₅)
        (account_from-fields to_file _
          (reread identifier (identifier_inv (value_at (codes "id") d) id id_is) id_is)
          (reread display_name (display_name_inv (value_at (codes "name") d) name name_is) name_is)
          (reread (valid_currency intl)
            (valid_currency_inv intl (value_at (codes "currency") d) currency currency_is)
            currency_is)
          (reread safe_integer
            (safe_integer_inv (value_at (codes "openingBalance") d) opening opening_is) opening_is))

category_from-fields :
    (to_file : Bool) (c : BudgetCategory)
    → identifier (string c.id) ≡ ok c.id
    → display_name (string c.name) ≡ ok c.name
    → transaction_kind (string (kind_name c.kind)) ≡ ok c.kind
    → category_from to_file (category_json to_file c) ≡ ok c
unfolding category_from fields_of object_with_keys lookup contains text_eq keys is_text
category_from-fields false r a b c = rw (a, b, c) refl
category_from-fields true r a b c = rw (a, b, c) refl

pub category_from-category_json :
    (tagged to_file : Bool) (value : Json) (c : BudgetCategory)
    → category_from tagged value ≡ ok c
    → category_from to_file (category_json to_file c) ≡ ok c
unfolding category_from
category_from-category_json tagged to_file value c h =
    let (d, d_is, h₁) = >>=-ok_inv (fields_of tagged (codes "category") category_keys value) _ h in
    let (id, id_is, h₂) = >>=-ok_inv (identifier (value_at (codes "id") d)) _ h₁ in
    let (name, name_is, h₃) = >>=-ok_inv (display_name (value_at (codes "name") d)) _ h₂ in
    let (kind, kind_is, h₄) = >>=-ok_inv (transaction_kind (value_at (codes "kind") d)) _ h₃ in
    subst (λ r. category_from to_file (category_json to_file r) ≡ ok r) (ok_injective h₄)
      (category_from-fields to_file _
        (reread identifier (identifier_inv (value_at (codes "id") d) id id_is) id_is)
        (reread display_name (display_name_inv (value_at (codes "name") d) name name_is) name_is)
        (reread transaction_kind (transaction_kind_inv (value_at (codes "kind") d) kind kind_is)
          kind_is))

place_from-fields :
    (to_file : Bool) (p : BudgetPlace)
    → coordinate 90 (or_null p.latitude) ≡ ok p.latitude
    → coordinate 180 (or_null p.longitude) ≡ ok p.longitude
    → both_or_none p.latitude p.longitude ≡ true
    → identifier (string p.id) ≡ ok p.id
    → display_name (string p.name) ≡ ok p.name
    → place_from to_file (place_json to_file p) ≡ ok p
unfolding place_from fields_of object_with_keys lookup contains text_eq keys is_text
place_from-fields false r a b c e f = rw (a, b, c, e, f) refl
place_from-fields true r a b c e f = rw (a, b, c, e, f) refl

-- What a condition let through.
pub guarded {ℓ} :
    {A : Type ℓ} (test : Bool) (first : Result A) {a : A}
    → (if test then first else err validation) ≡ ok a
    → (test ≡ true) × (first ≡ ok a)
guarded true first h = (refl, h)
guarded false first h = absurd (cc h)

pub place_from-place_json :
    (tagged to_file : Bool) (value : Json) (p : BudgetPlace)
    → place_from tagged value ≡ ok p
    → place_from to_file (place_json to_file p) ≡ ok p
unfolding place_from
place_from-place_json tagged to_file value p h =
    let (d, d_is, h₁) = >>=-ok_inv (fields_of tagged (codes "place") place_keys value) _ h in
    let (latitude, latitude_is, h₂) =
      >>=-ok_inv (coordinate 90 (value_at (codes "latitude") d)) _ h₁ in
    let (longitude, longitude_is, h₃) =
      >>=-ok_inv (coordinate 180 (value_at (codes "longitude") d)) _ h₂ in
    let (id, guarded_id, h₄) =
      >>=-ok_inv
        (if both_or_none latitude longitude
          then identifier (value_at (codes "id") d)
          else err validation)
        _ h₃ in
    let (name, name_is, h₅) = >>=-ok_inv (display_name (value_at (codes "name") d)) _ h₄ in
    let (both, id_is) = guarded (both_or_none latitude longitude) _ guarded_id in
    subst (λ r. place_from to_file (place_json to_file r) ≡ ok r) (ok_injective h₅)
      (place_from-fields to_file _
        (reread (coordinate 90)
          (coordinate_inv 90 (value_at (codes "latitude") d) latitude latitude_is) latitude_is)
        (reread (coordinate 180)
          (coordinate_inv 180 (value_at (codes "longitude") d) longitude longitude_is) longitude_is)
        both (reread identifier (identifier_inv (value_at (codes "id") d) id id_is) id_is)
        (reread display_name (display_name_inv (value_at (codes "name") d) name name_is) name_is))

item_from-fields :
    (i : BudgetItem)
    → quantity_field (string i.quantity) ≡ ok i.quantity
    → identifier (string i.id) ≡ ok i.id
    → display_name (string i.name) ≡ ok i.name
    → non_negative_money (number i.unit_price) ≡ ok i.unit_price
    → non_negative_money (number i.total) ≡ ok i.total
    → item_from (item_json i) ≡ ok i
unfolding item_from object_with_keys lookup contains text_eq keys
item_from-fields r a b c e f = rw (a, b, c, e, f) refl

pub item_from-item_json :
    (value : Json) (i : BudgetItem) → item_from value ≡ ok i → item_from (item_json i) ≡ ok i
unfolding item_from
item_from-item_json value i h =
    let (d, d_is, h₁) = >>=-ok_inv (object_with_keys item_keys value) _ h in
    let (quantity, quantity_is, h₂) =
      >>=-ok_inv (quantity_field (value_at (codes "quantity") d)) _ h₁ in
    let (id, id_is, h₃) = >>=-ok_inv (identifier (value_at (codes "id") d)) _ h₂ in
    let (name, name_is, h₄) = >>=-ok_inv (display_name (value_at (codes "name") d)) _ h₃ in
    let (unit_price, price_is, h₅) =
      >>=-ok_inv (non_negative_money (value_at (codes "unitPrice") d)) _ h₄ in
    let (total, total_is, h₆) = >>=-ok_inv (non_negative_money (value_at (codes "total") d)) _ h₅ in
    subst (λ r. item_from (item_json r) ≡ ok r) (ok_injective h₆)
      (item_from-fields _
        (reread quantity_field
          (quantity_field_inv (value_at (codes "quantity") d) quantity quantity_is) quantity_is)
        (reread identifier (identifier_inv (value_at (codes "id") d) id id_is) id_is)
        (reread display_name (display_name_inv (value_at (codes "name") d) name name_is) name_is)
        (reread non_negative_money
          (non_negative_money_inv (value_at (codes "unitPrice") d) unit_price price_is) price_is)
        (reread non_negative_money
          (non_negative_money_inv (value_at (codes "total") d) total total_is) total_is))
