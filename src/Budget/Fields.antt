-- ===== src/Budget/Fields.antt =====
-- The checks of single fields in plugins/budget/src/model.ts. The texts that say where a check failed are
-- left out, and with them the contexts.
use arxhub.Base.{
  Bool, List, Option, Result, Text, [], all, codes, contains, decimal_value, drop, err, false,
  if◌then◌else◌, is_safe_ℤ, is_space, leb, length, ltb, negsuc, none, not, ok, pos, some,
  starts_with, suc, text_eq, trim, validation, zero, ℕ, ℤ, ◌&&◌, ◌*◌, ◌==◌, ◌||◌, ◌∷◌,
}
use arxhub.Base.Dict.{Dict, is_some, keys, lookup}
use arxhub.Budget.Dates.{
  and_then, is_digit, is_empty_text, read_char, valid_date_string, valid_local_date_time,
}
use arxhub.Budget.Json.{Json, dict_of, fraction, integer, null, object, string}
use arxhub.Budget.Model.{TransactionKind, expense, income}
use arxhub.Budget.Money.{currency_digits}

-- `objectWithKeys`
unfoldable pub object_with_keys : List Text → Json → Result (Dict Json)
unfolding contains lookup keys
object_with_keys allowed (object members) =
    let d = dict_of members in
    if all (contains allowed) (keys d) && all (λ key. is_some (lookup key d)) allowed
    then ok d
    else err validation
object_with_keys allowed _ = err validation

unfoldable pub string_field : Json → Result Text
string_field (string text) = ok text
string_field _ = err validation

-- `/\s/u`
unfoldable pub has_space : Text → Bool
unfolding is_space
has_space [] = false
has_space (c ∷ text) = is_space c || has_space text

unfoldable pub identifier : Json → Result Text
unfolding has_space
identifier (string text) = if is_empty_text text || has_space text then err validation else ok text
identifier _ = err validation

unfoldable pub display_name : Json → Result Text
unfolding trim
display_name (string text) = if is_empty_text (trim text) then err validation else ok text
display_name _ = err validation

unfoldable pub safe_integer : Json → Result ℤ
safe_integer (integer z) = if is_safe_ℤ z then ok z else err validation
safe_integer _ = err validation

unfoldable pub non_negative_money : Json → Result ℕ
unfolding safe_integer
non_negative_money value = elim (safe_integer value) [
  | ok (pos n) ↦ ok n
  | ok (negsuc n) ↦ err validation
  | err e ↦ err e
]

unfoldable pub positive_money : Json → Result ℕ
unfolding safe_integer
positive_money value = elim (safe_integer value) [
  | ok (pos n) ↦ if n == 0 then err validation else ok n
  | ok (negsuc n) ↦ err validation
  | err e ↦ err e
]

abbrev pub kind_name : TransactionKind → Text
kind_name income = codes "income"
kind_name expense = codes "expense"

unfoldable pub transaction_kind : Json → Result TransactionKind
unfolding text_eq
transaction_kind (string text) =
    if text_eq text (codes "income")
    then ok income
    else (if text_eq text (codes "expense") then ok expense else err validation)
transaction_kind _ = err validation

unfoldable pub valid_currency : (Text → Option ℕ) → Json → Result Text
unfolding currency_digits
valid_currency intl (string code) = elim (currency_digits intl code) [
  | ok digits ↦ ok code
  | err e ↦ err validation
]
valid_currency intl _ = err validation

unfoldable pub valid_date : Json → Result Text
unfolding valid_date_string
valid_date (string text) = valid_date_string text
valid_date _ = err validation

unfoldable pub valid_issued_at : Json → Result Text
unfolding valid_local_date_time
valid_issued_at (string text) = valid_local_date_time text
valid_issued_at _ = err validation

-- A finite number between `-limit` and `limit`. One that is no integer lies above its floor and below the
-- next integer.
unfoldable pub is_within : ℕ → Json → Bool
is_within limit (integer (pos n)) = leb n limit
is_within limit (integer (negsuc n)) = ltb n limit
is_within limit (fraction (pos n) digits) = ltb n limit
is_within limit (fraction (negsuc n) digits) = ltb n limit
is_within limit _ = false

unfoldable pub coordinate : ℕ → Json → Result (Option Json)
unfolding is_within
coordinate limit null = ok none
coordinate limit value = if is_within limit value then ok (some value) else err validation

-- A run of n lower-case hexadecimal digits, and what follows.
unfoldable pub read_hex : ℕ → Text → Option Text
read_hex zero text = some text
read_hex (suc n) [] = none
read_hex (suc n) (c ∷ text) =
    let rest = read_hex n text in
    if leb b'0' c && leb c b'9' || leb b'a' c && leb c b'f' then rest else none

unfoldable pub read_hyphen_hex : ℕ → Text → Option Text
unfolding read_char read_hex
read_hyphen_hex n text = and_then (read_char b'-' text) (read_hex n)

-- `RECEIPT_PATH`: the extension of a receipt's path.
unfoldable pub receipt_extension : Text → Option Text
unfolding read_hyphen_hex read_char read_hex starts_with text_eq
receipt_extension path =
    if starts_with path (codes "receipts/")
    then and_then (read_hex 8 (drop 9 path)) (λ a. and_then (read_hyphen_hex 4 a) (λ b.
      and_then (read_hyphen_hex 4 b) (λ c. and_then (read_hyphen_hex 4 c) (λ d.
        and_then (read_hyphen_hex 12 d) (λ e. and_then (read_char b'.' e) (λ ext.
          if text_eq ext (codes "jpg") || text_eq ext (codes "png") || text_eq ext (codes "webp")
          then some ext
          else none))))))
    else none

-- `MIME_BY_EXTENSION`
unfoldable pub mime_by_extension : Text → Text
unfolding text_eq
mime_by_extension ext =
    if text_eq ext (codes "jpg")
    then codes "image/jpeg"
    else (if text_eq ext (codes "png") then codes "image/png" else codes "image/webp")

abbrev pub max_attachment_size : ℕ
max_attachment_size = 10 * 1024 * 1024

abbrev pub max_fiscal_total : ℕ
max_fiscal_total = 281474976710655

-- `fiscalDecimal`
unfoldable pub fiscal_decimal : Json → Result Text
unfolding decimal_value
fiscal_decimal (string text) =
    if not (is_empty_text text)
      && all is_digit text
      && not (decimal_value 0 text == 0)
      && leb (decimal_value 0 text) 4294967295
    then ok text
    else err validation
fiscal_decimal _ = err validation

-- `/^\d{16}$/`
unfoldable pub fiscal_drive : Json → Result Text
fiscal_drive (string text) =
    if (length text == 16) && all is_digit text then ok text else err validation
fiscal_drive _ = err validation

unfoldable pub fiscal_operation : Json → Result ℕ
fiscal_operation (integer (pos n)) = if leb 1 n && leb n 4 then ok n else err validation
fiscal_operation _ = err validation
