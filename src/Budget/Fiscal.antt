-- ===== src/Budget/Fiscal.antt =====
-- Fiscal receipts by hand and by code: `parseFiscalFields`, `parseFiscalQr`, `fiscalQr` and
-- `fiscalReceiptKey` of plugins/budget/src/fiscal.ts. The language's `URL` and `URLSearchParams` are
-- parameters: the search of an address, or none if it is none, and the values of a key.
use arxhub.Base.{
  Bool, List, Option, Result, Text, [], all, budget_error, codes, decimal, decimal_value, drop, err,
  false, if◌then◌else◌, leb, length, ltb, map, none, ok, pos, slice, some, starts_with, take, trim,
  ℕ, ◌%◌, ◌&&◌, ◌++◌, ◌+◌, ◌-◌, ◌/◌, ◌==◌, ◌>>=◌, ◌||◌, ◌∷◌,
}
use arxhub.Budget.Dates.{is_digit, is_empty_text}
use arxhub.Budget.Json.{Json, integer, member, no_members, object, string}
use arxhub.Budget.Model.{FiscalReceipt}
use arxhub.Budget.Money.{parse_amount}
use arxhub.Budget.Records.{fiscal_receipt_from}
use arxhub.Budget.Whole.{number, receipt_json}

-- `operation` is a string or a number.
pub record FiscalFields : Type 0 where
  pub fn : Text
  pub fd : Text
  pub fp : Text
  pub issued_at : Text
  pub amount : Text
  pub operation : Json

-- `/^[1-4]$/`, as the number
abbrev pub operation_digit : Text → Option ℕ
operation_digit (c ∷ []) = if leb b'1' c && leb c b'4' then some (c - b'0') else none
operation_digit _ = none

unfoldable pub operation_of : Json → Option ℕ
unfolding trim
operation_of (string text) = operation_digit (trim text)
operation_of (integer (pos n)) = if leb 1 n && leb n 4 then some n else none
operation_of _ = none

-- `replace(/^0+(?=\d)/, '')`
unfoldable pub strip_zeros : Text → Text
strip_zeros [] = []
strip_zeros (c ∷ []) = c ∷ []
strip_zeros (c ∷ (d ∷ text)) =
    let rest = strip_zeros (d ∷ text) in if (c == b'0') && is_digit d then rest else c ∷ (d ∷ text)

unfoldable pub parse_fiscal_fields : (Text → Option ℕ) → FiscalFields → Result FiscalReceipt
unfolding operation_of parse_amount trim strip_zeros fiscal_receipt_from
parse_fiscal_fields intl fields = elim (operation_of fields.operation) [
  | none ↦ err budget_error
  | some operation ↦ do
    total ← parse_amount intl (trim fields.amount) (codes "RUB")
    fiscal_receipt_from (
        object (
          member (codes "fn") (string (trim fields.fn)) (
            member (codes "fd") (string (strip_zeros (trim fields.fd))) (
              member (codes "fp") (string (strip_zeros (trim fields.fp))) (
                member (codes "issuedAt") (string (trim fields.issued_at)) (
                  member (codes "total") (integer total)
                    (member (codes "operation") (number operation) no_members)))))))
]

-- `YYYYMMDDTHHmm[ss]` as a local date and time
unfoldable pub qr_time : Text → Result Text
qr_time text =
    if all is_digit (take 8 text)
      && ((length text == 13) || (length text == 15))
      && (elim (drop 8 text) [ [] ↦ false | c ∷ time ↦ (c == b'T') && all is_digit time ])
    then ok (
        slice 0 4 text
        ++ (b'-'
            ∷ (slice 4 6 text
                ++ (b'-'
                    ∷ (slice 6 8 text
                        ++ (b'T'
                            ∷ (slice 9 11 text
                                ++ (b':' ∷ (slice 11 13 text ++ seconds (slice 13 15 text))))))))))
    else err budget_error
  where
    seconds : Text → Text
    seconds [] = []
    seconds (c ∷ text) = b':' ∷ (c ∷ text)

abbrev pub lower_case : ℕ → ℕ
lower_case c = if leb b'A' c && leb c b'Z' then c + 32 else c

-- `/^https?:\/\//i`
unfoldable pub is_web_address : Text → Bool
unfolding starts_with
is_web_address text =
    starts_with (map lower_case text) (codes "http://")
    || starts_with (map lower_case text) (codes "https://")

module _ (intl : Text → Option ℕ) (url_search : Text → Option Text)
    (get_all : Text → Text → List Text) where
  unfoldable pub qr_value : Text → Text → Result Text
  qr_value params key = elim (get_all params key) [
    | [] ↦ err budget_error
    | entry ∷ [] ↦ if is_empty_text entry then err budget_error else ok entry
    | entry ∷ (more ∷ entries) ↦ err budget_error
  ]

  unfoldable pub qr_params : Text → Result Text
  unfolding is_web_address
  qr_params text =
      if ltb 4096 (length text)
      then err budget_error
      else (if is_web_address text
          then (elim (url_search text) [ none ↦ err budget_error | some search ↦ ok search ])
          else ok text)

  unfoldable pub parse_fiscal_qr : Text → Result FiscalReceipt
  unfolding qr_params qr_value qr_time parse_fiscal_fields trim
  parse_fiscal_qr raw = do
    params ← qr_params (trim raw)
    t ← qr_value params (codes "t")
    issued_at ← qr_time t
    fn ← qr_value params (codes "fn")
    fd ← qr_value params (codes "i")
    fp ← qr_value params (codes "fp")
    amount ← qr_value params (codes "s")
    operation ← qr_value params (codes "n")
    parse_fiscal_fields intl (record {
      fn = fn;
      fd = fd;
      fp = fp;
      issued_at = issued_at;
      amount = amount;
      operation = string operation;
    })

-- `padStart(2, '0')` of a number below 100
abbrev pub two_digits : ℕ → Text
two_digits n = (b'0' + n / 10) ∷ ((b'0' + n % 10) ∷ [])

-- `replace(/[-:]/g, '')`
unfoldable pub without_marks : Text → Text
without_marks [] = []
without_marks (c ∷ text) =
    let rest = without_marks text in if (c == b'-') || (c == b':') then rest else c ∷ rest

unfoldable pub fiscal_qr : FiscalReceipt → Result Text
unfolding fiscal_receipt_from decimal without_marks
fiscal_qr value = do
  r ← fiscal_receipt_from (receipt_json value)
  ok (
      codes "t="
      ++ (without_marks r.issued_at
          ++ (codes "&s="
              ++ (decimal (r.total / 100)
                  ++ (codes "."
                      ++ (two_digits (r.total % 100)
                          ++ (codes "&fn="
                              ++ (r.fn
                                  ++ (codes "&i="
                                      ++ (r.fd
                                          ++ (codes "&fp="
                                              ++ (r.fp
                                                  ++ (codes "&n="
                                                      ++ decimal r.operation)))))))))))))

unfoldable pub fiscal_receipt_key : FiscalReceipt → Text
unfolding decimal decimal_value
fiscal_receipt_key r =
    r.fn ++ (b':' ∷ (decimal (decimal_value 0 r.fd) ++ (b':' ∷ decimal (decimal_value 0 r.fp))))
