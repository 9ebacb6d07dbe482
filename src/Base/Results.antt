-- ===== src/Base/Results.antt =====
-- Errors as values: the codes of packages/errors/src/core.ts and packages/sync/src/errors.ts, and of
-- plugins/budget/src/errors.ts those of the store; its others are one. Messages are not modelled. `type_error` is the language's own. `out_of_fuel` is none of the program:
-- the loop of a model ended early.
use mathlib.Core.Path.{◌≡◌, refl}
use mathlib.Core.Logic.{◌⊎◌, inl, inr}

pub data Error : Type 0 where
  validation illegal_state file_not_found : Error
  sync_head_moved repo_head_moved : Error
  http type_error budget_error : Error
  budget_contention budget_conflict_copies : Error
  out_of_fuel : Error

-- What an `async` function settles to.
pub data Result {ℓ} (Value : Type ℓ) : Type ℓ where
  err : Error → Result Value
  ok : Value → Result Value

module _ {ℓ κ} {Value : Type ℓ} {Next : Type κ} where
  infixl 5 ◌>>=◌
  abbrev pub ◌>>=◌ : Result Value → (Value → Result Next) → Result Next
  ◌>>=◌ (err code) then_do = err code
  ◌>>=◌ (ok value) then_do = then_do value

  -- A chain that succeeds: what its first step gave.
  pub >>=-ok_inv :
      (first : Result Value) (then_do : Value → Result Next) {last : Next}
      → (first >>= then_do) ≡ ok last
      → (value : Value) × (first ≡ ok value) × (then_do value ≡ ok last)
  >>=-ok_inv (err code) then_do settled = cc
  >>=-ok_inv (ok value) then_do settled = (value, refl, settled)

pub ok_injective {ℓ} : {Value : Type ℓ} {a b : Value} → ok a ≡ ok b → a ≡ b
ok_injective h = cc

pub Result-cases {ℓ} :
    {Value : Type ℓ} (settled : Result Value)
    → ((code : Error) × (settled ≡ err code)) ⊎ ((value : Value) × (settled ≡ ok value))
Result-cases (err code) = inl (code, refl)
Result-cases (ok value) = inr (value, refl)
