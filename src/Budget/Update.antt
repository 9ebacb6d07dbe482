-- ===== src/Budget/Update.antt =====
-- plugins/budget/src/store.ts over packages/vfs/src/ops/compare-and-swap.ts: the budget's file in a vault
-- that others write to as well. A file system that swaps natively is not modelled, nor a read that fails
-- otherwise than for want of the file. `others moment n` is what the others do at a moment of the attempt
-- that has `n` after it: between its first look for conflict copies and its read of the file, between
-- the read and the last look, or between the last look and the swap.
use arxhub.Base.{
  Bool, Bytes, Option, Result, Text, [], budget_conflict_copies, budget_contention, codes, drop,
  err, false, if◌then◌else◌, none, not, ok, some, starts_with, suc, text_eq, true, validation, zero,
  ℕ, ◌&&◌, ◌==◌, ◌>>=◌, ◌||◌, ◌∷◌,
}
use arxhub.Base.Dict.{Dict, insert, keys, lookup}
use arxhub.Budget.Dates.{is_empty_text}
use arxhub.Budget.Fields.{read_hex}
use arxhub.Budget.File.{parse_budget, serialize_budget}
use arxhub.Budget.Json.{Json}
use arxhub.Budget.Merge.{any}
use arxhub.Budget.Model.{BudgetData, empty_budget}
use arxhub.Budget.Money.{take_digits}
use arxhub.Budget.Whole.{budget_json, validate_budget}

abbrev pub budget_path : Text
budget_path = codes "budget.jsonl"

abbrev pub max_budget_update_retries : ℕ
max_budget_update_retries = 10

-- When other writers act in an attempt.
pub data Moment : Type 0 where
  before_read before_look before_swap : Moment

-- How the loop of attempts ends: an attempt returned or threw, or none did.
pub data Outcome : Type 0 where
  settled : Result BudgetData → Outcome
  ran_out : Outcome

-- What an outcome is to the caller of `update`.
abbrev pub answered : Outcome × Dict Bytes → Result BudgetData × Dict Bytes
answered (settled answer, after) = (answer, after)
answered (ran_out, after) = (err budget_contention, after)

-- `(?:-\d+)?\.jsonl$`
unfoldable pub is_copy_ending : Text → Bool
unfolding text_eq take_digits
is_copy_ending text = text_eq text (codes ".jsonl") || is_numbered text
  where
    is_numbered : Text → Bool
    is_numbered [] = false
    is_numbered (c ∷ more) =
        (c == b'-')
        && (not (is_empty_text ((take_digits more).0))
            && text_eq ((take_digits more).1) (codes ".jsonl"))

-- `CONFLICT_COPY`
unfoldable pub is_conflict_copy : Text → Bool
unfolding starts_with read_hex is_copy_ending
is_conflict_copy name = starts_with name (codes "conflict-") && (elim (read_hex 8 (drop 9 name)) [
  | none ↦ false
  | some rest ↦ starts_with rest (codes "-budget") && is_copy_ending (drop 7 rest)
])

-- `refuseConflictCopies`: no path below a folder is a copy, since it has a slash.
unfoldable pub refuse_conflict_copies : Dict Bytes → Result (Dict Bytes)
unfolding is_conflict_copy keys
refuse_conflict_copies vault =
    if any is_conflict_copy (keys vault) then err budget_conflict_copies else ok vault

-- `readCurrent`
unfoldable pub read_current : Dict Bytes → Option Bytes
unfolding lookup
read_current vault = lookup budget_path vault

unfoldable pub same_bytes : Option Bytes → Option Bytes → Bool
unfolding text_eq
same_bytes none none = true
same_bytes (some a) (some b) = text_eq a b
same_bytes _ _ = false

-- `compareAndSwap`, without the capability.
unfoldable pub swap_file : Text → Option Bytes → Bytes → Dict Bytes → Bool × Dict Bytes
unfolding lookup insert same_bytes
swap_file path expected new vault =
    if same_bytes (lookup path vault) expected
    then (true, insert path new vault)
    else (false, vault)

module _ (intl : Text → Option ℕ) (parse_json : Text → Option Json) (print_json : Json → Text)
    (decode_utf8 : Bytes → Option Text) (encode_utf8 : Text → Bytes) where
  unfoldable pub decode : Bytes → Result Text
  decode bytes = elim (decode_utf8 bytes) [ none ↦ err validation | some text ↦ ok text ]

  unfoldable pub current_budget : Option Bytes → Result BudgetData
  unfolding decode parse_budget
  current_budget none = ok empty_budget
  current_budget (some bytes) = decode bytes >>= parse_budget intl parse_json

  unfoldable pub load : Dict Bytes → Result BudgetData
  unfolding refuse_conflict_copies current_budget read_current
  load vault = do alone ← refuse_conflict_copies vault; current_budget (read_current alone)

  -- The bytes of the change of what is there.
  unfoldable pub changed_bytes : (BudgetData → Result BudgetData) → Option Bytes → Result Bytes
  unfolding current_budget validate_budget serialize_budget
  changed_bytes change current_bytes = do
    current ← current_budget current_bytes
    next ← change current
    valid ← validate_budget intl (budget_json next)
    text ← serialize_budget intl print_json valid
    ok (encode_utf8 text)

  module _ (others : Moment → ℕ → Dict Bytes → Dict Bytes)
      (change : BudgetData → Result BudgetData) where
    -- The vault when an attempt that starts on it reads the file, looks for copies again, and swaps.
    abbrev at_read : ℕ → Dict Bytes → Dict Bytes
    at_read n vault = others before_read n vault

    abbrev at_look : ℕ → Dict Bytes → Dict Bytes
    at_look n vault = others before_look n (at_read n vault)

    abbrev at_swap : ℕ → Dict Bytes → Dict Bytes
    at_swap n vault = others before_swap n (at_look n vault)

    -- What an attempt writes, up to its swap.
    unfoldable pub prepare : ℕ → Dict Bytes → Result Bytes
    unfolding refuse_conflict_copies changed_bytes read_current
    prepare n vault = do
      alone ← refuse_conflict_copies vault
      bytes ← changed_bytes change (read_current (at_read n vault))
      still_alone ← refuse_conflict_copies (at_look n vault)
      ok bytes

    -- The attempts that are left, on a vault.
    unfoldable pub update_attempts : ℕ → Dict Bytes → Outcome × Dict Bytes
    unfolding prepare swap_file read_current current_budget
    update_attempts zero vault = (ran_out, vault)
    update_attempts (suc n) vault = elim (prepare n vault) [
      | err e ↦ (settled (err e), at_swap n vault)
      | ok bytes ↦
          let (is_swapped, after) =
            swap_file budget_path (read_current (at_read n vault)) bytes (at_swap n vault) in
          let rest = update_attempts n after in
          if is_swapped then (settled (current_budget (some bytes)), after) else rest
    ]

    unfoldable pub update : Dict Bytes → Result BudgetData × Dict Bytes
    unfolding update_attempts
    update vault = answered (update_attempts max_budget_update_retries vault)
