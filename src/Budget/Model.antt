-- ===== src/Budget/Model.antt =====
-- The types of plugins/budget/src/model.ts. An amount that the checks make non-negative is a natural
-- number, and a coordinate is the number that was read.
use arxhub.Base.{Bool, List, Option, Text, [], false, true, ℕ, ℤ}
use arxhub.Budget.Json.{Json}

pub data TransactionKind : Type 0 where
  income expense : TransactionKind

pub record BudgetAccount : Type 0 where
  pub id : Text
  pub name : Text
  pub currency : Text
  pub opening_balance : ℤ

pub record BudgetCategory : Type 0 where
  pub id : Text
  pub name : Text
  pub kind : TransactionKind

-- Either both coordinates or none.
pub record BudgetPlace : Type 0 where
  pub id : Text
  pub name : Text
  pub latitude : Option Json
  pub longitude : Option Json

pub record BudgetItem : Type 0 where
  pub id : Text
  pub name : Text
  pub quantity : Text
  pub unit_price : ℕ
  pub total : ℕ

pub record BudgetAttachment : Type 0 where
  pub id : Text
  pub path : Text
  pub name : Text
  pub mime_type : Text
  pub size : ℕ

pub record FiscalReceipt : Type 0 where
  pub fn : Text
  pub fd : Text
  pub fp : Text
  pub issued_at : Text
  pub total : ℕ
  pub operation : ℕ

pub record BudgetTransaction : Type 0 where
  pub id : Text
  pub account_id : Text
  pub category_id : Text
  pub kind : TransactionKind
  pub amount : ℕ
  pub date : Text
  pub note : Text
  pub place_id : Option Text
  pub items : List BudgetItem
  pub attachments : List BudgetAttachment
  pub fiscal_receipt : Option FiscalReceipt

pub record BudgetData : Type 0 where
  pub accounts : List BudgetAccount
  pub categories : List BudgetCategory
  pub places : List BudgetPlace
  pub transactions : List BudgetTransaction

pub record MonthlyTotal : Type 0 where
  pub currency : Text
  pub income_total : ℕ
  pub expense_total : ℕ
  pub balance : ℤ

pub record CategoryTotal : Type 0 where
  pub category_id : Text
  pub currency : Text
  pub amount : ℕ

unfoldable pub same_kind : TransactionKind → TransactionKind → Bool
same_kind income income = true
same_kind expense expense = true
same_kind _ _ = false

abbrev pub empty_budget : BudgetData
empty_budget = record { accounts = []; categories = []; places = []; transactions = [] }
