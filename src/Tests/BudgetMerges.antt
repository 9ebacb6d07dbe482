-- ===== src/Tests/BudgetMerges.antt =====
-- A category that one device renames, while another adds a category.
use arxhub.Base.{Text, codes}
use arxhub.Budget.Model.{BudgetCategory, expense, income}

abbrev tea : BudgetCategory
tea = record { id = codes "t"; name = codes "Tea"; kind = expense }

abbrev green_tea : BudgetCategory
green_tea = record { id = codes "t"; name = codes "Green tea"; kind = expense }

abbrev wages : BudgetCategory
wages = record { id = codes "w"; name = codes "Wages"; kind = income }

id_of : BudgetCategory → Text
id_of c = c.id

name_of : BudgetCategory → Text
name_of c = c.name
