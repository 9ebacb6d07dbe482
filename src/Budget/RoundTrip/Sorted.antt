-- ===== src/Budget/RoundTrip/Sorted.antt =====
-- What `sort` leaves of the lists of a budget, in `serializeBudget` of plugins/budget/src/model.ts.
use mathlib.Core.List.Permᴰ
use mathlib.Core.List.{Permᴰ}
use arxhub.Base.{
  Bool, Bool-cases, List, Text, [], false, inl, inr, place_before, refl, sort_by, text_less,
  text_less-asym, true, ◌∷◌, ◌≡◌,
}
use arxhub.Budget.File.{sort_by_id}
use arxhub.Budget.Model.{BudgetAccount, BudgetCategory, BudgetData, BudgetPlace, BudgetTransaction}
use arxhub.Budget.RoundTrip.File.{sorted_budget}

module _ {A : Type 0} (id_of : A → Text) where
  -- Each id of a list is no greater than the next, by the code units of the texts.
  pub IsInOrder : List A → Type 0
  IsInOrder [] = Unit
  IsInOrder (a ∷ []) = Unit
  IsInOrder (a ∷ (b ∷ rest)) = (text_less (id_of b) (id_of a) ≡ false) × IsInOrder (b ∷ rest)

  abbrev less_id : A → A → Bool
  less_id a b = text_less (id_of a) (id_of b)

  place_before-Perm : (x : A) (ys : List A) → Permᴰ (place_before less_id x ys) (x ∷ ys)
  unfolding place_before
  place_before-Perm x [] = Permᴰ.refl (x ∷ [])
  place_before-Perm x (y ∷ ys) = elim (Bool-cases (less_id y x)) [
    | inl before ↦
        rw before (Permᴰ.trans (Permᴰ.cons refl (place_before-Perm x ys)) (Permᴰ.swap refl refl))
    | inr here_now ↦ rw here_now (Permᴰ.refl (x ∷ (y ∷ ys)))
  ]

  sort_by_id-Perm : (xs : List A) → Permᴰ (sort_by_id id_of xs) xs
  unfolding sort_by_id sort_by
  sort_by_id-Perm [] = Permᴰ.nil
  sort_by_id-Perm (x ∷ xs) =
      Permᴰ.trans (place_before-Perm x (sort_by less_id xs)) (Permᴰ.cons refl (sort_by_id-Perm xs))

  -- A value that is placed after one that is no greater.
  place_after :
      (y x : A) (ys : List A)
      → text_less (id_of y) (id_of x) ≡ true
      → IsInOrder (y ∷ ys)
      → IsInOrder (place_before less_id x ys)
      → IsInOrder (y ∷ place_before less_id x ys)
  unfolding place_before IsInOrder
  place_after y x [] before sorted placed = (text_less-asym (id_of y) (id_of x) before, tt)
  place_after y x (z ∷ ys) before sorted placed = elim (Bool-cases (less_id z x)) [
    | inl later ↦ rw later (sorted.0, rw (later, place_before) at placed)
    | inr here_now ↦
        rw here_now
          (text_less-asym (id_of y) (id_of x) before, rw (here_now, place_before) at placed)
  ]

  tail-IsInOrder : (x : A) (xs : List A) → IsInOrder (x ∷ xs) → IsInOrder xs
  unfolding IsInOrder
  tail-IsInOrder x [] sorted = tt
  tail-IsInOrder x (y ∷ xs) sorted = sorted.1

  place_before-IsInOrder :
      (x : A) (ys : List A) → IsInOrder ys → IsInOrder (place_before less_id x ys)
  unfolding place_before IsInOrder
  place_before-IsInOrder x [] sorted = tt
  place_before-IsInOrder x (y ∷ ys) sorted = elim (Bool-cases (less_id y x)) [
    | inl before ↦ rw before (
        place_after y x ys before sorted (place_before-IsInOrder x ys (tail-IsInOrder y ys sorted)))
    | inr here_now ↦ rw here_now (here_now, sorted)
  ]

  sort_by_id-IsInOrder : (xs : List A) → IsInOrder (sort_by_id id_of xs)
  unfolding sort_by_id sort_by IsInOrder
  sort_by_id-IsInOrder [] = tt
  sort_by_id-IsInOrder (x ∷ xs) =
      place_before-IsInOrder x (sort_by less_id xs) (sort_by_id-IsInOrder xs)

-- One budget has the records of another, each list in the order of the ids.
pub IsSortedFrom : BudgetData → BudgetData → Type 0
IsSortedFrom s b =
    (Permᴰ s.accounts b.accounts × IsInOrder (λ (a : BudgetAccount). a.id) s.accounts)
    × (Permᴰ s.categories b.categories × IsInOrder (λ (c : BudgetCategory). c.id) s.categories)
    × (Permᴰ s.places b.places × IsInOrder (λ (p : BudgetPlace). p.id) s.places)
    × (Permᴰ s.transactions b.transactions
        × IsInOrder (λ (t : BudgetTransaction). t.id) s.transactions)

pub sorted_budget-IsSortedFrom : (b : BudgetData) → IsSortedFrom (sorted_budget b) b
unfolding sorted_budget IsSortedFrom
sorted_budget-IsSortedFrom b = (
  (
    sort_by_id-Perm (λ (a : BudgetAccount). a.id) b.accounts,
    sort_by_id-IsInOrder (λ (a : BudgetAccount). a.id) b.accounts,
  ),
  (
    sort_by_id-Perm (λ (c : BudgetCategory). c.id) b.categories,
    sort_by_id-IsInOrder (λ (c : BudgetCategory). c.id) b.categories,
  ),
  (
    sort_by_id-Perm (λ (p : BudgetPlace). p.id) b.places,
    sort_by_id-IsInOrder (λ (p : BudgetPlace). p.id) b.places,
  ),
  (
    sort_by_id-Perm (λ (t : BudgetTransaction). t.id) b.transactions,
    sort_by_id-IsInOrder (λ (t : BudgetTransaction). t.id) b.transactions,
  ),
)
