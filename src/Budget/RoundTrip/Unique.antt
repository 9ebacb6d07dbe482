-- ===== src/Budget/RoundTrip/Unique.antt =====
-- Lists of records in which no id comes twice, in plugins/budget/src/model.ts, and in what order they are
-- sorted.
use arxhub.Base.{
  All, Bool, Bool-cases, List, Text, [], ap, arith, false, inl, inr, ok, place_before, refl,
  sort_by, sym, text_eq, text_eq_iff, true, ◌||◌, ◌∙◌, ◌∷◌, ◌≡◌,
}
use arxhub.Base.Dict.{Dict, insert, is_some, lookup, lookup-insert, lookup-insert_self, values}
use arxhub.Budget.File.{has_id}
use arxhub.Budget.Transactions.{index_onto, unique_by_id}

module _ {ℓ} {A : Type ℓ} (id_of : A → Text) where
  abbrev pub IsUnique : List A → Type 0
  IsUnique [] = Unit
  IsUnique (a ∷ values) = (has_id id_of (id_of a) values ≡ false) × IsUnique values

  -- An id of the list was not in the map before.
  index_onto-absent :
      (id : Text) (result : Dict A) (values : List A) (r : Dict A)
      → index_onto id_of result values ≡ ok r
      → has_id id_of id values ≡ true
      → is_some (lookup id result) ≡ false
  unfolding index_onto has_id
  index_onto-absent id result [] r h among = absurd (cc among)
  index_onto-absent id result (value ∷ values) r h among =
      elim (Bool-cases (is_some (lookup (id_of value) result))) [
        | inl twice ↦ absurd (cc (rw (twice, index_onto) at h))
        | inr once ↦ elim (Bool-cases (text_eq (id_of value) id)) [
          | inl is ↦
              ap (λ k. is_some (lookup k result)) (sym ((text_eq_iff (id_of value) id).0 is)) ∙ once
          | inr other ↦
              rw (lookup-insert (id_of value) id value result, other) at
                (index_onto-absent id (insert (id_of value) value result) values r
                  (rw (once, index_onto) at h) (ground (arith, among, other)))
        ]
      ]

  index_onto-IsUnique :
      (result : Dict A) (values : List A) (r : Dict A)
      → index_onto id_of result values ≡ ok r
      → IsUnique values
  unfolding index_onto
  index_onto-IsUnique result [] r h = tt
  index_onto-IsUnique result (value ∷ values) r h =
      elim (Bool-cases (is_some (lookup (id_of value) result))) [
        | inl twice ↦ absurd (cc (rw (twice, index_onto) at h))
        | inr once ↦
            let h₁ = rw (once, index_onto) at h in
            (
              elim (Bool-cases (has_id id_of (id_of value) values)) [
                | inl again_there ↦ absurd (
                    cc (
                      index_onto-absent (id_of value) (insert (id_of value) value result) values r
                          h₁ again_there,
                      ap is_some (lookup-insert_self (id_of value) value result),
                    ))
                | inr fresh_id ↦ fresh_id
              ],
              index_onto-IsUnique (insert (id_of value) value result) values r h₁,
            )
      ]

  pub unique_by_id-IsUnique :
      (values : List A) (r : Dict A) → unique_by_id id_of values ≡ ok r → IsUnique values
  unfolding unique_by_id
  unique_by_id-IsUnique values r h = index_onto-IsUnique [] values r h

  -- Sorting keeps the ids.
  module _ (less : A → A → Bool) where
    has_id-place_before :
        (id : Text) (x : A) (ys : List A)
        → has_id id_of id (place_before less x ys) ≡ has_id id_of id (x ∷ ys)
    unfolding has_id place_before
    has_id-place_before id x [] = refl
    has_id-place_before id x (y ∷ ys) = ground (arith, has_id-place_before id x ys)

    pub has_id-sort_by :
        (id : Text) (xs : List A) → has_id id_of id (sort_by less xs) ≡ has_id id_of id xs
    unfolding has_id sort_by
    has_id-sort_by id [] = refl
    has_id-sort_by id (x ∷ xs) =
        has_id-place_before id x (sort_by less xs)
        ∙ ap (λ b. text_eq (id_of x) id || b) (has_id-sort_by id xs)

    place_before-IsUnique :
        (x : A) (ys : List A)
        → has_id id_of (id_of x) ys ≡ false
        → IsUnique ys
        → IsUnique (place_before less x ys)
    unfolding has_id place_before
    place_before-IsUnique x [] new unique = (refl, tt)
    place_before-IsUnique x (y ∷ ys) new unique = elim (Bool-cases (less y x)) [
      | inl before ↦ rw before (
        has_id-place_before (id_of y) x ys
            ∙ ground (
              arith,
              new,
              unique.0,
              text_eq_iff (id_of x) (id_of y),
              text_eq_iff (id_of y) (id_of x),
            ),
        place_before-IsUnique x ys (ground (arith, new)) unique.1,
      )
      | inr here_now ↦ rw here_now (new, unique)
    ]

    pub sort_by-IsUnique : (xs : List A) → IsUnique xs → IsUnique (sort_by less xs)
    unfolding sort_by
    sort_by-IsUnique [] unique = tt
    sort_by-IsUnique (x ∷ xs) unique =
        place_before-IsUnique x (sort_by less xs) (has_id-sort_by (id_of x) xs ∙ unique.0)
          (sort_by-IsUnique xs unique.1)

    place_before-All :
        (P : A → Type 0) (x : A) (ys : List A) → P x → All P ys → All P (place_before less x ys)
    unfolding place_before
    place_before-All P x [] p rest = (p, tt)
    place_before-All P x (y ∷ ys) p rest = elim (Bool-cases (less y x)) [
      | inl before ↦ rw before (rest.0, place_before-All P x ys p rest.1)
      | inr here_now ↦ rw here_now (p, rest)
    ]

    pub sort_by-All : (P : A → Type 0) (xs : List A) → All P xs → All P (sort_by less xs)
    unfolding sort_by
    sort_by-All P [] holds = tt
    sort_by-All P (x ∷ xs) holds =
        place_before-All P x (sort_by less xs) holds.0 (sort_by-All P xs holds.1)
