-- ===== src/Budget/Index.antt =====
-- The maps by id that plugins/budget/src/model.ts builds, in which no id comes twice.
use arxhub.Base.{
  Bool-cases, List, Option-cases, Text, [], ap, arith, inl, inr, none, ok, ok_injective, refl, some,
  text_eq, text_eq_iff, true, ◌∙◌, ◌∷◌, ◌≡◌,
}
use arxhub.Base.Dict.{Dict, insert, is_some, lookup, lookup-insert, values}
use arxhub.Budget.Sums.{index_by}
use arxhub.Budget.Totals.{find_by}
use arxhub.Budget.Transactions.{index_onto, unique_by_id}

module _ {ℓ κ} {A : Type ℓ} {B : Type κ} (id_of : A → Text) (value_of : A → B) where
  -- An id that is in the map already is none of the rest.
  index_by-kept :
      (id : Text) (result : Dict A) (values : List A) (r : Dict A) (d : Dict B)
      → index_onto id_of result values ≡ ok r
      → is_some (lookup id result) ≡ true
      → lookup id (index_by id_of value_of d values) ≡ lookup id d
  unfolding index_onto index_by
  index_by-kept id result [] r d h there = refl
  index_by-kept id result (value ∷ values) r d h there =
      elim (Bool-cases (is_some (lookup (id_of value) result))) [
        | inl twice ↦ absurd (cc (rw (twice, index_onto) at h))
        | inr once ↦
            let rest =
              index_by-kept id (insert (id_of value) value result) values r
                (insert (id_of value) (value_of value) d) (rw (once, index_onto) at h) in
            ground (
              arith,
              rest,
              lookup-insert (id_of value) id value result,
              lookup-insert (id_of value) id (value_of value) d,
              text_eq_iff (id_of value) id,
            )
      ]

  -- The first value with an id, in the map.
  pub index_by-find :
      (id : Text) (result : Dict A) (values : List A) (r : Dict A) (d : Dict B) (a : A)
      → index_onto id_of result values ≡ ok r
      → find_by id_of id values ≡ some a
      → lookup id (index_by id_of value_of d values) ≡ some (value_of a)
  unfolding index_onto index_by
  index_by-find id result [] r d a h found = absurd (cc found)
  index_by-find id result (value ∷ values) r d a h found =
      elim (Bool-cases (is_some (lookup (id_of value) result))) [
        | inl twice ↦ absurd (cc (rw (twice, index_onto) at h))
        | inr once ↦
            let h₁ = rw (once, index_onto) at h in
            elim (Bool-cases (text_eq (id_of value) id)) [
              | inl is ↦
                  let same = (text_eq_iff (id_of value) id).0 is in
                  let kept =
                    index_by-kept id (insert (id_of value) value result) values r
                      (insert (id_of value) (value_of value) d) h₁ in
                  ground (
                    arith,
                    kept,
                    lookup-insert (id_of value) id value result,
                    lookup-insert (id_of value) id (value_of value) d,
                  )
              | inr other ↦
                  index_by-find id (insert (id_of value) value result) values r
                    (insert (id_of value) (value_of value) d) a h₁ (rw other at found)
            ]
      ]

module _ {ℓ} {A : Type ℓ} (id_of : A → Text) where
  index_onto-index_by :
      (result : Dict A) (values : List A) (r : Dict A)
      → index_onto id_of result values ≡ ok r
      → index_by id_of (λ a. a) result values ≡ r
  unfolding index_onto index_by
  index_onto-index_by result [] r h = ok_injective h
  index_onto-index_by result (value ∷ values) r h =
      elim (Bool-cases (is_some (lookup (id_of value) result))) [
        | inl twice ↦ absurd (cc (rw (twice, index_onto) at h))
        | inr once ↦
            index_onto-index_by (insert (id_of value) value result) values r
              (rw (once, index_onto) at h)
      ]

  index_by-none :
      (id : Text) (d : Dict A) (values : List A)
      → find_by id_of id values ≡ none
      → lookup id (index_by id_of (λ a. a) d values) ≡ lookup id d
  unfolding index_by
  index_by-none id d [] missing = refl
  index_by-none id d (value ∷ values) missing = elim (Bool-cases (text_eq (id_of value) id)) [
    | inl is ↦ absurd (cc (rw is at missing))
    | inr other ↦
        index_by-none id (insert (id_of value) value d) values (rw other at missing)
        ∙ rw (lookup-insert (id_of value) id value d, other) refl
  ]

  -- What the map of the ids gives is the value with the id.
  pub find-unique_by_id :
      (id : Text) (values : List A) (r : Dict A) (a : A)
      → unique_by_id id_of values ≡ ok r
      → lookup id r ≡ some a
      → find_by id_of id values ≡ some a
  unfolding unique_by_id lookup
  find-unique_by_id id values r a h found =
      let there = ap (lookup id) (index_onto-index_by [] values r h) ∙ found in
      elim (Option-cases (find_by id_of id values)) [
        | inl missing ↦ absurd (cc (index_by-none id [] values missing, there))
        | inr (b, is) ↦ cc (index_by-find id_of (λ x. x) id [] values r [] b h is, there, is)
      ]

module _ {ℓ} {A : Type ℓ} (id_of : A → Text) where
  -- A map gives a value under its own id.
  pub IsKeyed : Dict A → Type ℓ
  IsKeyed d = (id : Text) (a : A) → lookup id d ≡ some a → id_of a ≡ id

  index_by-IsKeyed :
      (d : Dict A) (values : List A) → IsKeyed d → IsKeyed (index_by id_of (λ a. a) d values)
  unfolding index_by IsKeyed
  index_by-IsKeyed d [] keyed = keyed
  index_by-IsKeyed d (a ∷ values) keyed = index_by-IsKeyed (insert (id_of a) a d) values (λ id b is.
      elim (Bool-cases (text_eq (id_of a) id)) [
        | inl same ↦
            let e = rw (lookup-insert (id_of a) id a d, same) at is in
            cc (e, (text_eq_iff (id_of a) id).0 same)
        | inr other ↦ keyed id b (rw (lookup-insert (id_of a) id a d, other) at is)
      ])

  pub index_by-keyed :
      (values : List A) (id : Text) (a : A)
      → lookup id (index_by id_of (λ x. x) [] values) ≡ some a
      → id_of a ≡ id
  unfolding IsKeyed lookup
  index_by-keyed values = index_by-IsKeyed [] values (λ id a is. absurd (cc is))
