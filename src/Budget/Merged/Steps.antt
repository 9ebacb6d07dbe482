-- ===== src/Budget/Merged/Steps.antt =====
-- The loop of `mergeRecords` in plugins/budget/src/merge.ts over the ids of the three lists.
use mathlib.Core.Path.{subst}
use arxhub.Base.{
  Bool-cases, List, Option, Option-cases, Text, [], ap, arith, contains-append, contains-distinct,
  distinct, false, if◌then◌else◌, inl, inr, none, refl, some, sort_texts, sym, text_eq, text_eq_iff,
  text_less, true, ◌++◌, ◌∙◌, ◌∷◌, ◌≡◌,
}
use arxhub.Base.Dict.{Dict, contains-keys, is_some, keys, lookup}
use arxhub.Budget.File.{has_id}
use arxhub.Budget.Merge.{all_ids, merge_ids, merge_value, push_value}
use arxhub.Budget.Merged.Choice.{merge_value-choice, some_inj}
use arxhub.Budget.Merged.Ids.{IsOnce, distinct-IsOnce, has_id-contains}
use arxhub.Budget.RoundTrip.Unique.{has_id-sort_by, sort_by-IsUnique}
use arxhub.Budget.Totals.{find_by}

module _ {ℓ} {A : Type ℓ} (id_of : A → Text) (print : A → Text) where
  module _ (base local remote : Dict A)
      (local_keyed : (id : Text) (a : A) → lookup id local ≡ some a → id_of a ≡ id)
      (remote_keyed : (id : Text) (a : A) → lookup id remote ≡ some a → id_of a ≡ id) where
    unfoldable pub value_of : Text → Option (Option A)
    value_of id = merge_value id_of print (lookup id base) (lookup id local) (lookup id remote)

    value_of-id : (id : Text) (a : A) → value_of id ≡ some (some a) → id_of a ≡ id
    unfolding value_of
    value_of-id id a h =
        elim (merge_value-choice id_of print (lookup id base) (lookup id local) (lookup id remote) a
          h) [ inl ours ↦ local_keyed id a ours | inr theirs ↦ remote_keyed id a theirs ]

    -- The steps of the loop.
    merge_ids_inv :
        (id : Text) (ids : List Text) (merged : List A)
        → merge_ids id_of print base local remote (id ∷ ids) ≡ some merged
        → (value : Option A) × (rest : List A) × (value_of id ≡ some value)
          × (merge_ids id_of print base local remote ids ≡ some rest)
          × (push_value id_of print value rest ≡ merged)
    unfolding merge_ids value_of
    merge_ids_inv id ids merged h = elim (Option-cases (value_of id)) [
      | inl conflict ↦ absurd (cc (rw (conflict, merge_ids) at h))
      | inr (value, is) ↦ elim (Option-cases (merge_ids id_of print base local remote ids)) [
        | inl conflict ↦ absurd (cc (rw (is, conflict, merge_ids) at h))
        | inr (rest, rest_is) ↦
            (value, rest, is, rest_is, some_inj (rw (is, rest_is, merge_ids) at h))
      ]
    ]

    -- An id that no step is about has no record in what is merged.
    pub merge_ids-other :
        (id : Text) (ids : List Text) (merged : List A)
        → merge_ids id_of print base local remote ids ≡ some merged
        → has_id (λ (j : Text). j) id ids ≡ false
        → find_by id_of id merged ≡ none
    unfolding has_id push_value merge_ids
    merge_ids-other id [] merged h new = ap (find_by id_of id) (sym (some_inj h))
    merge_ids-other id (j ∷ ids) merged h new =
        let (value, rest, is, rest_is, pushed) = merge_ids_inv j ids merged h in
        let none_later = merge_ids-other id ids rest rest_is (ground (arith, new)) in
        let other : text_eq j id ≡ false = ground (arith, new) in
        subst (λ l. find_by id_of id l ≡ none) pushed (pushed_other value rest is none_later other)
      where
        pushed_other :
            (value : Option A) (rest : List A)
            → value_of j ≡ some value
            → find_by id_of id rest ≡ none
            → text_eq j id ≡ false
            → find_by id_of id (push_value id_of print value rest) ≡ none
        pushed_other none rest is later other = later
        pushed_other (some a) rest is later other =
            let not_it = ap (λ k. text_eq k id) (value_of-id j a is) ∙ other in rw not_it later

    -- An id that a step is about has the record that its step chose.
    pub merge_ids-chosen :
        (id : Text) (ids : List Text) (merged : List A)
        → merge_ids id_of print base local remote ids ≡ some merged
        → has_id (λ (j : Text). j) id ids ≡ true
        → IsOnce ids
        → value_of id ≡ some (find_by id_of id merged)
    unfolding has_id push_value
    merge_ids-chosen id [] merged h among once = absurd (cc among)
    merge_ids-chosen id (j ∷ ids) merged h among once =
        let (value, rest, is, rest_is, pushed) = merge_ids_inv j ids merged h in
        subst (λ l. value_of id ≡ some (find_by id_of id l)) pushed
          (elim (Bool-cases (text_eq j id)) [
            | inl this ↦
                let same = (text_eq_iff j id).0 this in
                ap value_of (sym same)
                ∙ is
                ∙ ap some (
                    sym (
                      pushed_this value rest is same (
                        merge_ids-other id ids rest rest_is
                          (ap (λ k. has_id (λ (i : Text). i) k ids) (sym same) ∙ once.0))))
            | inr other ↦
                merge_ids-chosen id ids rest rest_is (ground (arith, among, other)) once.1
                ∙ ap some (sym (pushed_later value rest is other))
          ])
      where
        pushed_this :
            (value : Option A) (rest : List A)
            → value_of j ≡ some value
            → j ≡ id
            → find_by id_of id rest ≡ none
            → find_by id_of id (push_value id_of print value rest) ≡ value
        pushed_this none rest is same later = later
        pushed_this (some a) rest is same later =
            let it = (text_eq_iff (id_of a) id).1 (value_of-id j a is ∙ same) in rw it refl

        pushed_later :
            (value : Option A) (rest : List A)
            → value_of j ≡ some value
            → text_eq j id ≡ false
            → find_by id_of id (push_value id_of print value rest) ≡ find_by id_of id rest
        pushed_later none rest is other = refl
        pushed_later (some a) rest is other =
            let not_it = ap (λ k. text_eq k id) (value_of-id j a is) ∙ other in rw not_it refl

  pub keys-has_id :
      (id : Text) (base local remote : Dict A)
      → has_id (λ (j : Text). j) id (all_ids id_of print base local remote) ≡ (
          if is_some (lookup id base)
          then true
          else (if is_some (lookup id local) then true else is_some (lookup id remote)))
  unfolding all_ids sort_texts
  keys-has_id id base local remote =
      let ids = keys base ++ (keys local ++ keys remote) in
      has_id-sort_by (λ (j : Text). j) text_less id (distinct ids)
      ∙ has_id-contains id (distinct ids)
      ∙ contains-distinct ids id
      ∙ contains-append (keys base) (keys local ++ keys remote) id
      ∙ ground (
        arith,
        contains-append (keys local) (keys remote) id,
        contains-keys id base,
        contains-keys id local,
        contains-keys id remote,
      )

  pub all_ids-IsOnce : (base local remote : Dict A) → IsOnce (all_ids id_of print base local remote)
  unfolding all_ids sort_texts
  all_ids-IsOnce base local remote =
      sort_by-IsUnique (λ (j : Text). j) text_less _
        (distinct-IsOnce (keys base ++ (keys local ++ keys remote)))
