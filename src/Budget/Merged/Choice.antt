-- ===== src/Budget/Merged/Choice.antt =====
-- The choice that `mergeRecords` of plugins/budget/src/merge.ts makes under one id.
use arxhub.Base.{
  Bool-cases, Option, Text, ap, arith, false, if◌then◌else◌, inl, inr, none, refl, some, sym,
  text_eq_iff, text_eq_refl, true, ◌∙◌, ◌≡◌, ◌⊎◌,
}
use arxhub.Base.Dict.{is_some}
use arxhub.Budget.Merge.{merge_value, same_json, same_record}

pub some_inj {ℓ} : {A : Type ℓ} {a b : A} → some a ≡ some b → a ≡ b
some_inj h = cc h

module _ {ℓ} {A : Type ℓ} (id_of : A → Text) (print : A → Text) where
  pub merge_value-choice :
      (ancestor ours theirs : Option A) (value : A)
      → merge_value id_of print ancestor ours theirs ≡ some (some value)
      → (ours ≡ some value) ⊎ (theirs ≡ some value)
  unfolding merge_value
  merge_value-choice ancestor ours theirs value h =
      elim (Bool-cases (same_record id_of print ours theirs)) [
        | inl same ↦ inl (some_inj (rw (same, merge_value) at h))
        | inr other ↦ elim (Bool-cases (same_record id_of print ours ancestor)) [
          | inl kept ↦ inr (some_inj (rw (other, kept, merge_value) at h))
          | inr edited ↦ elim (Bool-cases (same_record id_of print theirs ancestor)) [
            | inl kept ↦ inl (some_inj (rw (other, edited, kept, merge_value) at h))
            | inr conflict ↦ absurd (cc (rw (other, edited, conflict, merge_value) at h))
          ]
        ]
      ]

  pub merge_value-gone :
      (ancestor ours theirs : Option A)
      → (if is_some ancestor then true else (if is_some ours then true else is_some theirs)) ≡ false
      → merge_value id_of print ancestor ours theirs ≡ some none
  unfolding merge_value same_record same_json
  merge_value-gone none none none h = refl
  merge_value-gone none none (some c) h = absurd (cc h)
  merge_value-gone none (some b) theirs h = absurd (cc h)
  merge_value-gone (some a) ours theirs h = absurd (cc h)

  -- A record, or none, that a three-way merge may keep: it is one of the sides, and if a side prints as the
  -- ancestor does, it prints as the other side.
  pub IsMerge : Option A → Option A → Option A → Option A → Type ℓ
  IsMerge ancestor ours theirs result =
      ((result ≡ ours) ⊎ (result ≡ theirs))
      × (same_record id_of print ours ancestor ≡ true
          → same_record id_of print result theirs ≡ true)
      × (same_record id_of print theirs ancestor ≡ true
          → same_record id_of print result ours ≡ true)

  same_record_refl : (a : Option A) → same_record id_of print a a ≡ true
  unfolding same_record same_json
  same_record_refl none = refl
  same_record_refl (some a) = text_eq_refl (print a)

  -- Two that print as a third does print as each other.
  same_record_join :
      (a b c : Option A)
      → same_record id_of print a c ≡ true
      → same_record id_of print b c ≡ true
      → same_record id_of print a b ≡ true
  unfolding same_record same_json
  same_record_join none none c h k = refl
  same_record_join none (some b) none h k = absurd (cc k)
  same_record_join none (some b) (some c) h k = absurd (cc h)
  same_record_join (some a) none none h k = absurd (cc h)
  same_record_join (some a) none (some c) h k = absurd (cc k)
  same_record_join (some a) (some b) none h k = absurd (cc h)
  same_record_join (some a) (some b) (some c) h k = ground (
    arith,
    text_eq_iff (print a) (print b),
    text_eq_iff (print a) (print c),
    text_eq_iff (print b) (print c),
    h,
    k,
  )

  pub merge_value-IsMerge :
      (ancestor ours theirs result : Option A)
      → merge_value id_of print ancestor ours theirs ≡ some result
      → IsMerge ancestor ours theirs result
  unfolding merge_value IsMerge
  merge_value-IsMerge ancestor ours theirs result h =
      elim (Bool-cases (same_record id_of print ours theirs)) [
        | inl same ↦
            let e = some_inj (rw (same, merge_value) at h) in
            (
              inl (sym e),
              λ _. ap (λ o. same_record id_of print o theirs) (sym e) ∙ same,
              λ _. ap (λ o. same_record id_of print o ours) (sym e) ∙ same_record_refl ours,
            )
        | inr other ↦ elim (Bool-cases (same_record id_of print ours ancestor)) [
          | inl kept ↦
              let e = some_inj (rw (other, kept, merge_value) at h) in
              (
                inr (sym e),
                λ _. ap (λ o. same_record id_of print o theirs) (sym e) ∙ same_record_refl theirs,
                λ also. absurd (cc (other, same_record_join ours theirs ancestor kept also)),
              )
          | inr edited ↦ elim (Bool-cases (same_record id_of print theirs ancestor)) [
            | inl kept ↦
                let e = some_inj (rw (other, edited, kept, merge_value) at h) in
                (
                  inl (sym e),
                  λ unchanged. absurd (cc (edited, unchanged)),
                  λ _. ap (λ o. same_record id_of print o ours) (sym e) ∙ same_record_refl ours,
                )
            | inr conflict ↦ absurd (cc (rw (other, edited, conflict, merge_value) at h))
          ]
        ]
      ]
