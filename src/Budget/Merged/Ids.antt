-- ===== src/Budget/Merged/Ids.antt =====
-- The ids of `mergeRecords` in plugins/budget/src/merge.ts, each once.
use arxhub.Base.{
  Bool-cases, List, Text, [], arith, contains, contains-without, distinct, inl, inr, refl, text_eq,
  text_eq_iff, text_eq_refl, without, ◌∙◌, ◌∷◌, ◌≡◌,
}
use arxhub.Budget.File.{has_id}
use arxhub.Budget.RoundTrip.Unique.{IsUnique}

-- Lists of ids, each once.
abbrev pub IsOnce : List Text → Type 0
IsOnce ids = IsUnique (λ (id : Text). id) ids

pub has_id-contains :
    (id : Text) (ids : List Text) → has_id (λ (j : Text). j) id ids ≡ contains ids id
unfolding has_id contains
has_id-contains id [] = refl
has_id-contains id (j ∷ ids) = ground (arith, has_id-contains id ids)

without-IsOnce : (p : Text) (ids : List Text) → IsOnce ids → IsOnce (without p ids)
unfolding without
without-IsOnce p [] once = tt
without-IsOnce p (q ∷ ids) once = elim (Bool-cases (text_eq q p)) [
  | inl same ↦ rw same (without-IsOnce p ids once.1)
  | inr other ↦ rw other (
    has_id-contains q (without p ids)
        ∙ contains-without p q ids
        ∙ ground (arith, text_eq_iff q p, text_eq_iff p q, has_id-contains q ids, once.0),
    without-IsOnce p ids once.1,
  )
]

pub distinct-IsOnce : (ids : List Text) → IsOnce (distinct ids)
unfolding distinct
distinct-IsOnce [] = tt
distinct-IsOnce (p ∷ ids) = (
  has_id-contains p (without p (distinct ids))
      ∙ contains-without p p (distinct ids)
      ∙ ground (arith, text_eq_refl p),
  without-IsOnce p (distinct ids) (distinct-IsOnce ids),
)
