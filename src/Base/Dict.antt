-- ===== src/Base/Dict.antt =====
-- Objects and `Map`s with string keys, as association lists in insertion order: an assignment to a
-- key that is there keeps its place, and a new key goes last.
use mathlib.Core.Path.{◌≡◌, refl}
use mathlib.Core.Bool.{Bool, true, false}
use mathlib.Core.Option.{Option, none, some}
use mathlib.Core.List.{List, [], ◌∷◌}
use native.Mathlib.Omega.{arith}
use Prim.Native.Nat.{ℕ, ◌+◌, ◌≤◌, ◌<◌}
use arxhub.Base.Lists.{length}
use arxhub.Base.Tests.{if◌then◌else◌}
use arxhub.Base.Texts.{Text, text_eq, text_eq_iff, text_eq_refl, contains}

abbrev pub Dict {ℓ} : Type ℓ → Type ℓ
Dict V = List (Text × V)

abbrev pub is_some {ℓ} : {A : Type ℓ} → Option A → Bool
is_some none = false
is_some (some a) = true

module _ {ℓ} {V : Type ℓ} where
  unfoldable pub lookup : Text → Dict V → Option V
  lookup k [] = none
  lookup k ((j, v) ∷ d) = let rest = lookup k d in if text_eq j k then some v else rest

  unfoldable pub insert : Text → V → Dict V → Dict V
  insert k v [] = (k, v) ∷ []
  insert k v ((j, w) ∷ d) =
      let rest = insert k v d in if text_eq j k then (j, v) ∷ d else (j, w) ∷ rest

  -- `delete d[k]`
  unfoldable pub erase : Text → Dict V → Dict V
  erase k [] = []
  erase k ((j, w) ∷ d) = let rest = erase k d in if text_eq j k then rest else (j, w) ∷ rest

  unfoldable pub keys : Dict V → List Text
  keys [] = []
  keys ((k, v) ∷ d) = k ∷ keys d

  -- `Object.values`
  unfoldable pub values : Dict V → List V
  values [] = []
  values ((k, v) ∷ d) = v ∷ values d

module _ {ℓ} {V : Type ℓ} where
  pub lookup-insert :
      (k j : Text) (v : V) (d : Dict V)
      → lookup j (insert k v d) ≡ (if text_eq k j then some v else lookup j d)
  unfolding lookup insert
  lookup-insert k j v [] = refl
  lookup-insert k j v ((i, w) ∷ d) =
      ground (arith, text_eq_iff k j, text_eq_iff i k, text_eq_iff i j, lookup-insert k j v d)

  pub lookup-erase :
      (k j : Text) (d : Dict V) → lookup j (erase k d) ≡ (if text_eq k j then none else lookup j d)
  unfolding lookup erase
  lookup-erase k j [] = ground arith
  lookup-erase k j ((i, w) ∷ d) =
      ground (arith, text_eq_iff k j, text_eq_iff i k, text_eq_iff i j, lookup-erase k j d)

  pub lookup-insert_self : (k : Text) (v : V) (d : Dict V) → lookup k (insert k v d) ≡ some v
  lookup-insert_self k v d = simp (lookup-insert, text_eq_refl)

  pub contains-keys : (k : Text) (d : Dict V) → contains (keys d) k ≡ is_some (lookup k d)
  unfolding keys lookup contains
  contains-keys k [] = refl
  contains-keys k ((j, v) ∷ d) = ground (arith, contains-keys k d)

-- The entries of a dictionary whose keys are not in a list. The number falls when a key joins the list.
module _ {ℓ} {V : Type ℓ} where
  abbrev pub fresh : List Text → Dict V → ℕ
  fresh seen [] = 0
  fresh seen ((k, v) ∷ d) = (if contains seen k then 0 else 1) + fresh seen d

module _ {ℓ} {V : Type ℓ} (c : Text) (seen : List Text) where
  pub fresh_mono : (d : Dict V) → fresh (c ∷ seen) d ≤ fresh seen d
  unfolding contains
  fresh_mono [] = omega arith
  fresh_mono ((k, v) ∷ d) = ground (arith, fresh_mono d)

  pub fresh_lt :
      (d : Dict V) (v : V)
      → contains seen c ≡ false
      → lookup c d ≡ some v
      → fresh (c ∷ seen) d < fresh seen d
  unfolding contains lookup
  fresh_lt [] v new there = absurd (cc)
  fresh_lt ((k, w) ∷ d) v new there =
      ground (arith, fresh_lt d v, fresh_mono d, text_eq_iff k c, text_eq_iff c k)

pub fresh-nil {ℓ} : {V : Type ℓ} (d : Dict V) → fresh [] d ≡ length d
unfolding contains
fresh-nil [] = refl
fresh-nil ((k, v) ∷ d) = omega (arith, fresh-nil d)

pub ruleset dict_laws = (lookup-insert, lookup-erase)
