-- ===== src/Base/Sorting.antt =====
-- `sort` of the language, which is stable, and the order of strings by their code units.

use mathlib.Core.Path.{◌≡◌, refl}
use mathlib.Core.Logic.{◌≢◌}
use native.Mathlib.Omega.{arith}
use mathlib.Core.Bool.{Bool, true, false, ◌&&◌, ◌||◌}
use mathlib.Core.List.{List, [], ◌∷◌}
use arxhub.Base.Tests.{◌==◌, if◌then◌else◌, ltb}
use arxhub.Base.Texts.{Text}

-- `a < b`
unfoldable pub text_less : Text → Text → Bool
text_less [] [] = false
text_less [] (b ∷ t) = true
text_less (a ∷ s) [] = false
text_less (a ∷ s) (b ∷ t) = ltb a b || ((a == b) && text_less s t)

pub text_less-asym : (a b : Text) → text_less a b ≡ true → text_less b a ≡ false
unfolding text_less
text_less-asym [] [] h = absurd (cc h)
text_less-asym [] (d ∷ b) h = refl
text_less-asym (c ∷ a) [] h = absurd (cc h)
text_less-asym (c ∷ a) (d ∷ b) h = ground (arith, h, text_less-asym a b)

pub text_less-total : (a b : Text) → a ≢ b → text_less a b ≡ false → text_less b a ≡ true
unfolding text_less
text_less-total [] [] differ h = absurd (differ refl)
text_less-total [] (d ∷ b) differ h = absurd (cc h)
text_less-total (c ∷ a) [] differ h = refl
text_less-total (c ∷ a) (d ∷ b) differ h =
    let tails : c ≡ d → a ≢ b = (λ e f. differ (cc (e, f))) in
    ground (arith, h, tails, text_less-total a b)

-- What a text comes before comes after all that the text does not come before.
pub text_less-between :
    (z y x : Text) → text_less z x ≡ true → text_less z y ≡ false → text_less y x ≡ true
unfolding text_less
text_less-between [] [] x h k = h
text_less-between [] (e ∷ y) x h k = absurd (cc k)
text_less-between (c ∷ z) y [] h k = absurd (cc h)
text_less-between (c ∷ z) [] (d ∷ x) h k = refl
text_less-between (c ∷ z) (e ∷ y) (d ∷ x) h k = ground (arith, h, k, text_less-between z y x)

module _ {ℓ} {A : Type ℓ} (less : A → A → Bool) where
  unfoldable pub place_before : A → List A → List A
  place_before x [] = x ∷ []
  place_before x (y ∷ ys) =
      let rest = place_before x ys in if less y x then y ∷ rest else x ∷ (y ∷ ys)

  unfoldable pub sort_by : List A → List A
  unfolding place_before
  sort_by [] = []
  sort_by (x ∷ xs) = place_before x (sort_by xs)

-- `sort()` of strings
unfoldable pub sort_texts : List Text → List Text
unfolding sort_by text_less
sort_texts = sort_by text_less
