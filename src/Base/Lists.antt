-- ===== src/Base/Lists.antt =====
-- Lists measured by native numbers, under the library's names.
use Prim.Native.Nat.{ℕ, zero, suc, ◌+◌, ◌-◌, ◌≤◌, min}
use mathlib.Core.Path.{◌≡◌, refl, ap}
use mathlib.Core.Bool.{Bool, ◌&&◌, true}
use mathlib.Core.List.{List, [], ◌∷◌, ◌++◌}
use native.Mathlib.Omega.{arith}

module _ {ℓ} {A : Type ℓ} where
  abbrev pub length : List A → ℕ
  length [] = 0
  length (x ∷ xs) = suc (length xs)

  abbrev pub take : ℕ → List A → List A
  take zero xs = []
  take (suc n) [] = []
  take (suc n) (x ∷ xs) = x ∷ take n xs

  abbrev pub drop : ℕ → List A → List A
  drop zero xs = xs
  drop (suc n) [] = []
  drop (suc n) (x ∷ xs) = drop n xs

  -- `Array.prototype.every`
  abbrev pub all : (A → Bool) → List A → Bool
  all p [] = true
  all p (x ∷ xs) = p x && all p xs

  abbrev pub All {κ} : (A → Type κ) → List A → Type κ
  All P [] = Unit
  All P (x ∷ xs) = P x × All P xs

module _ {ℓ} {A : Type ℓ} where
  pub length-append : (xs ys : List A) → length (xs ++ ys) ≡ length xs + length ys
  length-append [] ys = omega arith
  length-append (x ∷ xs) ys = omega (arith, length-append xs ys)

  pub length-take : (n : ℕ) (xs : List A) → length (take n xs) ≡ min n (length xs)
  length-take zero xs = omega arith
  length-take (suc n) [] = omega arith
  length-take (suc n) (x ∷ xs) = omega (arith, length-take n xs)

  pub length-drop : (n : ℕ) (xs : List A) → length (drop n xs) ≡ length xs - n
  length-drop zero xs = omega arith
  length-drop (suc n) [] = omega arith
  length-drop (suc n) (x ∷ xs) = omega (arith, length-drop n xs)

  pub take-append-drop : (n : ℕ) (xs : List A) → take n xs ++ drop n xs ≡ xs
  take-append-drop zero xs = refl
  take-append-drop (suc n) [] = refl
  take-append-drop (suc n) (x ∷ xs) = rw (take-append-drop n xs)

  pub take-append : (n : ℕ) (xs ys : List A) → length xs ≡ n → take n (xs ++ ys) ≡ xs
  take-append zero [] ys e = refl
  take-append zero (x ∷ xs) ys e = absurd (omega arith)
  take-append (suc n) [] ys e = absurd (omega arith)
  take-append (suc n) (x ∷ xs) ys e = ap (λ t. x ∷ t) (take-append n xs ys (omega arith))

  pub drop-append : (n : ℕ) (xs ys : List A) → length xs ≡ n → drop n (xs ++ ys) ≡ ys
  drop-append zero [] ys e = refl
  drop-append zero (x ∷ xs) ys e = absurd (omega arith)
  drop-append (suc n) [] ys e = absurd (omega arith)
  drop-append (suc n) (x ∷ xs) ys e = drop-append n xs ys (omega arith)

  pub take-append_general :
      (n : ℕ) (xs ys : List A) → take n (xs ++ ys) ≡ take n xs ++ take (n - length xs) ys
  take-append_general zero [] ys = refl
  take-append_general zero (x ∷ xs) ys =
      let none_left : 0 - suc (length xs) ≡ 0 = omega arith in rw none_left
  take-append_general (suc n) [] ys = let all_left : suc n - 0 ≡ suc n = omega arith in rw all_left
  take-append_general (suc n) (x ∷ xs) ys =
      let cut : suc n - suc (length xs) ≡ n - length xs = omega arith in
      rw (take-append_general n xs ys, cut)

  pub drop-append_general :
      (n : ℕ) (xs ys : List A) → drop n (xs ++ ys) ≡ drop n xs ++ drop (n - length xs) ys
  drop-append_general zero [] ys = refl
  drop-append_general zero (x ∷ xs) ys =
      let none_left : 0 - suc (length xs) ≡ 0 = omega arith in rw none_left
  drop-append_general (suc n) [] ys = let all_left : suc n - 0 ≡ suc n = omega arith in rw all_left
  drop-append_general (suc n) (x ∷ xs) ys =
      let cut : suc n - suc (length xs) ≡ n - length xs = omega arith in
      rw (drop-append_general n xs ys, cut)

  pub take_long : (n : ℕ) (xs : List A) → length xs ≤ n → take n xs ≡ xs
  take_long zero [] le = refl
  take_long zero (x ∷ xs) le = absurd (omega arith)
  take_long (suc n) [] le = refl
  take_long (suc n) (x ∷ xs) le = ap (λ t. x ∷ t) (take_long n xs (omega arith))

  pub drop_long : (n : ℕ) (xs : List A) → length xs ≤ n → drop n xs ≡ []
  drop_long zero [] le = refl
  drop_long zero (x ∷ xs) le = absurd (omega arith)
  drop_long (suc n) [] le = refl
  drop_long (suc n) (x ∷ xs) le = drop_long n xs (omega arith)

  -- `slice`, for a start before the end
  abbrev pub slice : ℕ → ℕ → List A → List A
  slice start end xs = take (end - start) (drop start xs)

  pub slice-append :
      (s e : ℕ) (xs ys : List A)
      → s ≤ e
      → slice s e (xs ++ ys) ≡ slice s e xs ++ slice (s - length xs) (e - length xs) ys
  slice-append s e xs ys le =
      let cut : (e - s) - length (drop s xs) ≡ (e - length xs) - (s - length xs) =
        omega (arith, length-drop s xs) in
      rw (drop-append_general s xs ys, take-append_general (e - s) (drop s xs), cut)

  pub slice_past : (s e : ℕ) (xs : List A) → length xs ≤ s → slice s e xs ≡ []
  slice_past s e xs le = rw (drop_long s xs le) (take_long (e - s) [] (omega arith))

  pub take-min : (n : ℕ) (xs : List A) → take (min (length xs) n) xs ≡ take n xs
  take-min zero xs = let cut : min (length xs) 0 ≡ 0 = omega arith in rw cut
  take-min (suc n) [] = take_long (min 0 (suc n)) [] (omega arith)
  take-min (suc n) (x ∷ xs) =
      let cut : min (suc (length xs)) (suc n) ≡ suc (min (length xs) n) = omega arith in
      rw cut (ap (λ t. x ∷ t) (take-min n xs))

  pub slice-min : (s e : ℕ) (xs : List A) → slice s (min (length xs) e) xs ≡ slice s e xs
  slice-min s e xs =
      let cut : min (length xs) e - s ≡ min (length (drop s xs)) (e - s) =
        omega (arith, length-drop s xs) in
      rw cut (take-min (e - s) (drop s xs))

  pub append-cancel_left : (xs ys zs : List A) → xs ++ ys ≡ xs ++ zs → ys ≡ zs
  append-cancel_left xs ys zs e = cc (
    ap (drop (length xs)) e,
    drop-append (length xs) xs ys refl,
    drop-append (length xs) xs zs refl,
  )

  pub append-cancel_right : (xs ys zs : List A) → xs ++ zs ≡ ys ++ zs → xs ≡ ys
  append-cancel_right xs ys zs e =
      let same : length xs ≡ length ys =
        omega (arith, ap length e, length-append xs zs, length-append ys zs) in
      cc (
        ap (take (length xs)) e,
        take-append (length xs) xs zs refl,
        take-append (length xs) ys zs (omega arith),
      )
