-- ===== src/Base/Texts.antt =====
-- JavaScript strings, as lists of code units, and their equality. A byte string is such a list too.
use Prim.Native.Nat.{ℕ}
use Prim.Native.Char.{code}
use Prim.Native.String.{String}
use mathlib.Core.Path.{◌≡◌, refl}
use mathlib.Core.Logic.{◌↔◌}
use mathlib.Core.Bool.{Bool, true, false, ◌&&◌}
use mathlib.Core.List.{List, [], ◌∷◌, ◌++◌}
use native.Mathlib.Omega.{arith}
use arxhub.Base.Tests.{◌==◌, if◌then◌else◌}

abbrev pub Text : Type 0
Text = List ℕ

abbrev pub Bytes : Type 0
Bytes = List ℕ

-- The code units of a literal. `String` has its own `[]` and `∷`.
abbrev pub codes : String → Text
codes String.[] = []
codes (String.◌∷◌ c s) = code c ∷ codes s

unfoldable pub text_eq : Text → Text → Bool
text_eq [] [] = true
text_eq (a ∷ s) (b ∷ t) = (a == b) && text_eq s t
text_eq _ _ = false

pub text_eq_iff : (s t : Text) → (text_eq s t ≡ true) ↔ (s ≡ t)
unfolding text_eq
text_eq_iff [] [] = (λ _. refl, λ _. refl)
text_eq_iff [] (b ∷ t) = (λ h. cc, λ h. cc)
text_eq_iff (a ∷ s) [] = (λ h. cc, λ h. cc)
text_eq_iff (a ∷ s) (b ∷ t) =
    (λ h. ground (arith, text_eq_iff s t), λ h. ground (arith, text_eq_iff s t))

pub text_eq_refl : (s : Text) → text_eq s s ≡ true
text_eq_refl s = (text_eq_iff s s).1 refl

-- `includes` of an array of strings
unfoldable pub contains : List Text → Text → Bool
contains [] t = false
contains (s ∷ l) t = let rest = contains l t in if text_eq s t then true else rest

-- `startsWith`
unfoldable pub starts_with : Text → Text → Bool
starts_with t [] = true
starts_with [] (p ∷ prefix) = false
starts_with (c ∷ t) (p ∷ prefix) = (c == p) && starts_with t prefix

unfoldable pub without : Text → List Text → List Text
without p [] = []
without p (q ∷ qs) = let rest = without p qs in if text_eq q p then rest else q ∷ rest

-- `new Set([...])`: each path once, at its first place.
unfoldable pub distinct : List Text → List Text
unfolding without
distinct [] = []
distinct (p ∷ ps) = p ∷ without p (distinct ps)

pub contains-without :
    (q p : Text) (paths : List Text)
    → contains (without q paths) p ≡ (if text_eq q p then false else contains paths p)
unfolding without contains
contains-without q p [] = ground arith
contains-without q p (x ∷ paths) =
    ground (arith, contains-without q p paths, text_eq_iff x q, text_eq_iff x p, text_eq_iff q p)

pub contains-distinct :
    (paths : List Text) (p : Text) → contains (distinct paths) p ≡ contains paths p
unfolding distinct contains
contains-distinct [] p = refl
contains-distinct (q ∷ paths) p =
    ground (arith, contains-without q p (distinct paths), contains-distinct paths p)

pub contains-append :
    (xs ys : List Text) (p : Text)
    → contains (xs ++ ys) p ≡ (if contains xs p then true else contains ys p)
unfolding contains
contains-append [] ys p = refl
contains-append (x ∷ xs) ys p = ground (arith, contains-append xs ys p)
