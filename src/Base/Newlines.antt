-- ===== src/Base/Newlines.antt =====
-- Lines of a text, where 10 is the newline.
use Prim.Native.Nat.{ℕ}
use mathlib.Core.Path.{◌≡◌, refl, ap, ◌∙◌}
use mathlib.Core.Logic.{inl, inr}
use mathlib.Core.List.{List, [], ◌∷◌, ◌++◌, append_assoc}
use mathlib.Core.Bool.{true, false, not}
use native.Mathlib.Omega.{arith}
use arxhub.Base.Lists.{All, all}
use arxhub.Base.Tests.{◌==◌, ==_iff, Bool-cases, if◌then◌else◌}
use arxhub.Base.Texts.{Text}

-- `split('\n')`
unfoldable pub split_newlines : Text → List Text
split_newlines [] = [] ∷ []
split_newlines (c ∷ text) =
    let rest = split_newlines text in
    if c == 10
    then [] ∷ rest
    else elim rest [ [] ↦ (c ∷ []) ∷ [] | line ∷ lines ↦ (c ∷ line) ∷ lines ]

-- `slice(0, -1)`
unfoldable pub but_last : Text → Text
but_last [] = []
but_last (c ∷ []) = []
but_last (c ∷ (d ∷ text)) = c ∷ but_last (d ∷ text)

-- `join('\n')`
unfoldable pub join_lines : List Text → Text
join_lines [] = []
join_lines (line ∷ []) = line
join_lines (line ∷ (more ∷ lines)) = line ++ (10 ∷ join_lines (more ∷ lines))

pub split_newlines-cons :
    (text : Text) → (line : Text) × (lines : List Text) × (split_newlines text ≡ line ∷ lines)
unfolding split_newlines
split_newlines-cons [] = ([], [], refl)
split_newlines-cons (c ∷ text) =
    let (line, lines, is) = split_newlines-cons text in
    elim (Bool-cases (c == 10)) [
      | inl newline ↦ ([], split_newlines text, rw (newline, split_newlines) refl)
      | inr other ↦ (c ∷ line, lines, rw (other, is, split_newlines) refl)
    ]

join_lines-cons :
    (c : ℕ) (line : Text) (lines : List Text)
    → join_lines ((c ∷ line) ∷ lines) ≡ c ∷ join_lines (line ∷ lines)
unfolding join_lines
join_lines-cons c line [] = refl
join_lines-cons c line (more ∷ lines) = refl

pub join_lines-split_newlines : (text : Text) → join_lines (split_newlines text) ≡ text
unfolding split_newlines join_lines
join_lines-split_newlines [] = refl
join_lines-split_newlines (c ∷ text) =
    let (line, lines, is) = split_newlines-cons text in
    let rest = rw is at (join_lines-split_newlines text) in
    elim (Bool-cases (c == 10)) [
      | inl newline ↦
          let ten = (==_iff c 10).0 newline in
          rw (newline, is, split_newlines) (rw ten (ap (λ (t : Text). 10 ∷ t) rest))
      | inr other ↦
          rw (other, is, split_newlines)
            (join_lines-cons c line lines ∙ ap (λ (t : Text). c ∷ t) rest)
    ]

-- A line that ends where a newline stands.
pub split_newlines-append :
    (line text : Text)
    → all (λ c. not (c == 10)) line ≡ true
    → split_newlines (line ++ (10 ∷ text)) ≡ line ∷ split_newlines text
unfolding split_newlines
split_newlines-append [] text clean = refl
split_newlines-append (c ∷ line) text clean =
    let other : (c == 10) ≡ false = ground (arith, clean) in
    rw (split_newlines-append line text (ground (arith, clean)), other, split_newlines) refl

pub split_newlines-join_lines :
    (line : Text) (lines : List Text)
    → All (λ (l : Text). all (λ c. not (c == 10)) l ≡ true) (line ∷ lines)
    → split_newlines (join_lines (line ∷ lines) ++ (10 ∷ [])) ≡ (line ∷ lines) ++ ([] ∷ [])
unfolding join_lines split_newlines
split_newlines-join_lines line [] clean = split_newlines-append line [] clean.0
split_newlines-join_lines line (more ∷ lines) clean =
    ap split_newlines (append_assoc line (10 ∷ join_lines (more ∷ lines)) (10 ∷ []))
    ∙ split_newlines-append line (join_lines (more ∷ lines) ++ (10 ∷ [])) clean.0
    ∙ ap (λ rest. line ∷ rest) (split_newlines-join_lines more lines clean.1)
