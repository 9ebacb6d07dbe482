-- ===== src/Tests/TextMerges.antt =====
-- A merge by whole files in place of diff3: one region, of the side that differs from the base.
use arxhub.Base.{
  Bool, List, Text, [], codes, false, if◌then◌else◌, refl, some, text_eq, true, ◌&&◌, ◌∷◌, ◌≡◌,
}
use arxhub.Sync.TextMerge.{Region, conflicting, merge_text, merged_lines, same_bool}

abbrev same_lines : List Text → List Text → Bool
same_lines [] [] = true
same_lines (a ∷ xs) (b ∷ ys) = text_eq a b && same_lines xs ys
same_lines _ _ = false

by_file : List Text → List Text → List Text → List Region
by_file a base b =
    if same_lines a base
    then merged_lines b ∷ []
    else (if same_lines b base then merged_lines a ∷ [] else conflicting a base b ∷ [])

both_edited :
    merge_text by_file (some (codes "a\n")) (codes "b\n") (codes "c")
    ≡ (codes "<<<<<<< local\nb\n=======\nc\n>>>>>>> remote", 1)
unfolding merge_text by_file same_bool text_eq
both_edited = refl
