-- ===== src/Sync/TextMerge.antt =====
-- packages/sync/src/merge/text-merge.ts: the line-based three-way merge. `diff3Merge` of the library
-- node-diff3 is an argument. A text is a list of code units, and 10 is the newline, 13 the return.
use arxhub.Base.{
  Bool, List, Option, Text, [], but_last, codes, false, if◌then◌else◌, join_lines, none, not, some,
  split_newlines, suc, true, ℕ, ◌&&◌, ◌++◌, ◌==◌, ◌||◌, ◌∷◌,
}

pub record Lines : Type 0 where
  pub lines : List Text
  pub trailing_newline : Bool

-- A region of `diff3Merge`: lines that merged, or the lines of a, of the base and of b.
pub data Region : Type 0 where
  merged_lines : List Text → Region
  conflicting : List Text → List Text → List Text → Region

-- `endsWith('\n')`
unfoldable pub ends_line : Text → Bool
ends_line [] = false
ends_line (c ∷ []) = c == 10
ends_line (c ∷ (d ∷ text)) = ends_line (d ∷ text)

unfoldable pub split_lines : Text → Lines
unfolding ends_line split_newlines but_last
split_lines [] = record { lines = []; trailing_newline = false }
split_lines (c ∷ text) = record {
  lines = split_newlines (if ends_line (c ∷ text) then but_last (c ∷ text) else c ∷ text);
  trailing_newline = ends_line (c ∷ text);
}

-- `includes('\r\n')`
unfoldable pub has_crlf : Text → Bool
has_crlf [] = false
has_crlf (c ∷ []) = false
has_crlf (c ∷ (d ∷ text)) = ((c == 13) && (d == 10)) || has_crlf (d ∷ text)

-- The loop over the regions: the lines it puts out and the conflicts it counts.
unfoldable pub put_regions : Text → List Region → List Text × ℕ
put_regions eol [] = ([], 0)
put_regions eol (merged_lines lines ∷ regions) =
    let (out, conflicts) = put_regions eol regions in (lines ++ out, conflicts)
put_regions eol (conflicting a base b ∷ regions) =
    let (out, conflicts) = put_regions eol regions in
    (
      ((codes "<<<<<<< local" ++ eol) ∷ a)
          ++ (((codes "=======" ++ eol) ∷ b) ++ ((codes ">>>>>>> remote" ++ eol) ∷ out)),
      suc conflicts,
    )

unfoldable pub same_bool : Bool → Bool → Bool
same_bool true b = b
same_bool false b = not b

-- The text of merged lines.
unfoldable pub put_lines : List Text → Bool → Text
unfolding join_lines
put_lines [] trailing_newline = []
put_lines (line ∷ lines) trailing_newline =
    join_lines (line ∷ lines) ++ (if trailing_newline then 10 ∷ [] else [])

abbrev pub or_empty : Option Text → Text
or_empty none = []
or_empty (some text) = text

unfoldable pub merge_text :
    (List Text → List Text → List Text → List Region) → Option Text → Text → Text → Text × ℕ
unfolding split_lines has_crlf put_regions put_lines same_bool
merge_text diff3 base local remote =
    let b = split_lines (or_empty base) in
    let l = split_lines local in
    let r = split_lines remote in
    let eol = (if has_crlf local || has_crlf remote then 13 ∷ [] else []) in
    let (out, conflicts) = put_regions eol (diff3 l.lines b.lines r.lines) in
    let trailing_newline =
      (if same_bool l.trailing_newline b.trailing_newline
        then r.trailing_newline
        else l.trailing_newline) in
    (put_lines out trailing_newline, conflicts)
