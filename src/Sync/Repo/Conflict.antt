-- ===== src/Sync/Repo/Conflict.antt =====
-- The name of a conflict copy: packages/stdlib/src/fs/split-pathname.ts, and `nameAt` of
-- `writeConflictFile`.
pub mod Names
use arxhub.Base.{
  Bool, Option, Text, [], codes, decimal, false, if◌then◌else◌, leb, none, not, some, take, ℕ, ◌&&◌,
  ◌++◌, ◌==◌, ◌||◌, ◌∷◌,
}

-- What stands before and after the last `c` of a text.
unfoldable pub split_last : ℕ → Text → Option (Text × Text)
split_last c [] = none
split_last c (x ∷ text) = elim (split_last c text) [
  | some (before, after) ↦ some (x ∷ before, after)
  | none ↦ if x == c then some ([], text) else none
]

pub record PathParts : Type 0 where
  pub path : Text
  pub name : Text
  pub ext : Text

-- `includes` of a character
unfoldable pub has_char : ℕ → Text → Bool
has_char c [] = false
has_char c (x ∷ text) = (x == c) || has_char c text

-- A name that begins with a dot and has no other.
unfoldable pub is_dotfile : Text → Bool
unfolding has_char
is_dotfile [] = false
is_dotfile (x ∷ rest) = (x == b'.') && not (has_char b'.' rest)

unfoldable pub split_filename : Text → Text → PathParts
unfolding is_dotfile split_last
split_filename path filename =
    if is_dotfile filename
    then record { path = path; name = filename; ext = [] }
    else elim (split_last b'.' filename) [
      | none ↦ record { path = path; name = filename; ext = [] }
      | some (name, ext) ↦ record { path = path; name = name; ext = ext }
    ]

unfoldable pub split_pathname : Text → PathParts
unfolding split_filename split_last
split_pathname pathname = elim (split_last b'/' pathname) [
  | none ↦ split_filename [] pathname
  | some (path, filename) ↦ split_filename path filename
]

-- No suffix for the first name, and `-2`, `-3`, … for those that follow.
unfoldable pub name_suffix : ℕ → Text
unfolding decimal
name_suffix n = if leb n 1 then [] else b'-' ∷ decimal n

unfoldable pub conflict_name : PathParts → Text → ℕ → Text
unfolding name_suffix
conflict_name parts hash n =
    let stem = codes "conflict-" ++ (take 8 hash ++ (b'-' ∷ parts.name)) in
    elim parts.ext [
      | [] ↦ stem ++ name_suffix n
      | x ∷ ext ↦ (stem ++ name_suffix n) ++ (b'.' ∷ (x ∷ ext))
    ]

-- `join(path, nameAt(suffix))`, where `join` is the path library's.
unfoldable pub conflict_path : (Text → Text → Text) → Text → Text → ℕ → Text
unfolding split_pathname conflict_name
conflict_path join pathname hash n =
    let parts = split_pathname pathname in join parts.path (conflict_name parts hash n)
