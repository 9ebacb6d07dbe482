-- ===== src/Sync/Repo/Conflict/Names.antt =====
-- Names of the conflict copies of one file.
use arxhub.Base.{
  Text, [], append-cancel_left, append-cancel_right, arith, codes, decimal-injective, refl, take, ℕ,
  ◌++◌, ◌<◌, ◌∷◌, ◌≡◌, ◌≢◌,
}
use arxhub.Sync.Repo.Conflict.{PathParts, conflict_name, conflict_path, name_suffix, split_pathname}

name_suffix-injective : (n m : ℕ) → 0 < n → n < m → name_suffix n ≢ name_suffix m
unfolding name_suffix
name_suffix-injective n m above lt e = ground (arith, decimal-injective n m)

conflict_name-injective :
    (parts : PathParts) (hash : Text) (n m : ℕ)
    → 0 < n
    → n < m
    → conflict_name parts hash n ≢ conflict_name parts hash m
unfolding conflict_name
conflict_name-injective parts hash n m above lt e = go parts.ext refl
  where
    stem : Text
    stem = codes "conflict-" ++ (take 8 hash ++ (b'-' ∷ parts.name))

    go : (ext : Text) → parts.ext ≡ ext → ⊥
    go [] bare =
        name_suffix-injective n m above lt
          (append-cancel_left stem (name_suffix n) (name_suffix m) (rw bare at e))
    go (x ∷ ext) there = name_suffix-injective n m above lt (
        append-cancel_left stem (name_suffix n) (name_suffix m) (
          append-cancel_right (stem ++ name_suffix n) (stem ++ name_suffix m) (b'.' ∷ (x ∷ ext))
            (rw there at e)))

-- A `join` that keeps names apart keeps the names of a file's conflict copies apart.
pub conflict_path-injective :
    (join : Text → Text → Text)
    → ((path a b : Text) → join path a ≡ join path b → a ≡ b)
    → (pathname hash : Text) (n m : ℕ) → 0 < n
    → n < m
    → conflict_path join pathname hash n ≢ conflict_path join pathname hash m
unfolding conflict_path
conflict_path-injective join apart pathname hash n m above lt e =
    let parts = split_pathname pathname in
    conflict_name-injective parts hash n m above lt (apart parts.path _ _ e)
