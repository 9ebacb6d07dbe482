-- ===== src/Sync/Address/Canonical.antt =====
-- The address of a snapshot and the order in which its files were put in.
use mathlib.Core.List.{Permᴰ}
use mathlib.Core.Path.{subst}
use arxhub.Base.{
  All, Bool-cases, Text, [], ap, arith, inl, inr, map, place_before, refl, sort_by, sym, text_less,
  text_less-asym, text_less-between, text_less-total, Option, ◌∙◌, ◌∷◌, ◌≡◌, ◌≢◌,
}
use arxhub.Base.Dict.{Dict}
use arxhub.Budget.Json.{Json, object}
use arxhub.Sync.Address.{
  file_json, files_json, key_less, snapshot_hash, sort_by_key, stable_stringify, stringify_members,
}
use arxhub.Sync.Snapshot.{Files, SnapshotFile}

module _ {V : Type 0} where
  -- No key of a dictionary comes twice.
  abbrev pub IsDistinct : Dict V → Type 0
  IsDistinct [] = Unit
  IsDistinct (x ∷ xs) = All (λ (y : Text × V). x.0 ≢ y.0) xs × IsDistinct xs

  All-Perm : (P : Text × V → Type 0) {xs ys : Dict V} → Permᴰ xs ys → All P xs → All P ys
  All-Perm P Permᴰ.nil all = tt
  All-Perm P (Permᴰ.cons e perm) all = (subst P e all.0, All-Perm P perm all.1)
  All-Perm P (Permᴰ.swap e f) all = (subst P f all.1.0, (subst P e all.0, all.1.1))
  All-Perm P (Permᴰ.trans first_half second_half) all =
      All-Perm P second_half (All-Perm P first_half all)

  IsDistinct-Perm : {xs ys : Dict V} → Permᴰ xs ys → IsDistinct xs → IsDistinct ys
  IsDistinct-Perm Permᴰ.nil apart = tt
  IsDistinct-Perm (Permᴰ.cons {a = a} {b = b} {l₂ = l} e perm) (away, apart) = (
    subst (λ x. All (λ (y : Text × V). x.0 ≢ y.0) l) e (All-Perm (λ y. a.0 ≢ y.0) perm away),
    IsDistinct-Perm perm apart,
  )
  IsDistinct-Perm (Permᴰ.swap {l = l} e f) (away, (later, apart)) = (
    (
      (λ same. away.0 (ap (λ x. x.0) e ∙ sym same ∙ sym (ap (λ x. x.0) f))),
      subst (λ x. All (λ (y : Text × V). x.0 ≢ y.0) l) f later,
    ),
    (subst (λ x. All (λ (y : Text × V). x.0 ≢ y.0) l) e away.1, apart),
  )
  IsDistinct-Perm (Permᴰ.trans first_half second_half) apart =
      IsDistinct-Perm second_half (IsDistinct-Perm first_half apart)

abbrev place : Text × Text → Dict Text → Dict Text
place = place_before key_less

place_commute :
    (x y : Text × Text) (l : Dict Text) → x.0 ≢ y.0 → place x (place y l) ≡ place y (place x l)
unfolding place_before
place_commute x y [] differ = elim (Bool-cases (text_less y.0 x.0)) [
  | inl before ↦ rw (before, text_less-asym y.0 x.0 before) refl
  | inr after ↦ rw (after, text_less-total y.0 x.0 (λ e. differ (sym e)) after) refl
]
place_commute x y (z ∷ l) differ =
    let rest = place_commute x y l differ in
    let xy = text_less-total x.0 y.0 differ in
    let yx = text_less-total y.0 x.0 (λ e. differ (sym e)) in
    ground (
      arith,
      rest,
      xy,
      yx,
      text_less-asym x.0 y.0,
      text_less-asym y.0 x.0,
      text_less-between z.0 y.0 x.0,
      text_less-between z.0 x.0 y.0,
    )

module _ {V : Type 0} (put : V → Text) where
  abbrev put_values : Dict V → Dict Text
  put_values members = map (λ (m : Text × V). (m.0, put m.1)) members

  sort_by_key-Perm :
      {xs ys : Dict V}
      → Permᴰ xs ys
      → IsDistinct xs
      → sort_by_key (put_values xs) ≡ sort_by_key (put_values ys)
  unfolding sort_by_key sort_by
  sort_by_key-Perm Permᴰ.nil apart = refl
  sort_by_key-Perm (Permᴰ.cons {b = b} {l₁ = l} e perm) apart =
      ap (λ (x : Text × V). place (x.0, put x.1) (sort_by_key (put_values l))) e
      ∙ ap (place (b.0, put b.1)) (sort_by_key-Perm perm apart.1)
  sort_by_key-Perm (Permᴰ.swap {a = a} {b = b} {a' = a'} {l = l} e f) apart =
      let sorted = sort_by_key (put_values l) in
      place_commute (a.0, put a.1) (b.0, put b.1) sorted apart.0.0
      ∙ ap (λ (x : Text × V). place (x.0, put x.1) (place (a.0, put a.1) sorted)) f
      ∙ ap (λ (x : Text × V). place (a'.0, put a'.1) (place (x.0, put x.1) sorted)) e
  sort_by_key-Perm (Permᴰ.trans first_half second_half) apart =
      sort_by_key-Perm first_half apart
      ∙ sort_by_key-Perm second_half (IsDistinct-Perm first_half apart)

module _ (print_json : Json → Text) where
  stringify_members-files :
      (files : Files)
      → stringify_members print_json (files_json files)
        ≡ put_values (λ (f : SnapshotFile). stable_stringify print_json (file_json f)) files
  unfolding stringify_members
  stringify_members-files [] = refl
  stringify_members-files ((path, file) ∷ files) =
      ap (λ l. (path, stable_stringify print_json (file_json file)) ∷ l)
        (stringify_members-files files)

  files-Perm :
      (files other : Files)
      → Permᴰ files other
      → IsDistinct files
      → stable_stringify print_json (object (files_json files))
        ≡ stable_stringify print_json (object (files_json other))
  unfolding stable_stringify
  files-Perm files other perm apart =
      rw
        (
          stringify_members-files files,
          stringify_members-files other,
          sort_by_key-Perm (λ (f : SnapshotFile). stable_stringify print_json (file_json f)) perm
              apart,
        )
        refl

-- Manifests that list the same files, each path once, in any two orders have one address, with one parent.
pub snapshot_hash-Perm :
    (print_json : Json → Text) (sha256 : Text → Text) (parent : Option Text) (files other : Files)
    → IsDistinct files
    → Permᴰ files other
    → snapshot_hash print_json sha256 parent files ≡ snapshot_hash print_json sha256 parent other
unfolding snapshot_hash
snapshot_hash-Perm print_json sha256 parent files other apart perm =
    let same = files-Perm print_json files other perm apart in rw same refl
