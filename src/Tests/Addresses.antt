-- ===== src/Tests/Addresses.antt =====
-- The address of a manifest of two files. The hash of a text is the text here.
use mathlib.Core.List.{Permᴰ}
use arxhub.Base.{ap, arith, length, Text, codes, none, refl, some, [], ◌++◌, ◌∷◌, ◌≡◌}
use arxhub.Budget.Json.{Json, null, string}
use arxhub.Sync.Address.{snapshot_hash, stable_stringify}
use arxhub.Sync.Address.Canonical.{IsDistinct, snapshot_hash-Perm}
use arxhub.Sync.Snapshot.{Files, SnapshotFile}

abbrev quoted : Json → Text
quoted (string text) = b'"' ∷ (text ++ codes "\"")
quoted null = codes "null"
quoted value = codes "1"

abbrev entry : Text → SnapshotFile
entry path = record {
  file_id = none;
  identity = none;
  history_source = none;
  hash = codes "h";
  size = some 1;
  pathname = path;
  chunks = record { hash = codes "h"; size = some 1 } ∷ [];
}

abbrev forth : Files
forth = (codes "a", entry (codes "a")) ∷ (codes "bb", entry (codes "bb")) ∷ []

abbrev back : Files
back = (codes "bb", entry (codes "bb")) ∷ (codes "a", entry (codes "a")) ∷ []

address_text :
    snapshot_hash quoted (λ text. text) none ((codes "a", entry (codes "a")) ∷ [])
    ≡ codes
        "{\"files\":{\"a\":{\"chunks\":[{\"hash\":\"h\",\"size\":1}],\"hash\":\"h\",\"pathname\":\"a\",\"size\":1}},\"parent\":null}"
unfolding snapshot_hash stable_stringify
address_text = refl

forth-IsDistinct : IsDistinct forth
forth-IsDistinct = ((λ e. omega (arith, ap length e), tt), (tt, tt))

snapshot_hash-Perm_example :
    snapshot_hash quoted (λ text. text) (some (codes "p")) forth
    ≡ snapshot_hash quoted (λ text. text) (some (codes "p")) back
snapshot_hash-Perm_example =
    snapshot_hash-Perm quoted (λ text. text) (some (codes "p")) forth back forth-IsDistinct
      (Permᴰ.swap refl refl)
