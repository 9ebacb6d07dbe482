-- ===== src/Tests/Chains.antt =====
-- A chain of three snapshots whose root is missing.
use arxhub.Base.{
  Option, Text, [], arith, codes, contains, refl, some, text_eq, text_eq_iff, true, ◌↔◌, ◌∷◌, ◌≡◌,
}
use arxhub.Base.Dict.{lookup}
use arxhub.Sync.Ancestry.{Snapshots, is_ancestor, walk}
use arxhub.Sync.Ancestry.Descends.{Descends, IsKeyed, is_ancestor_iff}
use arxhub.Sync.Snapshot.{Snapshot}

abbrev snapshot_at : Text → Option Text → Snapshot
snapshot_at hash parent = record { hash = hash; parent = parent; timestamp = 0; files = [] }

abbrev chain : Snapshots
chain =
    (codes "c", snapshot_at (codes "c") (some (codes "b")))
    ∷ (codes "b", snapshot_at (codes "b") (some (codes "a")))
    ∷ []

chain-IsKeyed : IsKeyed chain
unfolding lookup
chain-IsKeyed k s h = ground (arith, text_eq_iff (codes "c") k, text_eq_iff (codes "b") k)

missing_root : is_ancestor chain (codes "a") (codes "c") ≡ true
unfolding is_ancestor walk text_eq contains lookup
missing_root = refl

is_ancestor_iff_example :
    (is_ancestor chain (codes "a") (codes "c") ≡ true) ↔ Descends chain (codes "a") (codes "c")
is_ancestor_iff_example = is_ancestor_iff chain (codes "a") (codes "c") chain-IsKeyed
