-- ===== src/Sync/Ancestry.antt =====
-- The walks of packages/sync/src/repo.ts along parent links. The snapshot store is a map from an
-- address to the snapshot that is written there; a read fails with `FileNotFound` or not at all.
mod Walk
pub mod Descends
use arxhub.Base.{
  Bool, List, Option, Text, [], contains, false, if◌then◌else◌, length, none, some, suc, text_eq,
  true, zero, ℕ, ◌∷◌,
}
use arxhub.Base.Dict.{Dict, insert, lookup}
use arxhub.Sync.Snapshot.{Snapshot, same_text}

abbrev pub Snapshots : Type 0
Snapshots = Dict Snapshot

-- The loop of `ancestry`: the snapshots that it yields. The visited set bounds the rounds by the size
-- of the store.
unfoldable pub walk : ℕ → Snapshots → List Text → Option Text → List Snapshot
walk zero store visited current = []
walk (suc n) store visited none = []
walk (suc n) store visited (some current) = elim (contains visited current) [
  | true ↦ []
  | false ↦ elim (lookup current store) [
    | none ↦ []
    | some snapshot ↦ snapshot ∷ walk n store (current ∷ visited) snapshot.parent
  ]
]

abbrev pub walk_fuel : Snapshots → ℕ
walk_fuel store = suc (length store)

unfoldable pub ancestry : Snapshots → Text → List Snapshot
unfolding walk
ancestry store head = walk (walk_fuel store) store [] (some head)

-- The test of `isAncestor` on what the walk yields.
unfoldable pub reaches : Text → List Snapshot → Bool
unfolding same_text
reaches ancestor [] = false
reaches ancestor (s ∷ l) =
    let rest = reaches ancestor l in
    if text_eq s.hash ancestor
    then true
    else (if same_text s.parent (some ancestor) then true else rest)

unfoldable pub is_ancestor : Snapshots → Text → Text → Bool
unfolding reaches ancestry
is_ancestor store ancestor head =
    if text_eq ancestor head then true else reaches ancestor (ancestry store head)

-- `localAncestors`
unfoldable pub by_hash : List Snapshot → Snapshots → Snapshots
by_hash [] d = d
by_hash (s ∷ l) d = by_hash l (insert s.hash s d)

unfoldable pub first_known : Snapshots → List Snapshot → Option Snapshot
first_known known [] = none
first_known known (s ∷ l) =
    let rest = first_known known l in
    elim (lookup s.hash known) [ none ↦ rest | some base ↦ some base ]

unfoldable pub find_base_snapshot : Snapshots → Text → Text → Option Snapshot
unfolding first_known by_hash ancestry
find_base_snapshot store local_head remote_head =
    first_known (by_hash (ancestry store local_head) []) (ancestry store remote_head)
