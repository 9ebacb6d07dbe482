-- ===== src/Sync/Remote.antt =====
-- packages/sync/src/remote/vfs-sync-remote.ts, over the compare-and-swap of
-- packages/vfs/src/ops/compare-and-swap.ts: the remote that keeps its objects in files. A call under the
-- lock of a path is one step. The content of the head file is a text.
pub mod Heads
pub mod Truth
use arxhub.Base.{
  Bool, Bytes, List, Option, Result, Text, [], err, false, if◌then◌else◌, none, ok, some, trim,
  true, validation, ◌∷◌,
}
use arxhub.Base.Dict.{Dict, insert, is_some, lookup}
use arxhub.Sync.Frame.{is_object_hash}
use arxhub.Sync.Snapshot.{same_text}

pub record RemoteStore : Type 0 where
  pub head : Option Text
  pub objects : Dict Bytes

-- `getHead`
unfoldable pub get_head : RemoteStore → Option Text
unfolding trim
get_head store = elim store.head [
  | none ↦ none
  | some text ↦ elim (trim text) [ [] ↦ none | c ∷ more ↦ some (c ∷ more) ]
]

-- The fallback of `compareAndSwap`, on what the file holds: the answer, and what it holds afterwards.
unfoldable pub compare_and_swap : Option Text → Text → Option Text → Bool × Option Text
unfolding same_text
compare_and_swap expected successor current =
    if same_text current expected then (true, some successor) else (false, current)

-- `setHead`
unfoldable pub set_head : Option Text → Text → RemoteStore → Result Bool × RemoteStore
unfolding compare_and_swap is_object_hash
set_head expected successor store =
    if is_object_hash successor
    then (let (done, head) = compare_and_swap expected successor store.head in
        (ok done, record store { head = head }))
    else (err validation, store)

-- `hasObjects`: the members of the set.
unfoldable pub has_objects : List Text → RemoteStore → Result (List Text)
unfolding is_object_hash
has_objects [] store = ok []
has_objects (hash ∷ hashes) store =
    let rest = has_objects hashes store in
    if is_object_hash hash
    then elim rest [
      | err e ↦ err e
      | ok has ↦ ok (if is_some (lookup hash store.objects) then hash ∷ has else has)
    ]
    else err validation

-- `getObjects`
unfoldable pub get_objects : List Text → RemoteStore → Dict Bytes → Result (Dict Bytes)
unfolding is_object_hash
get_objects [] store found = ok found
get_objects (hash ∷ hashes) store found =
    let missed = get_objects hashes store found in
    if is_object_hash hash
    then elim (lookup hash store.objects) [
      | none ↦ missed
      | some bytes ↦ get_objects hashes store (insert hash bytes found)
    ]
    else err validation

-- `putObjects`: what was written before a bad hash stays.
unfoldable pub put_objects : Dict Bytes → RemoteStore → Result (Unit {0}) × RemoteStore
unfolding is_object_hash
put_objects [] store = (ok tt, store)
put_objects ((hash, bytes) ∷ objects) store =
    let rest = put_objects objects (record store { objects = insert hash bytes store.objects }) in
    if is_object_hash hash then rest else (err validation, store)
