-- ===== src/Sync/Address.antt =====
-- packages/sync/src/snapshot-hash.ts over packages/stdlib/src/record/stable-stringify.ts: the address of a
-- snapshot. The hash of a string and `JSON.stringify` are arguments.
pub mod Canonical
use mathlib.Core.Option
use arxhub.Base.{
  Bool, List, Option, Text, [], codes, none, pos, some, sort_by, text_less, ℕ, ◌++◌, ◌∷◌,
}
use arxhub.Base.Dict.{Dict}
use arxhub.Budget.Json.{
  Items, Json, Members, array, integer, item, member, no_items, no_members, null, object, string,
}
use arxhub.Sync.Snapshot.{Files, SnapshotFile, SnapshotFileChunk}

-- A number that is a count.
abbrev whole_number : ℕ → Json
whole_number n = integer (pos n)

-- The members of a field that may be absent, before the others.
abbrev with_field : Text → Option Json → Members → Members
with_field key none members = members
with_field key (some value) members = member key value members

abbrev text_json : Option Text → Option Json
text_json = Option.map string

abbrev size_json : Option ℕ → Option Json
size_json = Option.map whole_number

abbrev chunks_json : List SnapshotFileChunk → Items
chunks_json [] = no_items
chunks_json (c ∷ cs) =
    item
      (object (
        member (codes "hash") (string c.hash)
          (with_field (codes "size") (size_json c.size) no_members)))
      (chunks_json cs)

-- An entry as the value that it is, each field that is there.
abbrev file_json : SnapshotFile → Json
file_json file = object (
    with_field (codes "fileId") (text_json file.file_id) (
      with_field (codes "identity") (text_json file.identity) (
        with_field (codes "historySource") (text_json file.history_source) (
          member (codes "hash") (string file.hash) (
            with_field (codes "size") (size_json file.size) (
              member (codes "pathname") (string file.pathname)
                (member (codes "chunks") (array (chunks_json file.chunks)) no_members)))))))

abbrev files_json : Files → Members
files_json [] = no_members
files_json ((path, file) ∷ files) = member path (file_json file) (files_json files)

abbrev parent_json : Option Text → Json
parent_json none = null
parent_json (some parent) = string parent

-- `join(',')`
abbrev pub joined_by_comma : List Text → Text
joined_by_comma [] = []
joined_by_comma (part ∷ []) = part
joined_by_comma (part ∷ (other ∷ parts)) = part ++ (b',' ∷ joined_by_comma (other ∷ parts))

abbrev pub key_less : Text × Text → Text × Text → Bool
key_less a b = text_less a.0 b.0

-- `sort` of the keys, each with the text of its value.
unfoldable pub sort_by_key : Dict Text → Dict Text
unfolding sort_by text_less
sort_by_key members = sort_by key_less members

module _ (print_json : Json → Text) where
  abbrev pub put_members : Dict Text → List Text
  put_members [] = []
  put_members ((key, text) ∷ members) =
      (print_json (string key) ++ (b':' ∷ text)) ∷ put_members members

  unfoldable mutual
    unfolding sort_by_key

    pub stable_stringify : Json → Text
    stable_stringify (array items) = b'[' ∷ (joined_by_comma (stringify_items items) ++ codes "]")
    stable_stringify (object members) =
        b'{'
        ∷ (joined_by_comma (put_members (sort_by_key (stringify_members members))) ++ codes "}")
    stable_stringify value = print_json value

    pub stringify_items : Items → List Text
    stringify_items no_items = []
    stringify_items (item value items) = stable_stringify value ∷ stringify_items items

    -- The members in their order, each key with the text of its value.
    pub stringify_members : Members → Dict Text
    stringify_members no_members = []
    stringify_members (member key value members) =
        (key, stable_stringify value) ∷ stringify_members members

  unfoldable pub snapshot_hash : (Text → Text) → Option Text → Files → Text
  unfolding stable_stringify
  snapshot_hash sha256 parent files = sha256 (
      stable_stringify (
        object (
          member (codes "files") (object (files_json files))
            (member (codes "parent") (parent_json parent) no_members))))
