-- ===== src/Tests/Remotes.antt =====
-- A remote with one object, and two devices that move its head.
use arxhub.Base.{
  Bool-cases, Text, [], ap, arith, codes, err, false, inl, inr, is_space, none, ok, refl, some, sym,
  text_eq, text_eq_iff, true, validation, ◌∙◌, ◌∷◌, ◌≡◌,
}
use arxhub.Base.Dict.{is_some, lookup}
use arxhub.Sync.Engine.Fetch.Serving.{IsTruthful}
use arxhub.Sync.Frame.{is_object_hash}
use arxhub.Sync.Remote.{RemoteStore, get_head, get_objects, set_head}
use arxhub.Sync.Remote.Heads.{set_head-wins_once}
use arxhub.Sync.Remote.Truth.{get_objects-IsTruthful}
use arxhub.Sync.Snapshot.{same_text}

abbrev one : Text
one = codes "00000000000000000000000000000000000000000000000000000000000000aa"

abbrev two : Text
two = codes "0123456789abcdef0123456789abcdef0123456789abcdef0123456789abcdef"

abbrev empty_remote : RemoteStore
empty_remote = record { head = none; objects = (one, 7 ∷ []) ∷ [] }

abbrev moved : RemoteStore
moved = record { head = some one; objects = (one, 7 ∷ []) ∷ [] }

blank_head : get_head (record moved { head = some (codes " ") }) ≡ none
unfolding get_head is_space
blank_head = refl

path_in_a_hash : get_objects (codes "../head" ∷ []) moved [] ≡ err validation
unfolding get_objects
path_in_a_hash = refl

set_head-wins_once_example :
    (get_head moved ≡ some one) × (set_head none two moved ≡ (ok false, moved))
unfolding set_head is_object_hash same_text
set_head-wins_once_example = set_head-wins_once none one two empty_remote moved refl refl refl

one_valid : is_object_hash one ≡ true
unfolding is_object_hash
one_valid = refl

empty_remote-named :
    (h : Text) → is_some (lookup h empty_remote.objects) ≡ true → is_object_hash h ≡ true
unfolding lookup
empty_remote-named h e = elim (Bool-cases (text_eq one h)) [
  | inl same ↦ ap is_object_hash (sym ((text_eq_iff one h).0 same)) ∙ one_valid
  | inr other ↦ absurd (ground arith)
]

get_objects-IsTruthful_example :
    IsTruthful empty_remote.objects (λ n hashes. get_objects hashes empty_remote [])
get_objects-IsTruthful_example = get_objects-IsTruthful empty_remote empty_remote-named
