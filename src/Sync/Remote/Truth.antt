-- ===== src/Sync/Remote/Truth.antt =====
-- About `getObjects` of the remote over files, as what a fetch asks.
use arxhub.Base.{
  Bytes, List, Option-cases, Text, [], arith, contains, if◌then◌else◌, inl, inr, ok, refl,
  text_eq_iff, text_eq_refl, true, ◌&&◌, ◌∙◌, ◌∷◌, ◌≡◌,
}
use arxhub.Base.Dict.{Dict, insert, is_some, lookup, lookup-insert}
use arxhub.Sync.Engine.Fetch.Serving.{IsTruthful}
use arxhub.Sync.Frame.{is_object_hash}
use arxhub.Sync.Remote.{RemoteStore, get_objects}

get_objects-found :
    (hashes : List Text) (store : RemoteStore) (found : Dict Bytes)
    → ((h : Text) → contains hashes h ≡ true → is_object_hash h ≡ true)
    → (objects : Dict Bytes) × (get_objects hashes store found ≡ ok objects)
      × ((h : Text)
          → lookup h objects ≡ (
              if contains hashes h && is_some (lookup h store.objects)
              then lookup h store.objects
              else lookup h found))
unfolding get_objects contains
get_objects-found [] store found valid = (found, refl, λ h. refl)
get_objects-found (x ∷ hashes) store found valid =
    let good = valid x (ground (arith, text_eq_refl x)) in
    elim (Option-cases (lookup x store.objects)) [
      | inl gone ↦
          let (objects, done, has) =
            get_objects-found hashes store found (λ h c. valid h (ground (arith, c))) in
          (
            objects,
            rw (good, gone, get_objects) done,
            λ h. has h ∙ ground (arith, gone, text_eq_iff x h),
          )
      | inr (bytes, there) ↦
          let (objects, done, has) =
            get_objects-found hashes store (insert x bytes found)
              (λ h c. valid h (ground (arith, c))) in
          (
            objects,
            rw (good, there, get_objects) done,
            λ h. has h ∙ ground (arith, there, lookup-insert x h bytes found, text_eq_iff x h),
          )
    ]

-- Where every object has a valid hash for its name, `getObjects` answers each batch of hashes that are all
-- in the store, in each of the requests of a fetch, with the objects that the store has under them: the
-- remote answers a fetch truthfully.
pub get_objects-IsTruthful :
    (store : RemoteStore)
    → ((h : Text) → is_some (lookup h store.objects) ≡ true → is_object_hash h ≡ true)
    → IsTruthful store.objects (λ n hashes. get_objects hashes store [])
get_objects-IsTruthful store named n hashes there =
    let (objects, done, has) = get_objects-found hashes store [] (λ h c. named h (there h c)) in
    (objects, done, λ h c. has h ∙ ground (arith, c, there h c))
