-- ===== src/Sync/Repo/Merge/Gone.antt =====
-- About the body of the loop in `merge` for a path that neither side lists.
use arxhub.Base.{
  Bool-cases, List, Option, Option-cases, Result, Text, [], ap, arith, contains, contains-append,
  contains-distinct, distinct, err, inl, inr, none, ok, refl, some, text_eq, text_eq_iff, true,
  type_error, ◌++◌, ◌∙◌, ◌∷◌, ◌≡◌, ◌≢◌,
}
use arxhub.Base.Dict.{contains-keys, keys, lookup}
use arxhub.Sync.Checkout.{flush}
use arxhub.Sync.Repo.Files.{on_checkout}
use arxhub.Sync.Repo.Merge.{MergeResult, Outside, joined, merge, merge_path, merge_paths}
use arxhub.Sync.Repo.State.{Method, Repo, bind-succeeds, pure, ◌>>=◌, ◌>>◌}
use arxhub.Sync.Snapshot.{Files, SnapshotFile}

module _ (o : Outside) where
  merge_path-gone :
      (path : Text) (base : Option SnapshotFile) (r : Repo)
      → merge_path o path base none none r ≡ (err type_error, r)
  unfolding merge_path
  merge_path-gone path none r = refl
  merge_path-gone path (some base) r = refl

  merge_paths-gone :
      (base local remote : Files) (path : Text) (paths : List Text) (r : Repo)
      (result : MergeResult)
      → contains paths path ≡ true
      → lookup path local ≡ none
      → lookup path remote ≡ none
      → (merge_paths o paths base local remote r).0 ≢ ok result
  unfolding merge_paths contains
  merge_paths-gone base local remote path [] r result c l m e = cc
  merge_paths-gone base local remote path (q ∷ paths) r result c l m e =
      let others : Method MergeResult = merge_paths o paths base local remote in
      let (first, r', e₁, e₂) =
        bind-succeeds (merge_path o q (lookup q base) (lookup q local) (lookup q remote))
          (λ first. others >>= λ rest. pure (joined first rest)) r e in
      let (rest, r'', e₃, _) = bind-succeeds others (λ rest. pure (joined first rest)) r' e₂ in
      elim (Bool-cases (text_eq q path)) [
        | inl same ↦
            let is : q ≡ path = (text_eq_iff q path).0 same in
            let e₄ = rw (is, l, m) at e₁ in cc (merge_path-gone path (lookup path base) r)
        | inr other ↦
            merge_paths-gone base local remote path paths r' rest (ground arith) l m
              (ap (λ (x : Result MergeResult × Repo). x.0) e₃)
      ]

-- Where the base lists a path that neither the local nor the remote manifest lists any more, a merge
-- returns no result, whatever else is in the manifests and on the device.
pub merge-gone_on_both_sides :
    (o : Outside) (base local remote : Files) (path : Text) (r : Repo) (result : MergeResult)
    → lookup path base ≢ none
    → lookup path local ≡ none
    → lookup path remote ≡ none
    → (merge o base local remote r).0 ≢ ok result
unfolding merge on_checkout
merge-gone_on_both_sides o base local remote path r result b l m e =
    let paths = keys base ++ (keys local ++ keys remote) in
    let (first, r', e₁, e₂) =
      bind-succeeds (merge_paths o (distinct paths) base local remote)
        (λ result. on_checkout flush >> pure result) r e in
    let listed : contains (keys base) path ≡ true =
      (contains-keys path base ∙ (elim (Option-cases (lookup path base)) [
        | inl gone ↦ absurd (b gone)
        | inr (file, there) ↦ rw there
      ])) in
    merge_paths-gone o base local remote path (distinct paths) r first
      (rw (contains-distinct paths path, contains-append, listed)) l m
      (ap (λ (x : Result MergeResult × Repo). x.0) e₁)
