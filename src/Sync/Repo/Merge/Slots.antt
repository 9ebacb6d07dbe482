-- ===== src/Sync/Repo/Merge/Slots.antt =====
-- About the search of `writeConflictFile` for a path.
use arxhub.Base.{
  Bool, Bool-cases, List, Option-cases, Text, [], arith, contains, false, inl, inr, none, ok, refl,
  some, suc, text_eq, text_eq_iff, true, zero, ℕ, ◌<◌, ◌∷◌, ◌≡◌, ◌≢◌, ◌≤◌,
}
use arxhub.Base.Dict.{fresh, fresh_lt, lookup}
use arxhub.Sync.Checkout.{Blob, Checkout, hash_of}
use arxhub.Sync.Checkout.Honest.{IsHonest, World, hash_of-IsHonest, hash_of-truth}
use arxhub.Sync.Repo.Conflict.{conflict_path}
use arxhub.Sync.Repo.Merge.{Outside, conflict_slot}
use arxhub.Sync.Repo.State.{Repo}
use arxhub.Sync.Snapshot.{SnapshotFile}

-- The names of a file's conflict copies differ from one another.
abbrev pub IsNaming : Outside → Type 0
IsNaming o =
    (pathname hash : Text) (n m : ℕ)
    → 0 < n
    → n < m
    → conflict_path o.join pathname hash n ≢ conflict_path o.join pathname hash m

module _ (o : Outside) (remote : SnapshotFile) where
  abbrev slot : ℕ → Text
  slot n = conflict_path o.join remote.pathname remote.hash n

  -- The paths that were tried before the n-th, which begin with the first.
  abbrev pub tried : ℕ → List Text
  tried zero = []
  tried (suc zero) = []
  tried (suc (suc n)) = slot (suc n) ∷ tried (suc n)

  untried : (naming : IsNaming o) (n m : ℕ) → n ≤ m → contains (tried n) (slot m) ≡ false
  unfolding contains
  untried naming zero m le = refl
  untried naming (suc zero) m le = refl
  untried naming (suc (suc n)) m le = ground (
    arith,
    untried naming (suc n) m,
    naming remote.pathname remote.hash (suc n) m,
    text_eq_iff (slot (suc n)) (slot m),
  )

-- What a repository's checkout knows about its tree.
abbrev pub world : Repo → World
world r = record { tree = r.tree; now = r.now; checkout = r.checkout }

-- The path found, with whether this version is there already, and the checkout after the search.
pub record Slot (o : Outside) (remote : SnapshotFile) (r : Repo) : Type 0 where
  pub path : Text
  pub is_taken : Bool
  pub checkout : Checkout
  pub free : is_taken ≡ false → lookup path r.tree ≡ none
  pub same :
      is_taken ≡ true
      → (file : Blob) × (lookup path r.tree ≡ some file) × (o.sha256 file.content ≡ remote.hash)

module _ (o : Outside) (remote : SnapshotFile) (naming : IsNaming o) where
  pub find-Slot :
      (fuel n : ℕ) (r : Repo)
      → IsHonest o.sha256 (world r)
      → fresh (tried o remote (suc n)) r.tree < fuel
      → (s : Slot o remote r) × (conflict_slot o fuel (suc n) remote r
          ≡ (ok (s.path, s.is_taken), record r { checkout = s.checkout }))
  unfolding conflict_slot
  find-Slot zero n r honest f = absurd (omega arith)
  find-Slot (suc fuel) n r honest f =
      let path = slot o remote (suc n) in
      let truth = hash_of-truth o.sha256 (world r) path honest in
      let c = (hash_of o.sha256 r.tree r.now path r.checkout).1 in
      elim (Option-cases (lookup path r.tree)) [
        | inl gone ↦ (
          record {
            path = path;
            is_taken = false;
            checkout = c;
            free = λ _. gone;
            same = λ e. absurd (cc);
          },
          rw (rw gone at truth, conflict_slot),
        )
        | inr (file, there) ↦ elim (Bool-cases (text_eq (o.sha256 file.content) remote.hash)) [
          | inl same ↦ (
            record {
              path = path;
              is_taken = true;
              checkout = c;
              free = λ e. absurd (cc);
              same = λ _. (file, there, (text_eq_iff _ _).0 same);
            },
            rw (rw there at truth, same, conflict_slot),
          )
          | inr other ↦
              let (s, later) =
                find-Slot fuel (suc n) (record r { checkout = c })
                  (hash_of-IsHonest o.sha256 (world r) path honest)
                  (omega (
                    arith,
                    fresh_lt path (tried o remote (suc n)) r.tree file
                        (untried o remote naming (suc n) (suc n) (omega arith)) there,
                  )) in
              (
                record {
                  path = s.path;
                  is_taken = s.is_taken;
                  checkout = s.checkout;
                  free = s.free;
                  same = s.same;
                },
                rw (rw there at truth, other, conflict_slot) later,
              )
        ]
      ]
