-- ===== src/Sync/Repo/Replay/Changes.antt =====
-- What a snapshot that is written again takes over.
use arxhub.Base.{
  Bool-cases, List, Option, Option-cases, Text, [], ap, arith, contains, contains-append,
  contains-distinct, distinct, if◌then◌else◌, inl, inr, none, not, refl, some, text_eq_iff,
  text_eq_refl, true, ◌&&◌, ◌++◌, ◌↔◌, ◌∙◌, ◌∷◌, ◌≡◌, ◌⊎◌,
}
use arxhub.Base.Dict.{
  contains-keys, erase, insert, is_some, keys, lookup, lookup-erase, lookup-insert,
}
use arxhub.Sync.Repo.Replay.{replay_files, replay_paths}
use arxhub.Sync.Snapshot.{Files, SnapshotFile, same_entry, same_text}

lookup-replay_paths :
    (path : Text) (paths : List Text) (parent snapshot files : Files)
    → lookup path (replay_paths paths parent snapshot files) ≡ (
        if contains paths path && not (same_entry (lookup path parent) (lookup path snapshot))
        then lookup path snapshot
        else lookup path files)
unfolding replay_paths contains
lookup-replay_paths path [] parent snapshot files = refl
lookup-replay_paths path (x ∷ paths) parent snapshot files =
    elim (Bool-cases (same_entry (lookup x parent) (lookup x snapshot))) [
      | inl same ↦
          rw (same, replay_paths)
            (lookup-replay_paths path paths parent snapshot files
              ∙ ground (arith, same, text_eq_iff x path))
      | inr changed ↦ elim (Option-cases (lookup x snapshot)) [
        | inl gone ↦
            rw (changed, gone, replay_paths)
              (lookup-replay_paths path paths parent snapshot (erase x files)
                ∙ ground (arith, changed, gone, lookup-erase x path files, text_eq_iff x path))
        | inr (file, there) ↦
            rw (changed, there, replay_paths)
              (lookup-replay_paths path paths parent snapshot (insert x file files)
                ∙ ground
                    (arith, changed, there, lookup-insert x path file files, text_eq_iff x path))
      ]
    ]

-- The entries of a path in a snapshot and its parent are alike: neither has it, or both do with one content
-- and one identity.
pub IsUnchanged : Option SnapshotFile → Option SnapshotFile → Type 0
IsUnchanged none none = Unit
IsUnchanged (some a) (some b) = (a.hash ≡ b.hash) × (a.identity ≡ b.identity)
IsUnchanged _ _ = ⊥

same_text_inv : (a b : Option Text) → same_text a b ≡ true → a ≡ b
unfolding same_text
same_text_inv none none h = refl
same_text_inv none (some b) h = absurd (cc h)
same_text_inv (some a) none h = absurd (cc h)
same_text_inv (some a) (some b) h = ap some ((text_eq_iff a b).0 h)

same_text_refl : (a : Option Text) → same_text a a ≡ true
unfolding same_text
same_text_refl none = refl
same_text_refl (some a) = text_eq_refl a

same_entry_iff : (a b : Option SnapshotFile) → (same_entry a b ≡ true) ↔ IsUnchanged a b
unfolding same_entry IsUnchanged
same_entry_iff none none = (λ h. tt, λ h. refl)
same_entry_iff none (some b) = (λ h. cc h, λ h. absurd h)
same_entry_iff (some a) none = (λ h. cc h, λ h. absurd h)
same_entry_iff (some a) (some b) = (
  λ h. (
    (text_eq_iff a.hash b.hash).0 (ground (arith, h)),
    same_text_inv a.identity b.identity (ground (arith, h)),
  ),
  λ h. rw (h.0, h.1, text_eq_refl b.hash, same_text_refl b.identity) refl,
)

lookup-replay_files-same_entry :
    (path : Text) (parent snapshot head : Files)
    → lookup path (replay_files parent snapshot head) ≡ (
        if same_entry (lookup path parent) (lookup path snapshot)
        then lookup path head
        else lookup path snapshot)
unfolding replay_files same_entry
lookup-replay_files-same_entry path parent snapshot head =
    lookup-replay_paths path (distinct (keys parent ++ keys snapshot)) parent snapshot head
    ∙ (elim (Option-cases (lookup path parent)) [
      | inl gone ↦ elim (Option-cases (lookup path snapshot)) [
        | inl away ↦ ground (arith, gone, away)
        | inr (file, there) ↦ ground (arith, gone, there, is_listed)
      ]
      | inr (file, there) ↦ ground (arith, there, is_listed)
    ])
  where
    is_listed :
        contains (distinct (keys parent ++ keys snapshot)) path
        ≡ (if is_some (lookup path parent) then true else is_some (lookup path snapshot))
    is_listed =
        contains-distinct (keys parent ++ keys snapshot) path
        ∙ contains-append (keys parent) (keys snapshot) path
        ∙ rw (contains-keys path parent, contains-keys path snapshot) refl

-- A path whose entry in a snapshot is as in its parent, in content and in identity, or which both lack, is in
-- the replayed files as in the head. Every other path comes from the snapshot, or is gone where the
-- snapshot lacks it.
pub lookup-replay_files :
    (path : Text) (parent snapshot head : Files)
    → (IsUnchanged (lookup path parent) (lookup path snapshot)
        × (lookup path (replay_files parent snapshot head) ≡ lookup path head))
      ⊎ (¬ IsUnchanged (lookup path parent) (lookup path snapshot)
          × (lookup path (replay_files parent snapshot head) ≡ lookup path snapshot))
lookup-replay_files path parent snapshot head =
    let alike = same_entry_iff (lookup path parent) (lookup path snapshot) in
    let found = lookup-replay_files-same_entry path parent snapshot head in
    elim (Bool-cases (same_entry (lookup path parent) (lookup path snapshot))) [
      | inl same ↦ inl (alike.0 same, rw (same) at found)
      | inr differs ↦ inr (λ h. cc (alike.1 h, differs), rw (differs) at found)
    ]
