-- ===== src/Sync/Range/Ensure.antt =====
-- About `ensureChunks` and a callback that serves what is missing.
use arxhub.Base.{
  Bool-cases, Bytes, List, Option, Option-cases, Text, [], arith, contains, contains-distinct,
  distinct, false, if◌then◌else◌, inl, inr, not, ok, refl, some, sym, text_eq_iff, text_eq_refl,
  true, ◌&&◌, ◌∙◌, ◌∷◌, ◌≡◌, ◌⊎◌,
}
use arxhub.Base.Dict.{Dict, is_some, lookup}
use arxhub.Sync.Range.Reads.{Reader, absent, download, ensure_chunks}
use arxhub.Sync.Repo.State.{Method, Repo}

-- One store has nothing that another does not have.
abbrev pub IsPart : Dict Bytes → Dict Bytes → Type 0
IsPart held store =
    (h : Text) (bytes : Bytes) → lookup h held ≡ some bytes → lookup h store ≡ some bytes

-- A callback that serves the objects of a store: asked for hashes that the store has, it puts them among
-- the chunks, and the other chunks stay as they are.
abbrev pub IsServing : Dict Bytes → (List Text → Method (Unit {0})) → Type 0
IsServing store fetch =
    (hashes : List Text) (r : Repo)
    → ((h : Text) → contains hashes h ≡ true → is_some (lookup h store) ≡ true)
    → (r' : Repo) × (fetch hashes r ≡ (ok tt, r'))
      × ((h : Text)
          → lookup h r'.chunks ≡ (if contains hashes h then lookup h store else lookup h r.chunks))

-- The objects are here, or part of them is, and a callback serves the rest.
abbrev pub IsAvailable :
    Dict Bytes → List Text → Option (List Text → Method (Unit {0})) → Dict Bytes → Type 0
IsAvailable store hashes fetch held =
    ((h : Text) → contains hashes h ≡ true → lookup h held ≡ lookup h store)
    ⊎ ((serve : List Text → Method (Unit {0})) × (fetch ≡ some serve)
        × IsServing store serve
        × IsPart held store)

contains-absent :
    (hashes : List Text) (chunks : Dict Bytes) (h : Text)
    → contains (absent hashes chunks) h ≡ contains hashes h && not (is_some (lookup h chunks))
unfolding contains absent
contains-absent [] chunks h = refl
contains-absent (x ∷ hashes) chunks h =
    ground (arith, contains-absent hashes chunks h, text_eq_iff x h)

absent-nil :
    (hashes : List Text) (chunks : Dict Bytes)
    → ((h : Text) → contains hashes h ≡ true → is_some (lookup h chunks) ≡ true)
    → absent hashes chunks ≡ []
unfolding contains absent
absent-nil [] chunks there = refl
absent-nil (x ∷ hashes) chunks there =
    ground
      (arith, text_eq_refl x, there x, absent-nil hashes chunks (λ h c. there h (ground (arith))))

module _ (store : Dict Bytes) (hashes : List Text) (held : Dict Bytes) where
  absent-listed :
      (h : Text) → contains (absent (distinct hashes) held) h ≡ true → contains hashes h ≡ true
  absent-listed h c =
      ground (arith, contains-absent (distinct hashes) held h, contains-distinct hashes h)

  present-held :
      (h : Text)
      → contains hashes h ≡ true
      → contains (absent (distinct hashes) held) h ≡ false
      → IsPart held store
      → lookup h held ≡ lookup h store
  present-held h c found part = elim (Option-cases (lookup h held)) [
    | inl gone ↦ absurd (
        let is = contains-absent (distinct hashes) held h in
        ground (arith, is, contains-distinct hashes h))
    | inr (bytes, there) ↦ there ∙ sym (part h bytes there)
  ]

module _ (store : Dict Bytes) (reader : Reader) (hashes : List Text) where
  -- After a call of `ensureChunks` for hashes that are available, the chunks are here.
  pub ensure_chunks-held :
      (r : Repo)
      → ((h : Text) → contains hashes h ≡ true → is_some (lookup h store) ≡ true)
      → IsAvailable store hashes reader.fetch r.chunks
      → (r' : Repo) × (ensure_chunks reader hashes r ≡ (ok tt, r'))
        × ((h : Text) → contains hashes h ≡ true → lookup h r'.chunks ≡ lookup h store)
  unfolding ensure_chunks download contains
  ensure_chunks-held r there (inl all_here) =
      let nothing_missing = absent-nil (distinct hashes) r.chunks (λ h c.
        let listed = rw (contains-distinct hashes h) at c in
        rw (all_here h listed) (there h listed)) in
      (r, rw (nothing_missing, ensure_chunks, download) refl, all_here)
  ensure_chunks-held r there (inr (serve, is, serving, part)) =
      go (absent (distinct hashes) r.chunks) refl
    where
      go :
          (missing : List Text)
          → absent (distinct hashes) r.chunks ≡ missing
          → (r' : Repo) × (ensure_chunks reader hashes r ≡ (ok tt, r'))
            × ((h : Text) → contains hashes h ≡ true → lookup h r'.chunks ≡ lookup h store)
      go [] e = (
        r,
        rw (e, ensure_chunks, download) refl,
        λ h c. present-held store hashes r.chunks h c (rw e refl) part,
      )
      go (x ∷ missing) e =
          let listed = λ (h : Text) (c : contains (x ∷ missing) h ≡ true).
            absent-listed store hashes r.chunks h (rw e c) in
          let (r', served, has) = serving (x ∷ missing) r (λ h c. there h (listed h c)) in
          let arrived =
            absent-nil (x ∷ missing) r'.chunks (λ h c. rw (has h, c) (there h (listed h c))) in
          (
            r',
            rw (e, is, served, arrived, ensure_chunks, download) refl,
            λ h c. elim (Bool-cases (contains (x ∷ missing) h)) [
              | inl asked ↦ rw (has h, asked) refl
              | inr not_asked ↦
                  rw (has h, not_asked)
                    (present-held store hashes r.chunks h c (rw e not_asked) part)
            ],
          )
