-- ===== src/Sync/Engine/Fetch/Serving.antt =====
-- About `fetchAndStore` and a remote that answers truthfully.
use arxhub.Base.{
  Bool, Bytes, List, Option, Option-cases, Text, [], all, ap, arith, contains, contains-append,
  drop, if◌then◌else◌, inl, inr, length, length-drop, ok, refl, suc, sym, take, take-append-drop,
  text_eq_iff, text_eq_refl, true, zero, ℕ, ◌∙◌, ◌∷◌, ◌≡◌, ◌≤◌,
}
use arxhub.Base.Dict.{Dict, insert, is_some, lookup, lookup-insert}
use arxhub.Sync.Engine.Fetch.{Answers, fetch_and_store, fetch_batches, get_batch, store_batch}
use arxhub.Sync.Engine.Fetch.Verified.{IsAddressed}
use arxhub.Sync.Range.Ensure.{IsServing}
use arxhub.Sync.Repo.Merge.Take.{stored}
use arxhub.Sync.Repo.State.{Repo}

-- Asked for hashes that a store has, each answer has what the store has of them.
abbrev pub IsTruthful : Dict Bytes → Answers → Type 0
IsTruthful store answers =
    (n : ℕ) (hashes : List Text)
    → ((h : Text) → contains hashes h ≡ true → is_some (lookup h store) ≡ true)
    → (objects : Dict Bytes) × (answers n hashes ≡ ok objects)
      × ((h : Text) → contains hashes h ≡ true → lookup h objects ≡ lookup h store)

contains-take-drop :
    (n : ℕ) (hashes : List Text) (h : Text)
    → contains hashes h ≡ (if contains (take n hashes) h then true else contains (drop n hashes) h)
contains-take-drop n hashes h =
    ap (λ l. contains l h) (sym (take-append-drop n hashes))
    ∙ contains-append (take n hashes) (drop n hashes) h

now-listed :
    (n : ℕ) (hashes : List Text) (h : Text)
    → contains (take n hashes) h ≡ true
    → contains hashes h ≡ true
now-listed n hashes h c = ground (arith, contains-take-drop n hashes h)

later-listed :
    (n : ℕ) (hashes : List Text) (h : Text)
    → contains (drop n hashes) h ≡ true
    → contains hashes h ≡ true
later-listed n hashes h c = ground (arith, contains-take-drop n hashes h)

-- What is written in the first rounds, and what in the later ones.
in_turn :
    (now later all : Bool) (new old between : Option Bytes)
    → all ≡ (if now then true else later)
    → between ≡ (if now then new else old)
    → (if later then new else between) ≡ (if all then new else old)
in_turn now later all new old between split first = ground arith

module _ (sha256 : Bytes → Text) (store : Dict Bytes) (addressed : IsAddressed sha256 store) where
  store_batch-serves :
      (hashes : List Text) (objects : Dict Bytes) (r : Repo)
      → ((h : Text) → contains hashes h ≡ true → lookup h objects ≡ lookup h store)
      → ((h : Text) → contains hashes h ≡ true → is_some (lookup h store) ≡ true)
      → (r' : Repo) × (store_batch sha256 hashes objects r ≡ (ok tt, r'))
        × ((h : Text)
            → lookup h r'.chunks
              ≡ (if contains hashes h then lookup h store else lookup h r.chunks))
  unfolding store_batch contains
  store_batch-serves [] objects r same there = (r, refl, λ h. refl)
  store_batch-serves (x ∷ hashes) objects r same there =
      let listed : contains (x ∷ hashes) x ≡ true = ground (arith, text_eq_refl x) in
      elim (Option-cases (lookup x store)) [
        | inl gone ↦ absurd (let has = there x listed in let e = rw gone at has in cc)
        | inr (content, is) ↦
            let verified = (text_eq_iff (sha256 content) x).1 (addressed x content is) in
            let (r', done, has) =
              store_batch-serves hashes objects (record r { chunks = insert x content r.chunks })
                (λ h c. same h (ground (arith, c))) (λ h c. there h (ground (arith, c))) in
            (
              r',
              rw (same x listed ∙ is, verified, store_batch) done,
              λ h. has h ∙ ground (arith, is, lookup-insert x h content r.chunks, text_eq_iff x h),
            )
      ]

  module _ (answers : Answers) (truthful : IsTruthful store answers) where
    fetch_batches-serves :
        (fuel n : ℕ) (hashes : List Text) (r : Repo)
        → length hashes ≤ fuel
        → ((h : Text) → contains hashes h ≡ true → is_some (lookup h store) ≡ true)
        → (r' : Repo) × (fetch_batches sha256 answers fuel n hashes r ≡ (ok tt, r'))
          × ((h : Text)
              → lookup h r'.chunks
                ≡ (if contains hashes h then lookup h store else lookup h r.chunks))
    unfolding fetch_batches contains
    fetch_batches-serves fuel n [] r enough there = (r, refl, λ h. refl)
    fetch_batches-serves zero n (x ∷ hashes) r enough there = absurd (omega arith)
    fetch_batches-serves (suc fuel) n (x ∷ hashes) r enough there =
        let now = take get_batch (x ∷ hashes) in
        let later = drop get_batch (x ∷ hashes) in
        let (objects, answered, same) =
          truthful n now (λ h c. there h (now-listed get_batch (x ∷ hashes) h c)) in
        let (r', stored, has) =
          store_batch-serves now objects r same
            (λ h c. there h (now-listed get_batch (x ∷ hashes) h c)) in
        let (r'', done, has') =
          fetch_batches-serves fuel (suc n) later r'
            (omega (arith, length-drop get_batch (x ∷ hashes)))
            (λ h c. there h (later-listed get_batch (x ∷ hashes) h c)) in
        (
          r'',
          rw (answered, stored, fetch_batches) done,
          λ h.
              has' h
              ∙ in_turn (contains now h) (contains later h) (contains (x ∷ hashes) h)
                  (lookup h store) (lookup h r.chunks) (lookup h r'.chunks)
                  (contains-take-drop get_batch (x ∷ hashes) h) (has h),
        )

    -- Through a remote that answers truthfully, `fetchAndStore` serves a store whose objects have the
    -- hashes that they are stored under.
    pub fetch_and_store-IsServing : IsServing store (fetch_and_store sha256 answers)
    unfolding fetch_and_store
    fetch_and_store-IsServing hashes r there =
        fetch_batches-serves (length hashes) 0 hashes r (omega arith) there
