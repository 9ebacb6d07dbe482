-- ===== src/Sync/Engine/Fetch/Verified.antt =====
-- About `fetchAndStore` and a remote that may answer anything.
use arxhub.Base.{
  Bool-cases, Bytes, List, Option-cases, Result-cases, Text, [], arith, drop, inl, inr, length,
  some, suc, take, text_eq, text_eq_iff, zero, ℕ, ◌∷◌, ◌≡◌,
}
use arxhub.Base.Dict.{Dict, insert, lookup, lookup-insert}
use arxhub.Sync.Engine.Fetch.{Answers, fetch_and_store, fetch_batches, get_batch, store_batch}
use arxhub.Sync.Repo.State.{Repo}

abbrev pub IsAddressed : (Bytes → Text) → Dict Bytes → Type 0
IsAddressed sha256 chunks =
    (h : Text) (bytes : Bytes) → lookup h chunks ≡ some bytes → sha256 bytes ≡ h

module _ (sha256 : Bytes → Text) where
  insert-IsAddressed :
      (h : Text) (content : Bytes) (chunks : Dict Bytes)
      → sha256 content ≡ h
      → IsAddressed sha256 chunks
      → IsAddressed sha256 (insert h content chunks)
  insert-IsAddressed h content chunks verified addressed k bytes there =
      ground (arith, lookup-insert h k content chunks, text_eq_iff h k, addressed k bytes)

  store_batch-IsAddressed :
      (hashes : List Text) (objects : Dict Bytes) (r : Repo)
      → IsAddressed sha256 r.chunks
      → IsAddressed sha256 (store_batch sha256 hashes objects r).1.chunks
  unfolding store_batch
  store_batch-IsAddressed [] objects r addressed = addressed
  store_batch-IsAddressed (hash ∷ hashes) objects r addressed =
      elim (Option-cases (lookup hash objects)) [
        | inl gone ↦ rw (gone, store_batch) addressed
        | inr (content, there) ↦ elim (Bool-cases (text_eq (sha256 content) hash)) [
          | inl same ↦
              rw (there, same, store_batch)
                (store_batch-IsAddressed hashes objects
                  (record r { chunks = insert hash content r.chunks })
                  (insert-IsAddressed hash content r.chunks ((text_eq_iff _ _).0 same) addressed))
          | inr other ↦ rw (there, other, store_batch) addressed
        ]
      ]

  module _ (answers : Answers) where
    fetch_batches-IsAddressed :
        (fuel n : ℕ) (hashes : List Text) (r : Repo)
        → IsAddressed sha256 r.chunks
        → IsAddressed sha256 (fetch_batches sha256 answers fuel n hashes r).1.chunks
    unfolding fetch_batches
    fetch_batches-IsAddressed fuel n [] r addressed = addressed
    fetch_batches-IsAddressed zero n (hash ∷ hashes) r addressed = addressed
    fetch_batches-IsAddressed (suc fuel) n (hash ∷ hashes) r addressed =
        let batch = take get_batch (hash ∷ hashes) in
        elim (Result-cases (answers n batch)) [
          | inl (code, bad) ↦ rw (bad, fetch_batches) addressed
          | inr (objects, good) ↦
              let kept = store_batch-IsAddressed batch objects r addressed in
              let r' = (store_batch sha256 batch objects r).1 in
              elim (Result-cases (store_batch sha256 batch objects r).0) [
                | inl (code, bad) ↦ rw (good, bad, fetch_batches) kept
                | inr (done, settled) ↦
                    rw (good, settled, fetch_batches)
                      (fetch_batches-IsAddressed fuel (suc n) (drop get_batch (hash ∷ hashes)) r'
                        kept)
              ]
        ]

    -- A chunk store whose chunks have the hashes that they are stored under is still such a store after
    -- `fetchAndStore`, whatever the remote answers to any of its requests, and also where the fetch fails
    -- half-way.
    pub fetch_and_store-IsAddressed :
        (hashes : List Text) (r : Repo)
        → IsAddressed sha256 r.chunks
        → IsAddressed sha256 (fetch_and_store sha256 answers hashes r).1.chunks
    unfolding fetch_and_store
    fetch_and_store-IsAddressed hashes r addressed =
        fetch_batches-IsAddressed (length hashes) 0 hashes r addressed
