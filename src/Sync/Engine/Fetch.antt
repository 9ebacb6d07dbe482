-- ===== src/Sync/Engine/Fetch.antt =====
-- `fetchAndStore` of packages/sync/src/engine.ts, without progress reports.
pub mod Verified
pub mod Serving
use arxhub.Base.{
  Bytes, List, Result, Text, [], drop, err, if◌then◌else◌, illegal_state, length, none, ok,
  out_of_fuel, some, suc, take, text_eq, zero, ℕ, ◌∷◌,
}
use arxhub.Base.Dict.{Dict, insert, lookup}
use arxhub.Sync.Repo.State.{Method, ◌>>=◌, ◌>>◌}

-- `GET_BATCH`
abbrev pub get_batch : ℕ
get_batch = 32

-- What the remote answers to each request of one fetch, by the request's number: the objects that it has,
-- or an error. Nothing says that it answers truthfully.
abbrev pub Answers : Type 0
Answers = ℕ → List Text → Result (Dict Bytes)

unfoldable pub write_chunk : Text → Bytes → Method (Unit {0})
write_chunk hash content r = (ok tt, record r { chunks = insert hash content r.chunks })

module _ (sha256 : Bytes → Text) where
  -- The inner loop, over one batch.
  unfoldable pub store_batch : List Text → Dict Bytes → Method (Unit {0})
  unfolding write_chunk
  store_batch [] objects r = (ok tt, r)
  store_batch (hash ∷ hashes) objects r = elim (lookup hash objects) [
    | none ↦ (err illegal_state, r)
    | some content ↦
        if text_eq (sha256 content) hash
        then (do write_chunk hash content; store_batch hashes objects) r
        else (err illegal_state, r)
  ]

  module _ (answers : Answers) where
    -- The outer loop from its n-th round on. Each round takes a hash at least.
    unfoldable pub fetch_batches : ℕ → ℕ → List Text → Method (Unit {0})
    unfolding store_batch
    fetch_batches fuel n [] r = (ok tt, r)
    fetch_batches zero n (hash ∷ hashes) r = (err out_of_fuel, r)
    fetch_batches (suc fuel) n (hash ∷ hashes) r =
        elim (answers n (take get_batch (hash ∷ hashes))) [
          | err e ↦ (err e, r)
          | ok objects ↦
              (do
                store_batch (take get_batch (hash ∷ hashes)) objects
                fetch_batches fuel (suc n) (drop get_batch (hash ∷ hashes)))
                r
        ]

    unfoldable pub fetch_and_store : List Text → Method (Unit {0})
    unfolding fetch_batches
    fetch_and_store hashes = fetch_batches (length hashes) 0 hashes
