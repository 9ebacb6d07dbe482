-- ===== src/Sync/Remote/Heads.antt =====
-- About the head of the remote over files: `getHead` and `setHead`.
use arxhub.Base.{
  Bool, Bool-cases, Option, Result, Text, [], all, ap, arith, false, inl, inr, is_space, not, ok,
  refl, some, sym, trim, trim_end, trim_start, true, ◌∙◌, ◌∷◌, ◌≡◌,
}
use arxhub.Sync.Frame.{is_hex, is_object_hash}
use arxhub.Sync.Remote.{RemoteStore, compare_and_swap, get_head, set_head}
use arxhub.Sync.Snapshot.{same_text}

trim_start-plain : (text : Text) → all (λ c. not (is_space c)) text ≡ true → trim_start text ≡ text
unfolding trim_start
trim_start-plain [] plain = refl
trim_start-plain (c ∷ text) plain = ground arith

trim_end-plain : (text : Text) → all (λ c. not (is_space c)) text ≡ true → trim_end text ≡ text
unfolding trim_end
trim_end-plain [] plain = refl
trim_end-plain (c ∷ []) plain = ground arith
trim_end-plain (c ∷ (d ∷ text)) plain =
    let rest = trim_end-plain (d ∷ text) (ground arith) in rw (rest, trim_end) refl

all-hex_plain : (text : Text) → all is_hex text ≡ true → all (λ c. not (is_space c)) text ≡ true
unfolding is_space
all-hex_plain [] hex = refl
all-hex_plain (c ∷ text) hex = ground (arith, all-hex_plain text (ground arith))

get_head-written :
    (store : RemoteStore) (hash : Text)
    → is_object_hash hash ≡ true
    → store.head ≡ some hash
    → get_head store ≡ some hash
unfolding get_head is_object_hash trim
get_head-written store [] valid written = absurd (cc)
get_head-written store (c ∷ text) valid written =
    let plain = all-hex_plain (c ∷ text) (ground arith) in
    rw (written, trim_start-plain (c ∷ text) plain, trim_end-plain (c ∷ text) plain, get_head, trim)
      refl

-- A `setHead` that answers true has moved the head: `getHead` then gives the new hash, and any other
-- device that expects the head which that call expected, a head that is not the new one, is told false
-- and changes nothing, whatever valid hash it wants to write.
pub set_head-wins_once :
    (expected : Option Text) (hash other : Text) (store after : RemoteStore)
    → set_head expected hash store ≡ (ok true, after)
    → same_text (some hash) expected ≡ false
    → is_object_hash other ≡ true
    → (get_head after ≡ some hash) × (set_head expected other after ≡ (ok false, after))
unfolding set_head compare_and_swap
set_head-wins_once expected hash other store after won differ valid =
    elim (Bool-cases (is_object_hash hash)) [
      | inl good ↦ elim (Bool-cases (same_text store.head expected)) [
        | inl same ↦
            let moved =
              ap (λ (x : Result Bool × RemoteStore). x.1.head)
                (rw (good, same, set_head, compare_and_swap) at won) in
            (get_head-written after hash good (sym moved), second moved)
        | inr stale ↦
            absurd (let e = rw (good, stale, set_head, compare_and_swap) at won in ground arith)
      ]
      | inr bad ↦ absurd (let e = rw (bad, set_head) at won in ground arith)
    ]
  where
    second : some hash ≡ after.head → set_head expected other after ≡ (ok false, after)
    second moved =
        let stale : same_text after.head expected ≡ false =
          (ap (λ h. same_text h expected) (sym moved) ∙ differ) in
        rw (valid, stale, set_head, compare_and_swap) refl
