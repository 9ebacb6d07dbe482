-- ===== src/Budget/Updates.antt =====
-- `BudgetStore.update` of plugins/budget/src/store.ts among other writers.
use mathlib.Core.Path.{subst}
use arxhub.Base.{
  >>=-ok_inv, Bool, Bool-cases, Bytes, Error, Option, Result, Result-cases, Text, ap, arith, err,
  false, inl, inr, none, ok, ok_injective, refl, some, suc, sym, text_eq_iff, text_eq_refl, true,
  zero, ℕ, ◌<◌, ◌∙◌, ◌≡◌, ◌≢◌,
}
use arxhub.Base.Dict.{Dict, insert, keys, lookup}
use arxhub.Budget.Json.{Json}
use arxhub.Budget.Merge.{any}
use arxhub.Budget.Model.{BudgetData}
use arxhub.Budget.Update.{
  Moment, Outcome, answered, before_look, before_read, before_swap, budget_path, changed_bytes,
  current_budget, is_conflict_copy, max_budget_update_retries, prepare, ran_out, read_current,
  refuse_conflict_copies, same_bytes, settled, swap_file, update, update_attempts,
}

same_bytes_inv : (a b : Option Bytes) → same_bytes a b ≡ true → a ≡ b
unfolding same_bytes
same_bytes_inv none none h = refl
same_bytes_inv none (some b) h = absurd (cc h)
same_bytes_inv (some a) none h = absurd (cc h)
same_bytes_inv (some a) (some b) h = ap some ((text_eq_iff a b).0 h)

same_bytes_refl : (a : Option Bytes) → same_bytes a a ≡ true
unfolding same_bytes
same_bytes_refl none = refl
same_bytes_refl (some a) = text_eq_refl a

alone_inv :
    (vault alone : Dict Bytes)
    → refuse_conflict_copies vault ≡ ok alone
    → (any is_conflict_copy (keys vault) ≡ false) × (vault ≡ alone)
unfolding refuse_conflict_copies
alone_inv vault alone h = elim (Bool-cases (any is_conflict_copy (keys vault))) [
  | inl copies ↦ absurd (cc (rw (copies, refuse_conflict_copies) at h))
  | inr none_left ↦ (none_left, ok_injective (rw (none_left, refuse_conflict_copies) at h))
]

settled_injective : {a b : Result BudgetData} → settled a ≡ settled b → a ≡ b
settled_injective h = cc

settled_end :
    (end : Outcome × Dict Bytes) (after : Dict Bytes) (b : BudgetData)
    → answered end ≡ (ok b, after)
    → end ≡ (settled (ok b), after)
settled_end (settled answer, left) after b h =
    let same = ap (λ p. p.0) h in let also = ap (λ p. p.1) h in cc
settled_end (ran_out, left) after b h = absurd (cc (ap (λ p. p.0) h))

module _ (intl : Text → Option ℕ) (parse_json : Text → Option Json) (print_json : Json → Text)
    (decode_utf8 : Bytes → Option Text) (encode_utf8 : Text → Bytes)
    (others : Moment → ℕ → Dict Bytes → Dict Bytes) (change : BudgetData → Result BudgetData) where
  abbrev pub changed : Option Bytes → Result Bytes
  changed = changed_bytes intl parse_json print_json decode_utf8 encode_utf8 change

  abbrev pub prepared : ℕ → Dict Bytes → Result Bytes
  prepared = prepare intl parse_json print_json decode_utf8 encode_utf8 others change

  abbrev pub attempts : ℕ → Dict Bytes → Outcome × Dict Bytes
  attempts = update_attempts intl parse_json print_json decode_utf8 encode_utf8 others change

  abbrev pub read_back : Bytes → Result BudgetData
  read_back bytes = current_budget intl parse_json print_json decode_utf8 encode_utf8 (some bytes)

  abbrev pub seen_at : ℕ → Dict Bytes → Dict Bytes
  seen_at n vault = others before_read n vault

  abbrev pub looked_at : ℕ → Dict Bytes → Dict Bytes
  looked_at n vault = others before_look n (seen_at n vault)

  abbrev pub swapped_at : ℕ → Dict Bytes → Dict Bytes
  swapped_at n vault = others before_swap n (looked_at n vault)

  abbrev pub is_kept : ℕ → Dict Bytes → Bool
  is_kept n vault =
      same_bytes (lookup budget_path (swapped_at n vault)) (read_current (seen_at n vault))

  prepare_inv :
      (n : ℕ) (vault : Dict Bytes) (bytes : Bytes)
      → prepared n vault ≡ ok bytes
      → (changed (read_current (seen_at n vault)) ≡ ok bytes)
        × (any is_conflict_copy (keys (looked_at n vault)) ≡ false)
  unfolding prepare
  prepare_inv n vault bytes h =
      let (alone, alone_is, h₁) = >>=-ok_inv (refuse_conflict_copies vault) _ h in
      let (written, written_is, h₂) = >>=-ok_inv (changed (read_current (seen_at n vault))) _ h₁ in
      let (still, still_is, h₃) = >>=-ok_inv (refuse_conflict_copies (looked_at n vault)) _ h₂ in
      let (after, also) = alone_inv (looked_at n vault) still still_is in
      (written_is ∙ ap ok (ok_injective h₃), after)

  kept :
      (n : ℕ) (vault : Dict Bytes)
      → is_kept n vault ≡ true
      → read_current (swapped_at n vault) ≡ read_current (seen_at n vault)
  unfolding read_current
  kept n vault same =
      same_bytes_inv (lookup budget_path (swapped_at n vault)) (read_current (seen_at n vault)) same

  -- The three ends of an attempt.
  attempt_refused :
      (n : ℕ) (vault : Dict Bytes) (e : Error)
      → prepared n vault ≡ err e
      → attempts (suc n) vault ≡ (settled (err e), swapped_at n vault)
  unfolding update_attempts
  attempt_refused n vault e is = rw (is, update_attempts) refl

  attempt_swaps :
      (n : ℕ) (vault : Dict Bytes) (bytes : Bytes)
      → prepared n vault ≡ ok bytes
      → is_kept n vault ≡ true
      → attempts (suc n) vault
        ≡ (settled (read_back bytes), insert budget_path bytes (swapped_at n vault))
  unfolding update_attempts swap_file
  attempt_swaps n vault bytes is same = rw (is, update_attempts) (rw (same, swap_file) refl)

  attempt_misses :
      (n : ℕ) (vault : Dict Bytes) (bytes : Bytes)
      → prepared n vault ≡ ok bytes
      → is_kept n vault ≡ false
      → attempts (suc n) vault ≡ attempts n (swapped_at n vault)
  unfolding update_attempts swap_file
  attempt_misses n vault bytes is moved = rw (is, update_attempts) (rw (moved, swap_file) refl)

  -- What an update wrote, in the attempt with `n` after it: `looked` is the vault at its last look, and
  -- `before` the one at its swap.
  pub IsWritten : BudgetData → Dict Bytes → Type 0
  IsWritten b after =
      (n : ℕ) × (looked : Dict Bytes) × (before : Dict Bytes) × (bytes : Bytes) × (any
          is_conflict_copy (keys looked)
        ≡ false)
      × (before ≡ others before_swap n looked)
      × (changed (read_current before) ≡ ok bytes)
      × (after ≡ insert budget_path bytes before)
      × (read_back bytes ≡ ok b)

  update_attempts-IsWritten :
      (n : ℕ) (vault after : Dict Bytes) (b : BudgetData)
      → attempts n vault ≡ (settled (ok b), after)
      → IsWritten b after
  unfolding update_attempts IsWritten
  update_attempts-IsWritten zero vault after b h = absurd (cc (ap (λ p. p.0) h))
  update_attempts-IsWritten (suc n) vault after b h = elim (Result-cases (prepared n vault)) [
    | inl (e, is) ↦ absurd (cc (ap (λ p. p.0) (sym (attempt_refused n vault e is) ∙ h)))
    | inr (bytes, is) ↦ elim (Bool-cases (is_kept n vault)) [
      | inl same ↦
          let ends = sym (attempt_swaps n vault bytes is same) ∙ h in
          let (computed, alone) = prepare_inv n vault bytes is in
          (
            n,
            looked_at n vault,
            swapped_at n vault,
            bytes,
            alone,
            refl,
            ap changed (kept n vault same) ∙ computed,
            sym (ap (λ p. p.1) ends),
            settled_injective (ap (λ p. p.0) ends),
          )
      | inr moved ↦
          update_attempts-IsWritten n (swapped_at n vault) after b
            (sym (attempt_misses n vault bytes is moved) ∙ h)
    ]
  ]

  -- An update that returns a budget wrote, over the vault as it was at the moment of its swap, the bytes
  -- that the change makes of the very file it replaced, and what it returned is what those bytes read as:
  -- no write of another to the file is lost. There was no conflict copy beside the file at the update's
  -- last look, between which and the swap the others may have acted once more.
  pub update-IsWritten :
      (vault after : Dict Bytes) (b : BudgetData)
      → update intl parse_json print_json decode_utf8 encode_utf8 others change vault
        ≡ (ok b, after)
      → IsWritten b after
  unfolding update
  update-IsWritten vault after b h =
      update_attempts-IsWritten max_budget_update_retries vault after b
        (settled_end (attempts max_budget_update_retries vault) after b h)

  swaps_if_quiet :
      (n k : ℕ) (vault : Dict Bytes)
      → n ≡ k
      → ((seen : Dict Bytes)
          → (lookup budget_path (others before_look n seen) ≡ lookup budget_path seen)
            × (lookup budget_path (others before_swap n seen) ≡ lookup budget_path seen))
      → is_kept k vault ≡ true
  unfolding read_current
  swaps_if_quiet n k vault e quiet =
      let at_look = (quiet (seen_at n vault)).0 in
      let at_swap = (quiet (looked_at n vault)).1 in
      subst (λ m. is_kept m vault ≡ true) e
        (ap (λ o. same_bytes o (read_current (seen_at n vault))) (at_swap ∙ at_look)
          ∙ same_bytes_refl (read_current (seen_at n vault)))

  update_attempts-settled :
      (n k : ℕ)
      → n < k
      → ((seen : Dict Bytes)
          → (lookup budget_path (others before_look n seen) ≡ lookup budget_path seen)
            × (lookup budget_path (others before_swap n seen) ≡ lookup budget_path seen))
      → (vault : Dict Bytes)
      → (answer : Result BudgetData) × (after : Dict Bytes) × (attempts k vault
          ≡ (settled answer, after))
  update_attempts-settled n zero lt quiet vault = absurd (omega arith)
  update_attempts-settled n (suc k) lt quiet vault = elim (Result-cases (prepared k vault)) [
    | inl (e, is) ↦ (err e, swapped_at k vault, attempt_refused k vault e is)
    | inr (bytes, is) ↦ elim (Bool-cases (is_kept k vault)) [
      | inl same ↦ (
        read_back bytes,
        insert budget_path bytes (swapped_at k vault),
        attempt_swaps k vault bytes is same,
      )
      | inr moved ↦
          let differs : n ≢ k = λ e. cc (moved, swaps_if_quiet n k vault e quiet) in
          let (answer, after, ends) =
            update_attempts-settled n k (omega arith) quiet (swapped_at k vault) in
          (answer, after, attempt_misses k vault bytes is moved ∙ ends)
    ]
  ]

  -- If there is one of the ten attempts in which the others leave the file as it is from the attempt's read
  -- to its swap, the loop of attempts is left by an attempt that returns or throws, and that is what the
  -- update does: the retries do not run out.
  pub update-settled :
      (n : ℕ)
      → n < max_budget_update_retries
      → ((seen : Dict Bytes)
          → (lookup budget_path (others before_look n seen) ≡ lookup budget_path seen)
            × (lookup budget_path (others before_swap n seen) ≡ lookup budget_path seen))
      → (vault : Dict Bytes)
      → (answer : Result BudgetData) × (after : Dict Bytes) × (update_attempts intl parse_json
            print_json decode_utf8 encode_utf8 others change max_budget_update_retries vault
          ≡ (settled answer, after))
        × (update intl parse_json print_json decode_utf8 encode_utf8 others change vault
            ≡ (answer, after))
  unfolding update
  update-settled n lt quiet vault =
      let (answer, after, ends) =
        update_attempts-settled n max_budget_update_retries lt quiet vault in
      (answer, after, ends, rw ends refl)
