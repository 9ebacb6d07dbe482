-- ===== src/Sync/Ancestry/Descends.antt =====
-- About `isAncestor` and descent along parent links.
use arxhub.Base.{
  Bool-cases, List, Option-cases, Text, [], ap, arith, contains, false, inl, inr, length, none,
  refl, some, suc, sym, text_eq, text_eq_iff, text_eq_refl, true, zero, ℕ, ◌<◌, ◌↔◌, ◌∙◌, ◌∷◌, ◌≡◌,
  ◌⊎◌,
}
use arxhub.Base.Dict.{fresh, fresh-nil, lookup}
use arxhub.Sync.Ancestry.{Snapshots, is_ancestor, reaches, walk, walk_fuel}
use arxhub.Sync.Ancestry.Walk.{
  again, closes, forward, grows, hole, stage, visited_after, visited_after-forward, walk-forward,
  yields,
}
use arxhub.Sync.Snapshot.{Snapshot}

-- `h` is `a`, or a stored snapshot whose parent descends from `a`.
pub data Descends (store : Snapshots) (a : Text) : Text → Type 0 where
  here : (h : Text) → h ≡ a → Descends store a h
  up :
      (h p : Text) (s : Snapshot)
      → lookup h store ≡ some s
      → s.parent ≡ some p
      → Descends store a p
      → Descends store a h

-- A snapshot is stored at its own address.
abbrev pub IsKeyed : Snapshots → Type 0
IsKeyed store = (k : Text) (s : Snapshot) → lookup k store ≡ some s → s.hash ≡ k

reaches-cons :
    (a : Text) (t : Snapshot) (l : List Snapshot)
    → reaches a (t ∷ l) ≡ true
    → (t.hash ≡ a) ⊎ (t.parent ≡ some a) ⊎ (reaches a l ≡ true)
unfolding reaches
reaches-cons a t l r = elim (Option-cases t.parent) [
  | inl root ↦ ground (arith, text_eq_iff t.hash a)
  | inr (p, e) ↦ ground (arith, text_eq_iff t.hash a, text_eq_iff p a)
]

walk-none : (n : ℕ) (store : Snapshots) (visited : List Text) → walk n store visited none ≡ []
unfolding walk
walk-none zero store visited = refl
walk-none (suc n) store visited = refl

module _ (store : Snapshots) (keyed : IsKeyed store) (a : Text) where
  reaches-Descends :
      (n : ℕ) (visited : List Text) (h : Text)
      → reaches a (walk n store visited (some h)) ≡ true
      → Descends store a h
  unfolding walk reaches
  reaches-Descends zero visited h r = absurd (cc)
  reaches-Descends (suc n) visited h r = elim (stage store visited h) [
    | again seen ↦ absurd (let e = rw (seen, walk) at r in cc)
    | hole new gone ↦ absurd (let e = rw (new, gone, walk) at r in cc)
    | forward t new there ↦
        elim (reaches-cons a t _ (rw (walk-forward store n visited h t new there) at r)) [
          | inl named ↦ here h (sym (keyed h t there) ∙ named)
          | inr (inl child) ↦ up h a t there child (here a refl)
          | inr (inr later) ↦ elim (Option-cases t.parent) [
            | inl root ↦ absurd (let e = rw (root, walk-none) at later in cc)
            | inr (p, e) ↦ up h p t there e (reaches-Descends n (h ∷ visited) p (rw e at later))
          ]
        ]
  ]

  hole-Descends : (h : Text) → lookup h store ≡ none → Descends store a h → h ≡ a
  hole-Descends h gone (here _ e) = e
  hole-Descends h gone (up _ p s l q d) = absurd (cc)

  Descends-reaches :
      (n : ℕ) (h x : Text)
      → fresh [] store < n
      → contains (visited_after n store [] (some h)) x ≡ true
      → Descends store a x
      → (x ≡ a) ⊎ (reaches a (walk n store [] (some h)) ≡ true)
  unfolding contains
  Descends-reaches n h x f c (here _ e) = inl e
  Descends-reaches n h x f c (up _ p s l q d) =
      let closed = closes store n [] (some h) f (λ y p s c l q. absurd (cc)) in
      let found = λ (e : p ≡ a). yields store a n [] (some h) x s c refl l (q ∙ ap some e) in
      elim (closed x p s c l q) [
        | inl visited ↦ elim (Descends-reaches n h p f visited d) [
          | inl e ↦ inr (found e)
          | inr r ↦ inr r
        ]
        | inr (inl none_left) ↦ absurd (cc)
        | inr (inr gone) ↦ inr (found (hole-Descends p gone d))
      ]

  head_visited :
      (n : ℕ) (h : Text) (s : Snapshot)
      → lookup h store ≡ some s
      → contains (visited_after (suc n) store [] (some h)) h ≡ true
  unfolding contains
  head_visited n h s l =
      rw (visited_after-forward store n [] h s refl l)
        (grows store n (h ∷ []) s.parent h (ground (arith, text_eq_refl h)))

-- In a store that holds each snapshot at its own address, `isAncestor(a, h)` answers true exactly when
-- `a` is `h` or is reached from `h` by parent links through stored snapshots, where `a` itself may be
-- missing. The visited set cuts off no ancestor, and the rounds given to the walk are enough.
pub is_ancestor_iff :
    (store : Snapshots) (a h : Text)
    → IsKeyed store
    → (is_ancestor store a h ≡ true) ↔ Descends store a h
unfolding is_ancestor
is_ancestor_iff store a h keyed = elim (Bool-cases (text_eq a h)) [
  | inl same ↦ (λ _. here h (sym ((text_eq_iff a h).0 same)), λ _. rw (same, is_ancestor))
  | inr other ↦ (
    λ r. reaches-Descends store keyed a (walk_fuel store) [] h (rw (other, is_ancestor) at r),
    λ d. rw (other, is_ancestor) (above d (Option-cases (lookup h store)) other),
  )
]
  where
    above :
        Descends store a h
        → (lookup h store ≡ none) ⊎ ((s : Snapshot) × (lookup h store ≡ some s))
        → text_eq a h ≡ false
        → reaches a (walk (walk_fuel store) store [] (some h)) ≡ true
    above d (inl gone) other =
        let e = hole-Descends store keyed a h gone d in absurd (ground (arith, text_eq_iff a h))
    above d (inr (s, there)) other =
        elim (Descends-reaches store keyed a (walk_fuel store) h h (omega (arith, fresh-nil store))
          (head_visited store keyed a (length store) h s there) d) [
            | inl e ↦ absurd (ground (arith, text_eq_iff a h))
            | inr r ↦ r
          ]
